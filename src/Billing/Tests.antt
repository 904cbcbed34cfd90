-- ===== src/Billing/Tests.antt =====
-- Concrete recommendations of apps/agents/billing_entitlement/rules_engine.py.
use decentralized_agentic_re.Billing.Entitlement.{check_entitlement}
use decentralized_agentic_re.Prelude.{arith, ◌≡◌, refl, true, false, none, some}
use decentralized_agentic_re.Prelude.Int.{pos}
use decentralized_agentic_re.Contracts.{null}
use decentralized_agentic_re.Billing.Facts.{in_force, Invoice, Payment, BillingFacts}
use decentralized_agentic_re.Billing.Rules.{Format, contradictions, days_between, is_heavy}
use decentralized_agentic_re.Billing.Rules.Evaluate.{evaluate}
use decentralized_agentic_re.Billing.Rules.Evaluate.Approval.{
  is_approval, IsSettled, evaluate-IsSettled, evaluate_refunds_whole,
}

abbrev plain : Format
plain = record {
  ratio_3f = λ u. "";
  ratio_json = λ u. null;
  amount = λ a. "";
  amount_json = λ a. null;
  units_json = λ u. null;
  isoformat = λ t. "";
}

abbrev invoice : Invoice
invoice = record {
  invoice_id = "I-1";
  purchase_reference = "P-1";
  amount = pos 4999;
  currency = "USD";
  issued_at = 0;
  paid = true;
}

abbrev payment : Payment
payment = record {
  payment_id = "PAY-1";
  invoice_id = "I-1";
  captured = true;
  amount = pos 4999;
  reversed_amount = pos 0;
}

abbrev facts : BillingFacts
facts = record {
  subscription = none;
  invoice = some invoice;
  payment = some payment;
  entitlement = none;
  usage = none;
}

-- A third of the allotment is used, and the product is not delivered.
abbrev used_facts : BillingFacts
used_facts = record facts {
  usage = some (record { usage_units = pos 30; allotment_units = pos 90 });
  entitlement = some (record {
    entitlement_id = "E-1";
    subscription_id = "S-1";
    status = in_force;
    delivered = false;
    access_granted = true;
    access_used = false;
    feature_enabled = true;
    account_active = true;
  });
}

evaluate-IsSettled_example : IsSettled facts.payment (evaluate plain 0 facts)
evaluate-IsSettled_example = evaluate-IsSettled plain 0 facts

approves : is_approval (evaluate plain 0 facts).recommendation ≡ true
unfolding evaluate contradictions days_between check_entitlement is_heavy
approves = refl

evaluate_refunds_whole_example : (evaluate plain 0 facts).eligible_refund_amount ≡ pos 4999
evaluate_refunds_whole_example =
    evaluate_refunds_whole plain 0 facts payment refl (omega arith) (omega arith) approves
