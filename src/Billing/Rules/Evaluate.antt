-- ===== src/Billing/Rules/Evaluate.antt =====
-- apps/agents/billing_entitlement/rules_engine.py: `evaluate` from its gates, which return in order.
pub mod Approval
pub mod Policy
use decentralized_agentic_re.Prelude.{
  ℕ, String, Bool, true, false, not, ◌&&◌, ◌||◌, Option, none, some, List, [], ◌∷◌, ◌++◌, is_empty,
  is_some, if◌then◌else◌,
}
use decentralized_agentic_re.Prelude.Int.{ℤ, pos, ◌-ℤ◌, ltb_ℤ, leb_ℤ, eqb_ℤ}
use decentralized_agentic_re.Prelude.Text.{◌<>◌, join, show, one_of, distinct_from}
use decentralized_agentic_re.Contracts.{EvidenceItem, bool, num, text, object, int}
use decentralized_agentic_re.Billing.Facts.{
  approve_full_refund, deny_refund, manual_review, Subscription, active, cancelled, lapsed, Invoice,
  Payment, Entitlement, BillingFacts, EligibilityRecommendation, refund_window_days,
}
use decentralized_agentic_re.Billing.Rules.{
  Format, days_between, is_heavy, is_borderline_usage, usage_level, item, ask_for_facts,
  contradictions, entitlement_evidence, conflict_evidence, base_evidence, Answer, answer,
}

abbrev pub is_within : ℤ → Bool
is_within days = leb_ℤ days refund_window_days

abbrev pub is_fully_reversed : Payment → Bool
is_fully_reversed p = leb_ℤ p.amount p.reversed_amount && ltb_ℤ (pos 0) p.amount

-- `entitlement.delivered if entitlement is not None else False`
abbrev pub is_delivered : Option Entitlement → Bool
is_delivered none = false
is_delivered (some e) = e.delivered

is_active : Option Subscription → Bool
is_active none = false
is_active (some s) = elim s.status [ active ↦ true | cancelled ↦ false | lapsed ↦ false ]

bool_text : Bool → String
bool_text true = "True"
bool_text false = "False"

module _ (fmt : Format) (f : BillingFacts) (i : Invoice) (p : Payment) (days : ℤ) where
  -- Step 2.
  contradictory : List String → Answer
  unfolding entitlement_evidence conflict_evidence
  contradictory cs = record {
    advice = manual_review;
    certainty = pos 300000000;
    proof = entitlement_evidence f ++ conflict_evidence cs;
    rules = "contradiction-gate" ∷ [];
    why = "Contradictory billing signals detected: " <> join "; " cs <> ".";
    review = true;
    amount = pos 0;
    invoice_text = if i.paid then "paid" else "unpaid";
    payment_text = if p.captured then "captured" else "uncaptured";
    usage_text = usage_level f.usage;
    window_text = if is_within days then "within" else "expired";
  }

  -- A denial by RP-001 or RP-002, in step 3.
  denied : String → String → List EvidenceItem → String → String → String → Answer
  unfolding base_evidence
  denied rule why because invoice_text payment_text window_text = record {
    advice = deny_refund;
    certainty = pos 900000000;
    proof = base_evidence fmt f i p days ++ because;
    rules = rule ∷ [];
    why = why;
    review = false;
    amount = pos 0;
    invoice_text = invoice_text;
    payment_text = payment_text;
    usage_text = usage_level f.usage;
    window_text = window_text;
  }

  expired : Answer
  unfolding denied item
  expired =
      denied "RP-001"
        ("Refund window expired: " <> show days <> " days since invoice (limit: 30 days — RP-001).")
        (item "refund_policy" "RP-001: outside refund window" (
            object
              (("days_since_invoice", int days) ∷ ("window_days", int refund_window_days) ∷ []))
          ∷ [])
        (if i.paid then "paid" else "unpaid") (if p.captured then "captured" else "uncaptured")
        "expired"

  unpaid : Answer
  unfolding denied item
  unpaid =
      denied "RP-002" "Invoice is unpaid; no refundable payment exists (RP-002)."
        (item "refund_policy" "RP-002: invoice not paid"
            (object (("invoice_id", text i.invoice_id) ∷ ("paid", bool i.paid) ∷ []))
          ∷ [])
        "unpaid" "uncaptured" "within"

  uncaptured : Answer
  unfolding denied item
  uncaptured =
      denied "RP-002" "Payment not captured; no refundable charge exists (RP-002)."
        (item "refund_policy" "RP-002: payment not captured"
            (object (("payment_id", text p.payment_id) ∷ ("captured", bool p.captured) ∷ []))
          ∷ [])
        "paid" "uncaptured" "within"

  reversed : Answer
  unfolding denied item
  reversed =
      denied "RP-002" "Payment already fully reversed; refund already applied (RP-002)."
        (item "refund_policy" "RP-002: payment already fully reversed" (
            object (
              ("reversed_amount", fmt.amount_json p.reversed_amount)
              ∷ ("amount", fmt.amount_json p.amount)
              ∷ []))
          ∷ [])
        "paid" "reversed" "within"

  -- Step 4.
  heavy : Answer
  unfolding base_evidence item is_active
  heavy = record {
    advice = deny_refund;
    certainty = if is_borderline_usage f.usage then pos 600000000 else pos 900000000;
    proof =
        base_evidence fmt f i p days
        ++ item "refund_policy" "RP-004: heavy usage — materially weakens refund claim" (
            object
              (("usage_ratio", fmt.ratio_json f.usage) ∷ ("threshold", num (pos 800000000)) ∷ []))
          ∷ (if is_active f.subscription
              then item "refund_policy" "RP-005: active subscription with heavy usage"
                  (object (("status", text "active") ∷ []))
                ∷ []
              else []);
    rules = "RP-004" ∷ (if is_active f.subscription then "RP-005" ∷ [] else []);
    why =
        "Heavy usage ("
        <> fmt.ratio_3f f.usage
        <> " > 0.8) materially weakens the refund claim (RP-004).";
    review = false;
    amount = pos 0;
    invoice_text = "paid";
    payment_text = "captured";
    usage_text = "heavy";
    window_text = "within";
  }

  delivery_evidence : List EvidenceItem
  unfolding item bool_text
  delivery_evidence =
      if is_some f.entitlement
      then item "refund_policy"
          ("RP-003: entitlement delivered=" <> bool_text (is_delivered f.entitlement))
          (object (
            ("delivered", bool (is_delivered f.entitlement))
            ∷ ("approve_supporting", bool (not (is_delivered f.entitlement)))
            ∷ []))
        ∷ []
      else []

  delivery_rules : List String
  delivery_rules = if is_some f.entitlement then "RP-003" ∷ [] else []

  is_borderline_window : Bool
  is_borderline_window = eqb_ℤ days refund_window_days

  approval_parts : List String
  unfolding is_borderline_window
  approval_parts =
      ("Within refund window (" <> show days <> "d ≤ 30d — RP-001)")
      ∷ "Invoice paid and payment captured (RP-002)"
      ∷ (if is_some f.entitlement
          then "Product not delivered (approve-supporting — RP-003)"
          else "No entitlement record (approve-supporting — RP-003)")
      ∷ ((if is_some f.usage
            then ("Light usage (" <> fmt.ratio_3f f.usage <> " — RP-004 does not fire)") ∷ []
            else [])
          ++ (if is_borderline_window
              then "Borderline: exactly 30 days since invoice (inclusive boundary — confidence lowered to 0.6)"
                ∷ []
              else []))

  -- Step 5.
  approved : Answer
  unfolding base_evidence delivery_evidence delivery_rules approval_parts is_borderline_window
  approved = record {
    advice = approve_full_refund;
    certainty =
        if is_borderline_window || is_borderline_usage f.usage
        then pos 600000000
        else pos 900000000;
    proof = base_evidence fmt f i p days ++ delivery_evidence;
    rules = distinct_from [] (
        delivery_rules
        ++ "RP-001" ∷ "RP-002" ∷ (if is_some f.usage then "RP-004" ∷ [] else [])
        ++ (if is_some f.subscription then "RP-005" ∷ [] else []));
    why = join ". " approval_parts <> ".";
    review = false;
    amount = p.amount -ℤ p.reversed_amount;
    invoice_text = "paid";
    payment_text = "captured";
    usage_text = usage_level f.usage;
    window_text = if is_borderline_window then "within-borderline" else "within";
  }

  -- Step 6.
  unresolved : Answer
  unfolding base_evidence delivery_evidence delivery_rules item
  unresolved = record {
    advice = manual_review;
    certainty = pos 200000000;
    proof =
        base_evidence fmt f i p days
        ++ delivery_evidence
        ++ item "refund_policy"
            "No applicable policy rule resolved this case to a confident verdict"
            (object (
              ("entitlement_delivered", bool (is_delivered f.entitlement))
              ∷ ("usage_ratio", fmt.ratio_json f.usage)
              ∷ ("within_window", bool (is_within days))
              ∷ ("invoice_paid", bool i.paid)
              ∷ []))
          ∷ [];
    rules = delivery_rules;
    why = "No applicable policy rule resolved the case to a confident verdict.";
    review = true;
    amount = pos 0;
    invoice_text = "paid";
    payment_text = "captured";
    usage_text = usage_level f.usage;
    window_text = "within";
  }

  -- The gates in their order, with the invoice and the payment there.
  evaluate_facts : EligibilityRecommendation
  unfolding answer contradictory expired unpaid uncaptured reversed heavy approved unresolved
  evaluate_facts =
      if not (is_empty (contradictions fmt f i p))
      then answer f (contradictory (contradictions fmt f i p))
      else if not (is_within days)
      then answer f expired
      else if not i.paid
      then answer f unpaid
      else if not p.captured
      then answer f uncaptured
      else if is_fully_reversed p
      then answer f reversed
      else if is_heavy f.usage
      then answer f heavy
      else if not (is_delivered f.entitlement)
      then answer f approved
      else answer f unresolved

-- The data-completeness gate, and on to the others.
evaluate_found :
    Format → ℕ → BillingFacts → Option Invoice → Option Payment → EligibilityRecommendation
unfolding ask_for_facts evaluate_facts
evaluate_found fmt now f (some i) (some p) = evaluate_facts fmt f i p (days_between now i.issued_at)
evaluate_found fmt now f _ _ = ask_for_facts f

unfoldable pub evaluate : Format → ℕ → BillingFacts → EligibilityRecommendation
unfolding evaluate_found
evaluate fmt now f = evaluate_found fmt now f f.invoice f.payment
