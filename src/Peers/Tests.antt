-- ===== src/Peers/Tests.antt =====
-- Concrete results of the peers at the customer-resolution agent.
use decentralized_agentic_re.Prelude.{
  ◌≡◌, refl, true, false, Option, none, some, String, List, [], ◌∷◌,
}
use decentralized_agentic_re.Prelude.Int.{pos}
use decentralized_agentic_re.Prelude.Text.{entry}
use decentralized_agentic_re.Prelude.Exec.{ok}
use decentralized_agentic_re.Contracts.{
  BillingRefundAnalysisCompletedPayload, object, text, truthy, escalate_human,
}
use decentralized_agentic_re.Runtime.Messages.{A2aPart, PartType, is_data}
use decentralized_agentic_re.Resolution.Models.{Triage, BillingFinding, eligible}
use decentralized_agentic_re.Resolution.Decision.{decide}
use decentralized_agentic_re.Resolution.Decision.Payload.{verdict}
use decentralized_agentic_re.Resolution.Handlers.{risk_finding, billing_finding}
use decentralized_agentic_re.Risk.Signals.{RiskAssessment, RiskAssessmentRequest}
use decentralized_agentic_re.Risk.Service.{
  Service, assess, assess_loaded, validate_input, load_signals, missing_data_assessment,
  to_result_payload,
}
use decentralized_agentic_re.Billing.Facts.{deny_refund, EligibilityRecommendation}
use decentralized_agentic_re.Billing.Service.{RefundEligibilityRequest, build_result_payload}
use decentralized_agentic_re.Peers.{
  same_level, same_eligibility, findings_roundtrip, unknown_customer_escalates,
}

abbrev request : RiskAssessmentRequest
request = record {
  case_id = 7;
  ticket_id = "T-1";
  customer_id = "C-9";
  requested_refund_amount = none;
  customer_message_summary = none;
  account_age_days = none;
}

-- No customer has a record.
abbrev service : Service
service = record { model_validate = λ v. ok request; records = []; repr = λ s. s }

abbrev parts : List A2aPart
parts =
    record {
      type = PartType.data_;
      text = none;
      data_ = some (object (("customer_id", text "C-9") ∷ []));
      file_uri = none;
    }
    ∷ []

abbrev assessment : RiskAssessment
assessment = missing_data_assessment service "C-9"

abbrev triage : Triage
triage = record {
  needs_refund_review = true;
  ambiguous = false;
  matched_signals = [];
  rationale = "";
  issue_type = "refund_request";
  confidence = pos 1000000000;
}

abbrev billing_ok : BillingFinding
billing_ok = record {
  eligibility = eligible;
  requires_human_review = false;
  confidence = some (pos 900000000);
  summary = "";
  performer_agent_id = "";
  task_id = some 21;
}

unknown_customer_escalates_example :
    (reason : Option String) × (verdict (
        decide 7 "T-1" "C-9" triage
          (some billing_ok)
          (some (risk_finding 22 (to_result_payload assessment request none)))
          none)
      ≡ some (escalate_human, reason))
unfolding assess validate_input assess_loaded load_signals entry is_data truthy
unknown_customer_escalates_example =
    unknown_customer_escalates service parts assessment request none 22 7 "T-1" "C-9" triage
      (some billing_ok) none refl refl refl

abbrev eligibility_request : RefundEligibilityRequest
eligibility_request = record {
  case_id = 7;
  ticket_id = "T-1";
  customer_id = "C-9";
  requested_refund_amount = 4999;
  purchase_reference = "P-1";
  customer_message_summary = none;
  policy_context = none;
}

abbrev heavy_use : EligibilityRecommendation
heavy_use = record {
  recommendation = deny_refund;
  confidence = pos 900000000;
  evidence = [];
  policy_references = [];
  reasoning_summary = "";
  requires_human_review = false;
  eligible_refund_amount = pos 0;
  subscription_status = "active";
  invoice_status = "paid";
  payment_status = "captured";
  entitlement_status = "active";
  usage_level = "heavy";
  refund_window_status = "within";
}

abbrev billing_result : BillingRefundAnalysisCompletedPayload
billing_result = build_result_payload eligibility_request heavy_use none none

findings_roundtrip_example :
    ((risk_finding 21 (to_result_payload assessment request none)).level
      ≡ same_level assessment.risk_level)
    × ((risk_finding 21 (to_result_payload assessment request none)).requires_human_review
        ≡ assessment.requires_human_review)
    × ((billing_finding 21 billing_result).eligibility
        ≡ same_eligibility heavy_use.recommendation heavy_use.usage_level)
    × ((billing_finding 21 billing_result).confidence ≡ some heavy_use.confidence)
    × ((billing_finding 21 billing_result).requires_human_review ≡ heavy_use.requires_human_review)
findings_roundtrip_example =
    findings_roundtrip 21 assessment request none heavy_use eligibility_request none none
