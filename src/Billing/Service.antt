-- ===== src/Billing/Service.antt =====
-- apps/agents/billing_entitlement/service.py, and the lookup of mock_data.py: from the parts of a task's
-- input to the recommendation and its two messages. The validation of the data part, the seeded data,
-- Python's `repr` of a text and the clock are parameters.
use decentralized_agentic_re.Prelude.{
  ℕ, String, Bool, true, false, ◌&&◌, Option, none, some, List, [], ◌∷◌, ◌++◌, if◌then◌else◌,
}
use decentralized_agentic_re.Prelude.Int.{pos}
use decentralized_agentic_re.Prelude.Dict.{Uuid}
use decentralized_agentic_re.Prelude.Text.{◌<>◌, entry}
use decentralized_agentic_re.Prelude.Exec.{Result, ok, err, value_error}
use decentralized_agentic_re.Contracts.{
  Json, bool, num, text, arr, object, truthy, EvidenceItem, dump_evidence,
  BillingRefundAnalysisCompletedPayload,
}
use decentralized_agentic_re.Runtime.Messages.{A2aMessage, A2aPart, PartType, Role, is_data}
use decentralized_agentic_re.Billing.Facts.{
  Recommendation, approve_full_refund, approve_partial_refund, deny_refund,
  request_more_information, manual_review, Subscription, BillingFacts, EligibilityRecommendation,
}
use decentralized_agentic_re.Billing.Rules.{Format}
use decentralized_agentic_re.Billing.Rules.Evaluate.{evaluate}

pub record BillingNarrative : Type 0 where
  pub polished_summary : String
  pub evidence_explanation : String

-- The amount is in cents.
pub record RefundEligibilityRequest : Type 0 where
  pub case_id : Uuid
  pub ticket_id : String
  pub customer_id : String
  pub requested_refund_amount : ℕ
  pub purchase_reference : String
  pub customer_message_summary : Option String
  pub policy_context : Option String

pub record Service : Type 0 where
  pub model_validate : Json → Result RefundEligibilityRequest
  pub dataset : List (String × BillingFacts)
  pub customer_index : List (String × String)
  pub repr : String → String
  pub format : Format
  pub now : ℕ

-- `str(recommendation)`
unfoldable pub recommendation_value : Recommendation → String
recommendation_value approve_full_refund = "approve_full_refund"
recommendation_value approve_partial_refund = "approve_partial_refund"
recommendation_value deny_refund = "deny_refund"
recommendation_value request_more_information = "request_more_information"
recommendation_value manual_review = "manual_review"

carries_data : A2aPart → Option Json → Bool
carries_data p none = false
carries_data p (some data_) = is_data p.type && truthy data_

request_from : Service → Option Json → Result RefundEligibilityRequest
request_from svc none = err value_error
request_from svc (some data_) = svc.model_validate data_

unfoldable pub validate_input : Service → List A2aPart → Result RefundEligibilityRequest
unfolding carries_data request_from
validate_input svc [] = err value_error
validate_input svc (p ∷ ps) =
    if carries_data p p.data_ then request_from svc p.data_ else validate_input svc ps

-- The facts of the customer's purchase, where the reference is unknown.
facts_of_customer : Service → Option String → Option BillingFacts
facts_of_customer svc none = none
facts_of_customer svc (some ref) = entry ref svc.dataset

facts_or : Option BillingFacts → Option BillingFacts → Option BillingFacts
facts_or none other = other
facts_or (some f) other = some f

unfoldable pub load_facts : Service → String → String → Option BillingFacts
unfolding facts_of_customer facts_or
load_facts svc reference customer =
    facts_or (entry reference svc.dataset)
      (facts_of_customer svc (entry customer svc.customer_index))

no_billing_evidence : Service → String → EvidenceItem
no_billing_evidence svc reference = record {
  source = "refund_policy";
  description = "Data-completeness gate: no billing record found";
  value =
      object
        (("reason", text ("no billing record for purchase_reference=" <> svc.repr reference)) ∷ []);
}

unfoldable pub missing_data_recommendation : Service → String → EligibilityRecommendation
unfolding no_billing_evidence
missing_data_recommendation svc reference = record {
  recommendation = request_more_information;
  confidence = pos 200000000;
  evidence = no_billing_evidence svc reference ∷ [];
  policy_references = [];
  reasoning_summary =
      "No billing record found for purchase_reference="
      <> svc.repr reference
      <> ". "
      <> "Manual review required (FR-010).";
  requires_human_review = true;
  eligible_refund_amount = pos 0;
  subscription_status = "unknown";
  invoice_status = "unknown";
  payment_status = "unknown";
  entitlement_status = "unknown";
  usage_level = "unknown";
  refund_window_status = "unknown";
}

unfoldable pub recommend :
    Service → RefundEligibilityRequest → Option BillingFacts → EligibilityRecommendation
recommend svc r none = missing_data_recommendation svc r.purchase_reference
recommend svc r (some facts) = evaluate svc.format svc.now facts

-- The request, the recommendation and the facts that it rests on.
pub record Analysis : Type 0 where
  pub request : RefundEligibilityRequest
  pub recommendation : EligibilityRecommendation
  pub facts : Option BillingFacts

unfoldable pub analyze : Service → List A2aPart → Result Analysis
analyze svc parts = elim (validate_input svc parts) [
  | err e ↦ err e
  | ok r ↦
      let facts = load_facts svc r.purchase_reference r.customer_id in
      ok (record { request = r; recommendation = recommend svc r facts; facts = facts })
]

subscription_id_of : Option Subscription → Option String
subscription_id_of none = none
subscription_id_of (some s) = some s.subscription_id

account_of : Option BillingFacts → Option String
unfolding subscription_id_of
account_of none = none
account_of (some f) = subscription_id_of f.subscription

polished : Option BillingNarrative → Option String
polished none = none
polished (some n) = some n.polished_summary

explained : Option BillingNarrative → Option String
explained none = none
explained (some n) = some n.evidence_explanation

unfoldable pub build_result_payload :
    RefundEligibilityRequest
    → EligibilityRecommendation
    → Option BillingFacts
    → Option BillingNarrative
    → BillingRefundAnalysisCompletedPayload
unfolding account_of polished explained
build_result_payload r rec facts n = record {
  ticket_id = r.ticket_id;
  recommendation = recommendation_value rec.recommendation;
  confidence = rec.confidence;
  evidence = rec.evidence;
  reasoning_summary = rec.reasoning_summary;
  requires_human_review = rec.requires_human_review;
  case_id = r.case_id;
  customer_id = r.customer_id;
  billing_account_id = account_of facts;
  subscription_status = rec.subscription_status;
  invoice_status = rec.invoice_status;
  payment_status = rec.payment_status;
  entitlement_status = rec.entitlement_status;
  usage_level = rec.usage_level;
  refund_window_status = rec.refund_window_status;
  eligible_refund_amount = rec.eligible_refund_amount;
  enriched_reasoning_summary = polished n;
  evidence_explanation = explained n;
}

narration : Option BillingNarrative → List (String × Json)
narration none = []
narration (some n) =
    ("enriched_reasoning_summary", text n.polished_summary)
    ∷ ("evidence_explanation", text n.evidence_explanation)
    ∷ []

unfoldable pub build_a2a_output : EligibilityRecommendation → Option BillingNarrative → A2aMessage
unfolding narration
build_a2a_output rec n =
    let data_ = object (
      (("recommendation", text (recommendation_value rec.recommendation))
        ∷ ("confidence", num rec.confidence)
        ∷ ("evidence", arr (dump_evidence rec.evidence))
        ∷ ("reasoning_summary", text rec.reasoning_summary)
        ∷ ("requires_human_review", bool rec.requires_human_review)
        ∷ [])
      ++ narration n) in
    record {
      role = Role.agent;
      parts =
          record { type = PartType.data_; text = none; data_ = some data_; file_uri = none } ∷ [];
      task_id = none;
    }
