-- ===== src/Risk/Service.antt =====
-- apps/agents/risk_fraud/service.py, and the in-memory store of store.py: from the parts of a task's
-- input to the assessment and its two messages. The validation of the data part, the seeded records and
-- Python's `repr` of a text are parameters.
use decentralized_agentic_re.Prelude.{
  String, Bool, true, false, ◌&&◌, Option, none, some, List, [], ◌∷◌, ◌++◌, if◌then◌else◌,
}
use decentralized_agentic_re.Prelude.Int.{pos}
use decentralized_agentic_re.Prelude.Text.{◌<>◌, entry}
use decentralized_agentic_re.Prelude.Exec.{Result, ok, err, value_error}
use decentralized_agentic_re.Contracts.{
  Json, bool, num, text, arr, object, truthy, EvidenceItem, dump_evidence, texts,
  RiskReviewCompletedPayload,
}
use decentralized_agentic_re.Runtime.Messages.{A2aMessage, A2aPart, PartType, Role, is_data}
use decentralized_agentic_re.Risk.Signals.{
  RiskLevel, low, elevated, high, request_more_information, RiskSignals, RiskAssessment,
  RiskAssessmentRequest,
}
use decentralized_agentic_re.Risk.Scoring.{assess_signals}

pub record RiskNarrative : Type 0 where
  pub polished_summary : String
  pub evidence_explanation : String

pub record Service : Type 0 where
  pub model_validate : Json → Result RiskAssessmentRequest
  pub records : List (String × RiskSignals)
  pub repr : String → String

-- `str(risk_level)`
unfoldable pub level_value : RiskLevel → String
level_value low = "low"
level_value elevated = "elevated"
level_value high = "high"

-- `part.type == "data" and part.data`
has_data : A2aPart → Option Json → Bool
has_data p none = false
has_data p (some data_) = is_data p.type && truthy data_

validated : Service → Option Json → Result RiskAssessmentRequest
validated svc none = err value_error
validated svc (some data_) = svc.model_validate data_

unfoldable pub validate_input : Service → List A2aPart → Result RiskAssessmentRequest
unfolding has_data validated
validate_input svc [] = err value_error
validate_input svc (p ∷ ps) =
    if has_data p p.data_ then validated svc p.data_ else validate_input svc ps

-- `InMemoryRiskSignalStore.load_signals`
unfoldable pub load_signals : Service → String → Option RiskSignals
load_signals svc customer = entry customer svc.records

no_record_evidence : Service → String → EvidenceItem
no_record_evidence svc customer = record {
  source = "fraud_policy";
  description = "Data-completeness gate: no risk signal record found";
  value = object (
      ("reason", text ("no risk signals for customer_id=" <> svc.repr customer))
      ∷ ("rule", text "data-completeness-gate")
      ∷ []);
}

unfoldable pub missing_data_assessment : Service → String → RiskAssessment
unfolding no_record_evidence
missing_data_assessment svc customer = record {
  risk_level = low;
  recommended_action = request_more_information;
  confidence = pos 200000000;
  evidence = no_record_evidence svc customer ∷ [];
  policy_references = [];
  reasoning_summary =
      "No risk signal record found for customer_id="
      <> svc.repr customer
      <> ". "
      <> "Unable to assess risk without owned signal data (FR-010). "
      <> "Manual review required.";
  requires_human_review = true;
}

unfoldable pub assess_loaded : Service → RiskAssessmentRequest → Option RiskSignals → RiskAssessment
assess_loaded svc r none = missing_data_assessment svc r.customer_id
assess_loaded svc r (some signals) = assess_signals signals r

unfoldable pub assess : Service → List A2aPart → Result (RiskAssessment × RiskAssessmentRequest)
assess svc parts = elim (validate_input svc parts) [
  | err e ↦ err e
  | ok r ↦ ok (assess_loaded svc r (load_signals svc r.customer_id), r)
]

summary_of : Option RiskNarrative → Option String
summary_of none = none
summary_of (some n) = some n.polished_summary

explanation_of : Option RiskNarrative → Option String
explanation_of none = none
explanation_of (some n) = some n.evidence_explanation

unfoldable pub to_result_payload :
    RiskAssessment → RiskAssessmentRequest → Option RiskNarrative → RiskReviewCompletedPayload
unfolding summary_of explanation_of
to_result_payload a r n = record {
  ticket_id = r.ticket_id;
  recommendation = level_value a.risk_level;
  confidence = a.confidence;
  evidence = a.evidence;
  reasoning_summary = a.reasoning_summary;
  requires_human_review = a.requires_human_review;
  enriched_reasoning_summary = summary_of n;
  evidence_explanation = explanation_of n;
}

narrated : Option RiskNarrative → List (String × Json)
narrated none = []
narrated (some n) =
    ("enriched_reasoning_summary", text n.polished_summary)
    ∷ ("evidence_explanation", text n.evidence_explanation)
    ∷ []

unfoldable pub build_a2a_output : RiskAssessment → Option RiskNarrative → A2aMessage
unfolding narrated
build_a2a_output a n =
    let data_ = object (
      (("recommendation", text (level_value a.risk_level))
        ∷ ("score", num a.confidence)
        ∷ ("confidence", num a.confidence)
        ∷ ("evidence", arr (dump_evidence a.evidence))
        ∷ ("reasoning_summary", text a.reasoning_summary)
        ∷ ("requires_human_review", bool a.requires_human_review)
        ∷ ("policy_references", arr (texts a.policy_references))
        ∷ [])
      ++ narrated n) in
    record {
      role = Role.agent;
      parts =
          record { type = PartType.data_; text = none; data_ = some data_; file_uri = none } ∷ [];
      task_id = none;
    }
