-- ===== src/Resolution/Decision/Evidence.antt =====
-- apps/agents/customer_resolution/decision_engine.py: `build_evidence`, one entry per finding. How Python
-- prints a UUID is a parameter.
use decentralized_agentic_re.Prelude.{
  String, Option, none, some, List, [], ◌∷◌, ◌++◌, str_eq, if◌then◌else◌,
}
use decentralized_agentic_re.Prelude.Int.{ℤ}
use decentralized_agentic_re.Prelude.Dict.{Uuid}
use decentralized_agentic_re.Prelude.Text.{◌<>◌, text_or}
use decentralized_agentic_re.Contracts.{Json, null, num, text, object}
use decentralized_agentic_re.Resolution.Models.{Triage, BillingFinding, RiskFinding}
use decentralized_agentic_re.Resolution.Decision.{eligibility_text, level_text}

-- `x or None` of a text.
text_or_null : String → Json
text_or_null s = if str_eq s "" then null else text s

number_or_null : Option ℤ → Json
number_or_null none = null
number_or_null (some c) = num c

-- One entry of the evidence.
entry_of : String → Json → Json → String → Json → Json
entry_of source task performer summary confidence = object (
    ("source", text source)
    ∷ ("task_id", task)
    ∷ ("performer_agent_id", performer)
    ∷ ("summary", text summary)
    ∷ ("confidence", confidence)
    ∷ [])

module _ (uuid_text : Uuid → String) where
  task_or_null : Option Uuid → Json
  task_or_null none = null
  task_or_null (some t) = text (uuid_text t)

  classification_entry : Option Triage → List Json
  unfolding entry_of
  classification_entry none = []
  classification_entry (some t) =
      entry_of "classification" null null t.rationale (num t.confidence) ∷ []

  billing_entry : Option BillingFinding → List Json
  unfolding entry_of task_or_null text_or_null number_or_null
  billing_entry none = []
  billing_entry (some b) =
      entry_of "billing" (task_or_null b.task_id) (text_or_null b.performer_agent_id)
        (text_or b.summary ("eligibility=" <> eligibility_text b.eligibility))
        (number_or_null b.confidence)
      ∷ []

  risk_entry : Option RiskFinding → List Json
  unfolding entry_of task_or_null text_or_null
  risk_entry none = []
  risk_entry (some r) =
      entry_of "risk" (task_or_null r.task_id) (text_or_null r.performer_agent_id)
        (text_or r.summary ("level=" <> level_text r.level)) null
      ∷ []

  unfoldable pub build_evidence :
      Option Triage → Option BillingFinding → Option RiskFinding → List Json
  unfolding classification_entry billing_entry risk_entry
  build_evidence triage billing risk =
      classification_entry triage ++ billing_entry billing ++ risk_entry risk
