-- ===== src/Risk/Evidence.antt =====
-- apps/agents/risk_fraud/scoring.py: the evidence that explains an assessment.
use decentralized_agentic_re.Prelude.{
  String, false, Option, none, some, List, [], ◌∷◌, ◌++◌, is_empty, str_eq, if◌then◌else◌,
}
use decentralized_agentic_re.Prelude.Int.{ℤ, pos, ltb_ℤ}
use decentralized_agentic_re.Prelude.Text.{◌<>◌, join, show, show_2f}
use decentralized_agentic_re.Contracts.{EvidenceItem, Json, null, num, text, object}
use decentralized_agentic_re.Risk.Signals.{
  Status, good, watch, restricted, Segment, standard, vip, enterprise, AccountStanding, RiskSignals,
  new_account_days,
}
use decentralized_agentic_re.Risk.Rules.{Fired, is_good}

unfoldable pub item : String → String → Json → EvidenceItem
item source description value = record { source = source; description = description; value = value }

unfoldable pub status_text : Status → String
status_text good = "good"
status_text watch = "watch"
status_text restricted = "restricted"

unfoldable pub segment_text : Segment → String
segment_text standard = "standard"
segment_text vip = "vip"
segment_text enterprise = "enterprise"

unfoldable pub policy_name : String
policy_name = "poc-fraud-policy"

-- `x.field if x else default`
unfoldable pub of {ℓ} : {A : Type ℓ} {B : Type 0} → (A → B) → B → Option A → B
of f otherwise none = otherwise
of f otherwise (some a) = f a

unfoldable pub velocity : RiskSignals → ℤ
unfolding of
velocity s = of (λ beh. beh.refund_requests_in_window) (pos 0) s.behavioral

unfoldable pub standing_parts : AccountStanding → List String
unfolding status_text
standing_parts a =
    (if is_good a.status then [] else ("status=" <> status_text a.status) ∷ [])
    ++ (if ltb_ℤ a.tenure_days new_account_days
        then ("tenure_days=" <> show a.tenure_days) ∷ []
        else [])

-- `_rule_description`
unfoldable pub rule_description : String → RiskSignals → String
unfolding of velocity standing_parts
rule_description id s =
    if str_eq id "FP-002"
    then "Chargeback history: "
      <> show (of (λ rh. rh.chargebacks) (pos 0) s.refund_history)
      <> " prior chargebacks"
    else if str_eq id "FP-003"
    then "Refund velocity: " <> show (velocity s) <> " requests in window"
    else if str_eq id "FP-004"
    then (if of (λ pi. pi.card_testing_pattern) false s.payment_instrument
        then "Card testing pattern detected"
        else "Billing details mismatch")
    else if str_eq id "FP-005"
    then (let parts = of standing_parts [] s.account_standing in
        if is_empty parts then "Account standing" else "Account standing: " <> join ", " parts)
    else if str_eq id "FP-006"
    then "Behavioral anomaly: score="
      <> show_2f (of (λ beh. beh.anomaly_score) (pos 0) s.behavioral)
    else if str_eq id "FP-007"
    then "Device mismatch detected"
    else if str_eq id "FP-008"
    then "IP/location mismatch detected"
    else if str_eq id "FP-009"
    then "Unusual refund amount relative to typical history"
    else id

unfoldable pub rule_evidence : RiskSignals → List Fired → List EvidenceItem
unfolding item policy_name
rule_evidence s [] = []
rule_evidence s (f ∷ fs) =
    item f.signal_domain (f.rule_id <> ": " <> rule_description f.rule_id s)
      (object (("rule", text f.rule_id) ∷ ("contribution", num (pos f.contribution)) ∷ []))
    ∷ item "fraud_policy" (f.rule_id <> ": policy rule fired") (
        object (
          ("rule", text f.rule_id)
          ∷ ("contribution", num (pos f.contribution))
          ∷ ("policy", text policy_name)
          ∷ []))
    ∷ rule_evidence s fs

unfoldable pub missing_evidence : List EvidenceItem
unfolding item
missing_evidence =
    item "refund_history" "Missing refund history: confidence lowered"
      (object (("refund_history", null) ∷ ("note", text "partial signal set") ∷ []))
    ∷ []
