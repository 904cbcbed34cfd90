-- ===== src/Resolution/Decision.antt =====
-- apps/agents/customer_resolution/decision_engine.py: the policy that turns the triage and the two
-- peer findings into a decision. The policy context and the time of the decision are not read by it.
-- `decide` builds a validated payload on every row, so its result may be an exception.
pub mod Confidence
pub mod Payload
pub mod Rows
pub mod Table
pub mod Evidence
use decentralized_agentic_re.Prelude.{
  String, Bool, true, false, not, ◌||◌, Option, none, some, List, [], ◌∷◌, ◌++◌, if◌then◌else◌,
}
use decentralized_agentic_re.Prelude.Int.{ℤ, pos, one, ◌-ℤ◌, ltb_ℤ, min_ℤ, max_ℤ}
use decentralized_agentic_re.Prelude.Dict.{Uuid}
use decentralized_agentic_re.Prelude.Exec.{Result, ok, err}
use decentralized_agentic_re.Prelude.Text.{text_or, ◌<>◌, join, show_2f}
use decentralized_agentic_re.Contracts.{
  ResolutionOutcome, approve_refund, deny_refund, escalate_human, direct_response,
  offer_partial_credit, request_more_information, CustomerResponseDecisionPayload,
  validate_escalation_reason,
}
use decentralized_agentic_re.Resolution.Models.{
  Triage, BillingFinding, RiskFinding, TimeoutStatus, Eligibility, eligible, partial, ineligible,
  indeterminate, Level, low, elevated, high, Review, billing, risk, billing_failed, risk_failed,
}
use decentralized_agentic_re.Resolution.Drafter.{draft_customer_response}

-- CONFIDENCE_THRESHOLD
abbrev pub confidence_threshold : ℤ
confidence_threshold = pos 600000000

triage_score : Option Triage → List ℤ
triage_score none = []
triage_score (some t) = t.confidence ∷ []

-- `[x] if x is not None else []`
present : Option ℤ → List ℤ
present none = []
present (some c) = c ∷ []

billing_score : Option BillingFinding → List ℤ
unfolding present
billing_score none = []
billing_score (some b) = present b.confidence

risk_certainty : Option ℤ → List ℤ
risk_certainty none = []
risk_certainty (some s) = (one -ℤ s) ∷ []

risk_score : Option RiskFinding → List ℤ
unfolding risk_certainty
risk_score none = []
risk_score (some r) = risk_certainty r.score

-- The scores that `compute_confidence` collects, in its order.
unfoldable pub scores : Option Triage → Option BillingFinding → Option RiskFinding → List ℤ
unfolding triage_score billing_score risk_score
scores t b r = triage_score t ++ (billing_score b ++ risk_score r)

-- Python's `min(x, *xs)`
abbrev pub least : ℤ → List ℤ → ℤ
least x [] = x
least x (y ∷ ys) = least (min_ℤ x y) ys

-- `0.0 if not scores else max(0.0, min(1.0, min(scores)))`
abbrev pub bounded_least : List ℤ → ℤ
bounded_least [] = pos 0
bounded_least (x ∷ xs) = max_ℤ (pos 0) (min_ℤ one (least x xs))

unfoldable pub compute_confidence : Option Triage → Option BillingFinding → Option RiskFinding → ℤ
unfolding scores
compute_confidence t b r = bounded_least (scores t b r)

abbrev pub eligibility_text : Eligibility → String
eligibility_text eligible = "eligible"
eligibility_text partial = "partial"
eligibility_text ineligible = "ineligible"
eligibility_text indeterminate = "indeterminate"

abbrev pub level_text : Level → String
level_text low = "low"
level_text elevated = "elevated"
level_text high = "high"

review_texts : List Review → List String
review_texts [] = []
review_texts (billing ∷ rs) = "'billing'" ∷ review_texts rs
review_texts (risk ∷ rs) = "'risk'" ∷ review_texts rs

drafted :
    Result String
    → (String → Result CustomerResponseDecisionPayload)
    → Result CustomerResponseDecisionPayload
drafted (ok text) build = build text
drafted (err e) build = err e

-- `CustomerResponseDecisionPayload(...)` with `draft_customer_response(outcome)`, as every row of
-- `decide` builds it; the validator runs last.
unfoldable pub respond :
    Uuid
    → String
    → String
    → ResolutionOutcome
    → Option String
    → Option String
    → Option String
    → String
    → Result CustomerResponseDecisionPayload
unfolding drafted
respond cid ticket customer outcome reason billing_summary risk_summary rationale =
    drafted (draft_customer_response outcome) (λ text. validate_escalation_reason (record {
      case_id = cid;
      ticket_id = ticket;
      customer_id = customer;
      outcome = outcome;
      customer_response = text;
      escalation_reason = reason;
      billing_summary = billing_summary;
      risk_summary = risk_summary;
      rationale = rationale;
    }))

-- Rows 4 to 8: the findings are there, nobody asked for a human, and the confidence suffices.
decide_findings :
    (outcome : ResolutionOutcome → Option String → String → Result CustomerResponseDecisionPayload)
    → Eligibility
    → Level
    → Result CustomerResponseDecisionPayload
decide_findings out eligible low = out approve_refund none "Eligible for refund; low risk"
decide_findings out ineligible elevated =
    out deny_refund none "Ineligible for refund; elevated/high risk"
decide_findings out ineligible high =
    out deny_refund none "Ineligible for refund; elevated/high risk"
decide_findings out partial low =
    out offer_partial_credit none "Partial eligibility; acceptable risk"
decide_findings out partial elevated =
    out offer_partial_credit none "Partial eligibility; acceptable risk"
decide_findings out indeterminate _ =
    out request_more_information none "Billing analysis inconclusive"
decide_findings out e l =
    out escalate_human (some "conflicting_analyses")
      ("Conflicting: billing=" <> eligibility_text e <> ", risk=" <> level_text l)

-- Rows 2 and 3, and on to the findings.
decide_present :
    Uuid
    → String
    → String
    → Triage
    → BillingFinding
    → RiskFinding
    → Result CustomerResponseDecisionPayload
unfolding decide_findings
decide_present cid ticket customer t b r =
    let billing_summary = text_or b.summary ("eligibility=" <> eligibility_text b.eligibility) in
    let risk_summary = text_or r.summary ("level=" <> level_text r.level) in
    let out : ResolutionOutcome → Option String → String → Result CustomerResponseDecisionPayload =
      λ o reason why.
        respond cid ticket customer o reason (some billing_summary) (some risk_summary) why in
    let confidence = compute_confidence (some t) (some b) (some r) in
    if billing_failed b || risk_failed r
    then out escalate_human (some "peer_failure") "Peer analysis failed"
    else if b.requires_human_review || r.requires_human_review
    then out escalate_human (some "peer_requested_review") "Peer requested human review"
    else if ltb_ℤ confidence confidence_threshold
    then out escalate_human (some "low_confidence")
        ("Confidence " <> show_2f confidence <> " below threshold 0.6")
    else decide_findings out b.eligibility r.level

-- The second half of row 1: a finding that is `None`.
decide_reviews :
    Uuid
    → String
    → String
    → Triage
    → Option BillingFinding
    → Option RiskFinding
    → Result CustomerResponseDecisionPayload
unfolding decide_present
decide_reviews cid ticket customer t (some b) (some r) = decide_present cid ticket customer t b r
decide_reviews cid ticket customer t _ _ =
    respond cid ticket customer escalate_human (some "missing_analysis") none none
      "Required analysis result is missing"

-- `ts is not None and ts.any_missing`
abbrev pub any_missing : Option TimeoutStatus → Bool
any_missing none = false
any_missing (some ts) = ts.any_missing

abbrev pub deadline_exceeded : Option TimeoutStatus → Bool
deadline_exceeded none = false
deadline_exceeded (some ts) = ts.deadline_exceeded

missing_text : Option TimeoutStatus → String
unfolding review_texts
missing_text none = ""
missing_text (some ts) = "Missing analysis: [" <> join ", " (review_texts ts.missing_reviews) <> "]"

-- Row 0, the first half of row 1, and on to the reviews.
unfoldable pub decide :
    Uuid
    → String
    → String
    → Triage
    → Option BillingFinding
    → Option RiskFinding
    → Option TimeoutStatus
    → Result CustomerResponseDecisionPayload
unfolding decide_reviews missing_text
decide cid ticket customer t b r ts =
    if not t.needs_refund_review
    then respond cid ticket customer direct_response none none none t.rationale
    else if any_missing ts
    then respond cid ticket customer escalate_human
        (some (if deadline_exceeded ts then "analysis_timeout" else "missing_analysis")) none none
        (missing_text ts)
    else decide_reviews cid ticket customer t b r

-- `outcome in HUMAN_APPROVAL_OUTCOMES`
unfoldable pub requires_human_approval : ResolutionOutcome → Bool
requires_human_approval escalate_human = true
requires_human_approval approve_refund = true
requires_human_approval _ = false
