-- ===== src/Resolution/Decision/Rows.antt =====
-- The table of specs/006-workflow-choreography/contracts/decision-rule.md, rows 0 to 8, as a relation
-- between what `decide` is given and the outcome and escalation reason that it should answer. The
-- docstring of decision_engine.py has the same rows 1 to 8, without the reason of a timeout.
use decentralized_agentic_re.Prelude.{◌||◌}
use decentralized_agentic_re.Prelude.Int.{◌<ℤ◌, ◌≤ℤ◌}
use decentralized_agentic_re.Prelude.{String, ◌≡◌, ◌⊎◌, true, false, Option, none, some}
use decentralized_agentic_re.Prelude.Int.{ℤ}
use decentralized_agentic_re.Contracts.{
  ResolutionOutcome, approve_refund, deny_refund, escalate_human, direct_response,
  offer_partial_credit, request_more_information,
}
use decentralized_agentic_re.Resolution.Models.{
  Triage, BillingFinding, RiskFinding, TimeoutStatus, Eligibility, eligible, partial, ineligible,
  indeterminate, Level, low, elevated, high, billing_failed, risk_failed,
}
use decentralized_agentic_re.Resolution.Decision.{
  confidence_threshold, compute_confidence, any_missing, deadline_exceeded,
}

-- Rows 4 to 8: what the two findings settle once nobody asks for a human.
pub data Settled : Eligibility → Level → ResolutionOutcome → Option String → Type 0 where
  approve : Settled eligible low approve_refund none
  deny_elevated : Settled ineligible elevated deny_refund none
  deny_high : Settled ineligible high deny_refund none
  credit_low : Settled partial low offer_partial_credit none
  credit_elevated : Settled partial elevated offer_partial_credit none
  ask : (l : Level) → Settled indeterminate l request_more_information none
  conflict_elevated : Settled eligible elevated escalate_human (some "conflicting_analyses")
  conflict_high : Settled eligible high escalate_human (some "conflicting_analyses")
  conflict_low : Settled ineligible low escalate_human (some "conflicting_analyses")
  conflict_partial : Settled partial high escalate_human (some "conflicting_analyses")

-- Both findings are there and complete.
pub record Found (t : Triage) (b : Option BillingFinding) (r : Option RiskFinding)
    (ts : Option TimeoutStatus) (x : BillingFinding) (y : RiskFinding) : Type 0 where
  pub reviewing : t.needs_refund_review ≡ true
  pub complete : any_missing ts ≡ false
  pub billing_there : b ≡ some x
  pub risk_there : r ≡ some y

abbrev pub confidence_of : Triage → BillingFinding → RiskFinding → ℤ
confidence_of t x y = compute_confidence (some t) (some x) (some y)

pub data Row (t : Triage) (b : Option BillingFinding) (r : Option RiskFinding)
    (ts : Option TimeoutStatus) (o : ResolutionOutcome) (reason : Option String) : Type 0 where
  direct :
      t.needs_refund_review ≡ false → o ≡ direct_response → reason ≡ none → Row t b r ts o reason
  timed_out :
      t.needs_refund_review ≡ true
      → any_missing ts ≡ true
      → deadline_exceeded ts ≡ true
      → o ≡ escalate_human
      → reason ≡ some "analysis_timeout"
      → Row t b r ts o reason
  awaited :
      t.needs_refund_review ≡ true
      → any_missing ts ≡ true
      → deadline_exceeded ts ≡ false
      → o ≡ escalate_human
      → reason ≡ some "missing_analysis"
      → Row t b r ts o reason
  absent :
      t.needs_refund_review ≡ true
      → any_missing ts ≡ false
      → (b ≡ none) ⊎ (r ≡ none)
      → o ≡ escalate_human
      → reason ≡ some "missing_analysis"
      → Row t b r ts o reason
  failed :
      (x : BillingFinding) (y : RiskFinding)
      → Found t b r ts x y
      → (billing_failed x || risk_failed y) ≡ true
      → o ≡ escalate_human
      → reason ≡ some "peer_failure"
      → Row t b r ts o reason
  asked :
      (x : BillingFinding) (y : RiskFinding)
      → Found t b r ts x y
      → (billing_failed x || risk_failed y) ≡ false
      → (x.requires_human_review || y.requires_human_review) ≡ true
      → o ≡ escalate_human
      → reason ≡ some "peer_requested_review"
      → Row t b r ts o reason
  unsure :
      (x : BillingFinding) (y : RiskFinding)
      → Found t b r ts x y
      → (billing_failed x || risk_failed y) ≡ false
      → (x.requires_human_review || y.requires_human_review) ≡ false
      → confidence_of t x y <ℤ confidence_threshold
      → o ≡ escalate_human
      → reason ≡ some "low_confidence"
      → Row t b r ts o reason
  settled :
      (x : BillingFinding) (y : RiskFinding)
      → Found t b r ts x y
      → (billing_failed x || risk_failed y) ≡ false
      → (x.requires_human_review || y.requires_human_review) ≡ false
      → confidence_threshold ≤ℤ confidence_of t x y
      → Settled x.eligibility y.level o reason
      → Row t b r ts o reason

-- Every pair of findings is settled.
pub settle :
    (e : Eligibility) (l : Level)
    → (o : ResolutionOutcome) × (reason : Option String) × Settled e l o reason
settle eligible low = (approve_refund, none, approve)
settle eligible elevated = (escalate_human, some "conflicting_analyses", conflict_elevated)
settle eligible high = (escalate_human, some "conflicting_analyses", conflict_high)
settle ineligible low = (escalate_human, some "conflicting_analyses", conflict_low)
settle ineligible elevated = (deny_refund, none, deny_elevated)
settle ineligible high = (deny_refund, none, deny_high)
settle partial low = (offer_partial_credit, none, credit_low)
settle partial elevated = (offer_partial_credit, none, credit_elevated)
settle partial high = (escalate_human, some "conflicting_analyses", conflict_partial)
settle indeterminate l = (request_more_information, none, ask l)
