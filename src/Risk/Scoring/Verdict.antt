-- ===== src/Risk/Scoring/Verdict.antt =====
-- apps/agents/risk_fraud/scoring.py: what the verdict says, apart from its explanation.
use decentralized_agentic_re.Prelude.{
  ◌≤◌, ◌≡◌, not, ◌&&◌, ◌||◌, List, [], ◌∷◌, arith, is_some, if◌then◌else◌, length, length-append,
}
use decentralized_agentic_re.Prelude.Int.{pos, ◌≤ℤ◌, one}
use decentralized_agentic_re.Risk.Signals.{
  RiskLevel, low, elevated, high, RecommendedAction, approve_risk_clearance, allow_with_caution,
  deny_or_escalate, manual_review, RiskSignals, RiskAssessmentRequest,
}
use decentralized_agentic_re.Risk.Rules.{
  Fired, fired_rules, total, capped, score_to_level, compute_score,
}
use decentralized_agentic_re.Risk.Rules.Score.{compute_score_lem}
use decentralized_agentic_re.Risk.Scoring.{
  assess_signals, is_blocklisted, vip_segment, is_contradiction, has_chargeback, blocklisted,
  vip_review, contradictory, by_score, all_silent, silent_without_history, scored, is_elevated,
  derive_recommended_action,
}
use decentralized_agentic_re.Risk.Evidence.{rule_evidence, missing_evidence}

by_score-level :
    (s : RiskSignals) (fired : List Fired)
    → (by_score s fired).risk_level ≡ score_to_level (capped (total 0 fired))
unfolding by_score all_silent silent_without_history scored score_to_level
by_score-level s [] = ground arith
by_score-level s (f ∷ fs) = ground arith

-- In an assessment that `assess_signals` gives, the gates decide first: the blocklist makes the level
-- high, and a contradiction on an account that is neither VIP nor enterprise makes it elevated.
-- Otherwise the level is that of the score which `_compute_score` adds up, whether the VIP gate or the
-- scoring path gives the verdict.
pub assess-risk_level :
    (s : RiskSignals) (r : RiskAssessmentRequest)
    → (assess_signals s r).risk_level ≡ (
        if is_blocklisted s
        then high
        else if not (is_some (vip_segment s.account_standing)) && is_contradiction s
        then elevated
        else score_to_level (compute_score s r))
unfolding assess_signals blocklisted vip_review contradictory
assess-risk_level s r = ground (arith, by_score-level s (fired_rules s r), compute_score_lem s r)

by_score-review :
    (s : RiskSignals) (fired : List Fired)
    → (by_score s fired).requires_human_review
      ≡ (has_chargeback s && is_elevated (score_to_level (capped (total 0 fired))))
unfolding by_score all_silent silent_without_history scored score_to_level is_elevated
by_score-review s [] = ground arith
by_score-review s (f ∷ fs) = ground arith

-- Of the assessments that `assess_signals` gives, of a customer whose record is found, those that ask
-- for a human review are these, where there is no blocklist hit: a VIP or enterprise account, a
-- contradiction, and a score in the elevated band with a prior chargeback.
pub assess-requires_human_review :
    (s : RiskSignals) (r : RiskAssessmentRequest)
    → (assess_signals s r).requires_human_review ≡ (
        not (is_blocklisted s)
        && (is_some (vip_segment s.account_standing)
            || is_contradiction s
            || (has_chargeback s && is_elevated (score_to_level (compute_score s r)))))
unfolding assess_signals blocklisted vip_review contradictory
assess-requires_human_review s r =
    ground (arith, by_score-review s (fired_rules s r), compute_score_lem s r)

-- The action that the level asks for where no human looks at it.
abbrev pub automatic_action : RiskLevel → RecommendedAction
automatic_action high = deny_or_escalate
automatic_action elevated = allow_with_caution
automatic_action low = approve_risk_clearance

by_score-action :
    (s : RiskSignals) (fired : List Fired)
    → (by_score s fired).recommended_action ≡ (
        if (by_score s fired).requires_human_review
        then manual_review
        else automatic_action (by_score s fired).risk_level)
unfolding by_score all_silent silent_without_history scored score_to_level is_elevated
    derive_recommended_action
by_score-action s [] = ground arith
by_score-action s (f ∷ fs) = ground arith

-- In an assessment that `assess_signals` gives, of a customer whose record is found, the recommended
-- action follows from the level and the review flag: `manual_review` where a human must look, and else
-- deny or escalate a high level, allow an elevated one with caution, and clear a low one.
pub assess-recommended_action :
    (s : RiskSignals) (r : RiskAssessmentRequest)
    → (assess_signals s r).recommended_action ≡ (
        if (assess_signals s r).requires_human_review
        then manual_review
        else automatic_action (assess_signals s r).risk_level)
unfolding assess_signals blocklisted vip_review contradictory
assess-recommended_action s r = ground (arith, by_score-action s (fired_rules s r))

length-rule_evidence :
    (s : RiskSignals) (f : Fired) (fs : List Fired) → 1 ≤ length (rule_evidence s (f ∷ fs))
unfolding rule_evidence
length-rule_evidence s f fs = omega arith

by_score-explained :
    (s : RiskSignals) (fired : List Fired)
    → ((by_score s fired).confidence ≤ℤ one)
      × (pos 300000000 ≤ℤ (by_score s fired).confidence)
      × (1 ≤ length (by_score s fired).evidence)
unfolding by_score all_silent silent_without_history scored missing_evidence
by_score-explained s [] = ground arith
by_score-explained s (f ∷ fs) = ground (
  arith,
  length-rule_evidence s f fs,
  length-append (rule_evidence s (f ∷ fs)) [],
  length-append (rule_evidence s (f ∷ fs)) missing_evidence,
)

-- Every assessment that `assess_signals` gives, of a customer whose record is found, has a confidence
-- between 0.3 and 1.0, which `RiskAssessment` checks to lie between 0 and 1, and cites at least one
-- piece of evidence.
pub assess_explained :
    (s : RiskSignals) (r : RiskAssessmentRequest)
    → ((assess_signals s r).confidence ≤ℤ one)
      × (pos 300000000 ≤ℤ (assess_signals s r).confidence)
      × (1 ≤ length (assess_signals s r).evidence)
unfolding assess_signals blocklisted vip_review contradictory
assess_explained s r = ground (arith, by_score-explained s (fired_rules s r))
