-- ===== src/Risk/Scoring.antt =====
-- apps/agents/risk_fraud/scoring.py: `assess_signals`, gate by gate. The policy argument is the
-- default `FRAUD_POLICY`, whose name is all that is read of it.
pub mod Verdict
use decentralized_agentic_re.Prelude.{
  ℕ, ◌+◌, String, Bool, true, false, not, ◌&&◌, ◌||◌, Option, none, some, List, [], ◌∷◌, ◌++◌, map,
  ltb, ◌==◌, is_empty, is_some, is_none, str_eq, if◌then◌else◌,
}
use decentralized_agentic_re.Prelude.Int.{ℤ, pos, ltb_ℤ, leb_ℤ, eqb_ℤ, min_ℤ}
use decentralized_agentic_re.Prelude.Text.{
  ◌<>◌, join, show, show_1f, show_2f, distinct_from, nonempty,
}
use decentralized_agentic_re.Contracts.{EvidenceItem, Json, null, bool, num, text, object, int}
use decentralized_agentic_re.Risk.Signals.{
  RiskLevel, low, elevated, high, RecommendedAction, approve_risk_clearance, allow_with_caution,
  deny_or_escalate, manual_review, Status, good, watch, restricted, Segment, standard, vip,
  enterprise, AccountStanding, RefundDisputeHistory, PaymentInstrumentSignal, BehavioralSignal,
  KnownFraudIndicator, RiskSignals, RiskAssessmentRequest, RiskAssessment, tenths,
  elevated_threshold, high_threshold, chargeback_elevated, velocity_high, new_account_days,
}
use decentralized_agentic_re.Risk.Rules.{
  Fired, is_good, fired_rules, total, capped, score_to_level, compute_score,
}
use decentralized_agentic_re.Risk.Evidence.{
  item, status_text, segment_text, policy_name, of, velocity, standing_parts, rule_description,
  rule_evidence, missing_evidence,
}

-- `kfi is not None and kfi.on_blocklist`
unfoldable pub is_blocklisted : RiskSignals → Bool
is_blocklisted s = elim s.known_fraud [ none ↦ false | some kfi ↦ kfi.on_blocklist ]

blocklisted : RiskSignals → RiskAssessment
unfolding item policy_name
blocklisted s = record {
  risk_level = high;
  recommended_action = deny_or_escalate;
  confidence = pos 950000000;
  evidence =
      item "known_fraud" "Customer is on the known-fraud blocklist"
        (object (("on_blocklist", bool true) ∷ ("customer_id", text s.customer_id) ∷ []))
      ∷ item "fraud_policy" "FP-001: known-fraud-indicator — hard floor → high"
          (object (("rule", text "FP-001") ∷ ("policy", text policy_name) ∷ []))
      ∷ [];
  policy_references = "FP-001" ∷ [];
  reasoning_summary = "Customer is on the known-fraud blocklist (FP-001 hard floor — high risk).";
  requires_human_review = false;
}

-- The segment of a VIP or enterprise account.
unfoldable pub vip_segment : Option AccountStanding → Option Segment
vip_segment none = none
vip_segment (some a) = elim a.segment [
  | standard ↦ none
  | vip ↦ some vip
  | enterprise ↦ some enterprise
]

vip_review : RiskSignals → RiskAssessmentRequest → Segment → RiskAssessment
unfolding item segment_text
vip_review s r segment = record {
  risk_level = score_to_level (compute_score s r);
  recommended_action = manual_review;
  confidence = pos 700000000;
  evidence =
      item "account_standing" ("High-value account segment: " <> segment_text segment) (
        object
          (("segment", text (segment_text segment)) ∷ ("customer_id", text s.customer_id) ∷ []))
      ∷ item "fraud_policy" "FP-005: VIP/enterprise account standing — manual review required"
          (object (("rule", text "FP-005") ∷ ("segment", text (segment_text segment)) ∷ []))
      ∷ [];
  policy_references = "FP-005" ∷ [];
  reasoning_summary =
      "Account segment is '"
      <> segment_text segment
      <> "'; all assessments for VIP/enterprise accounts require manual review (FP-005 standing tier).";
  requires_human_review = true;
}

has_no_chargeback : Option RefundDisputeHistory → Bool
has_no_chargeback none = true
has_no_chargeback (some rh) = eqb_ℤ rh.chargebacks (pos 0)

clean_low : RiskSignals → Bool
unfolding has_no_chargeback
clean_low s = elim s.account_standing [
  | none ↦ false
  | some a ↦
      is_good a.status && leb_ℤ new_account_days a.tenure_days && has_no_chargeback s.refund_history
]

has_high_velocity : Option BehavioralSignal → Bool
has_high_velocity none = false
has_high_velocity (some beh) = leb_ℤ velocity_high beh.refund_requests_in_window

has_mismatch : Option PaymentInstrumentSignal → Bool
has_mismatch none = false
has_mismatch (some pi) = not pi.billing_details_match

unfoldable pub is_contradiction : RiskSignals → Bool
unfolding clean_low has_high_velocity has_mismatch
is_contradiction s =
    clean_low s && has_high_velocity s.behavioral && has_mismatch s.payment_instrument

contradictory : RiskSignals → RiskAssessment
unfolding item of status_text velocity
contradictory s = record {
  risk_level = elevated;
  recommended_action = manual_review;
  confidence = pos 300000000;
  evidence =
      item "account_standing" "Account has long tenure and good standing (low-risk baseline)" (
        object (
          ("tenure_days", of (λ a. int a.tenure_days) null s.account_standing)
          ∷ ("status", of (λ a. text (status_text a.status)) null s.account_standing)
          ∷ []))
      ∷ item "refund_history" "Zero prior chargebacks (low-risk signal)" (
          object
            (("chargebacks", of (λ rh. int rh.chargebacks) (int (pos 0)) s.refund_history) ∷ []))
      ∷ item "behavioral"
          ("Refund velocity "
            <> show (velocity s)
            <> " >= VELOCITY_HIGH=5 in window (high-risk signal)")
          (object (("refund_requests_in_window", int (velocity s)) ∷ []))
      ∷ item "payment_instrument" "Billing details mismatch (high-risk signal)" (
          object (
            (
              "billing_details_match",
              bool (of (λ pi. pi.billing_details_match) true s.payment_instrument),
            )
            ∷ []))
      ∷ item "fraud_policy" "Contradiction gate: clean baseline + strong fraud signals" (
          object (
            ("rule", text "contradiction-gate")
            ∷ ("clean_signals", text "long-tenure+good+0-chargebacks")
            ∷ ("fraud_signals", text "velocity>=VELOCITY_HIGH+mismatch")
            ∷ []))
      ∷ [];
  policy_references = "contradiction-gate" ∷ [];
  reasoning_summary =
      "Contradictory signals detected: long tenure + good standing + zero chargebacks (clean baseline) coexist with high refund velocity on a mismatched instrument (strong fraud indicators). Human review required.";
  requires_human_review = true;
}

-- `(rh is None) and (as_ is not None or pi is not None or beh is not None)`
unfoldable pub is_missing_history : RiskSignals → Bool
is_missing_history s =
    is_none s.refund_history
    && (is_some s.account_standing || is_some s.payment_instrument || is_some s.behavioral)

unfoldable pub has_chargeback : RiskSignals → Bool
has_chargeback s = elim s.refund_history [
  | none ↦ false
  | some rh ↦ leb_ℤ chargeback_elevated rh.chargebacks
]

unfoldable pub derive_recommended_action : RiskLevel → Bool → RecommendedAction
derive_recommended_action high chargeback = deny_or_escalate
derive_recommended_action elevated chargeback =
    if chargeback then manual_review else allow_with_caution
derive_recommended_action low chargeback = approve_risk_clearance

-- Nothing fired, and the signals are there: low risk.
all_silent : RiskSignals → RiskAssessment
unfolding item policy_name of
all_silent s = record {
  risk_level = low;
  recommended_action = approve_risk_clearance;
  confidence = pos 900000000;
  evidence =
      item "fraud_policy"
        "All fraud rules (FP-001..FP-006) silent: no risk signal fired. Customer is assessed as low risk."
        (object (
          ("rule", text "no-rule-fired")
          ∷ ("score", num (pos 0))
          ∷ ("policy", text policy_name)
          ∷ []))
      ∷ [];
  policy_references = [];
  reasoning_summary =
      "All fraud policy rules evaluated; no risk signal fired. Low risk."
      <> (if of (λ a. a.known_good_customer) false s.account_standing
          then " Known-good customer with clean long-tenure baseline (FP-005: 0.0 offset)."
          else "");
  requires_human_review = false;
}

silent_without_history : RiskAssessment
unfolding item missing_evidence
silent_without_history = record {
  risk_level = low;
  recommended_action = approve_risk_clearance;
  confidence = pos 600000000;
  evidence =
      missing_evidence
      ++ item "fraud_policy" "No fraud rules fired; missing history reduces confidence."
          (object (("rule", text "no-rule-fired") ∷ ("note", text "missing-history") ∷ []))
        ∷ [];
  policy_references = [];
  reasoning_summary = "No fraud rules fired; missing refund history lowers confidence to 0.6.";
  requires_human_review = false;
}

is_low : RiskLevel → Bool
is_low low = true
is_low _ = false

unfoldable pub is_elevated : RiskLevel → Bool
is_elevated elevated = true
is_elevated _ = false

is_borderline : ℕ → Bool
is_borderline score = score == elevated_threshold || score == high_threshold

rule_ids : List Fired → List String
rule_ids [] = []
rule_ids (f ∷ fs) = f.rule_id ∷ rule_ids fs

reasoning : RiskSignals → List Fired → ℕ → String
unfolding rule_ids is_borderline is_low
reasoning s fired score =
    let ids = distinct_from [] (rule_ids fired) in
    join " " (
      nonempty (
        (if is_empty ids
          then ""
          else "Score: " <> show_2f (pos score) <> ". Rules fired: " <> join ", " ids <> ".")
        ∷ (if is_borderline score
            then "Score "
              <> show_1f score
              <> " exactly on threshold → upper band (borderline rule, conf 0.6)."
            else "")
        ∷ (if is_missing_history s then "Refund history absent; confidence lowered." else "")
        ∷ (if has_chargeback s && not (is_low (score_to_level score))
            then "Prior chargeback(s) present → manual review recommended."
            else "")
        ∷ []))

-- The verdict by the score of the rules that fired.
scored : RiskSignals → List Fired → ℕ → RiskAssessment
unfolding is_borderline is_elevated rule_ids rule_evidence missing_evidence reasoning
scored s fired score =
    let level = score_to_level score in
    let review = has_chargeback s && is_elevated level in
    let confidence = if is_borderline score then pos 600000000 else pos 900000000 in
    record {
      risk_level = level;
      recommended_action =
          if review then manual_review else derive_recommended_action level (has_chargeback s);
      confidence = if is_missing_history s then min_ℤ confidence (pos 600000000) else confidence;
      evidence = rule_evidence s fired ++ (if is_missing_history s then missing_evidence else []);
      policy_references = distinct_from [] (rule_ids fired);
      reasoning_summary = reasoning s fired score;
      requires_human_review = review;
    }

by_score : RiskSignals → List Fired → RiskAssessment
unfolding all_silent silent_without_history scored
by_score s fired =
    let score = capped (total 0 fired) in
    if is_empty fired && not (is_missing_history s)
    then all_silent s
    else if score == 0 && is_empty fired && is_missing_history s
    then silent_without_history
    else scored s fired score

unfoldable pub assess_signals : RiskSignals → RiskAssessmentRequest → RiskAssessment
unfolding blocklisted vip_review contradictory by_score
assess_signals s r =
    if is_blocklisted s then blocklisted s else elim (vip_segment s.account_standing) [
      | some segment ↦ vip_review s r segment
      | none ↦ if is_contradiction s then contradictory s else by_score s (fired_rules s r)
    ]
