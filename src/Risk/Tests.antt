-- ===== src/Risk/Tests.antt =====
-- Concrete assessments of apps/agents/risk_fraud/scoring.py.
use decentralized_agentic_re.Prelude.{
  ◌≤◌, ◌≡◌, true, false, not, ◌&&◌, ◌||◌, none, some, is_some, length, if◌then◌else◌,
}
use decentralized_agentic_re.Prelude.Int.{pos, ◌≤ℤ◌, one}
use decentralized_agentic_re.Risk.Signals.{
  RiskSignals, RiskAssessmentRequest, good, standard, high, elevated, manual_review,
}
use decentralized_agentic_re.Risk.Rules.{fired_rules, total, capped, score_to_level, compute_score}
use decentralized_agentic_re.Risk.Rules.Score.{compute_score_lem}
use decentralized_agentic_re.Risk.Scoring.{
  assess_signals, is_blocklisted, vip_segment, is_contradiction, has_chargeback, is_elevated,
}
use decentralized_agentic_re.Risk.Scoring.Verdict.{
  assess-risk_level, assess-requires_human_review, automatic_action, assess-recommended_action,
  assess_explained,
}

-- A clean account with five refund requests on a mismatched instrument.
abbrev signals : RiskSignals
signals = record {
  customer_id = "C-1";
  account_standing = some (record {
    customer_id = "C-1";
    status = good;
    tenure_days = pos 400;
    support_abuse_flags = 0;
    known_good_customer = true;
    segment = standard;
  });
  refund_history = none;
  payment_instrument = some (record {
    customer_id = "C-1";
    billing_details_match = false;
    card_testing_pattern = false;
    recent_failed_payments = 0;
  });
  behavioral = some (record {
    customer_id = "C-1";
    refund_requests_in_window = pos 5;
    anomaly_score = pos 0;
    device_mismatch = false;
    ip_location_mismatch = false;
    ip_country_mismatch = false;
    device_change_count = 0;
    typical_refund_amount = none;
  });
  known_fraud = none;
}

abbrev request : RiskAssessmentRequest
request = record {
  case_id = 1;
  ticket_id = "T-1";
  customer_id = "C-1";
  requested_refund_amount = none;
  customer_message_summary = none;
  account_age_days = none;
}

compute_score_example :
    compute_score signals request ≡ capped (total 0 (fired_rules signals request))
compute_score_example = compute_score_lem signals request

assess-risk_level_example : (assess_signals signals request).risk_level ≡ (
    if is_blocklisted signals
    then high
    else if not (is_some (vip_segment signals.account_standing)) && is_contradiction signals
    then elevated
    else score_to_level (compute_score signals request))
assess-risk_level_example = assess-risk_level signals request

assess-requires_human_review_example : (assess_signals signals request).requires_human_review ≡ (
    not (is_blocklisted signals)
    && (is_some (vip_segment signals.account_standing)
        || is_contradiction signals
        || (has_chargeback signals
            && is_elevated (score_to_level (compute_score signals request)))))
assess-requires_human_review_example = assess-requires_human_review signals request

assess-recommended_action_example : (assess_signals signals request).recommended_action ≡ (
    if (assess_signals signals request).requires_human_review
    then manual_review
    else automatic_action (assess_signals signals request).risk_level)
assess-recommended_action_example = assess-recommended_action signals request

assess_explained_example :
    ((assess_signals signals request).confidence ≤ℤ one)
    × (pos 300000000 ≤ℤ (assess_signals signals request).confidence)
    × (1 ≤ length (assess_signals signals request).evidence)
assess_explained_example = assess_explained signals request
