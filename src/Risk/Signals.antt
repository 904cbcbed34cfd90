-- ===== src/Risk/Signals.antt =====
-- apps/agents/risk_fraud/models.py, policy.py: what is known of a customer, the thresholds and the
-- verdict. Texts with a closed vocabulary (`Literal`) are data types. An amount, an anomaly score and a
-- confidence count billionths.
use decentralized_agentic_re.Prelude.{ℕ, ◌*◌, String, Bool, Option, List}
use decentralized_agentic_re.Prelude.Int.{ℤ, pos}
use decentralized_agentic_re.Prelude.Dict.{Uuid}
use decentralized_agentic_re.Contracts.{EvidenceItem}

pub data RiskLevel : Type 0 where
  low : RiskLevel
  elevated : RiskLevel
  high : RiskLevel

pub data RecommendedAction : Type 0 where
  approve_risk_clearance : RecommendedAction
  allow_with_caution : RecommendedAction
  deny_or_escalate : RecommendedAction
  request_more_information : RecommendedAction
  manual_review : RecommendedAction

pub data Status : Type 0 where
  good : Status
  watch : Status
  restricted : Status

pub data Segment : Type 0 where
  standard : Segment
  vip : Segment
  enterprise : Segment

pub record AccountStanding : Type 0 where
  pub customer_id : String
  pub status : Status
  pub tenure_days : ℤ
  pub support_abuse_flags : ℕ
  pub known_good_customer : Bool
  pub segment : Segment

pub record RefundDisputeHistory : Type 0 where
  pub customer_id : String
  pub prior_refunds : ℤ
  pub prior_refund_total_amount : ℤ
  pub chargebacks : ℤ
  pub velocity_window_days : ℤ

pub record PaymentInstrumentSignal : Type 0 where
  pub customer_id : String
  pub billing_details_match : Bool
  pub card_testing_pattern : Bool
  pub recent_failed_payments : ℕ

pub record BehavioralSignal : Type 0 where
  pub customer_id : String
  pub refund_requests_in_window : ℤ
  pub anomaly_score : ℤ
  pub device_mismatch : Bool
  pub ip_location_mismatch : Bool
  pub ip_country_mismatch : Bool
  pub device_change_count : ℕ
  pub typical_refund_amount : Option ℕ

pub record KnownFraudIndicator : Type 0 where
  pub customer_id : String
  pub on_blocklist : Bool

pub record RiskSignals : Type 0 where
  pub customer_id : String
  pub account_standing : Option AccountStanding
  pub refund_history : Option RefundDisputeHistory
  pub payment_instrument : Option PaymentInstrumentSignal
  pub behavioral : Option BehavioralSignal
  pub known_fraud : Option KnownFraudIndicator

pub record RiskAssessmentRequest : Type 0 where
  pub case_id : Uuid
  pub ticket_id : String
  pub customer_id : String
  pub requested_refund_amount : Option ℕ
  pub customer_message_summary : Option String
  pub account_age_days : Option ℕ

pub record RiskAssessment : Type 0 where
  pub risk_level : RiskLevel
  pub recommended_action : RecommendedAction
  pub confidence : ℤ
  pub evidence : List EvidenceItem
  pub policy_references : List String
  pub reasoning_summary : String
  pub requires_human_review : Bool

-- `n` tenths, in billionths.
abbrev pub tenths : ℕ → ℕ
tenths n = n * 100000000

abbrev pub elevated_threshold : ℕ
elevated_threshold = tenths 5

abbrev pub high_threshold : ℕ
high_threshold = tenths 8

abbrev pub chargeback_elevated : ℤ
chargeback_elevated = pos 1

abbrev pub chargeback_high : ℤ
chargeback_high = pos 2

abbrev pub velocity_elevated : ℤ
velocity_elevated = pos 3

abbrev pub velocity_high : ℤ
velocity_high = pos 5

abbrev pub anomaly_elevated : ℤ
anomaly_elevated = pos (tenths 7)

abbrev pub new_account_days : ℤ
new_account_days = pos 30

abbrev pub unusual_amount_ratio : ℕ
unusual_amount_ratio = 3
