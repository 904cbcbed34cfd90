-- ===== src/Risk/Rules.antt =====
-- apps/agents/risk_fraud/scoring.py: the rules FP-002 to FP-009 and the score, once as the list of
-- fired rules and once as `_compute_score` adds it up. The weights are tenths, counted in billionths:
-- a sum of them meets the thresholds 0.5 and 0.8 exactly where the sum of the floats does, which the
-- source compares within 1e-9.
pub mod Score
use decentralized_agentic_re.Prelude.{
  ℕ, ◌+◌, ◌*◌, String, Bool, true, false, not, ◌&&◌, ◌||◌, Option, none, some, List, [], ◌∷◌, ◌++◌,
  ltb, leb, is_empty, if◌then◌else◌,
}
use decentralized_agentic_re.Prelude.Int.{ℤ, ltb_ℤ, leb_ℤ}
use decentralized_agentic_re.Risk.Signals.{
  RiskLevel, low, elevated, high, Status, good, watch, restricted, AccountStanding,
  RefundDisputeHistory, PaymentInstrumentSignal, BehavioralSignal, RiskSignals,
  RiskAssessmentRequest, tenths, elevated_threshold, high_threshold, chargeback_elevated,
  chargeback_high, velocity_elevated, velocity_high, anomaly_elevated, new_account_days,
  unusual_amount_ratio,
}

-- An entry of `fired_rules`: the rule's id, the signal's domain and the contribution.
pub record Fired : Type 0 where
  pub rule_id : String
  pub signal_domain : String
  pub contribution : ℕ

abbrev fire : String → String → ℕ → List Fired
fire id domain n = record { rule_id = id; signal_domain = domain; contribution = n } ∷ []

abbrev pub is_restricted : Status → Bool
is_restricted restricted = true
is_restricted _ = false

abbrev pub is_good : Status → Bool
is_good good = true
is_good _ = false

-- The contribution of the status, and that of a new account on top of it.
standing_weight : AccountStanding → ℕ
standing_weight a =
    let status : ℕ = elim a.status [ restricted ↦ tenths 6 | watch ↦ tenths 3 | good ↦ 0 ] in
    status
    + (if ltb_ℤ a.tenure_days new_account_days && not (is_restricted a.status) then tenths 3 else 0)

-- `typical is not None and typical > 0 and requested is not None and requested >= typical * 3.0`
unfoldable pub is_unusual : Option ℕ → Option ℕ → Bool
is_unusual (some typical) (some requested) =
    ltb 0 typical && leb (typical * unusual_amount_ratio) requested
is_unusual _ _ = false

unfoldable fp_002 : Option RefundDisputeHistory → List Fired
fp_002 none = []
fp_002 (some rh) =
    if leb_ℤ chargeback_high rh.chargebacks
    then fire "FP-002" "refund_history" (tenths 8)
    else if leb_ℤ chargeback_elevated rh.chargebacks
    then fire "FP-002" "refund_history" (tenths 5)
    else []

unfoldable fp_003 : Option BehavioralSignal → List Fired
fp_003 none = []
fp_003 (some beh) =
    if leb_ℤ velocity_high beh.refund_requests_in_window
    then fire "FP-003" "behavioral" (tenths 8)
    else if leb_ℤ velocity_elevated beh.refund_requests_in_window
    then fire "FP-003" "behavioral" (tenths 5)
    else []

unfoldable fp_004 : Option PaymentInstrumentSignal → List Fired
fp_004 none = []
fp_004 (some pi) =
    if pi.card_testing_pattern
    then fire "FP-004" "payment_instrument" (tenths 6)
    else if not pi.billing_details_match
    then fire "FP-004" "payment_instrument" (tenths 5)
    else []

unfoldable fp_005 : Option AccountStanding → List Fired
unfolding standing_weight
fp_005 none = []
fp_005 (some a) =
    if ltb 0 (standing_weight a) then fire "FP-005" "account_standing" (standing_weight a) else []

unfoldable fp_006 : Option BehavioralSignal → List Fired
fp_006 none = []
fp_006 (some beh) =
    if leb_ℤ anomaly_elevated beh.anomaly_score then fire "FP-006" "behavioral" (tenths 5) else []

unfoldable fp_007 : Option BehavioralSignal → List Fired
fp_007 none = []
fp_007 (some beh) = if beh.device_mismatch then fire "FP-007" "behavioral" (tenths 4) else []

unfoldable fp_008 : Option BehavioralSignal → List Fired
fp_008 none = []
fp_008 (some beh) =
    if beh.ip_location_mismatch || beh.ip_country_mismatch
    then fire "FP-008" "behavioral" (tenths 4)
    else []

unfoldable fp_009 : Option BehavioralSignal → Option ℕ → List Fired
fp_009 none requested = []
fp_009 (some beh) requested =
    if is_unusual beh.typical_refund_amount requested
    then fire "FP-009" "behavioral" (tenths 3)
    else []

unfoldable pub fired_rules : RiskSignals → RiskAssessmentRequest → List Fired
unfolding fp_002 fp_003 fp_004 fp_005 fp_006 fp_007 fp_008 fp_009
fired_rules s r =
    fp_002 s.refund_history
    ++ fp_003 s.behavioral
    ++ fp_004 s.payment_instrument
    ++ fp_005 s.account_standing
    ++ fp_006 s.behavioral
    ++ fp_007 s.behavioral
    ++ fp_008 s.behavioral
    ++ fp_009 s.behavioral r.requested_refund_amount

-- `min(score, 1.0)`
abbrev pub capped : ℕ → ℕ
capped n = if ltb (tenths 10) n then tenths 10 else n

-- `for _rule_id, _domain, contribution in fired_rules: score += contribution`
abbrev pub total : ℕ → List Fired → ℕ
total score [] = score
total score (f ∷ fs) = total (score + f.contribution) fs

unfoldable pub score_to_level : ℕ → RiskLevel
score_to_level score =
    if leb high_threshold score
    then high
    else if leb elevated_threshold score
    then elevated
    else low

-- The statements of `_compute_score`, one block each.
unfoldable add_chargebacks : Option RefundDisputeHistory → ℕ → ℕ
add_chargebacks none score = score
add_chargebacks (some rh) score =
    if leb_ℤ chargeback_high rh.chargebacks
    then score + tenths 8
    else if leb_ℤ chargeback_elevated rh.chargebacks
    then score + tenths 5
    else score

unfoldable add_velocity : Option BehavioralSignal → ℕ → ℕ
add_velocity none score = score
add_velocity (some beh) score =
    if leb_ℤ velocity_high beh.refund_requests_in_window
    then score + tenths 8
    else if leb_ℤ velocity_elevated beh.refund_requests_in_window
    then score + tenths 5
    else score

unfoldable add_instrument : Option PaymentInstrumentSignal → ℕ → ℕ
add_instrument none score = score
add_instrument (some pi) score =
    if pi.card_testing_pattern
    then score + tenths 6
    else if not pi.billing_details_match
    then score + tenths 5
    else score

unfoldable add_standing : Option AccountStanding → ℕ → ℕ
add_standing none score = score
add_standing (some a) score =
    let by_status : ℕ = elim a.status [
      | restricted ↦ score + tenths 6
      | watch ↦ score + tenths 3
      | good ↦ score
    ] in
    if ltb_ℤ a.tenure_days new_account_days && not (is_restricted a.status)
    then by_status + tenths 3
    else by_status

unfoldable add_behavior : Option BehavioralSignal → Option ℕ → ℕ → ℕ
add_behavior none requested score = score
add_behavior (some beh) requested score =
    let anomaly = if leb_ℤ anomaly_elevated beh.anomaly_score then score + tenths 5 else score in
    let device = if beh.device_mismatch then anomaly + tenths 4 else anomaly in
    let ip =
      if beh.ip_location_mismatch || beh.ip_country_mismatch then device + tenths 4 else device in
    if is_unusual beh.typical_refund_amount requested then ip + tenths 3 else ip

unfoldable pub compute_score : RiskSignals → RiskAssessmentRequest → ℕ
unfolding add_chargebacks add_velocity add_instrument add_standing add_behavior
compute_score s r = capped (
    add_behavior s.behavioral r.requested_refund_amount (
      add_standing s.account_standing (
        add_instrument s.payment_instrument
          (add_velocity s.behavioral (add_chargebacks s.refund_history 0)))))
