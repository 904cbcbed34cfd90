-- ===== src/Risk/Rules/Score.antt =====
-- apps/agents/risk_fraud/scoring.py: the two computations of the score, side by side.
use decentralized_agentic_re.Prelude.{
  ℕ, ◌+◌, ◌≡◌, refl, Option, none, some, List, [], ◌∷◌, ◌++◌, arith,
}
use decentralized_agentic_re.Risk.Signals.{
  RiskSignals, RiskAssessmentRequest, RefundDisputeHistory, BehavioralSignal,
  PaymentInstrumentSignal, AccountStanding,
}
use decentralized_agentic_re.Risk.Rules.{
  Fired, fp_002, fp_003, fp_004, fp_005, fp_006, fp_007, fp_008, fp_009, standing_weight,
  fired_rules, total, capped, add_chargebacks, add_velocity, add_instrument, add_standing,
  add_behavior, compute_score,
}

total-append : (x : ℕ) (fs gs : List Fired) → total x (fs ++ gs) ≡ total (total x fs) gs
total-append x [] gs = refl
total-append x (f ∷ fs) gs = total-append (x + f.contribution) fs gs

total_002 : (o : Option RefundDisputeHistory) (x : ℕ) → total x (fp_002 o) ≡ add_chargebacks o x
unfolding fp_002 add_chargebacks
total_002 none x = refl
total_002 (some rh) x = ground arith

total_003 : (o : Option BehavioralSignal) (x : ℕ) → total x (fp_003 o) ≡ add_velocity o x
unfolding fp_003 add_velocity
total_003 none x = refl
total_003 (some beh) x = ground arith

total_004 : (o : Option PaymentInstrumentSignal) (x : ℕ) → total x (fp_004 o) ≡ add_instrument o x
unfolding fp_004 add_instrument
total_004 none x = refl
total_004 (some pi) x = ground arith

total_005 : (o : Option AccountStanding) (x : ℕ) → total x (fp_005 o) ≡ add_standing o x
unfolding fp_005 add_standing standing_weight
total_005 none x = refl
total_005 (some a) x = ground arith

total_rest :
    (o : Option BehavioralSignal) (requested : Option ℕ) (x : ℕ)
    → total (total (total (total x (fp_006 o)) (fp_007 o)) (fp_008 o)) (fp_009 o requested)
      ≡ add_behavior o requested x
unfolding fp_006 fp_007 fp_008 fp_009 add_behavior
total_rest none requested x = refl
total_rest (some beh) requested x = ground arith

-- `_compute_score`, which the VIP gate uses, is the capped sum of the contributions of the fired
-- rules, which the scoring path uses.
pub compute_score_lem :
    (s : RiskSignals) (r : RiskAssessmentRequest)
    → compute_score s r ≡ capped (total 0 (fired_rules s r))
unfolding compute_score fired_rules
compute_score_lem s r = simp (total-append, total_002, total_003, total_004, total_005, total_rest)
