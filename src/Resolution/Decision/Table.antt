-- ===== src/Resolution/Decision/Table.antt =====
-- apps/agents/customer_resolution/decision_engine.py: `decide` and the rows of its table.
use decentralized_agentic_re.Prelude.Text.{text_or, ◌<>◌}
use decentralized_agentic_re.Resolution.Decision.{eligibility_text, level_text}
use mathlib.Core.Path.{subst₂}
use decentralized_agentic_re.Prelude.{
  str_eq, ◌≢◌, ◌||◌, ◌↔◌, ◌∙◌, sym, Bool-cases, Option-cases, inl, inr,
}
use decentralized_agentic_re.Prelude.Int.{ltb_ℤ-cases}
use decentralized_agentic_re.Prelude.Int.{◌<ℤ◌, ◌≤ℤ◌, lt→ltb_ℤ, le→ltb_ℤ}
use decentralized_agentic_re.Prelude.{
  String, ◌≡◌, refl, ap, Bool, true, false, Option, none, some, arith,
}
use decentralized_agentic_re.Prelude.Dict.{Uuid}
use decentralized_agentic_re.Prelude.Exec.{Result, ok}
use decentralized_agentic_re.Contracts.{
  ResolutionOutcome, escalate_human, direct_response, CustomerResponseDecisionPayload,
}
use decentralized_agentic_re.Resolution.Models.{
  Triage, BillingFinding, RiskFinding, TimeoutStatus, Eligibility, Level, low, elevated, high,
  billing_failed, risk_failed,
}
use decentralized_agentic_re.Resolution.Decision.{
  confidence_threshold, respond, any_missing, deadline_exceeded, decide, decide_findings,
  decide_present,
}
use decentralized_agentic_re.Resolution.Decision.Payload.{verdict, verdict-respond}
use decentralized_agentic_re.Resolution.Decision.Rows.{
  Settled, approve, deny_elevated, deny_high, credit_low, credit_elevated, ask, conflict_elevated,
  conflict_high, conflict_low, conflict_partial, Found, confidence_of, Row, direct, timed_out,
  awaited, absent, failed, asked, unsure, settled, settle,
}

module _ (cid : Uuid) (ticket customer : String) (t : Triage) where
  abbrev present_verdict : BillingFinding → RiskFinding → Option (ResolutionOutcome × Option String)
  present_verdict x y = verdict (decide_present cid ticket customer t x y)

  present_asked :
      (x : BillingFinding) (y : RiskFinding)
      → (x.requires_human_review || y.requires_human_review) ≡ true
      → present_verdict x y ≡ some (escalate_human, some "peer_requested_review")
  unfolding decide_present billing_failed risk_failed
  present_asked x y h = simp (h, verdict-respond)

  present_unsure :
      (x : BillingFinding) (y : RiskFinding)
      → (x.requires_human_review || y.requires_human_review) ≡ false
      → confidence_of t x y <ℤ confidence_threshold
      → present_verdict x y ≡ some (escalate_human, some "low_confidence")
  unfolding decide_present billing_failed risk_failed
  present_unsure x y h u =
      simp (h, lt→ltb_ℤ (confidence_of t x y) confidence_threshold u, verdict-respond)

  findings-Settled :
      (bs rs : Option String) {e : Eligibility} {l : Level} {o : ResolutionOutcome}
      {reason : Option String}
      → Settled e l o reason
      → verdict
          (decide_findings (λ o' reason' why. respond cid ticket customer o' reason' bs rs why) e l)
        ≡ some (o, reason)
  unfolding decide_findings
  findings-Settled bs rs approve = rw verdict-respond
  findings-Settled bs rs deny_elevated = rw verdict-respond
  findings-Settled bs rs deny_high = rw verdict-respond
  findings-Settled bs rs credit_low = rw verdict-respond
  findings-Settled bs rs credit_elevated = rw verdict-respond
  findings-Settled bs rs (ask low) = rw verdict-respond
  findings-Settled bs rs (ask elevated) = rw verdict-respond
  findings-Settled bs rs (ask high) = rw verdict-respond
  findings-Settled bs rs conflict_elevated = rw verdict-respond
  findings-Settled bs rs conflict_high = rw verdict-respond
  findings-Settled bs rs conflict_low = rw verdict-respond
  findings-Settled bs rs conflict_partial = rw verdict-respond

  present-Settled :
      (x : BillingFinding) (y : RiskFinding) {o : ResolutionOutcome} {reason : Option String}
      → (x.requires_human_review || y.requires_human_review) ≡ false
      → confidence_threshold ≤ℤ confidence_of t x y
      → Settled x.eligibility y.level o reason
      → present_verdict x y ≡ some (o, reason)
  unfolding decide_present billing_failed risk_failed
  present-Settled x y h u s =
      simp (h, le→ltb_ℤ (confidence_of t x y) confidence_threshold u)
        (findings-Settled
          (some (text_or x.summary ("eligibility=" <> eligibility_text x.eligibility)))
          (some (text_or y.summary ("level=" <> level_text y.level))) s)

-- The `failed` properties of both findings.
unfailed : (x : BillingFinding) (y : RiskFinding) → (billing_failed x || risk_failed y) ≡ false
unfolding billing_failed risk_failed
unfailed x y = refl

never_failed :
    (x : BillingFinding) (y : RiskFinding) → ¬ ((billing_failed x || risk_failed y) ≡ true)
never_failed x y h = let e = unfailed x y in cc

pair_eq :
    {o o' : ResolutionOutcome} {p p' : Option String}
    → ◌≡◌ {A = Option (ResolutionOutcome × Option String)} (some (o, p)) (some (o', p'))
    → (o ≡ o') × (p ≡ p')
pair_eq h = ground arith

module _ (cid : Uuid) (ticket customer : String) (t : Triage) (b : Option BillingFinding)
    (r : Option RiskFinding) (ts : Option TimeoutStatus) where
  abbrev decision : Result CustomerResponseDecisionPayload
  decision = decide cid ticket customer t b r ts

  decide-Found :
      (x : BillingFinding) (y : RiskFinding)
      → Found t b r ts x y
      → decision ≡ decide_present cid ticket customer t x y
  unfolding decide
  decide-Found x y f = simp (f.reviewing, f.complete, f.billing_there, f.risk_there)

  -- Every row of the table is what `decide` answers under that row's conditions.
  Row-verdict :
      {o : ResolutionOutcome} {reason : Option String}
      → Row t b r ts o reason
      → verdict decision ≡ some (o, reason)
  unfolding decide
  Row-verdict (direct n p q) = simp (n, p, q, verdict-respond)
  Row-verdict (timed_out n m d p q) = simp (n, m, d, p, q, verdict-respond)
  Row-verdict (awaited n m d p q) = simp (n, m, d, p, q, verdict-respond)
  Row-verdict (absent n m (inl nb) p q) = simp (n, m, nb, p, q, verdict-respond)
  Row-verdict (absent n m (inr nr) p q) = elim (Option-cases b) [
    | inl nb ↦ simp (n, m, nb, p, q, verdict-respond)
    | inr (x, e) ↦ simp (n, m, e, nr, p, q, verdict-respond)
  ]
  Row-verdict (failed x y f v p q) = absurd (never_failed x y v)
  Row-verdict (asked x y f v h p q) =
      rw (decide-Found x y f, p, q) (present_asked cid ticket customer t x y h)
  Row-verdict (unsure x y f v h u p q) =
      rw (decide-Found x y f, p, q) (present_unsure cid ticket customer t x y h u)
  Row-verdict (settled x y f v h u s) =
      rw (decide-Found x y f) (present-Settled cid ticket customer t x y h u s)

  -- The row that applies, with what it answers.
  abbrev Answer : Type 0
  Answer = (o : ResolutionOutcome) × (reason : Option String) × Row t b r ts o reason

  found_row : (x : BillingFinding) (y : RiskFinding) → Found t b r ts x y → Answer
  found_row x y f = elim (Bool-cases (x.requires_human_review || y.requires_human_review)) [
    | inl h ↦ (escalate_human, some "peer_requested_review", asked x y f (unfailed x y) h refl refl)
    | inr h ↦ elim (ltb_ℤ-cases (confidence_of t x y) confidence_threshold) [
      | inl u ↦ (escalate_human, some "low_confidence", unsure x y f (unfailed x y) h u refl refl)
      | inr u ↦
          let (o, reason, s) = settle x.eligibility y.level in
          (o, reason, settled x y f (unfailed x y) h u s)
    ]
  ]

  pub some_row : Answer
  some_row = elim (Bool-cases t.needs_refund_review) [
    | inr n ↦ (direct_response, none, direct n refl refl)
    | inl n ↦ elim (Bool-cases (any_missing ts)) [
      | inl m ↦ elim (Bool-cases (deadline_exceeded ts)) [
        | inl d ↦ (escalate_human, some "analysis_timeout", timed_out n m d refl refl)
        | inr d ↦ (escalate_human, some "missing_analysis", awaited n m d refl refl)
      ]
      | inr m ↦ elim (Option-cases b) [
        | inl nb ↦ (escalate_human, some "missing_analysis", absent n m (inl nb) refl refl)
        | inr (x, eb) ↦ elim (Option-cases r) [
          | inl nr ↦ (escalate_human, some "missing_analysis", absent n m (inr nr) refl refl)
          | inr (y, er) ↦
              found_row x y
                (record { reviewing = n; complete = m; billing_there = eb; risk_there = er })
        ]
      ]
    ]
  ]

  pub decide_iff :
      (o : ResolutionOutcome) (reason : Option String)
      → (verdict decision ≡ some (o, reason)) ↔ Row t b r ts o reason
  decide_iff o reason = (
    λ e.
        let (o', reason', row) = some_row in
        let same : (o' ≡ o) × (reason' ≡ reason) = pair_eq (sym (Row-verdict row) ∙ e) in
        subst₂ (Row t b r ts) same.0 same.1 row,
    λ row. Row-verdict row,
  )

abbrev names_peer_failure : Option String → Bool
names_peer_failure none = false
names_peer_failure (some s) = str_eq s "peer_failure"

Settled-not_peer :
    {e : Eligibility} {l : Level} {o : ResolutionOutcome} {reason : Option String}
    → Settled e l o reason
    → names_peer_failure reason ≡ false
Settled-not_peer approve = refl
Settled-not_peer deny_elevated = refl
Settled-not_peer deny_high = refl
Settled-not_peer credit_low = refl
Settled-not_peer credit_elevated = refl
Settled-not_peer (ask l) = refl
Settled-not_peer conflict_elevated = refl
Settled-not_peer conflict_high = refl
Settled-not_peer conflict_low = refl
Settled-not_peer conflict_partial = refl

Row-not_peer :
    {t : Triage} {b : Option BillingFinding} {r : Option RiskFinding} {ts : Option TimeoutStatus}
    {o : ResolutionOutcome} {reason : Option String}
    → Row t b r ts o reason
    → names_peer_failure reason ≡ false
Row-not_peer (direct n p q) = ap names_peer_failure q
Row-not_peer (timed_out n m d p q) = ap names_peer_failure q
Row-not_peer (awaited n m d p q) = ap names_peer_failure q
Row-not_peer (absent n m a p q) = ap names_peer_failure q
Row-not_peer (failed x y f v p q) = absurd (never_failed x y v)
Row-not_peer (asked x y f v h p q) = ap names_peer_failure q
Row-not_peer (unsure x y f v h u p q) = ap names_peer_failure q
Row-not_peer (settled x y f v h u s) = Settled-not_peer s

-- `decide` never escalates for the reason "peer_failure": the `failed` properties of both findings
-- are constantly false, so a failed slot shows as a missing analysis.
pub decide_never_peer_failure :
    (cid : Uuid) (ticket customer : String) (t : Triage) (b : Option BillingFinding)
    (r : Option RiskFinding) (ts : Option TimeoutStatus) (p : CustomerResponseDecisionPayload)
    → decide cid ticket customer t b r ts ≡ ok p
    → p.escalation_reason ≢ some "peer_failure"
decide_never_peer_failure cid ticket customer t b r ts p e q =
    let row : Row t b r ts p.outcome p.escalation_reason =
      (decide_iff cid ticket customer t b r ts p.outcome p.escalation_reason).0 (ap verdict e) in
    let named : true ≡ false = sym (ap names_peer_failure q) ∙ Row-not_peer row in cc
