-- ===== src/Resolution/Handlers/Claiming.antt =====
-- apps/agents/customer_resolution/event_handlers.py, reaper.py: the result handlers and the reaper
-- against the invariant on published decisions.
use mathlib.Core.Path.{subst}
use decentralized_agentic_re.Prelude.{
  ℕ, ◌+◌, ◌≤◌, ◌≡◌, refl, sym, ap, ◌∙◌, Bool, true, false, not, ◌&&◌, Option, none, some, List, [],
  ◌∷◌, ◌⊎◌, inl, inr, All, keep_if, arith, Bool-cases, if◌then◌else◌,
}
use decentralized_agentic_re.Prelude.Dict.{Uuid, lookup, values}
use decentralized_agentic_re.Prelude.Exec.{ok, Exec, only_if, ◌>>=◌, ◌>>◌}
use decentralized_agentic_re.Contracts.{
  BillingRefundAnalysisCompletedPayload, RiskReviewCompletedPayload,
}
use decentralized_agentic_re.Resolution.Models.{
  ResolutionCase, escalated, is_decided, is_terminal, RiskFinding,
}
use decentralized_agentic_re.Resolution.Store.{
  CaseStore, Finding, of_billing, of_risk, find, get_by_correlation_id, claim_decision,
  apply_result, park_billing_result, park_risk_result, list_timed_out_cases, is_timed_out,
}
use decentralized_agentic_re.Resolution.Store.Settled.{
  settled_at, claim-settled, apply-settled, claim_wins,
}
use decentralized_agentic_re.Resolution.Store.Effects.{
  kept, claim_decision-Change, apply_result-Change,
}
use decentralized_agentic_re.Resolution.World.{
  Env, Envelope, Handler, reads, on_store, of_store, assign, write_audit,
}
use decentralized_agentic_re.Resolution.Handlers.{
  Incoming, is_attached, billing_finding, escalation, attach_billing, billing_result_handler,
  escalate, attach_risk, risk_result_handler, sweep, reap, forces_escalation, risk_finding,
}
use decentralized_agentic_re.Resolution.Deciding.{
  decide_and_emit, apply_decision, may_decide, decide_if_ready,
}
use decentralized_agentic_re.Resolution.Handlers.Logic.{
  Assertion, Triple, bind, after, guard, when_, reads_, pure_, lift_, weaken, given, stored,
}
use decentralized_agentic_re.Resolution.Handlers.Once.{
  decisions, Good, Licensed, Own, Good-Change, Harmless, assign-Good, assign-Licensed,
}
use decentralized_agentic_re.Resolution.Handlers.Emission.{
  harmless, Keeps-audit, emit-lem, refetch-lem, settle-Keeps, decide_and_emit-lem,
}

pub none_or_one : (n : ℕ) → (n ≡ 0) ⊎ (1 ≤ n)
none_or_one n = omega arith

true_is_not_false : ¬ (true ≡ false)
true_is_not_false p = cc

module _ (k x : Uuid) (spent : ℕ) (env : Env) where
  abbrev pub Inv : Assertion
  Inv = Good k x spent

  -- From the invariant to the invariant.
  abbrev pub Kept : {A : Type 0} → Handler A → Type 0
  Kept m = Triple Inv Inv m (λ a. Inv)

  unclaimed :
      (s : CaseStore) (l : List Envelope)
      → Inv s l
      → settled_at k s ≡ false
      → spent + decisions x l ≡ 0
  unclaimed s l g before = elim (none_or_one (spent + decisions x l)) [
    | inl z ↦ z
    | inr p ↦ let settled = g.recorded p in absurd (true_is_not_false (sym settled ∙ before))
  ]

  -- After the claim of `id`: the licence, if it was won.
  record Claimed (id : Uuid) (won : Bool) (s : CaseStore) (l : List Envelope) : Type 0 where
    good : Inv s l
    licence : won ≡ true → Licensed k x spent id s l

  claim-lem :
      (id : Uuid) (at : ℕ)
      → Triple Inv Inv (on_store (claim_decision id at)) (λ won. Claimed id won)
  claim-lem id at = stored (claim_decision id at) λ s l g.
      let g' =
        Good-Change k x spent (claim_decision-Change s id at) (λ h. claim-settled k s h id at) g in
      (
        g',
        λ won e. record {
          good = g';
          licence = λ w.
              let (before, settled) = claim_wins id at s (e ∙ ap ok w) in
              record {
                good = g';
                unused = λ q. unclaimed s l g (subst (λ i. settled_at i s ≡ false) q before);
                claimed =
                    λ q. subst (λ i. settled_at i (claim_decision id at s).1 ≡ true) q settled;
              };
        },
      )

  -- A handler that claims a case and acts on it if it has won.
  claiming :
      (id : Uuid) (m : Handler (Unit {0}))
      → Triple Inv (Licensed k x spent id) m (λ u. Inv)
      → Kept (reads env.now >>= λ at. on_store (claim_decision id at) >>= λ won. only_if won m)
  claiming id m t = bind (reads_ env.now) λ at.
      bind (claim-lem id at)
        λ won. when_ won (λ w. weaken (λ s l c. c.licence w) t) (λ w s l c. c.good)

  pub apply_decision-Keeps :
      (c : ResolutionCase) (cause : Uuid) → Own k x c → Kept (apply_decision env c cause)
  unfolding apply_decision
  apply_decision-Keeps c cause own =
      claiming c.case_id (decide_and_emit env c cause)
        (decide_and_emit-lem k x spent env c cause own)

  ready-Keeps : (c : ResolutionCase) (event : Uuid) → Own k x c → Kept (decide_if_ready env c event)
  unfolding decide_if_ready
  ready-Keeps c event own = bind (refetch-lem k x spent env Inv c own (λ s l g. g)) λ d.
      given {F = Own k x d} (λ s l f. f.own)
        λ own_d.
          weaken (λ s l f. f.holds)
            (when_ (may_decide d) (λ r. apply_decision-Keeps d event own_d) (λ r s l g. g))

  pub apply-Keeps :
      (id task : Uuid) (f : Finding) (at : ℕ) → Kept (on_store (apply_result id task f at))
  apply-Keeps id task f at = stored (apply_result id task f at) λ s l g.
      let g' =
        Good-Change k x spent (apply_result-Change s id task f at)
          (λ h. apply-settled k s h id task f at) g in
      (g', λ a e. g')

  -- The common end of the domain handlers: attach, audit, decide.
  attaching :
      (e : Incoming) (c : ResolutionCase) (task : Uuid) (f : Finding)
      (note : ResolutionCase → ResolutionCase)
      → Harmless k x spent note
      → Own k x c
      → Kept (
          assign c.case_id note >> reads env.now >>= λ at.
          on_store (apply_result c.case_id task f at) >>= λ outcome.
          only_if
            (is_attached outcome)
            (write_audit env e.event_id e.correlation_id "completed" (some task) none)
          >> decide_if_ready env c e.event_id)
  attaching e c task f note h own =
      bind (after (assign-Good k x spent h c.case_id) (reads_ env.now)) λ at.
        bind (apply-Keeps c.case_id task f at) λ outcome.
          after
            (when_ (is_attached outcome)
              (λ a.
                Keeps-audit k x spent env e.event_id e.correlation_id "completed" (some task) none)
              (λ a s l g. g))
            (ready-Keeps c e.event_id own)

  attach_billing-Keeps :
      (e : Incoming) (p : BillingRefundAnalysisCompletedPayload) (c : ResolutionCase)
      (task : Option Uuid)
      → Own k x c
      → Kept (attach_billing env e p c task)
  unfolding attach_billing
  attach_billing-Keeps e p c none own = pure_
  attach_billing-Keeps e p c (some task) own =
      attaching e c task (of_billing (billing_finding task p))
        (λ y. record y { billing_result_event_id = some e.event_id })
        (harmless k x spent env _ (λ y. ground arith) (λ y h. h)) own

  escalate-lem :
      (e : Incoming) (f : RiskFinding) (c : ResolutionCase)
      → Own k x c
      → Triple Inv (Licensed k x spent c.case_id) (escalate env e f c) (λ u. Inv)
  unfolding escalate is_terminal
  escalate-lem e f c own =
      bind (refetch-lem k x spent env (Licensed k x spent c.case_id) c own (λ s l g. g.good)) λ d.
        given {F = (d.case_id ≡ c.case_id) × Own k x d} (λ s l h. (h.same_id, h.own))
          λ facts.
            weaken (λ s l h. subst (λ i. Licensed k x spent i s l) (sym facts.0) h.holds)
              (bind (lift_ {r = escalation f d} (λ s l g. g.good)) λ decision.
                after
                  (after
                    (assign-Licensed k x spent
                      (harmless k x spent env
                        (λ y. record y {
                          risk_result_event_id = some e.event_id;
                          risk_result = some f;
                        })
                        (λ y. ground arith) (λ y h. h))
                      d.case_id d.case_id)
                    (emit-lem k x spent env d decision e.event_id facts.1))
                  (settle-Keeps k x spent env d escalated facts.1 refl))

  pub if-Keeps : (b : Bool) {m n : Handler (Unit {0})} → Kept m → Kept n → Kept (if b then m else n)
  if-Keeps true hm hn = hm
  if-Keeps false hm hn = hn

  attach_risk-Keeps :
      (e : Incoming) (p : RiskReviewCompletedPayload) (c : ResolutionCase) (task : Option Uuid)
      → Own k x c
      → Kept (attach_risk env e p c task)
  unfolding attach_risk
  attach_risk-Keeps e p c none own = pure_
  attach_risk-Keeps e p c (some task) own =
      if-Keeps (forces_escalation (risk_finding task p) c)
        (claiming c.case_id (escalate env e (risk_finding task p) c)
          (escalate-lem e (risk_finding task p) c own))
        (attaching e c task (of_risk (risk_finding task p))
          (λ y. record y { risk_result_event_id = some e.event_id })
          (harmless k x spent env _ (λ y. ground arith) (λ y h. h)) own)

  -- A store query whose answer says something of the store.
  pub asking :
      {A : Type 0} (f : CaseStore → A) (F : A → Type 0)
      → ((s : CaseStore) (l : List Envelope) → Inv s l → F (f s))
      → Triple Inv Inv (of_store f) (λ a s l. Inv s l × F a)
  asking f F h = record { run = λ w g. (g, h w.store w.log g) }

  pub found-Own :
      (i : Option Uuid) (s : CaseStore) (l : List Envelope)
      → Inv s l
      → (c : ResolutionCase) → find i s.cases ≡ some c
      → Own k x c
  found-Own (some i) s l g c e = let (a, o) = g.owned.0 i c e in λ q. a ∙ o q
  found-Own none s l g c e = cc

  parked :
      (m : Exec CaseStore (Unit {0}))
      → ((s : CaseStore) → (m s).1.cases ≡ s.cases)
      → Kept (on_store m)
  parked m h =
      stored m
        λ s l g. let g' = Good-Change k x spent (kept (h s)) (λ q. rw (h s) q) g in (g', λ a e. g')

  correlated :
      (y : Uuid)
      → Triple Inv Inv
          (of_store (get_by_correlation_id y))
          (λ o s l. Inv s l × ((c : ResolutionCase) → o ≡ some c → Own k x c))
  unfolding get_by_correlation_id
  correlated y =
      asking (get_by_correlation_id y) (λ o. (c : ResolutionCase) → o ≡ some c → Own k x c)
        (λ s l g. found-Own (lookup y s.by_correlation) s l g)

  -- A handler that acts on the case of an event, or parks the event's payload.
  pub found-Keeps :
      (o : Option ResolutionCase) {m : Handler (Unit {0})} {f : ResolutionCase → Handler (Unit {0})}
      → Kept m
      → ((c : ResolutionCase) → Own k x c → Kept (f c))
      → Triple Inv
          (λ s l. Inv s l × ((c : ResolutionCase) → o ≡ some c → Own k x c))
          (elim o as (λ _. Handler (Unit {0})) [ none ↦ m | some c ↦ f c ])
          (λ u. Inv)
  found-Keeps none hm hf = weaken (λ s l h. h.0) hm
  found-Keeps (some c) hm hf =
      given {F = Own k x c} (λ s l h. h.1 c refl) λ own. weaken (λ s l h. h.0) (hf c own)

  pub billing-Keeps :
      (e : Incoming) (p : Option BillingRefundAnalysisCompletedPayload)
      → Kept (billing_result_handler env e p)
  unfolding billing_result_handler park_billing_result
  billing-Keeps e none = pure_
  billing-Keeps e (some p) = bind (correlated e.correlation_id) λ o.
      found-Keeps o (parked (park_billing_result e.correlation_id p) (λ s. refl))
        (λ c own. attach_billing-Keeps e p c c.billing_task_id own)

  pub risk-Keeps :
      (e : Incoming) (p : Option RiskReviewCompletedPayload) → Kept (risk_result_handler env e p)
  unfolding risk_result_handler park_risk_result
  risk-Keeps e none = pure_
  risk-Keeps e (some p) = bind (correlated e.correlation_id) λ o.
      found-Keeps o (parked (park_risk_result e.correlation_id p) (λ s. refl))
        (λ c own. attach_risk-Keeps e p c c.risk_task_id own)

  keep_if-All :
      (P : ResolutionCase → Type 0) (f : ResolutionCase → Bool) (cs : List ResolutionCase)
      → All P cs
      → All P (keep_if f cs)
  keep_if-All P f [] h = tt
  keep_if-All P f (c ∷ cs) (h, hs) = elim (Bool-cases (f c)) [
    | inl e ↦ rw e (h, keep_if-All P f cs hs)
    | inr e ↦ rw e (keep_if-All P f cs hs)
  ]

  overdue :
      (at : ℕ)
      → Triple Inv Inv (of_store (list_timed_out_cases at)) (λ cs s l. Inv s l × All (Own k x) cs)
  unfolding list_timed_out_cases
  overdue at =
      asking (list_timed_out_cases at) (All (Own k x))
        (λ s l g. keep_if-All (Own k x) (is_timed_out at) (values s.cases) g.owned.1)

  sweep-Keeps : (cs : List ResolutionCase) → All (Own k x) cs → Kept (sweep env cs)
  unfolding sweep
  sweep-Keeps [] h = pure_
  sweep-Keeps (c ∷ cs) (own, hs) =
      after
        (bind (refetch-lem k x spent env Inv c own (λ s l g. g)) λ d.
          given {F = Own k x d} (λ s l f. f.own)
            λ own_d.
              weaken (λ s l f. f.holds)
                (when_ (not (is_terminal d.status) && not (is_decided d.status))
                  (λ o.
                    bind (reads_ env.uuid4)
                      λ cause. guard (apply_decision-Keeps d cause own_d) (λ e. pure_))
                  (λ o s l g. g)))
        (sweep-Keeps cs hs)

  pub reap-Keeps : Kept (reap env)
  unfolding reap
  reap-Keeps = bind (reads_ env.now) λ at. bind (overdue at) λ cs.
      given {F = All (Own k x) cs} (λ s l h. h.1) λ h. weaken (λ s l g. g.0) (sweep-Keeps cs h)
