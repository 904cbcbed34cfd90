-- ===== src/Resolution/Store/Invariant.antt =====
-- apps/agents/customer_resolution/state_store.py: the invariant of the case store.
use mathlib.Core.Path.{subst}
use decentralized_agentic_re.Prelude.{
  ℕ, ◌≤◌, ◌≡◌, refl, ◌∙◌, Bool, true, Option, some, String, arith, Bool-cases, inl, inr, List, [],
  ◌∷◌, length, length-append, ◌==◌, ==_iff, ==_refl, if◌then◌else◌,
}
use decentralized_agentic_re.Prelude.Dict.{Uuid, Dict, lookup, insert, contains, lookup-insert}
use decentralized_agentic_re.Contracts.{
  BillingRefundAnalysisCompletedPayload, RiskReviewCompletedPayload,
}
use decentralized_agentic_re.Resolution.Models.{ResolutionCase, CaseStatus}
use decentralized_agentic_re.Resolution.Store.{
  CaseStore, empty, NewCase, Finding, new_case, get_or_create, save, transition, add_pending_task,
  apply_result, claim_decision, mark_slot_failed, park_billing_result, park_risk_result,
  set_deadline, append_bounded, parked_buffer_max,
}
use decentralized_agentic_re.Resolution.Store.Operations.{
  Op, creates, saves, moves, adds, applies, claims, fails, parks_billing, parks_risk, dates,
  perform, perform_all, write, saved, get_or_create_cases, save_cases, add_cases,
}
use decentralized_agentic_re.Prelude.{add}
use decentralized_agentic_re.Resolution.Store.Settled.{transition_cases, moved}
use decentralized_agentic_re.Resolution.Store.Effects.{
  Effect, same, fresh, changed, apply_result-Effect, claim_decision-Effect, mark_slot_failed-Effect,
  set_deadline-Effect,
}

-- Every entry of an index names a case that is stored.
abbrev pub Points : Dict Uuid → Dict ResolutionCase → Type 0
Points index cases = (x k : Uuid) → lookup x index ≡ some k → contains k cases ≡ true

-- A case is stored under its own id, both indexes name stored cases, and the parking buffers are
-- bounded.
pub record IsWellFormed (s : CaseStore) : Type 0 where
  pub keyed : (k : Uuid) (c : ResolutionCase) → lookup k s.cases ≡ some c → c.case_id ≡ k
  pub correlated : Points s.by_correlation s.cases
  pub tasked : Points s.by_task_id s.cases
  pub billing_bounded : length s.parked_billing ≤ parked_buffer_max
  pub risk_bounded : length s.parked_risk ≤ parked_buffer_max

contains-insert :
    {V : Type 0} (k j : Uuid) (v : V) (d : Dict V)
    → contains j d ≡ true
    → contains j (insert k v d) ≡ true
contains-insert k j v d h = rw lookup-insert (ground arith)

contains-insert_self :
    {V : Type 0} (k : Uuid) (v : V) (d : Dict V) → contains k (insert k v d) ≡ true
contains-insert_self k v d = rw lookup-insert (rw ==_refl)

insert-keyed :
    (id k : Uuid) (new c : ResolutionCase) (d : Dict ResolutionCase)
    → new.case_id ≡ id
    → (lookup k d ≡ some c → c.case_id ≡ k)
    → lookup k (insert id new d) ≡ some c
    → c.case_id ≡ k
insert-keyed id k new c d e h l =
    let l' : (if id == k then some new else lookup k d) ≡ some c = rw lookup-insert at l in
    ground (arith, ==_iff id k)

Effect-contains :
    {s s' : CaseStore}
    → Effect s s'
    → (k : Uuid) → contains k s.cases ≡ true
    → contains k s'.cases ≡ true
Effect-contains (same e) k h = rw e h
Effect-contains {s} (fresh n f e) k h = rw e (contains-insert n.case_id k (new_case n) s.cases h)
Effect-contains {s} (changed id old new f v e) k h = rw e (contains-insert id k new s.cases h)

Effect-keyed :
    {s s' : CaseStore}
    → Effect s s'
    → IsWellFormed s
    → (k : Uuid) (c : ResolutionCase) → lookup k s'.cases ≡ some c
    → c.case_id ≡ k
Effect-keyed (same e) w k c l = w.keyed k c (rw e at l)
Effect-keyed {s} (fresh n f e) w k c l =
    insert-keyed n.case_id k (new_case n) c s.cases refl (w.keyed k c) (rw e at l)
Effect-keyed {s} (changed id old new f v e) w k c l =
    insert-keyed id k new c s.cases (v.same_id ∙ w.keyed id old f) (w.keyed k c) (rw e at l)

-- An operation that touches only the table of cases.
module _ {s s' : CaseStore} (eff : Effect s s') (w : IsWellFormed s) where
  kept :
      s'.by_correlation ≡ s.by_correlation
      → s'.by_task_id ≡ s.by_task_id
      → s'.parked_billing ≡ s.parked_billing
      → s'.parked_risk ≡ s.parked_risk
      → IsWellFormed s'
  kept c t b r = record {
    keyed = Effect-keyed eff w;
    correlated = λ x k l. Effect-contains eff k (w.correlated x k (rw c at l));
    tasked = λ x k l. Effect-contains eff k (w.tasked x k (rw t at l));
    billing_bounded = rw b w.billing_bounded;
    risk_bounded = rw r w.risk_bounded;
  }

Points-insert :
    (x id : Uuid) (index : Dict Uuid) (cases cases' : Dict ResolutionCase)
    → Points index cases
    → ((k : Uuid) → contains k cases ≡ true → contains k cases' ≡ true)
    → contains id cases' ≡ true
    → Points (insert x id index) cases'
Points-insert x id index cases cases' p grow here y k l =
    let l' : (if x == y then some id else lookup y index) ≡ some k = rw lookup-insert at l in
    elim (Bool-cases (x == y)) [
      | inl e ↦
          let q : some id ≡ some k = rw e at l' in
          let r : id ≡ k = cc in subst (λ z. contains z cases' ≡ true) r here
      | inr e ↦ grow k (p y k (rw e at l'))
    ]

length-append_bounded :
    {A : Type 0} (n : ℕ) (xs : List A) (x : A) → length xs ≤ n → length (append_bounded n xs x) ≤ n
unfolding append_bounded
length-append_bounded n [] x h = ground arith
length-append_bounded n (y ∷ ys) x h = ground (arith, length-append {0} ys (x ∷ []))

module _ (s : CaseStore) (w : IsWellFormed s) where
  grows :
      (id : Uuid) (c : ResolutionCase) (k : Uuid)
      → contains k s.cases ≡ true
      → contains k (insert id c s.cases) ≡ true
  grows id c k h = contains-insert id k c s.cases h

  write-IsWellFormed :
      (id : Uuid) (c : ResolutionCase) (x : Uuid) → c.case_id ≡ id → IsWellFormed (write id c x s)
  write-IsWellFormed id c x e = record {
    keyed = λ k d l. insert-keyed id k c d s.cases e (w.keyed k d) l;
    correlated =
        Points-insert x id s.by_correlation s.cases (insert id c s.cases) w.correlated (grows id c)
          (contains-insert_self id c s.cases);
    tasked = λ y k l. grows id c k (w.tasked y k l);
    billing_bounded = w.billing_bounded;
    risk_bounded = w.risk_bounded;
  }

  create-IsWellFormed : (n : NewCase) → IsWellFormed (get_or_create n s).1
  create-IsWellFormed n = elim (get_or_create_cases n s) [
    | inl e ↦ rw e w
    | inr e ↦ rw e (write-IsWellFormed n.case_id (new_case n) n.correlation_id refl)
  ]

  save-IsWellFormed :
      (c : ResolutionCase) (expected : Option ℕ) (now : ℕ) → IsWellFormed (save c expected now s).1
  save-IsWellFormed c expected now = elim (save_cases c expected now s) [
    | inl e ↦ rw e w
    | inr e ↦ rw e (write-IsWellFormed c.case_id (saved c now s) c.correlation_id refl)
  ]

  added-IsWellFormed :
      (id task : Uuid) (c new : ResolutionCase)
      → lookup id s.cases ≡ some c
      → new.case_id ≡ c.case_id
      → IsWellFormed
          (record s { cases = insert id new s.cases; by_task_id = insert task id s.by_task_id })
  added-IsWellFormed id task c new f e = record {
    keyed = λ k d l. insert-keyed id k new d s.cases (e ∙ w.keyed id c f) (w.keyed k d) l;
    correlated = λ y k l. grows id new k (w.correlated y k l);
    tasked =
        Points-insert task id s.by_task_id s.cases (insert id new s.cases) w.tasked (grows id new)
          (contains-insert_self id new s.cases);
    billing_bounded = w.billing_bounded;
    risk_bounded = w.risk_bounded;
  }

  add-IsWellFormed : (id task : Uuid) → IsWellFormed (add_pending_task id task s).1
  add-IsWellFormed id task = elim (add_cases id task s) [
    | inl e ↦ rw e w
    | inr (c, f, e) ↦ rw e (
        added-IsWellFormed id task c (record c { pending_tasks = add task c.pending_tasks }) f refl)
  ]

  transition-IsWellFormed :
      (id : Uuid) (to : CaseStatus) (now : ℕ) → IsWellFormed (transition id to now s).1
  transition-IsWellFormed id to now = elim (transition_cases id to now s) [
    | inl e ↦ rw e w
    | inr (c, f, allowed, e) ↦
        rw e (kept (changed id c (moved to now c) f (ground arith) refl) w refl refl refl refl)
  ]

  apply-IsWellFormed :
      (id task : Uuid) (f : Finding) (now : ℕ) → IsWellFormed (apply_result id task f now s).1
  unfolding apply_result
  apply-IsWellFormed id task f now =
      kept (apply_result-Effect s id task f now) w (ground arith) (ground arith) (ground arith)
        (ground arith)

  claim-IsWellFormed : (id : Uuid) (now : ℕ) → IsWellFormed (claim_decision id now s).1
  unfolding claim_decision
  claim-IsWellFormed id now =
      kept (claim_decision-Effect s id now) w (ground arith) (ground arith) (ground arith)
        (ground arith)

  fail-IsWellFormed :
      (id task : Uuid) (b : Bool) (reason : String) (now : ℕ)
      → IsWellFormed (mark_slot_failed id task b reason now s).1
  unfolding mark_slot_failed
  fail-IsWellFormed id task b reason now =
      kept (mark_slot_failed-Effect s id task b reason now) w (ground arith) (ground arith)
        (ground arith) (ground arith)

  deadline-IsWellFormed : (id at : Uuid) → IsWellFormed (set_deadline id at s).1
  unfolding set_deadline
  deadline-IsWellFormed id at =
      kept (set_deadline-Effect s id at) w (ground arith) (ground arith) (ground arith)
        (ground arith)

  park_billing-IsWellFormed :
      (x : Uuid) (p : BillingRefundAnalysisCompletedPayload)
      → IsWellFormed (park_billing_result x p s).1
  unfolding park_billing_result
  park_billing-IsWellFormed x p = record {
    keyed = w.keyed;
    correlated = w.correlated;
    tasked = w.tasked;
    billing_bounded =
        length-append_bounded parked_buffer_max s.parked_billing (x, p) w.billing_bounded;
    risk_bounded = w.risk_bounded;
  }

  park_risk-IsWellFormed :
      (x : Uuid) (p : RiskReviewCompletedPayload) → IsWellFormed (park_risk_result x p s).1
  unfolding park_risk_result
  park_risk-IsWellFormed x p = record {
    keyed = w.keyed;
    correlated = w.correlated;
    tasked = w.tasked;
    billing_bounded = w.billing_bounded;
    risk_bounded = length-append_bounded parked_buffer_max s.parked_risk (x, p) w.risk_bounded;
  }

  -- Every operation keeps the invariant, when it raises too: each case stands under its own id, the
  -- indexes by correlation and by task name stored cases only, and each parking buffer holds at most
  -- 200 results.
  pub perform-IsWellFormed : (o : Op) → IsWellFormed (perform o s)
  unfolding perform
  perform-IsWellFormed (creates n) = create-IsWellFormed n
  perform-IsWellFormed (saves c expected now) = save-IsWellFormed c expected now
  perform-IsWellFormed (moves id to now) = transition-IsWellFormed id to now
  perform-IsWellFormed (adds id task) = add-IsWellFormed id task
  perform-IsWellFormed (applies id task f now) = apply-IsWellFormed id task f now
  perform-IsWellFormed (claims id now) = claim-IsWellFormed id now
  perform-IsWellFormed (fails id task b reason now) = fail-IsWellFormed id task b reason now
  perform-IsWellFormed (parks_billing x p) = park_billing-IsWellFormed x p
  perform-IsWellFormed (parks_risk x p) = park_risk-IsWellFormed x p
  perform-IsWellFormed (dates id at) = deadline-IsWellFormed id at

empty-IsWellFormed : IsWellFormed empty
unfolding lookup
empty-IsWellFormed = record {
  keyed = λ k c l. cc;
  correlated = λ x k l. cc;
  tasked = λ x k l. cc;
  billing_bounded = omega arith;
  risk_bounded = omega arith;
}

run : (os : List Op) (s : CaseStore) → IsWellFormed s → IsWellFormed (perform_all os s)
unfolding perform_all
run [] s w = w
run (o ∷ os) s w = run os (perform o s) (perform-IsWellFormed s w o)

-- Every store that is reached from the empty one by any operations, those that raise included, is
-- well formed: each case stands under its own id, both indexes name stored cases only, and each
-- parking buffer holds at most 200 results.
pub perform_all-IsWellFormed : (os : List Op) → IsWellFormed (perform_all os empty)
perform_all-IsWellFormed os = run os empty empty-IsWellFormed
