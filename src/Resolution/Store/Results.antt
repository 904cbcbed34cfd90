-- ===== src/Resolution/Store/Results.antt =====
-- apps/agents/customer_resolution/state_store.py: `apply_result`, its outcomes and its effect on the
-- store.
use decentralized_agentic_re.Prelude.{
  ℕ, suc, ◌≡◌, ◌≢◌, refl, sym, true, false, some, arith, Option-cases, inl, inr, ==_refl, List, [],
  ◌∷◌, member, discard, is_empty, member-discard, member-discard_self, discard_comm,
  is_empty_of_member,
}
use decentralized_agentic_re.Prelude.Dict.{Uuid, lookup, lookup-insert, insert-insert}
use decentralized_agentic_re.Prelude.Exec.{ok}
use decentralized_agentic_re.Resolution.Models.{
  ResolutionCase, BillingFinding, RiskFinding, ready_for_decision, is_terminal,
}
use decentralized_agentic_re.Resolution.Store.{
  CaseStore, Finding, of_billing, of_risk, attached, duplicate, put, apply_result, is_settled,
  attach, can_transition_to_ready,
}

-- The case is stored under `id`, neither decided nor terminal, and waits for the task.
pub record Awaits (id task : Uuid) (c : ResolutionCase) (s : CaseStore) : Type 0 where
  pub stored : lookup id s.cases ≡ some c
  pub open_status : is_settled c.status ≡ false
  pub pending : member task c.pending_tasks ≡ true

pub apply_awaited :
    (id task : Uuid) (f : Finding) (now : ℕ) (c : ResolutionCase) (s : CaseStore)
    → Awaits id task c s
    → apply_result id task f now s ≡ (ok attached, put id (attach task f now c) s)
unfolding apply_result
apply_awaited id task f now c s a = ground arith

awaited_of_attached :
    (id task : Uuid) (f : Finding) (now : ℕ) (s : CaseStore)
    → (apply_result id task f now s).0 ≡ ok attached
    → (c : ResolutionCase) × Awaits id task c s
unfolding apply_result is_terminal
awaited_of_attached id task f now s h = elim (Option-cases (lookup id s.cases)) [
  | inl e ↦ absurd (ground arith)
  | inr (c, e) ↦ (c, record { stored = e; open_status = ground arith; pending = ground arith })
]

-- A result that is not attached, for an unknown case, a settled one or a task that is not pending,
-- leaves the whole store as it is.
pub apply_unattached :
    (id task : Uuid) (f : Finding) (now : ℕ) (s : CaseStore)
    → (apply_result id task f now s).0 ≢ ok attached
    → (apply_result id task f now s).1 ≡ s
unfolding apply_result
apply_unattached id task f now s h = elim (Option-cases (lookup id s.cases)) [
  | inl e ↦ ground arith
  | inr (c, e) ↦ ground arith
]

pending-attach :
    (task : Uuid) (f : Finding) (now : ℕ) (c : ResolutionCase)
    → (attach task f now c).pending_tasks ≡ discard task c.pending_tasks
unfolding attach
pending-attach task f now c = refl

apply_not_pending :
    (id task : Uuid) (f : Finding) (now : ℕ) (c : ResolutionCase) (s : CaseStore)
    → lookup id s.cases ≡ some c
    → member task c.pending_tasks ≡ false
    → apply_result id task f now s ≡ (ok duplicate, s)
unfolding apply_result
apply_not_pending id task f now c s e m = ground arith

lookup-put :
    (id : Uuid) (c : ResolutionCase) (s : CaseStore) → lookup id (put id c s).cases ≡ some c
lookup-put id c s = rw lookup-insert (rw ==_refl)

-- A result is attached once: when a second one for the same task arrives, whatever it says, the
-- answer is `duplicate` and the store stays as it is.
pub apply_twice :
    (id task : Uuid) (f g : Finding) (now later : ℕ) (s : CaseStore)
    → (apply_result id task f now s).0 ≡ ok attached
    → let s' = (apply_result id task f now s).1 in
      apply_result id task g later s' ≡ (ok duplicate, s')
apply_twice id task f g now later s h =
    let (c, a) = awaited_of_attached id task f now s h in
    let c' = attach task f now c in
    rw (apply_awaited id task f now c s a) (
      apply_not_pending id task g later c' (put id c' s) (lookup-put id c' s)
        (rw pending-attach (member-discard_self task c.pending_tasks)))

attach-settled :
    (task : Uuid) (f : Finding) (now : ℕ) (c : ResolutionCase)
    → is_settled c.status ≡ false
    → is_settled (attach task f now c).status ≡ false
unfolding attach is_terminal
attach-settled task f now c h = ground arith

member_left :
    (a b : Uuid) (xs : List Uuid) → member b xs ≡ true → a ≢ b → member b (discard a xs) ≡ true
member_left a b xs m ne = rw member-discard (ground arith)

others_left :
    (a b : Uuid) (xs : List Uuid) → member b xs ≡ true → a ≢ b → is_empty (discard a xs) ≡ false
others_left a b xs m ne = is_empty_of_member b (discard a xs) (member_left a b xs m ne)

-- The two findings of a case that waits for both, attached one after the other: the case keeps the
-- time of the later one only.
attach_comm :
    (tb tr : Uuid) (x : BillingFinding) (y : RiskFinding) (t u v at : ℕ) (c : ResolutionCase)
    → member tb c.pending_tasks ≡ true
    → member tr c.pending_tasks ≡ true
    → tb ≢ tr
    → attach tb (of_billing x) at (attach tr (of_risk y) v c)
      ≡ record (attach tr (of_risk y) u (attach tb (of_billing x) t c)) { updated_at = at }
unfolding attach
attach_comm tb tr x y t u v at c mb mr ne =
    simp
      (
        others_left tb tr c.pending_tasks mr ne,
        others_left tr tb c.pending_tasks mb (λ e. ne (sym e)),
      )
      (rw (discard_comm tr tb c.pending_tasks) refl)

module _ (id tb tr : Uuid) (x : BillingFinding) (y : RiskFinding) (t u v at : ℕ)
    (c : ResolutionCase) (s : CaseStore) (ab : Awaits id tb c s) (ar : Awaits id tr c s)
    (ne : tb ≢ tr) where
  after_billing :
      Awaits id tr (attach tb (of_billing x) t c) (put id (attach tb (of_billing x) t c) s)
  after_billing = record {
    stored = lookup-put id (attach tb (of_billing x) t c) s;
    open_status = attach-settled tb (of_billing x) t c ab.open_status;
    pending = rw pending-attach (member_left tb tr c.pending_tasks ar.pending ne);
  }

  after_risk : Awaits id tb (attach tr (of_risk y) v c) (put id (attach tr (of_risk y) v c) s)
  after_risk = record {
    stored = lookup-put id (attach tr (of_risk y) v c) s;
    open_status = attach-settled tr (of_risk y) v c ar.open_status;
    pending = rw pending-attach (member_left tr tb c.pending_tasks ab.pending (λ e. ne (sym e)));
  }

  first_way :
      put id
        (attach tr (of_risk y) u (attach tb (of_billing x) t c))
        (put id (attach tb (of_billing x) t c) s)
      ≡ put id
          (record (attach tr (of_risk y) u (attach tb (of_billing x) t c)) { updated_at = u })
          s
  unfolding attach
  first_way = rw insert-insert refl

  second_way :
      put id
        (attach tb (of_billing x) at (attach tr (of_risk y) v c))
        (put id (attach tr (of_risk y) v c) s)
      ≡ put id
          (record (attach tr (of_risk y) u (attach tb (of_billing x) t c)) { updated_at = at })
          s
  second_way =
      rw insert-insert (rw (attach_comm tb tr x y t u v at c ab.pending ar.pending ne) refl)

  -- A case that waits for two tasks takes the billing finding and the risk finding in either order, each
  -- attached at a time of its own: both are attached, and the stores afterwards differ at most in the
  -- `updated_at` of the case, which is the time of the second.
  pub apply_results_comm :
      let first = apply_result id tb (of_billing x) t s in
      let second = apply_result id tr (of_risk y) u first.1 in
      let first' = apply_result id tr (of_risk y) v s in
      let second' = apply_result id tb (of_billing x) at first'.1 in
      (first.0 ≡ ok attached)
      × (second.0 ≡ ok attached)
      × (first'.0 ≡ ok attached)
      × (second'.0 ≡ ok attached)
      × ((d : ResolutionCase) × (second.1 ≡ put id (record d { updated_at = u }) s)
          × (second'.1 ≡ put id (record d { updated_at = at }) s))
  apply_results_comm =
      rw
        (
          apply_awaited id tb (of_billing x) t c s ab,
          apply_awaited id tr (of_risk y) v c s ar,
          apply_awaited id tr (of_risk y) u _ _ after_billing,
          apply_awaited id tb (of_billing x) at _ _ after_risk,
        )
        (
          refl,
          refl,
          refl,
          refl,
          (attach tr (of_risk y) u (attach tb (of_billing x) t c), first_way, second_way),
        )

two_taken : (a b : Uuid) (xs : List Uuid) → xs ≡ a ∷ b ∷ [] → discard b (discard a xs) ≡ []
two_taken a b xs e = rw e (ground arith)

second_pending : (a b : Uuid) (xs : List Uuid) → xs ≡ a ∷ b ∷ [] → member b xs ≡ true
second_pending a b xs e = rw e (ground arith)

-- After both findings of a case that waits for exactly these two tasks, nothing is pending, both
-- findings are there and the case is ready for its decision.
pub both_results_ready :
    (tb tr : Uuid) (x : BillingFinding) (y : RiskFinding) (now later : ℕ) (c : ResolutionCase)
    → c.pending_tasks ≡ tb ∷ tr ∷ []
    → tb ≢ tr
    → can_transition_to_ready c.status ≡ true
    → let c' = attach tr (of_risk y) later (attach tb (of_billing x) now c) in
      (c'.pending_tasks ≡ [])
      × (c'.billing_result ≡ some x)
      × (c'.risk_result ≡ some y)
      × (c'.status ≡ ready_for_decision)
      × (c'.version ≡ suc (suc c.version))
unfolding attach
both_results_ready tb tr x y now later c e ne r =
    simp
      (
        two_taken tb tr c.pending_tasks e,
        others_left tb tr c.pending_tasks (second_pending tb tr c.pending_tasks e) ne,
        r,
      )
      (refl, refl, refl, refl, refl)
