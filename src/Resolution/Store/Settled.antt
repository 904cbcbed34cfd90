-- ===== src/Resolution/Store/Settled.antt =====
-- apps/agents/customer_resolution/state_store.py: decided and terminal cases under each store
-- operation.
use decentralized_agentic_re.Prelude.{
  ℕ, suc, ◌≡◌, ◌≢◌, Bool, true, false, not, Option, none, some, String, arith, add, ◌⊎◌, ◌==◌,
  Option-cases, Bool-cases, inl, inr, ==_iff, if◌then◌else◌,
}
use decentralized_agentic_re.Prelude.Dict.{Uuid, Dict, lookup, insert, lookup-insert}
use decentralized_agentic_re.Prelude.Exec.{ok}
use decentralized_agentic_re.Resolution.Models.{
  ResolutionCase, CaseStatus, decided, response_drafted, is_terminal, can_transition,
  assert_transition,
}
use decentralized_agentic_re.Resolution.Store.{
  CaseStore, NewCase, Finding, put, get_or_create, save, transition, add_pending_task, apply_result,
  claim_decision, mark_slot_failed, set_deadline, is_settled, attach, find, new_case, slot_failed,
  stale,
}

abbrev pub status_settled : Option ResolutionCase → Bool
status_settled none = false
status_settled (some c) = is_settled c.status

-- The case is decided or in a terminal status.
abbrev pub settled_at : Uuid → CaseStore → Bool
settled_at k s = status_settled (lookup k s.cases)

-- One lemma serves every write: it is settled where it was, if the new case is.
pub settled-insert :
    (k id : Uuid) (c : ResolutionCase) (d : Dict ResolutionCase)
    → status_settled (lookup k (insert id c d))
      ≡ (if id == k then is_settled c.status else status_settled (lookup k d))
settled-insert k id c d = rw lookup-insert (ground arith)

abbrev pub moved : CaseStatus → ℕ → ResolutionCase → ResolutionCase
moved to now c = record c { status = to; version = suc c.version; updated_at = now }

-- A transition changes nothing, or moves its case along an arrow of the table.
pub transition_cases :
    (id : Uuid) (to : CaseStatus) (now : ℕ) (s : CaseStore)
    → ((transition id to now s).1 ≡ s)
      ⊎ ((c : ResolutionCase) × (lookup id s.cases ≡ some c)
          × (can_transition c.status to ≡ true)
          × ((transition id to now s).1 ≡ put id (moved to now c) s))
unfolding transition assert_transition
transition_cases id to now s = elim (Option-cases (lookup id s.cases)) [
  | inl e ↦ inl (ground arith)
  | inr (c, e) ↦ elim (Bool-cases (can_transition c.status to)) [
    | inl allowed ↦ inr (c, e, allowed, ground arith)
    | inr refused ↦ inl (ground arith)
  ]
]

allowed_settled :
    (a to : CaseStatus)
    → to ≢ response_drafted
    → can_transition a to ≡ true
    → is_settled a ≡ true
    → is_settled to ≡ true
unfolding can_transition is_terminal
allowed_settled a to ne allowed h = ground arith

module _ (k : Uuid) (s : CaseStore) (h : settled_at k s ≡ true) where
  pub claim-settled : (id : Uuid) (now : ℕ) → settled_at k (claim_decision id now s).1 ≡ true
  unfolding claim_decision
  claim-settled id now = elim (Option-cases (lookup id s.cases)) [
    | inl e ↦ ground arith
    | inr (c, e) ↦ ground (
      arith,
      settled-insert k id (record c { status = decided; updated_at = now; version = suc c.version })
          s.cases,
    )
  ]

  pub apply-settled :
      (id task : Uuid) (f : Finding) (now : ℕ)
      → settled_at k (apply_result id task f now s).1 ≡ true
  unfolding apply_result
  apply-settled id task f now = elim (Option-cases (lookup id s.cases)) [
    | inl e ↦ ground arith
    | inr (c, e) ↦ ground (arith, settled-insert k id (attach task f now c) s.cases, ==_iff id k)
  ]

  pub create-settled : (n : NewCase) → settled_at k (get_or_create n s).1 ≡ true
  unfolding get_or_create
  create-settled n = elim (Option-cases (find (lookup n.correlation_id s.by_correlation) s.cases)) [
    | inr (c, e) ↦ rw e h
    | inl e ↦ elim (Option-cases (lookup n.case_id s.cases)) [
      | inr (c, f) ↦ rw (e, f) h
      | inl f ↦
          rw (e, f)
            (ground (arith, settled-insert k n.case_id (new_case n) s.cases, ==_iff n.case_id k))
    ]
  ]

  pub add-settled : (id task : Uuid) → settled_at k (add_pending_task id task s).1 ≡ true
  unfolding add_pending_task
  add-settled id task = elim (Option-cases (lookup id s.cases)) [
    | inl e ↦ ground arith
    | inr (c, e) ↦ ground (
      arith,
      settled-insert k id (record c { pending_tasks = add task c.pending_tasks }) s.cases,
      ==_iff id k,
    )
  ]

  pub mark-settled :
      (id task : Uuid) (is_billing : Bool) (reason : String) (now : ℕ)
      → settled_at k (mark_slot_failed id task is_billing reason now s).1 ≡ true
  unfolding mark_slot_failed
  mark-settled id task is_billing reason now = elim (Option-cases (lookup id s.cases)) [
    | inl e ↦ ground arith
    | inr (c, e) ↦
        ground (
          arith,
          settled-insert k id (slot_failed task is_billing reason now c) s.cases,
          ==_iff id k,
        )
  ]

  pub deadline-settled : (id at : Uuid) → settled_at k (set_deadline id at s).1 ≡ true
  unfolding set_deadline
  deadline-settled id at = elim (Option-cases (lookup id s.cases)) [
    | inl e ↦ ground arith
    | inr (c, e) ↦
        ground
          (arith, settled-insert k id (record c { deadline_at = some at }) s.cases, ==_iff id k)
  ]

  pub transition-settled :
      (id : Uuid) (to : CaseStatus) (now : ℕ)
      → to ≢ response_drafted
      → settled_at k (transition id to now s).1 ≡ true
  transition-settled id to now ne = elim (transition_cases id to now s) [
    | inl e ↦ rw e h
    | inr (c, e, allowed, e') ↦ ground (
      arith,
      allowed_settled c.status to ne allowed,
      settled-insert k id (moved to now c) s.cases,
      ==_iff id k,
    )
  ]

  pub save-settled :
      (c : ResolutionCase) (expected : Option ℕ) (now : ℕ)
      → (c.case_id ≡ k → is_settled c.status ≡ true)
      → settled_at k (save c expected now s).1 ≡ true
  unfolding save
  save-settled c expected now keep = elim (Bool-cases (stale (lookup c.case_id s.cases) expected)) [
    | inl e ↦ rw e h
    | inr e ↦
        rw (e, lookup-insert)
          (elim (Bool-cases (c.case_id == k)) [
            | inl same ↦ rw same (keep ((==_iff c.case_id k).0 same))
            | inr other ↦ rw other h
          ])
  ]

abbrev pub is_open : Option ResolutionCase → Bool
is_open none = false
is_open (some c) = not (is_settled c.status)

-- A claim that succeeds settles its case.
pub claim_wins :
    (k : Uuid) (now : ℕ) (s : CaseStore)
    → (claim_decision k now s).0 ≡ ok true
    → (settled_at k s ≡ false) × (settled_at k (claim_decision k now s).1 ≡ true)
unfolding claim_decision is_terminal
claim_wins k now s h = elim (Option-cases (lookup k s.cases)) [
  | inl e ↦ ground arith
  | inr (c, e) ↦ ground (
    arith,
    settled-insert k k (record c { status = decided; updated_at = now; version = suc c.version })
        s.cases,
  )
]
