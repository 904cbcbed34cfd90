-- ===== src/Resolution/Store/Effects.antt =====
-- apps/agents/customer_resolution/state_store.py: what each store operation does to the table of
-- cases.
use decentralized_agentic_re.Prelude.{
  ℕ, suc, ◌≤◌, ◌≡◌, Bool, not, ◌||◌, none, some, String, arith, Option-cases, Bool-cases, inl, inr,
  add, member,
}
use decentralized_agentic_re.Prelude.Dict.{Uuid, lookup, insert}
use decentralized_agentic_re.Resolution.Models.{
  ResolutionCase, CaseStatus, decided, is_terminal, is_decided,
}
use decentralized_agentic_re.Resolution.Store.{
  CaseStore, NewCase, Finding, find, new_case, get_or_create, transition, add_pending_task,
  apply_result, claim_decision, mark_slot_failed, set_deadline, is_settled, attach, slot_failed,
}
use decentralized_agentic_re.Resolution.Store.Settled.{transition_cases, moved}

-- What no change of a stored case touches, and the version, which never goes down.
pub record Evolves (old new : ResolutionCase) : Type 0 where
  pub same_id : new.case_id ≡ old.case_id
  pub same_correlation : new.correlation_id ≡ old.correlation_id
  pub same_ticket : new.ticket_id ≡ old.ticket_id
  pub later_version : old.version ≤ new.version

-- The table as it was, or one case changed.
pub data Change (s s' : CaseStore) : Type 0 where
  kept : s'.cases ≡ s.cases → Change s s'
  replaced :
      (id : Uuid) (old new : ResolutionCase)
      → lookup id s.cases ≡ some old
      → Evolves old new
      → s'.cases ≡ insert id new s.cases
      → Change s s'

pub data Effect (s s' : CaseStore) : Type 0 where
  same : s'.cases ≡ s.cases → Effect s s'
  fresh :
      (n : NewCase)
      → lookup n.case_id s.cases ≡ none
      → s'.cases ≡ insert n.case_id (new_case n) s.cases
      → Effect s s'
  changed :
      (id : Uuid) (old new : ResolutionCase)
      → lookup id s.cases ≡ some old
      → Evolves old new
      → s'.cases ≡ insert id new s.cases
      → Effect s s'

widen : {s s' : CaseStore} → Change s s' → Effect s s'
widen (kept e) = same e
widen (replaced id old new f v e) = changed id old new f v e

module _ (s : CaseStore) where
  pub get_or_create-Effect : (n : NewCase) → Effect s (get_or_create n s).1
  unfolding get_or_create
  get_or_create-Effect n =
      elim (Option-cases (find (lookup n.correlation_id s.by_correlation) s.cases)) [
        | inr (c, e) ↦ same (rw e)
        | inl e ↦ elim (Option-cases (lookup n.case_id s.cases)) [
          | inr (c, f) ↦ same (rw (e, f))
          | inl f ↦ fresh n f (rw (e, f))
        ]
      ]

  pub add_pending_task-Effect : (id task : Uuid) → Effect s (add_pending_task id task s).1
  unfolding add_pending_task
  add_pending_task-Effect id task = elim (Option-cases (lookup id s.cases)) [
    | inl e ↦ same (ground arith)
    | inr (c, e) ↦
        changed id c (record c { pending_tasks = add task c.pending_tasks }) e (ground arith)
          (ground arith)
  ]

  pub transition-Effect :
      (id : Uuid) (to : CaseStatus) (now : ℕ) → Effect s (transition id to now s).1
  transition-Effect id to now = elim (transition_cases id to now s) [
    | inl e ↦ same (rw e)
    | inr (c, e, allowed, e') ↦ changed id c (moved to now c) e (ground arith) (rw e')
  ]

  pub apply_result-Change :
      (id task : Uuid) (f : Finding) (now : ℕ) → Change s (apply_result id task f now s).1
  unfolding apply_result attach
  apply_result-Change id task f now = elim (Option-cases (lookup id s.cases)) [
    | inl e ↦ kept (ground arith)
    | inr (c, e) ↦ elim (Bool-cases (is_settled c.status || not (member task c.pending_tasks))) [
      | inl stay ↦ kept (ground arith)
      | inr go ↦ replaced id c (attach task f now c) e (ground arith) (ground arith)
    ]
  ]

  pub apply_result-Effect :
      (id task : Uuid) (f : Finding) (now : ℕ) → Effect s (apply_result id task f now s).1
  apply_result-Effect id task f now = widen (apply_result-Change id task f now)

  pub claim_decision-Change : (id : Uuid) (now : ℕ) → Change s (claim_decision id now s).1
  unfolding claim_decision
  claim_decision-Change id now = elim (Option-cases (lookup id s.cases)) [
    | inl e ↦ kept (ground arith)
    | inr (c, e) ↦ elim (Bool-cases (is_decided c.status || is_terminal c.status)) [
      | inl stay ↦ kept (ground arith)
      | inr go ↦
          replaced id c (record c { status = decided; updated_at = now; version = suc c.version }) e
            (ground arith) (ground arith)
    ]
  ]

  pub claim_decision-Effect : (id : Uuid) (now : ℕ) → Effect s (claim_decision id now s).1
  claim_decision-Effect id now = widen (claim_decision-Change id now)

  pub mark_slot_failed-Change :
      (id task : Uuid) (is_billing : Bool) (reason : String) (now : ℕ)
      → Change s (mark_slot_failed id task is_billing reason now s).1
  unfolding mark_slot_failed
  mark_slot_failed-Change id task is_billing reason now = elim (Option-cases (lookup id s.cases)) [
    | inl e ↦ kept (ground arith)
    | inr (c, e) ↦ elim (Bool-cases (is_terminal c.status)) [
      | inl stay ↦ kept (ground arith)
      | inr go ↦
          replaced id c (slot_failed task is_billing reason now c) e (ground arith) (ground arith)
    ]
  ]

  pub mark_slot_failed-Effect :
      (id task : Uuid) (is_billing : Bool) (reason : String) (now : ℕ)
      → Effect s (mark_slot_failed id task is_billing reason now s).1
  mark_slot_failed-Effect id task is_billing reason now =
      widen (mark_slot_failed-Change id task is_billing reason now)

  pub set_deadline-Effect : (id at : Uuid) → Effect s (set_deadline id at s).1
  unfolding set_deadline
  set_deadline-Effect id at = elim (Option-cases (lookup id s.cases)) [
    | inl e ↦ same (ground arith)
    | inr (c, e) ↦ changed id c (record c { deadline_at = some at }) e (ground arith) (ground arith)
  ]
