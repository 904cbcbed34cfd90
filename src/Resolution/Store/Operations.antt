-- ===== src/Resolution/Store/Operations.antt =====
-- apps/agents/customer_resolution/state_store.py: the store's methods as one type of operations, and
-- the store after a list of them.
use decentralized_agentic_re.Prelude.{
  add, ℕ, ◌≡◌, Bool, Option, some, String, arith, ◌⊎◌, Option-cases, Bool-cases, inl, inr, List, [],
  ◌∷◌,
}
use decentralized_agentic_re.Prelude.Dict.{Uuid, lookup, insert}
use decentralized_agentic_re.Contracts.{
  BillingRefundAnalysisCompletedPayload, RiskReviewCompletedPayload,
}
use decentralized_agentic_re.Resolution.Models.{ResolutionCase, CaseStatus}
use decentralized_agentic_re.Resolution.Store.{
  CaseStore, NewCase, Finding, new_case, find, get_or_create, save, stale, next_version, transition,
  add_pending_task, apply_result, claim_decision, mark_slot_failed, park_billing_result,
  park_risk_result, set_deadline,
}
use decentralized_agentic_re.Prelude.{add}

-- One operation of the store with its arguments.
pub data Op : Type 0 where
  creates : NewCase → Op
  saves : ResolutionCase → Option ℕ → ℕ → Op
  moves : Uuid → CaseStatus → ℕ → Op
  adds : Uuid → Uuid → Op
  applies : Uuid → Uuid → Finding → ℕ → Op
  claims : Uuid → ℕ → Op
  fails : Uuid → Uuid → Bool → String → ℕ → Op
  parks_billing : Uuid → BillingRefundAnalysisCompletedPayload → Op
  parks_risk : Uuid → RiskReviewCompletedPayload → Op
  dates : Uuid → ℕ → Op

-- The store after an operation, whether it returned or raised.
unfoldable pub perform : Op → CaseStore → CaseStore
perform (creates n) s = (get_or_create n s).1
perform (saves c expected now) s = (save c expected now s).1
perform (moves id to now) s = (transition id to now s).1
perform (adds id task) s = (add_pending_task id task s).1
perform (applies id task f now) s = (apply_result id task f now s).1
perform (claims id now) s = (claim_decision id now s).1
perform (fails id task b reason now) s = (mark_slot_failed id task b reason now s).1
perform (parks_billing x p) s = (park_billing_result x p s).1
perform (parks_risk x p) s = (park_risk_result x p s).1
perform (dates id at) s = (set_deadline id at s).1

unfoldable pub perform_all : List Op → CaseStore → CaseStore
perform_all [] s = s
perform_all (o ∷ os) s = perform_all os (perform o s)

abbrev pub write : Uuid → ResolutionCase → Uuid → CaseStore → CaseStore
write id c x s = record s {
  cases = insert id c s.cases;
  by_correlation = insert x id s.by_correlation;
}

pub get_or_create_cases :
    (n : NewCase) (s : CaseStore)
    → ((get_or_create n s).1 ≡ s)
      ⊎ ((get_or_create n s).1 ≡ write n.case_id (new_case n) n.correlation_id s)
unfolding get_or_create
get_or_create_cases n s =
    elim (Option-cases (find (lookup n.correlation_id s.by_correlation) s.cases)) [
      | inr (c, e) ↦ inl (rw e)
      | inl e ↦ elim (Option-cases (lookup n.case_id s.cases)) [
        | inr (c, f) ↦ inl (rw (e, f))
        | inl f ↦ inr (rw (e, f))
      ]
    ]

abbrev pub saved : ResolutionCase → ℕ → CaseStore → ResolutionCase
saved c now s = record c { version = next_version (lookup c.case_id s.cases); updated_at = now }

pub save_cases :
    (c : ResolutionCase) (expected : Option ℕ) (now : ℕ) (s : CaseStore)
    → ((save c expected now s).1 ≡ s)
      ⊎ ((save c expected now s).1 ≡ write c.case_id (saved c now s) c.correlation_id s)
unfolding save
save_cases c expected now s = elim (Bool-cases (stale (lookup c.case_id s.cases) expected)) [
  | inl e ↦ inl (rw e)
  | inr e ↦ inr (rw e)
]

pub add_cases :
    (id task : Uuid) (s : CaseStore)
    → ((add_pending_task id task s).1 ≡ s)
      ⊎ ((c : ResolutionCase) × (lookup id s.cases ≡ some c)
          × ((add_pending_task id task s).1 ≡ record s {
            cases = insert id (record c { pending_tasks = add task c.pending_tasks }) s.cases;
            by_task_id = insert task id s.by_task_id;
          }))
unfolding add_pending_task
add_cases id task s = elim (Option-cases (lookup id s.cases)) [
  | inl e ↦ inl (ground arith)
  | inr (c, e) ↦ inr (c, e, ground arith)
]
