-- ===== src/Resolution/Store.antt =====
-- apps/agents/customer_resolution/state_store.py: the in-memory case store. Its lock makes every
-- method one step, so a method is an action on the store's state. The clock is read once in a method,
-- and enters as `now`. Logging is left out.
pub mod Settled
pub mod Effects
pub mod Operations
pub mod Invariant
pub mod Results
pub mod Claims
pub mod Versions
pub mod Timeouts
use decentralized_agentic_re.Prelude.{
  ℕ, ◌+◌, suc, String, Bool, true, false, not, ◌&&◌, ◌||◌, Option, none, some, List, [], ◌∷◌, ◌++◌,
  ltb, ◌==◌, length, is_empty, is_none, member, add, discard, keep_if, if◌then◌else◌,
}
use decentralized_agentic_re.Prelude.Int.{ℤ}
use decentralized_agentic_re.Prelude.Dict.{Uuid, Dict, lookup, contains, insert, values}
use decentralized_agentic_re.Prelude.Exec.{Result, ok, err, Exec, key_error, save_conflict}
use decentralized_agentic_re.Contracts.{
  BillingRefundAnalysisCompletedPayload, RiskReviewCompletedPayload,
}
use decentralized_agentic_re.Resolution.Models.{
  ResolutionCase, BillingFinding, RiskFinding, CaseStatus, received, classified,
  waiting_for_peer_reviews, ready_for_decision, decided, is_terminal, is_decided, is_past,
  assert_transition,
}

pub data AttachOutcome : Type 0 where
  attached : AttachOutcome
  unknown_case : AttachOutcome
  duplicate : AttachOutcome

-- `finding: BillingFinding | RiskFinding`
pub data Finding : Type 0 where
  of_billing : BillingFinding → Finding
  of_risk : RiskFinding → Finding

pub record CaseStore : Type 0 where
  pub cases : Dict ResolutionCase
  pub by_correlation : Dict Uuid
  pub by_task_id : Dict Uuid
  pub parked_billing : List (Uuid × BillingRefundAnalysisCompletedPayload)
  pub parked_risk : List (Uuid × RiskReviewCompletedPayload)

abbrev pub empty : CaseStore
empty = record {
  cases = [];
  by_correlation = [];
  by_task_id = [];
  parked_billing = [];
  parked_risk = [];
}

-- A change of the case object that is stored under `id`.
abbrev pub put : Uuid → ResolutionCase → CaseStore → CaseStore
put id c s = record s { cases = insert id c s.cases }

pub record NewCase : Type 0 where
  pub case_id : Uuid
  pub ticket_id : String
  pub customer_id : String
  pub correlation_id : Uuid
  pub ticket_amount : ℤ
  pub ticket_currency : String
  pub ticket_reason : String
  pub created_at : ℕ

abbrev pub new_case : NewCase → ResolutionCase
new_case n = record {
  case_id = n.case_id;
  ticket_id = n.ticket_id;
  customer_id = n.customer_id;
  correlation_id = n.correlation_id;
  ticket_amount = n.ticket_amount;
  ticket_currency = n.ticket_currency;
  ticket_reason = n.ticket_reason;
  triage = none;
  billing_task_id = none;
  risk_task_id = none;
  pending_tasks = [];
  billing_result = none;
  risk_result = none;
  billing_slot_failed = false;
  risk_slot_failed = false;
  billing_failure_reason = none;
  risk_failure_reason = none;
  billing_result_event_id = none;
  risk_result_event_id = none;
  status = received;
  status_detail = none;
  decided_event_id = none;
  drafted_event_id = none;
  created_at = n.created_at;
  updated_at = n.created_at;
  deadline_at = none;
  version = 0;
}

-- `self._cases.get(id)` for an id that may be absent
abbrev pub find : Option Uuid → Dict ResolutionCase → Option ResolutionCase
find none cases = none
find (some id) cases = lookup id cases

create : NewCase → Exec CaseStore ResolutionCase
create n s = (
  ok (new_case n),
  record s {
    cases = insert n.case_id (new_case n) s.cases;
    by_correlation = insert n.correlation_id n.case_id s.by_correlation;
  },
)

existing_or : Option ResolutionCase → Exec CaseStore ResolutionCase → Exec CaseStore ResolutionCase
existing_or (some c) otherwise s = (ok c, s)
existing_or none otherwise s = otherwise s

unfoldable pub get_or_create : NewCase → Exec CaseStore ResolutionCase
unfolding create existing_or
get_or_create n s =
    existing_or (find (lookup n.correlation_id s.by_correlation) s.cases)
      (existing_or (lookup n.case_id s.cases) (create n)) s

unfoldable pub get : Uuid → CaseStore → Option ResolutionCase
get id s = lookup id s.cases

unfoldable pub get_by_correlation_id : Uuid → CaseStore → Option ResolutionCase
get_by_correlation_id x s = find (lookup x s.by_correlation) s.cases

unfoldable pub get_by_task_id : Uuid → CaseStore → Option ResolutionCase
get_by_task_id t s = find (lookup t s.by_task_id) s.cases

unfoldable pub stale : Option ResolutionCase → Option ℕ → Bool
stale (some existing) (some expected) = not (existing.version == expected)
stale _ _ = false

-- `(existing.version + 1) if existing else 0`
unfoldable pub next_version : Option ResolutionCase → ℕ
next_version none = 0
next_version (some existing) = suc existing.version

-- `save(case, expected_version=...)`. The object that is saved may be the stored one itself, whose
-- version is then read through `existing` and is the same.
unfoldable pub save : ResolutionCase → Option ℕ → ℕ → Exec CaseStore ResolutionCase
unfolding stale next_version
save c expected now s =
    let existing = lookup c.case_id s.cases in
    let saved = record c { version = next_version existing; updated_at = now } in
    if stale existing expected then (err save_conflict, s) else (
      ok saved,
      record s {
        cases = insert c.case_id saved s.cases;
        by_correlation = insert c.correlation_id c.case_id s.by_correlation;
      },
    )

-- A method that raises `KeyError` on an unknown case, and else acts on the case.
on_case : {A : Type 0} → Uuid → (ResolutionCase → Exec CaseStore A) → Exec CaseStore A
on_case id f s = elim (lookup id s.cases) [ none ↦ (err key_error, s) | some c ↦ f c s ]

unfoldable pub transition : Uuid → CaseStatus → ℕ → Exec CaseStore ResolutionCase
unfolding on_case
transition id to now = on_case id λ c s. elim (assert_transition c.status to) [
  | err e ↦ (err e, s)
  | ok _ ↦
      let moved = record c { status = to; version = suc c.version; updated_at = now } in
      (ok moved, put id moved s)
]

unfoldable pub add_pending_task : Uuid → Uuid → Exec CaseStore (Unit {0})
unfolding on_case
add_pending_task id task = on_case id λ c s. (
  ok tt,
  record s {
    cases = insert id (record c { pending_tasks = add task c.pending_tasks }) s.cases;
    by_task_id = insert task id s.by_task_id;
  },
)

unfoldable pub can_transition_to_ready : CaseStatus → Bool
can_transition_to_ready received = true
can_transition_to_ready classified = true
can_transition_to_ready waiting_for_peer_reviews = true
can_transition_to_ready ready_for_decision = true
can_transition_to_ready _ = false

-- `is_terminal(case.status) or case.status == CaseStatus.DECIDED`
abbrev pub is_settled : CaseStatus → Bool
is_settled st = is_terminal st || is_decided st

-- `case.billing_result = finding` or `case.risk_result = finding`
unfoldable pub record_finding : Finding → ResolutionCase → ResolutionCase
record_finding (of_billing b) c = record c { billing_result = some b }
record_finding (of_risk r) c = record c { risk_result = some r }

-- The case after a result is attached: the finding is in, and the task is no longer pending.
unfoldable pub attach : Uuid → Finding → ℕ → ResolutionCase → ResolutionCase
unfolding record_finding can_transition_to_ready
attach task f now c =
    let left = discard task c.pending_tasks in
    record (record_finding f c) {
      pending_tasks = left;
      updated_at = now;
      version = suc c.version;
      status =
          if is_empty left && can_transition_to_ready c.status
          then ready_for_decision
          else c.status;
    }

unfoldable pub apply_result : Uuid → Uuid → Finding → ℕ → Exec CaseStore AttachOutcome
apply_result id task f now s = elim (lookup id s.cases) [
  | none ↦ (ok unknown_case, s)
  | some c ↦
      if is_settled c.status
      then (ok duplicate, s)
      else if not (member task c.pending_tasks)
      then (ok duplicate, s)
      else (ok attached, put id (attach task f now c) s)
]

unfoldable pub claim_decision : Uuid → ℕ → Exec CaseStore Bool
claim_decision id now s = elim (lookup id s.cases) [
  | none ↦ (ok false, s)
  | some c ↦ if is_decided c.status || is_terminal c.status then (ok false, s) else (
    ok true,
    put id (record c { status = decided; updated_at = now; version = suc c.version }) s,
  )
]

-- `case.billing_slot_failed = True; case.billing_failure_reason = reason`, or the risk slot's
unfoldable pub fail_slot : Bool → String → ResolutionCase → ResolutionCase
fail_slot true reason c = record c {
  billing_slot_failed = true;
  billing_failure_reason = some reason;
}
fail_slot false reason c = record c { risk_slot_failed = true; risk_failure_reason = some reason }

-- The case after a slot has failed: the task is no longer pending, and the case may be decided.
unfoldable pub slot_failed : Uuid → Bool → String → ℕ → ResolutionCase → ResolutionCase
unfolding fail_slot can_transition_to_ready
slot_failed task is_billing reason now c = record (fail_slot is_billing reason c) {
  pending_tasks = discard task c.pending_tasks;
  updated_at = now;
  version = suc c.version;
  status = if can_transition_to_ready c.status then ready_for_decision else c.status;
}

unfoldable pub mark_slot_failed : Uuid → Uuid → Bool → String → ℕ → Exec CaseStore (Unit {0})
unfolding slot_failed
mark_slot_failed id task is_billing reason now s = elim (lookup id s.cases) [
  | none ↦ (ok tt, s)
  | some c ↦
      if is_terminal c.status
      then (ok tt, s)
      else (ok tt, put id (slot_failed task is_billing reason now c) s)
]

-- _PARKED_BUFFER_MAX
abbrev pub parked_buffer_max : ℕ
parked_buffer_max = 200

-- `deque(maxlen=n).append(x)`: the oldest item makes room.
unfoldable pub append_bounded {ℓ} : {A : Type ℓ} → ℕ → List A → A → List A
append_bounded n [] x = if n == 0 then [] else x ∷ []
append_bounded n (y ∷ ys) x = if ltb (suc (length ys)) n then (y ∷ ys) ++ x ∷ [] else ys ++ x ∷ []

unfoldable pub park_billing_result :
    Uuid → BillingRefundAnalysisCompletedPayload → Exec CaseStore (Unit {0})
park_billing_result x p s =
    (ok tt, record s { parked_billing = append_bounded parked_buffer_max s.parked_billing (x, p) })

unfoldable pub park_risk_result : Uuid → RiskReviewCompletedPayload → Exec CaseStore (Unit {0})
park_risk_result x p s =
    (ok tt, record s { parked_risk = append_bounded parked_buffer_max s.parked_risk (x, p) })

unfoldable pub set_deadline : Uuid → ℕ → Exec CaseStore (Unit {0})
set_deadline id at s = elim (lookup id s.cases) [
  | none ↦ (ok tt, s)
  | some c ↦ (ok tt, put id (record c { deadline_at = some at }) s)
]

unfoldable pub is_timed_out : ℕ → ResolutionCase → Bool
is_timed_out now c =
    not (is_terminal c.status)
    && not (is_decided c.status)
    && is_past c.deadline_at now
    && not (is_empty c.pending_tasks)

unfoldable pub list_timed_out_cases : ℕ → CaseStore → List ResolutionCase
unfolding is_timed_out
list_timed_out_cases now s = keep_if (is_timed_out now) (values s.cases)
