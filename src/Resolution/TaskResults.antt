-- ===== src/Resolution/TaskResults.antt =====
-- apps/agents/customer_resolution/event_handlers.py: `result_handler`, which takes the generic task
-- results of the peers. A result is `none` where its validation fails.
pub mod Keeps
use decentralized_agentic_re.Prelude.{
  ℕ, String, Bool, true, false, not, ◌&&◌, ◌||◌, Option, none, some, List, [], ◌∷◌, is_empty, ◌==◌,
  if◌then◌else◌,
}
use decentralized_agentic_re.Prelude.Dict.{Uuid}
use decentralized_agentic_re.Prelude.Exec.{pure, ◌>>=◌, ◌>>◌, only_if}
use decentralized_agentic_re.Contracts.{Json, obj, Fields, end}
use decentralized_agentic_re.Runtime.Messages.{
  A2aMessage, A2aPart, PartType, TaskError, TaskResult, TaskStatus, completed, failed, rejected,
  is_data,
}
use decentralized_agentic_re.Resolution.Models.{
  ResolutionCase, CaseStatus, is_terminal, is_decided, is_ready_to_decide, BillingFinding,
  RiskFinding,
}
use decentralized_agentic_re.Resolution.Store.{
  AttachOutcome, attached, of_billing, of_risk, get_by_task_id, apply_result, mark_slot_failed,
}
use decentralized_agentic_re.Resolution.World.{
  Env, Handler, reads, on_store, of_store, assign, write_audit,
}
use decentralized_agentic_re.Resolution.Deciding.{refetch, apply_decision}
use decentralized_agentic_re.Resolution.Handlers.{Incoming, is_attached}
use decentralized_agentic_re.Resolution.Normalize.{
  Coercions, normalize_billing_result, normalize_risk_result,
}

-- `case.billing_task_id == task_id`
unfoldable pub is_task : Option Uuid → Uuid → Bool
is_task none task = false
is_task (some t) task = t == task

unfoldable pub is_completed : TaskStatus → Bool
is_completed completed = true
is_completed _ = false

status_text : TaskStatus → String
status_text completed = "completed"
status_text failed = "failed"
status_text rejected = "rejected"

-- `result.error.message if result.error else result.status`
fail_reason : TaskResult → Option TaskError → String
unfolding status_text
fail_reason r none = status_text r.status
fail_reason r (some e) = e.message

dict_of : Option Json → Fields
dict_of (some (obj fs)) = fs
dict_of _ = end

-- The dict of the first part of type `data`, or an empty one.
data_of : List A2aPart → Fields
unfolding is_data dict_of
data_of [] = end
data_of (p ∷ ps) = if is_data p.type then dict_of p.data_ else data_of ps

-- `result.status == "completed" and result.output and result.output.parts`, with the parts' dict.
payload_of : TaskStatus → Option A2aMessage → Option Fields
unfolding data_of
payload_of completed (some m) = if is_empty m.parts then none else some (data_of m.parts)
payload_of _ _ = none

module _ (env : Env) (co : Coercions) (e : Incoming) (c : ResolutionCase) (task : Uuid) where
  -- A slot fails on a result that cannot be read.
  unreadable : Bool → Handler (Unit {0})
  unreadable is_billing = reads env.now >>= λ at.
      on_store (mark_slot_failed c.case_id task is_billing "unparseable_result" at)

  attach_billing_finding : Option BillingFinding → Handler (Unit {0})
  unfolding unreadable is_attached
  attach_billing_finding none = unreadable true
  attach_billing_finding (some f) =
      assign c.case_id (λ x. record x { billing_result_event_id = some e.event_id })
      >> reads env.now
      >>= λ at. on_store (apply_result c.case_id task (of_billing f) at) >>= λ outcome.
          only_if (is_attached outcome)
            (write_audit env e.event_id e.correlation_id "completed" (some task) none)

  attach_risk_finding : Option RiskFinding → Handler (Unit {0})
  unfolding unreadable is_attached
  attach_risk_finding none = unreadable false
  attach_risk_finding (some f) =
      assign c.case_id (λ x. record x { risk_result_event_id = some e.event_id })
      >> reads env.now
      >>= λ at. on_store (apply_result c.case_id task (of_risk f) at) >>= λ outcome.
          only_if (is_attached outcome)
            (write_audit env e.event_id e.correlation_id "completed" (some task) none)

  fail_slot_of : Bool → String → Handler (Unit {0})
  fail_slot_of is_billing reason = reads env.now >>= λ at.
      on_store (mark_slot_failed c.case_id task is_billing reason at)
      >> write_audit env e.event_id e.correlation_id "rejected" (some task) (some reason)

  settle_slot : TaskResult → Bool → Option Fields → Handler (Unit {0})
  unfolding fail_slot_of attach_billing_finding attach_risk_finding fail_reason
  settle_slot r is_billing none = fail_slot_of is_billing (fail_reason r r.error)
  settle_slot r true (some data_) =
      attach_billing_finding (normalize_billing_result co task r.performer_agent_id data_)
  settle_slot r false (some data_) =
      attach_risk_finding (normalize_risk_result co task r.performer_agent_id data_)

  -- The slot, and then the decision of a case that is ready.
  unfoldable pub take_result : TaskResult → Bool → Handler (Unit {0})
  unfolding settle_slot payload_of
  take_result r is_billing =
      settle_slot r is_billing (payload_of r.status r.output) >> refetch c >>= λ d.
      only_if (is_ready_to_decide d) (apply_decision env d e.event_id)

  unfoldable pub take_task_result : TaskResult → Handler (Unit {0})
  unfolding take_result is_task is_completed
  take_task_result r =
      let is_billing = is_task c.billing_task_id task in
      let is_risk = is_task c.risk_task_id task in
      if is_terminal c.status || is_decided c.status
      then (write_audit env e.event_id e.correlation_id "duplicate_skipped" (some task)
          (some "late_result"))
      else if is_completed r.status && (is_billing || is_risk)
      then (write_audit env e.event_id e.correlation_id "duplicate_skipped" (some task)
          (some "dual_path"))
      else take_result r is_billing

unfoldable pub result_handler : Env → Coercions → Incoming → Option TaskResult → Handler (Unit {0})
unfolding take_task_result
result_handler env co e none = pure tt
result_handler env co e (some r) = of_store (get_by_task_id r.task_id) >>= λ found. elim found [
  | none ↦ pure tt
  | some c ↦ take_task_result env co e c r.task_id r
]
