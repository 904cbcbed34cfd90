-- ===== src/Resolution/TaskResults/Keeps.antt =====
-- apps/agents/customer_resolution/event_handlers.py: `result_handler` against the invariant on
-- published decisions.
use decentralized_agentic_re.Prelude.{
  ℕ, String, ◌≡◌, Bool, true, false, ◌&&◌, ◌||◌, Option, none, some, arith,
}
use decentralized_agentic_re.Prelude.Dict.{Uuid, lookup}
use decentralized_agentic_re.Prelude.Exec.{only_if, ◌>>=◌, ◌>>◌}
use decentralized_agentic_re.Contracts.{Fields}
use decentralized_agentic_re.Runtime.Messages.{TaskResult}
use decentralized_agentic_re.Resolution.Models.{
  ResolutionCase, is_terminal, is_decided, is_ready_to_decide, BillingFinding, RiskFinding,
}
use decentralized_agentic_re.Resolution.Store.{
  Finding, of_billing, of_risk, get_by_task_id, apply_result, mark_slot_failed,
}
use decentralized_agentic_re.Resolution.Store.Settled.{mark-settled}
use decentralized_agentic_re.Resolution.Store.Effects.{mark_slot_failed-Change}
use decentralized_agentic_re.Resolution.World.{Env, reads, on_store, assign, write_audit}
use decentralized_agentic_re.Resolution.Handlers.{Incoming, is_attached}
use decentralized_agentic_re.Resolution.Handlers.Logic.{
  bind, after, when_, reads_, pure_, weaken, given, stored,
}
use decentralized_agentic_re.Resolution.Handlers.Once.{Own, Good-Change, Harmless, assign-Good}
use decentralized_agentic_re.Resolution.Handlers.Emission.{harmless, Keeps-audit, refetch-lem}
use decentralized_agentic_re.Resolution.Handlers.Claiming.{
  Inv, Kept, if-Keeps, apply-Keeps, apply_decision-Keeps, asking, found-Own, found-Keeps,
}
use decentralized_agentic_re.Resolution.Normalize.{Coercions}
use decentralized_agentic_re.Resolution.TaskResults.{
  is_task, is_completed, unreadable, attach_billing_finding, attach_risk_finding, fail_slot_of,
  settle_slot, payload_of, take_result, take_task_result, result_handler, fail_reason,
}

module _ (k x : Uuid) (spent : ℕ) (env : Env) where
  fail-Keeps :
      (id task : Uuid) (is_billing : Bool) (reason : String) (at : ℕ)
      → Kept k x spent env (on_store (mark_slot_failed id task is_billing reason at))
  fail-Keeps id task is_billing reason at =
      stored (mark_slot_failed id task is_billing reason at) λ s l g.
        let g' =
          Good-Change k x spent (mark_slot_failed-Change s id task is_billing reason at)
            (λ h. mark-settled k s h id task is_billing reason at) g in
        (g', λ a e. g')

  module _ (co : Coercions) (e : Incoming) (c : ResolutionCase) (task : Uuid) where
    unreadable-Keeps : (b : Bool) → Kept k x spent env (unreadable env co e c task b)
    unfolding unreadable
    unreadable-Keeps b =
        bind (reads_ env.now) λ at. fail-Keeps c.case_id task b "unparseable_result" at

    -- A finding is attached, and the attachment audited.
    attached-Keeps :
        (f : Finding) (note : ResolutionCase → ResolutionCase)
        → Harmless k x spent note
        → Kept k x spent env (
            assign c.case_id note >> reads env.now >>= λ at.
            on_store (apply_result c.case_id task f at) >>= λ outcome.
            only_if
              (is_attached outcome)
              (write_audit env e.event_id e.correlation_id "completed" (some task) none))
    attached-Keeps f note h =
        bind (after (assign-Good k x spent h c.case_id) (reads_ env.now)) λ at.
          bind (apply-Keeps k x spent env c.case_id task f at) λ outcome.
            when_ (is_attached outcome)
              (λ a.
                Keeps-audit k x spent env e.event_id e.correlation_id "completed" (some task) none)
              (λ a s l g. g)

    attach_billing_finding-Keeps :
        (o : Option BillingFinding) → Kept k x spent env (attach_billing_finding env co e c task o)
    unfolding attach_billing_finding
    attach_billing_finding-Keeps none = unreadable-Keeps true
    attach_billing_finding-Keeps (some f) =
        attached-Keeps (of_billing f) (λ y. record y { billing_result_event_id = some e.event_id })
          (harmless k x spent env _ (λ y. ground arith) (λ y h. h))

    attach_risk_finding-Keeps :
        (o : Option RiskFinding) → Kept k x spent env (attach_risk_finding env co e c task o)
    unfolding attach_risk_finding
    attach_risk_finding-Keeps none = unreadable-Keeps false
    attach_risk_finding-Keeps (some f) =
        attached-Keeps (of_risk f) (λ y. record y { risk_result_event_id = some e.event_id })
          (harmless k x spent env _ (λ y. ground arith) (λ y h. h))

    settle_slot-Keeps :
        (r : TaskResult) (b : Bool) (o : Option Fields)
        → Kept k x spent env (settle_slot env co e c task r b o)
    unfolding settle_slot fail_slot_of
    settle_slot-Keeps r b none =
        after (bind (reads_ env.now) λ at. fail-Keeps c.case_id task b (fail_reason r r.error) at)
          (Keeps-audit k x spent env e.event_id e.correlation_id "rejected" (some task) _)
    settle_slot-Keeps r true (some d) = attach_billing_finding-Keeps _
    settle_slot-Keeps r false (some d) = attach_risk_finding-Keeps _

    take_result-Keeps :
        (r : TaskResult) (b : Bool)
        → Own k x c
        → Kept k x spent env (take_result env co e c task r b)
    unfolding take_result
    take_result-Keeps r b own =
        bind
          (after (settle_slot-Keeps r b (payload_of r.status r.output))
            (refetch-lem k x spent env (Inv k x spent env) c own (λ s l g. g)))
          λ d.
            given {F = Own k x d} (λ s l f. f.own)
              λ own_d.
                weaken (λ s l f. f.holds)
                  (when_ (is_ready_to_decide d)
                    (λ h. apply_decision-Keeps k x spent env d e.event_id own_d) (λ h s l g. g))

    take_task_result-Keeps :
        (r : TaskResult) → Own k x c → Kept k x spent env (take_task_result env co e c task r)
    unfolding take_task_result
    take_task_result-Keeps r own =
        if-Keeps k x spent env (is_terminal c.status || is_decided c.status)
          (Keeps-audit k x spent env e.event_id e.correlation_id "duplicate_skipped" (some task) _)
          (if-Keeps k x spent env
            (is_completed r.status
              && (is_task c.billing_task_id task || is_task c.risk_task_id task))
            (Keeps-audit k x spent env e.event_id e.correlation_id "duplicate_skipped" (some task)
              _)
            (take_result-Keeps r (is_task c.billing_task_id task) own))

  pub result-Keeps :
      (co : Coercions) (e : Incoming) (r : Option TaskResult)
      → Kept k x spent env (result_handler env co e r)
  unfolding result_handler get_by_task_id
  result-Keeps co e none = pure_
  result-Keeps co e (some r) =
      bind
        (asking k x spent env (get_by_task_id r.task_id)
          (λ o. (c : ResolutionCase) → o ≡ some c → Own k x c)
          (λ s l g. found-Own k x spent env (lookup r.task_id s.by_task_id) s l g))
        λ o.
          found-Keeps k x spent env o pure_ (λ c own. take_task_result-Keeps co e c r.task_id r own)
