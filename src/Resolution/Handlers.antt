-- ===== src/Resolution/Handlers.antt =====
-- apps/agents/customer_resolution/event_handlers.py, reaper.py: the handlers of the peers' domain
-- results, and the reaper. A handler runs to its end here; the interleaving of store operations at the
-- await points is in Store/Claims. A payload is `none` where its validation fails. A handler holds the
-- stored case object, so its assignments change the store. Logging is left out.
pub mod Logic
pub mod Once
pub mod Emission
pub mod Claiming
pub mod Runs
pub mod Delivery
use decentralized_agentic_re.Prelude.{
  ℕ, String, Bool, true, false, not, ◌&&◌, ◌||◌, Option, none, some, List, [], ◌∷◌, is_none, str_eq,
  if◌then◌else◌,
}
use decentralized_agentic_re.Prelude.Int.{ℤ, pos, one, ◌-ℤ◌, leb_ℤ, min_ℤ, max_ℤ}
use decentralized_agentic_re.Prelude.Dict.{Uuid}
use decentralized_agentic_re.Prelude.Exec.{
  Result, ok, err, Exec, pure, lift, catch, ◌>>=◌, ◌>>◌, only_if,
}
use decentralized_agentic_re.Prelude.Text.{lower, one_of, ◌<>◌}
use decentralized_agentic_re.Contracts.{
  ResolutionOutcome, approve_refund, deny_refund, escalate_human, direct_response,
  offer_partial_credit, request_more_information, CustomerResponseDecisionPayload,
  CustomerResponseDraftedPayload, validate_draft_payload, BillingRefundAnalysisCompletedPayload,
  RiskReviewCompletedPayload,
}
use decentralized_agentic_re.Resolution.Models.{
  ResolutionCase, CaseStatus, decided, escalated, is_terminal, is_decided, Triage, BillingFinding,
  RiskFinding, Eligibility, eligible, partial, ineligible, indeterminate, Level, low, elevated,
  high, is_ready_to_decide, build_timeout_status,
}
use decentralized_agentic_re.Resolution.Decision.{
  decide, respond, requires_human_approval, level_text,
}
use decentralized_agentic_re.Resolution.Store.{
  AttachOutcome, attached, of_billing, of_risk, get, get_by_correlation_id, save, apply_result,
  claim_decision, park_billing_result, park_risk_result, list_timed_out_cases,
}
use decentralized_agentic_re.Resolution.World.{
  Env, World, Envelope, Handler, reads, on_store, of_store, assign, publish, write_audit,
  resolution_decided, response_drafted,
}
use decentralized_agentic_re.Resolution.Deciding.{
  outcome_text, refetch, draft_of, follow_up, emit_decision_and_draft, triage_or_default,
  settle_case, decision_of, decide_and_emit, apply_decision, may_decide, decide_if_ready,
}

-- What a handler reads of the envelope that it consumes.
pub record Incoming : Type 0 where
  pub event_id : Uuid
  pub correlation_id : Uuid

unfoldable pub eligibility_of : String → Eligibility
eligibility_of rec =
    if one_of rec ("approve_full_refund" ∷ "approve" ∷ "eligible" ∷ "refund" ∷ [])
    then eligible
    else if str_eq rec "approve_partial_refund"
    then partial
    else if one_of rec ("deny_refund" ∷ "deny" ∷ "ineligible" ∷ "reject" ∷ [])
    then ineligible
    else if one_of rec ("request_more_information" ∷ "manual_review" ∷ [])
    then indeterminate
    else if str_eq rec "partial_refund"
    then partial
    else indeterminate

unfoldable pub is_ineligible : Eligibility → Bool
is_ineligible ineligible = true
is_ineligible _ = false

unfoldable pub billing_finding : Uuid → BillingRefundAnalysisCompletedPayload → BillingFinding
unfolding is_ineligible
billing_finding task p =
    let e = eligibility_of (lower p.recommendation) in
    record {
      eligibility = if is_ineligible e && str_eq p.usage_level "heavy" then partial else e;
      requires_human_review = p.requires_human_review;
      confidence = some p.confidence;
      summary = p.reasoning_summary;
      performer_agent_id = "";
      task_id = some task;
    }

unfoldable pub is_attached : AttachOutcome → Bool
is_attached attached = true
is_attached _ = false

attach_billing :
    Env
    → Incoming
    → BillingRefundAnalysisCompletedPayload
    → ResolutionCase
    → Option Uuid
    → Handler (Unit {0})
unfolding decide_if_ready is_attached
attach_billing env e p c none = pure tt
attach_billing env e p c (some task) =
    assign c.case_id (λ x. record x { billing_result_event_id = some e.event_id })
    >> reads env.now
    >>= λ at.
        on_store (apply_result c.case_id task (of_billing (billing_finding task p)) at)
        >>= λ outcome.
            only_if (is_attached outcome)
              (write_audit env e.event_id e.correlation_id "completed" (some task) none)
            >> decide_if_ready env c e.event_id

-- A ticket id that differs is only logged.
unfoldable pub billing_result_handler :
    Env → Incoming → Option BillingRefundAnalysisCompletedPayload → Handler (Unit {0})
unfolding attach_billing
billing_result_handler env e none = pure tt
billing_result_handler env e (some p) =
    of_store (get_by_correlation_id e.correlation_id) >>= λ found. elim found [
      | none ↦ on_store (park_billing_result e.correlation_id p)
      | some c ↦ attach_billing env e p c c.billing_task_id
    ]

-- `_risk_level_from_score`
unfoldable pub risk_level_from_score : ℤ → ℤ → ℤ → Level
risk_level_from_score score elevated_at high_at =
    if leb_ℤ high_at score then high else if leb_ℤ elevated_at score then elevated else low

-- `_uncertainty_from_confidence`
unfoldable pub uncertainty_from_confidence : Option ℤ → Option ℤ
uncertainty_from_confidence none = none
uncertainty_from_confidence (some c) = some (max_ℤ (pos 0) (min_ℤ one (one -ℤ c)))

unfoldable pub level_of : String → ℤ → Level
level_of rec confidence =
    if one_of rec ("low" ∷ "approve" ∷ "acceptable" ∷ [])
    then low
    else if str_eq rec "elevated"
    then elevated
    else if one_of rec ("high" ∷ "deny" ∷ "block" ∷ [])
    then high
    else risk_level_from_score confidence (pos 500000000) (pos 800000000)

unfoldable pub risk_finding : Uuid → RiskReviewCompletedPayload → RiskFinding
risk_finding task p = record {
  level = level_of (lower p.recommendation) p.confidence;
  requires_human_review = p.requires_human_review;
  score = uncertainty_from_confidence (some p.confidence);
  summary = p.reasoning_summary;
  performer_agent_id = "";
  task_id = some task;
}

is_risky : Level → Bool
is_risky low = false
is_risky _ = true

finds_ineligible : Option BillingFinding → Bool
unfolding is_ineligible
finds_ineligible none = false
finds_ineligible (some b) = is_ineligible b.eligibility

-- `_high_risk and not _billing_ineligible and _decidable`
unfoldable pub forces_escalation : RiskFinding → ResolutionCase → Bool
unfolding is_risky finds_ineligible
forces_escalation f c =
    (is_risky f.level || f.requires_human_review)
    && not (finds_ineligible c.billing_result)
    && not (is_decided c.status)
    && not (is_terminal c.status)

escalation : RiskFinding → ResolutionCase → Result CustomerResponseDecisionPayload
escalation f c =
    respond c.correlation_id c.ticket_id c.customer_id escalate_human (some "elevated_risk") none
      (some ("level=" <> level_text f.level))
      ("Risk level " <> level_text f.level <> " forces escalation")

-- What follows once the claim has succeeded.
escalate : Env → Incoming → RiskFinding → ResolutionCase → Handler (Unit {0})
unfolding refetch escalation settle_case
escalate env e f c = refetch c >>= λ d. lift (escalation f d) >>= λ decision.
    assign d.case_id
      (λ x. record x { risk_result_event_id = some e.event_id; risk_result = some f })
    >> emit_decision_and_draft env d decision e.event_id
    >> settle_case env d escalated

attach_risk :
    Env → Incoming → RiskReviewCompletedPayload → ResolutionCase → Option Uuid → Handler (Unit {0})
unfolding escalate decide_if_ready is_attached
attach_risk env e p c none = pure tt
attach_risk env e p c (some task) =
    if forces_escalation (risk_finding task p) c
    then (reads env.now >>= λ at. on_store (claim_decision c.case_id at) >>= λ won.
        only_if won (escalate env e (risk_finding task p) c))
    else (assign c.case_id (λ x. record x { risk_result_event_id = some e.event_id })
        >> reads env.now
        >>= λ at.
            on_store (apply_result c.case_id task (of_risk (risk_finding task p)) at) >>= λ outcome.
            only_if (is_attached outcome)
              (write_audit env e.event_id e.correlation_id "completed" (some task) none)
            >> decide_if_ready env c e.event_id)

unfoldable pub risk_result_handler :
    Env → Incoming → Option RiskReviewCompletedPayload → Handler (Unit {0})
unfolding attach_risk
risk_result_handler env e none = pure tt
risk_result_handler env e (some p) = of_store (get_by_correlation_id e.correlation_id) >>= λ found.
    elim found [
      | none ↦ on_store (park_risk_result e.correlation_id p)
      | some c ↦ attach_risk env e p c c.risk_task_id
    ]

-- `for case in timed_out`: an exception ends that case's turn only.
sweep : Env → List ResolutionCase → Handler (Unit {0})
unfolding refetch
sweep env [] = pure tt
sweep env (c ∷ cs) =
    (refetch c >>= λ d.
    only_if (not (is_terminal d.status) && not (is_decided d.status))
      (reads env.uuid4 >>= λ causation. catch (apply_decision env d causation) (λ e. pure tt)))
    >> sweep env cs

-- One round of `run_reaper`.
unfoldable pub reap : Env → Handler (Unit {0})
unfolding sweep
reap env =
    reads env.now >>= λ at. of_store (list_timed_out_cases at) >>= λ timed_out. sweep env timed_out
