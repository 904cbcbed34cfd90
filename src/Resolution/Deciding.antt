-- ===== src/Resolution/Deciding.antt =====
-- apps/agents/customer_resolution/event_handlers.py: `_apply_decision`, and the emission of a decision
-- and its draft.
use decentralized_agentic_re.Prelude.{ℕ, String, Bool, true, not, ◌&&◌, Option, none, some, []}
use decentralized_agentic_re.Prelude.Int.{one}
use decentralized_agentic_re.Prelude.Dict.{Uuid}
use decentralized_agentic_re.Prelude.Exec.{Result, ok, pure, lift, catch, ◌>>=◌, ◌>>◌, only_if}
use decentralized_agentic_re.Prelude.Text.{◌<>◌}
use decentralized_agentic_re.Contracts.{
  ResolutionOutcome, approve_refund, deny_refund, escalate_human, direct_response,
  offer_partial_credit, request_more_information, CustomerResponseDecisionPayload,
  CustomerResponseDraftedPayload, validate_draft_payload,
}
use decentralized_agentic_re.Resolution.Models.{
  ResolutionCase, CaseStatus, decided, is_terminal, is_decided, Triage, is_ready_to_decide,
  build_timeout_status,
}
use decentralized_agentic_re.Resolution.Decision.{decide, requires_human_approval}
use decentralized_agentic_re.Resolution.Store.{get, save, claim_decision}
use decentralized_agentic_re.Resolution.World.{
  Env, Envelope, Handler, reads, on_store, assign, publish, write_audit, resolution_decided,
  response_drafted,
}

-- `decision.outcome.value`
unfoldable pub outcome_text : ResolutionOutcome → String
outcome_text approve_refund = "approve_refund"
outcome_text deny_refund = "deny_refund"
outcome_text escalate_human = "escalate_human"
outcome_text direct_response = "direct_response"
outcome_text offer_partial_credit = "offer_partial_credit"
outcome_text request_more_information = "request_more_information"

-- `await store.get(case.case_id) or case`
unfoldable pub refetch : ResolutionCase → Handler ResolutionCase
refetch c w = elim (get c.case_id w.store) [ none ↦ (ok c, w) | some d ↦ (ok d, w) ]

unfoldable pub draft_of :
    ResolutionCase
    → CustomerResponseDecisionPayload
    → Uuid
    → ℕ
    → Result CustomerResponseDraftedPayload
draft_of c d event at = validate_draft_payload (record {
  case_id = c.correlation_id;
  ticket_id = d.ticket_id;
  customer_id = d.customer_id;
  decision_event_id = event;
  outcome = d.outcome;
  draft_response = d.customer_response;
  requires_human_approval = requires_human_approval d.outcome;
  drafted_at = at;
})

-- The audit record, and the customer-response.drafted event, that follow a decision event.
unfoldable pub follow_up :
    Env → ResolutionCase → CustomerResponseDecisionPayload → Envelope → Handler Envelope
unfolding outcome_text draft_of
follow_up env c d sent =
    catch
      (write_audit env sent.event_id sent.correlation_id "completed" none
        (some ("decision: " <> outcome_text d.outcome)))
      (λ e. pure tt)
    >> reads env.now
    >>= λ at. lift (draft_of c d sent.event_id at) >>= λ draft.
        publish env (response_drafted draft) c.correlation_id sent.event_id >>= λ drafted.
        assign c.case_id (λ x. record x { drafted_event_id = some drafted.event_id }) >> pure sent

-- `_emit_decision_and_draft`
unfoldable pub emit_decision_and_draft :
    Env → ResolutionCase → CustomerResponseDecisionPayload → Uuid → Handler Envelope
unfolding follow_up
emit_decision_and_draft env c d causation =
    publish env (resolution_decided d) c.correlation_id causation >>= λ sent.
    assign c.case_id (λ x. record x { decided_event_id = some sent.event_id })
    >> follow_up env c d sent

-- `case.triage or Triage(...)`
unfoldable pub triage_or_default : Option Triage → Triage
triage_or_default (some t) = t
triage_or_default none = record {
  needs_refund_review = true;
  ambiguous = true;
  matched_signals = [];
  rationale = "No triage available";
  issue_type = "unknown";
  confidence = one;
}

-- `case.status = status; await store.save(case)`
unfoldable pub settle_case : Env → ResolutionCase → CaseStatus → Handler (Unit {0})
unfolding refetch
settle_case env c status =
    assign c.case_id (λ x. record x { status = status }) >> refetch c >>= λ d.
    reads env.now >>= λ at. on_store (save d none at) >> pure tt

unfoldable pub decision_of : ResolutionCase → ℕ → Result CustomerResponseDecisionPayload
unfolding triage_or_default
decision_of c at =
    decide c.correlation_id c.ticket_id c.customer_id (triage_or_default c.triage) c.billing_result
      c.risk_result (some (build_timeout_status c at))

-- What `_apply_decision` does once the claim has succeeded.
unfoldable pub decide_and_emit : Env → ResolutionCase → Uuid → Handler (Unit {0})
unfolding refetch decision_of settle_case
decide_and_emit env c causation = refetch c >>= λ d. reads env.now >>= λ at.
    lift (decision_of d at) >>= λ decision.
    emit_decision_and_draft env d decision causation >> settle_case env d decided

-- `_apply_decision`
unfoldable pub apply_decision : Env → ResolutionCase → Uuid → Handler (Unit {0})
unfolding decide_and_emit
apply_decision env c causation = reads env.now >>= λ at.
    on_store (claim_decision c.case_id at) >>= λ won. only_if won (decide_and_emit env c causation)

-- The case is ready, and neither decided nor terminal.
unfoldable pub may_decide : ResolutionCase → Bool
may_decide c = is_ready_to_decide c && not (is_decided c.status) && not (is_terminal c.status)

-- The end of both domain handlers.
unfoldable pub decide_if_ready : Env → ResolutionCase → Uuid → Handler (Unit {0})
unfolding refetch
decide_if_ready env c event = refetch c >>= λ d. only_if (may_decide d) (apply_decision env d event)
