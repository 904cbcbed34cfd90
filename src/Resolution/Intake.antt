-- ===== src/Resolution/Intake.antt =====
-- apps/agents/customer_resolution/event_handlers.py: `intake_handler`, which opens a case for a ticket,
-- classifies it, and answers it directly or delegates it. The language model's answer, the text of an
-- exception and the seconds of a deadline are parameters. A ticket is `none` where its validation
-- fails.
use decentralized_agentic_re.Prelude.{
  ℕ, ◌+◌, String, Bool, true, false, not, Option, none, some, List, if◌then◌else◌,
}
use decentralized_agentic_re.Prelude.Text.{◌<>◌}
use decentralized_agentic_re.Prelude.Exec.{Error, Result, pure, lift, catch, ◌>>=◌, ◌>>◌}
use decentralized_agentic_re.Contracts.{
  SupportTicketCreatedPayload, CustomerResponseDecisionPayload, direct_response, escalate_human,
}
use decentralized_agentic_re.Resolution.Models.{
  ResolutionCase, CaseStatus, received, classified, waiting_for_peer_reviews, closed, escalated,
  Triage,
}
use decentralized_agentic_re.Resolution.Classifier.{
  Assisted, classify, classify_with_llm, build_issue_classified_payload,
}
use decentralized_agentic_re.Resolution.Decision.{respond}
use decentralized_agentic_re.Resolution.Store.{NewCase, get_or_create, save}
use decentralized_agentic_re.Resolution.World.{
  Env, Handler, reads, on_store, assign, publish, write_audit, issue_classified,
}
use decentralized_agentic_re.Resolution.Deciding.{refetch, emit_decision_and_draft, settle_case}
use decentralized_agentic_re.Resolution.Delegation.{Network, delegate}
use decentralized_agentic_re.Resolution.Handlers.{Incoming}

pub record Settings : Type 0 where
  -- The refund-intent signals, in the order that the set is iterated in.
  pub signals : List String
  pub llm_enabled : Bool
  -- What `classify_with_llm` gets at a tick, or `none` where it raises.
  pub assists : ℕ → Option Assisted
  pub describe : Error → String
  pub case_deadline_seconds : ℕ

-- `case.status in (CaseStatus.RECEIVED, CaseStatus.CLASSIFIED)`
unfoldable pub is_open : CaseStatus → Bool
is_open received = true
is_open classified = true
is_open _ = false

triage_by : Settings → SupportTicketCreatedPayload → Option Assisted → Triage
triage_by cfg ticket none = classify cfg.signals ticket
triage_by cfg ticket (some a) = classify_with_llm cfg.signals ticket a

direct_decision :
    ResolutionCase → SupportTicketCreatedPayload → Triage → Result CustomerResponseDecisionPayload
direct_decision c ticket triage =
    respond c.correlation_id ticket.ticket_id ticket.customer_id direct_response none none none
      triage.rationale

failure_decision :
    Settings
    → ResolutionCase
    → SupportTicketCreatedPayload
    → Error
    → Result CustomerResponseDecisionPayload
failure_decision cfg c ticket e =
    respond c.correlation_id ticket.ticket_id ticket.customer_id escalate_human
      (some "peer_failure") none none ("Delegation failed: " <> cfg.describe e)

module _ (env : Env) (net : Network) (cfg : Settings) where
  triage_of : SupportTicketCreatedPayload → Handler Triage
  unfolding triage_by
  triage_of ticket =
      if cfg.llm_enabled
      then (reads cfg.assists >>= λ a. pure (triage_by cfg ticket a))
      else pure (classify cfg.signals ticket)

  -- `await store.save(case)`
  save_case : ResolutionCase → Handler (Unit {0})
  save_case c = refetch c >>= λ d. reads env.now >>= λ at. on_store (save d none at) >> pure tt

  -- The direct answer of a ticket without refund intent.
  unfoldable pub answer_directly :
      Incoming → ResolutionCase → SupportTicketCreatedPayload → Triage → Handler (Unit {0})
  unfolding direct_decision
  answer_directly e c ticket triage = refetch c >>= λ d.
      lift (direct_decision d ticket triage) >>= λ decision.
      emit_decision_and_draft env d decision e.event_id >> settle_case env d closed

  escalate_failure :
      Incoming → ResolutionCase → SupportTicketCreatedPayload → Error → Handler (Unit {0})
  unfolding failure_decision
  escalate_failure e c ticket x = refetch c >>= λ d.
      lift (failure_decision cfg d ticket x) >>= λ decision.
      emit_decision_and_draft env d decision e.event_id >> settle_case env d escalated

  -- The case waits for its peers, or is escalated where the delegation raises.
  unfoldable pub review :
      Incoming → ResolutionCase → SupportTicketCreatedPayload → Handler (Unit {0})
  unfolding save_case escalate_failure
  review e c ticket =
      assign c.case_id (λ x. record x { status = waiting_for_peer_reviews })
      >> reads env.now
      >>= λ at.
          assign c.case_id (λ x. record x { deadline_at = some (at + cfg.case_deadline_seconds) })
          >> save_case c
          >> catch (delegate env net c e.event_id >> save_case c) (escalate_failure e c ticket)

  -- From the classification on.
  unfoldable pub take_in :
      Incoming → ResolutionCase → SupportTicketCreatedPayload → Handler (Unit {0})
  unfolding triage_of save_case answer_directly review
  take_in e c ticket = triage_of ticket >>= λ triage.
      assign c.case_id (λ x. record x { triage = some triage; status = classified })
      >> save_case c
      >> write_audit env e.event_id e.correlation_id "accepted" none none
      >> publish env
          (issue_classified (build_issue_classified_payload ticket e.correlation_id triage))
          e.correlation_id e.event_id
      >> (if not triage.needs_refund_review
          then answer_directly e c ticket triage
          else review e c ticket)

  opened : Incoming → SupportTicketCreatedPayload → ℕ → NewCase
  opened e ticket at = record {
    case_id = e.correlation_id;
    ticket_id = ticket.ticket_id;
    customer_id = ticket.customer_id;
    correlation_id = e.correlation_id;
    ticket_amount = ticket.amount;
    ticket_currency = ticket.currency;
    ticket_reason = ticket.reason;
    created_at = at;
  }

  unfoldable pub intake_handler : Incoming → Option SupportTicketCreatedPayload → Handler (Unit {0})
  unfolding take_in opened
  intake_handler e none = pure tt
  intake_handler e (some ticket) = reads env.now >>= λ at.
      on_store (get_or_create (opened e ticket at)) >>= λ c.
      if not (is_open c.status)
      then (write_audit env e.event_id e.correlation_id "duplicate_skipped" none
          (some "already_processed"))
      else take_in e c ticket
