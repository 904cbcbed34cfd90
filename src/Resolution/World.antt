-- ===== src/Resolution/World.antt =====
-- What the handlers of apps/agents/customer_resolution work on: the case store, the topics, which are
-- the log of sent envelopes, and a clock. src/agent_foundation/transport/publisher.py and
-- audit/store.py: an envelope is built and sent; a send that the broker refuses raises. The clock,
-- `uuid4` and the broker are parameters, read at successive ticks. The agent's identity, the topic
-- names, the schema version and the trace context of an envelope are constants of a run, and left out.
use decentralized_agentic_re.Prelude.{
  ℕ, suc, String, Bool, Option, none, some, List, [], ◌∷◌, ◌++◌, if◌then◌else◌,
}
use decentralized_agentic_re.Prelude.Dict.{Uuid, lookup}
use decentralized_agentic_re.Prelude.Exec.{ok, err, Exec, send_failed, pure, catch, ◌>>=◌, ◌>>◌}
use decentralized_agentic_re.Contracts.{
  AuditPayload, CustomerIssueClassifiedPayload, CustomerResponseDecisionPayload,
  CustomerResponseDraftedPayload, RefundReviewRequestedPayload,
}
use decentralized_agentic_re.Runtime.Messages.{TaskRequest}
use decentralized_agentic_re.Resolution.Models.{ResolutionCase}
use decentralized_agentic_re.Resolution.Store.{CaseStore, put}

pub record Env : Type 0 where
  pub now : ℕ → ℕ
  pub uuid4 : ℕ → Uuid
  pub delivers : ℕ → Bool

-- A payload with the event type that it is published under.
pub data Payload : Type 0 where
  resolution_decided : CustomerResponseDecisionPayload → Payload
  response_drafted : CustomerResponseDraftedPayload → Payload
  audit : AuditPayload → Payload
  task_requested : TaskRequest → Payload
  issue_classified : CustomerIssueClassifiedPayload → Payload
  review_requested : RefundReviewRequestedPayload → Payload

pub record Envelope : Type 0 where
  pub event_id : Uuid
  pub correlation_id : Uuid
  pub causation_id : Uuid
  pub timestamp : ℕ
  pub payload : Payload

pub record World : Type 0 where
  pub store : CaseStore
  pub log : List Envelope
  pub tick : ℕ

abbrev pub Handler : Type 0 → Type 0
Handler A = Exec World A

-- The next reading of the clock, of `uuid4`, or of the broker.
abbrev pub reads : {A : Type 0} → (ℕ → A) → Handler A
reads f w = (ok (f w.tick), record w { tick = suc w.tick })

-- A store method.
abbrev pub on_store : {A : Type 0} → Exec CaseStore A → Handler A
on_store m w = let (r, s) = m w.store in (r, record w { store = s })

abbrev pub of_store : {A : Type 0} → (CaseStore → A) → Handler A
of_store f w = (ok (f w.store), w)

-- An assignment to fields of the case object that is stored under `id`; the handlers hold that object
-- itself.
unfoldable pub assign : Uuid → (ResolutionCase → ResolutionCase) → Handler (Unit {0})
assign id f w = elim (lookup id w.store.cases) [
  | none ↦ (ok tt, w)
  | some c ↦ (ok tt, record w { store = put id (f c) w.store })
]

-- `send_and_wait`
unfoldable pub send : Env → Envelope → Handler (Unit {0})
send env e w =
    if env.delivers w.tick
    then (ok tt, record w { log = w.log ++ e ∷ []; tick = suc w.tick })
    else (err send_failed, record w { tick = suc w.tick })

-- `EventEnvelope(...)` of a payload: its correlation, its cause, its id and its time.
abbrev pub envelope_of : Payload → Uuid → Uuid → Uuid → ℕ → Envelope
envelope_of payload correlation causation id at = record {
  event_id = id;
  correlation_id = correlation;
  causation_id = causation;
  timestamp = at;
  payload = payload;
}

abbrev pub audit_of : Uuid → String → Option Uuid → Option String → ℕ → Payload
audit_of original outcome task reason at = audit (record {
  original = original;
  outcome = outcome;
  reason = reason;
  task_id = task;
  recorded_at = at;
})

-- `Publisher.publish` of a payload of the class that its event type is registered for.
unfoldable pub publish : Env → Payload → Uuid → Uuid → Handler Envelope
unfolding send
publish env payload correlation causation = reads env.uuid4 >>= λ id. reads env.now >>= λ at.
    let e = envelope_of payload correlation causation id at in send env e >> pure e

-- `write_audit` and `write_task_audit`, where a failed send is only logged. The original is given by
-- its event id and its correlation id.
unfoldable pub write_audit :
    Env → Uuid → Uuid → String → Option Uuid → Option String → Handler (Unit {0})
unfolding send
write_audit env original correlation outcome task reason = reads env.now >>= λ at.
    reads env.uuid4 >>= λ id.
    catch
      (send env (envelope_of (audit_of original outcome task reason at) correlation original id at))
      (λ e. pure tt)
