-- ===== src/Runtime/Service.antt =====
-- src/agent_foundation/runtime/runtime.py: `AgentRuntime`, its handlers and `_handle_message`. What the
-- validation of an envelope and of its payload answers is given with the message. Logging and tracing
-- are left out.
pub mod Effects
pub mod Trail
pub mod Recall
pub mod Once
pub mod Raising
use decentralized_agentic_re.Prelude.{
  ℕ, String, Bool, true, false, not, Option, none, some, List, [], ◌∷◌, str_eq, if◌then◌else◌,
}
use decentralized_agentic_re.Prelude.Dict.{Uuid}
use decentralized_agentic_re.Prelude.Exec.{
  Error, value_error, Result, ok, err, Exec, pure, raise, lift, catch, ◌>>=◌, ◌>>◌,
}
use decentralized_agentic_re.Prelude.Text.{one_of, ◌<>◌}
use decentralized_agentic_re.Runtime.Messages.{
  A2aMessage, TaskError, TaskRequest, TaskResult, TaskStatus, ErrorCategory, validate_status_fields,
  completed, failed, rejected, validation, unsupported_capability, handler_error, internal,
}
use decentralized_agentic_re.Runtime.Host.{
  Env, Host, Task, Envelope, result, reads, publish_raw, write_task_audit, is_duplicate,
  mark_processed,
}

-- `payload.get("task_id")` of a payload that is no task request: absent or falsy, or a
-- truthy value whose `str` is that of a UUID, or one whose `str` is not, be it a text or not.
pub data RawTaskId : Type 0 where
  absent : RawTaskId
  uuid : Uuid → RawTaskId
  malformed : RawTaskId

-- `TaskRequest.model_validate(envelope.payload)`, with `str(exc)[:500]` where it raises.
pub data Parsed : Type 0 where
  valid : TaskRequest → Parsed
  invalid : RawTaskId → String → Parsed

-- What the runtime reads of an envelope.
pub record Message : Type 0 where
  pub event_id : Uuid
  pub correlation_id : Uuid
  pub payload : Parsed

abbrev pub TaskHandler : Type 0 → Type 0
TaskHandler S = TaskRequest → Exec S A2aMessage

pub record Agent (S : Type 0) : Type 0 where
  pub agent_id : String
  pub capability_ids : List String
  pub handlers : List (String × TaskHandler S)

module _ {S : Type 0} where
  set_handler :
      String → TaskHandler S → List (String × TaskHandler S) → List (String × TaskHandler S)
  set_handler k f [] = (k, f) ∷ []
  set_handler k f ((j, g) ∷ hs) = if str_eq j k then (k, f) ∷ hs else (j, g) ∷ set_handler k f hs

  -- `AgentRuntime.handler`, the decorator applied to `fn`.
  unfoldable pub register : String → TaskHandler S → Agent S → Result (Agent S)
  unfolding set_handler
  register capability fn a =
      if not (one_of capability a.capability_ids)
      then err value_error
      else ok (record a { handlers = set_handler capability fn a.handlers })

  -- `self._handlers.get(capability)`
  unfoldable pub find_handler : String → List (String × TaskHandler S) → Option (TaskHandler S)
  find_handler k [] = none
  find_handler k ((j, f) ∷ hs) = if str_eq j k then some f else find_handler k hs

-- The envelope of a result, which answers the message.
abbrev pub result_envelope : Message → TaskResult → Uuid → ℕ → Envelope
result_envelope m r id at = record {
  event_id = id;
  correlation_id = m.correlation_id;
  causation_id = m.event_id;
  timestamp = at;
  body = result r;
}

unfoldable pub failure : Uuid → TaskStatus → String → ErrorCategory → String → TaskResult
failure task status performer category message = record {
  task_id = task;
  status = status;
  performer_agent_id = performer;
  output = none;
  error = some (record { category = category; message = message });
}

unfoldable pub completion : String → TaskRequest → A2aMessage → TaskResult
completion performer req output = record {
  task_id = req.task_id;
  status = completed;
  performer_agent_id = performer;
  output = some output;
  error = none;
}

module _ {S Raw : Type 0} (env : Env Raw) (a : Agent S) where
  -- `_publish_result`: a send that fails is only logged.
  unfoldable pub send_result : Message → TaskResult → Task S Raw (Unit {0})
  send_result m r = reads env.uuid4 >>= λ id.
      reads env.now >>= λ at. catch (publish_raw env (result_envelope m r id at)) (λ e. pure tt)

  -- A result is built, which runs its validator, and published.
  unfoldable pub publish_result : TaskResult → Message → Task S Raw (Unit {0})
  unfolding send_result
  publish_result r m = lift (validate_status_fields r) >>= send_result m

  unfoldable pub audits : Message → String → Option Uuid → Option String → Task S Raw (Unit {0})
  audits m = write_task_audit env m.event_id m.correlation_id

  -- A result without an output, and its audit record.
  unfoldable pub answers :
      Message → TaskResult → String → Option Uuid → String → Task S Raw (Unit {0})
  unfolding audits
  answers m r outcome task reason = publish_result r m >> audits m outcome task (some reason)

  -- `UUID(str(raw_task_id)) if raw_task_id else uuid4()`
  unfoldable pub task_id_for_result : RawTaskId → Task S Raw Uuid
  task_id_for_result absent = reads env.uuid4
  task_id_for_result (uuid id) = pure id
  task_id_for_result malformed = raise value_error

  -- The handler, on the state that is its own.
  unfoldable pub serves : TaskHandler S → TaskRequest → Task S Raw A2aMessage
  serves handler req w = let (r, s) = handler req w.served in (r, record w { served = s })

  -- What follows the handler's output, and what follows an exception.
  unfoldable pub complete : Message → TaskRequest → A2aMessage → Task S Raw (Unit {0})
  unfolding audits completion
  complete m req output =
      publish_result (completion a.agent_id req output) m
      >> audits m "completed" (some req.task_id) none

  unfoldable pub fail : Message → TaskRequest → Error → Task S Raw (Unit {0})
  unfolding answers failure
  fail m req e =
      answers m (failure req.task_id failed a.agent_id handler_error (env.describe e)) "failed"
        (some req.task_id) (env.describe e)

  unfoldable pub run_handler : Message → TaskRequest → TaskHandler S → Task S Raw (Unit {0})
  unfolding serves complete fail
  run_handler m req handler =
      catch (catch (serves handler req >>= complete m req) (fail m req)) (λ e. pure tt)

  -- From the accepted audit record on.
  unfoldable pub perform : Message → TaskRequest → Option (TaskHandler S) → Task S Raw (Unit {0})
  unfolding run_handler answers failure audits
  perform m req none =
      audits m "accepted" (some req.task_id) none
      >> answers m
          (failure req.task_id failed a.agent_id internal
            "No handler registered for this capability")
          "failed" (some req.task_id) "no_handler"
  perform m req (some handler) =
      audits m "accepted" (some req.task_id) none
      >> run_handler m req handler
      >> catch (mark_processed env req.task_id) (λ e. pure tt)

  -- The test for a duplicate, which answers whether the request ends here.
  unfoldable pub skip_duplicate : Message → TaskRequest → Task S Raw Bool
  unfolding audits
  skip_duplicate m req =
      catch
        (is_duplicate env req.task_id >>= λ seen.
          if seen
          then (audits m "duplicate_skipped" (some req.task_id) none >> pure true)
          else pure false)
        (λ e. pure false)

  -- The request is addressed to this agent, and for a capability of its card.
  unfoldable pub accept : Message → TaskRequest → Task S Raw (Unit {0})
  unfolding perform skip_duplicate
  accept m req = skip_duplicate m req >>= λ skipped.
      if skipped then pure tt else perform m req (find_handler req.capability a.handlers)

  unfoldable pub handle_request : Message → TaskRequest → Task S Raw (Unit {0})
  unfolding accept answers failure
  handle_request m req =
      if not (str_eq req.target_agent_id a.agent_id)
      then (answers m
          (failure req.task_id rejected a.agent_id validation (
            "This agent is "
            <> env.quoted a.agent_id
            <> ", not "
            <> env.quoted req.target_agent_id))
          "rejected" (some req.task_id) "wrong_target")
      else if not (one_of req.capability a.capability_ids)
      then (answers m
          (failure req.task_id rejected a.agent_id unsupported_capability
            ("Capability " <> env.quoted req.capability <> " is not supported"))
          "rejected" (some req.task_id) "unsupported_capability")
      else accept m req

  unfoldable pub handle_parsed : Message → Parsed → Task S Raw (Unit {0})
  unfolding task_id_for_result handle_request answers failure
  handle_parsed m (valid req) = handle_request m req
  handle_parsed m (invalid raw message) = task_id_for_result raw >>= λ task.
      answers m (failure task rejected a.agent_id validation message) "rejected" none message

  -- `_handle_message`, of `none` where the envelope is invalid.
  unfoldable pub handle_message : Option Message → Task S Raw (Unit {0})
  unfolding handle_parsed
  handle_message none = pure tt
  handle_message (some m) = handle_parsed m m.payload

  -- The loop of `serve` over the messages that the broker hands out: an exception ends it.
  unfoldable pub serve : List (Option Message) → Task S Raw (Unit {0})
  unfolding handle_message
  serve [] = pure tt
  serve (m ∷ ms) = handle_message m >> serve ms
