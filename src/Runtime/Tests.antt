-- ===== src/Runtime/Tests.antt =====
-- Runs of the runtime of src/agent_foundation on concrete inputs.
use decentralized_agentic_re.Prelude.{
  ℕ, suc, ◌+◌, ◌≡◌, refl, true, false, Option, none, some, List, [], ◌∷◌, ◌++◌, ◌↔◌, arith, member,
}
use decentralized_agentic_re.Prelude.Exec.{ok, err, value_error}
use decentralized_agentic_re.Contracts.{validate_reason_required}
use decentralized_agentic_re.Runtime.Cache.{empty_cache, contains, insert}
use decentralized_agentic_re.Runtime.Cache.Refinement.{
  ask, note, run, replay, Follows, empty_cache-Follows, run_refines, remembered,
}
use decentralized_agentic_re.Runtime.Messages.{
  A2aMessage, Role, TaskRequest, failed, validate_status_fields, handler_error,
}
use decentralized_agentic_re.Runtime.Messages.Status.{Verdict, validate_status_fields-Shape}
use decentralized_agentic_re.Runtime.Host.{
  Env, Host, mark_processed, is_duplicate, write_task_audit, publish_raw,
}
use decentralized_agentic_re.Runtime.Host.Restart.{handed, history_of, restart_answers}
use decentralized_agentic_re.Runtime.Service.{
  Agent, Message, valid, invalid, malformed, handle_message, serve, find_handler, publish_result,
}
use decentralized_agentic_re.Runtime.Service.Trail.{Event, Course, events, handle_message-trail}
use decentralized_agentic_re.Runtime.Service.Once.{results, served_once}
use decentralized_agentic_re.Runtime.Service.Raising.{
  Raises, IsMalformed, handle_message-Raises_iff,
}

run_refines_example :
    ((run (note 1 ∷ note 2 ∷ ask 1 ∷ note 3 ∷ ask 2 ∷ []) (empty_cache 2)).0
      ≡ (replay 2 (note 1 ∷ note 2 ∷ ask 1 ∷ note 3 ∷ ask 2 ∷ []) []).0)
    × Follows 2
        (run (note 1 ∷ note 2 ∷ ask 1 ∷ note 3 ∷ ask 2 ∷ []) (empty_cache 2)).1
        (replay 2 (note 1 ∷ note 2 ∷ ask 1 ∷ note 3 ∷ ask 2 ∷ []) []).1
run_refines_example =
    run_refines 2 (note 1 ∷ note 2 ∷ ask 1 ∷ note 3 ∷ ask 2 ∷ []) (empty_cache 2) []
      (empty_cache-Follows 2)

-- 2 was the last touched id but 1 when 3 came.
answers_of_run :
    (run (note 1 ∷ note 2 ∷ ask 1 ∷ note 3 ∷ ask 2 ∷ []) (empty_cache 2)).0 ≡ true ∷ false ∷ []
unfolding run empty_cache contains insert
answers_of_run = refl

abbrev message : A2aMessage
message = record { role = Role.user; parts = []; task_id = none }

-- Each record in a batch of its own.
abbrev singletons : List ℕ → List (List ℕ)
singletons [] = []
singletons (r ∷ rs) = (r ∷ []) ∷ singletons rs

abbrev env : Env ℕ
env = record {
  now = λ n. n;
  uuid4 = λ n. 1000 + n;
  delivers = λ n. true;
  reachable = λ n. true;
  polls = singletons;
  encode = λ id. id;
  decode = some;
  describe = λ e. "error";
  quoted = λ s. s;
}

abbrev agent : Agent ℕ
agent = record {
  agent_id = "risk-fraud-agent";
  capability_ids = "assess_fraud_risk" ∷ [];
  handlers = ("assess_fraud_risk", λ req s. (ok message, suc s)) ∷ [];
}

abbrev request : TaskRequest
request = record {
  task_id = 7;
  capability = "assess_fraud_risk";
  requester_agent_id = "customer-resolution-agent";
  target_agent_id = "risk-fraud-agent";
  input = message;
}

abbrev first : Message
first = record { event_id = 1; correlation_id = 5; payload = valid request }

abbrev second : Message
second = record { event_id = 2; correlation_id = 5; payload = valid request }

abbrev poison : Message
poison = record { event_id = 3; correlation_id = 5; payload = invalid malformed "bad" }

abbrev host : Host ℕ ℕ
host = record {
  served = 0;
  log = [];
  processed = [];
  tracker = record { lru = empty_cache 3; initialized = true };
  tick = 0;
}

-- The handler runs for the first delivery only.
runs_once : (serve env agent (some first ∷ some second ∷ []) host).1.served ≡ 1
unfolding serve is_duplicate contains find_handler write_task_audit validate_reason_required
    publish_raw publish_result validate_status_fields mark_processed insert empty_cache
runs_once = refl

handle_message-trail_example :
    (trail : List Event) × Course agent first request host trail
    × ((handle_message env agent (some first) host).0 ≡ ok tt)
    × (events (handle_message env agent (some first) host).1.log ≡ events host.log ++ trail)
handle_message-trail_example =
    handle_message-trail env agent first request host (λ n. refl) refl refl

served_once_example :
    let v = (serve env agent (none ∷ none ∷ []) (handle_message env agent (some first) host).1).1 in
    let (r, v') = handle_message env agent (some second) v in
    (r ≡ ok tt)
    × (v'.served ≡ v.served)
    × (results v'.log ≡ results v.log)
    × (v'.processed ≡ v.processed)
unfolding find_handler
served_once_example =
    served_once env agent 3 [] first second request (λ req s. (ok message, suc s))
      (none ∷ none ∷ []) host refl (empty_cache-Follows 3) refl refl refl refl refl (omega arith)

handle_message-Raises_iff_example :
    (Raises (handle_message env agent (some poison) host) ↔ IsMalformed poison.payload)
    × ((ms : List (Option Message))
        → IsMalformed poison.payload
        → serve env agent (some poison ∷ ms) host ≡ (err value_error, host))
handle_message-Raises_iff_example = handle_message-Raises_iff env agent poison host refl

validate_status_fields-Shape_example :
    Verdict 7 failed "risk-fraud-agent" none
      (some (record { category = handler_error; message = "timeout" }))
validate_status_fields-Shape_example =
    validate_status_fields-Shape 7 failed "risk-fraud-agent" none
      (some (record { category = handler_error; message = "timeout" }))

-- The host that starts again, over the topic with one more record.
abbrev restarted : Host ℕ ℕ
restarted = record host {
  processed = 7 ∷ 8 ∷ [];
  tracker = record { lru = empty_cache 3; initialized = false };
}

-- An empty poll comes before the second record.
abbrev early : Env ℕ
early = record env { polls = λ rs. elim rs [ [] ↦ [] | r ∷ rest ↦ (r ∷ []) ∷ [] ∷ rest ∷ [] ] }

restart_answers_example :
    (is_duplicate early 8 restarted).0
    ≡ ok (
        member 8
          (remembered 3 (history_of early.decode (handed (early.polls restarted.processed)) [])))
restart_answers_example = restart_answers early 3 8 restarted refl refl refl

forgotten :
    member 8 (remembered 3 (history_of early.decode (handed (early.polls restarted.processed)) []))
    ≡ false
forgotten = refl
