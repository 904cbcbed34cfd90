-- ===== src/Runtime/Host.antt =====
-- What src/agent_foundation/runtime/runtime.py works on: the topics of results and audit records as
-- the log of sent envelopes, the tracker of src/agent_foundation/idempotency.py with the topic of the
-- processed ids, and the state `served` of the agent's own handlers. The clock, `uuid4`, the broker,
-- the JSON of a record, and the texts that Python makes of an exception and of a quoted string are
-- parameters.
pub mod Restart
use decentralized_agentic_re.Prelude.{
  ℕ, suc, String, Bool, true, false, Option, none, some, List, [], ◌∷◌, ◌++◌, if◌then◌else◌,
}
use decentralized_agentic_re.Prelude.Dict.{Uuid}
use decentralized_agentic_re.Prelude.Exec.{
  Error, ok, err, Exec, send_failed, pure, lift, catch, modify, ◌>>=◌, ◌>>◌,
}
use decentralized_agentic_re.Contracts.{AuditPayload, validate_reason_required}
use decentralized_agentic_re.Runtime.Cache.{Cache, contains, insert}
use decentralized_agentic_re.Runtime.Messages.{TaskResult}

pub record Env (Raw : Type 0) : Type 0 where
  pub now : ℕ → ℕ
  pub uuid4 : ℕ → Uuid
  pub delivers : ℕ → Bool
  -- Whether the topics can be created and read at this tick.
  pub reachable : ℕ → Bool
  -- The answers of `getmany` over a topic, up to a failure.
  pub polls : List Raw → List (List Raw)
  -- `json.dumps({"event_id": str(id)})`, and `UUID(json.loads(value)["event_id"])`.
  pub encode : Uuid → Raw
  pub decode : Raw → Option Uuid
  -- `str(exc)[:500]`, and `f"{s!r}"`.
  pub describe : Error → String
  pub quoted : String → String

pub data Body : Type 0 where
  result : TaskResult → Body
  audit : AuditPayload → Body

pub record Envelope : Type 0 where
  pub event_id : Uuid
  pub correlation_id : Uuid
  pub causation_id : Uuid
  pub timestamp : ℕ
  pub body : Body

pub record Tracker : Type 0 where
  pub lru : Cache
  pub initialized : Bool

pub record Host (S Raw : Type 0) : Type 0 where
  pub served : S
  pub log : List Envelope
  pub processed : List Raw
  pub tracker : Tracker
  pub tick : ℕ

-- The batches up to the first empty one. A record that cannot be read is skipped.
unfoldable pub load : {Raw : Type 0} → (Raw → Option Uuid) → List Raw → Cache → Cache
load decode [] c = c
load decode (r ∷ rs) c = load decode rs (elim (decode r) [ none ↦ c | some id ↦ insert id c ])

-- `_rebuild_from_topic`
unfoldable pub rebuild : {Raw : Type 0} → (Raw → Option Uuid) → List (List Raw) → Cache → Cache
rebuild decode [] c = c
rebuild decode ([] ∷ batches) c = c
rebuild decode ((r ∷ rs) ∷ batches) c = rebuild decode batches (load decode (r ∷ rs) c)

abbrev pub audit_payload : Uuid → String → Option Uuid → Option String → ℕ → AuditPayload
audit_payload original outcome task reason at = record {
  original = original;
  outcome = outcome;
  reason = reason;
  task_id = task;
  recorded_at = at;
}

-- The envelope of an audit record, which answers the original.
abbrev pub audit_envelope : AuditPayload → Uuid → Uuid → ℕ → Envelope
audit_envelope p correlation id at = record {
  event_id = id;
  correlation_id = correlation;
  causation_id = p.original;
  timestamp = at;
  body = audit p;
}

abbrev pub Task : Type 0 → Type 0 → Type 0 → Type 0
Task S Raw A = Exec (Host S Raw) A

module _ {S Raw : Type 0} where
  abbrev pub reads : {A : Type 0} → (ℕ → A) → Task S Raw A
  reads f w = (ok (f w.tick), record w { tick = suc w.tick })

  -- `publish_raw`
  unfoldable pub publish_raw : Env Raw → Envelope → Task S Raw (Unit {0})
  publish_raw env e w =
      if env.delivers w.tick
      then (ok tt, record w { log = w.log ++ e ∷ []; tick = suc w.tick })
      else (err send_failed, record w { tick = suc w.tick })

  -- The end of `write_task_audit`: a send that fails is only logged.
  unfoldable pub send_audit : Env Raw → AuditPayload → Uuid → ℕ → Task S Raw (Unit {0})
  send_audit env p correlation at = reads env.uuid4 >>= λ id.
      catch (publish_raw env (audit_envelope p correlation id at)) (λ e. pure tt)

  -- `write_task_audit`. The original is given by its event id and its correlation id.
  unfoldable pub write_task_audit :
      Env Raw → Uuid → Uuid → String → Option Uuid → Option String → Task S Raw (Unit {0})
  unfolding send_audit
  write_task_audit env original correlation outcome task reason = reads env.now >>= λ at.
      lift (validate_reason_required (audit_payload original outcome task reason at)) >>= λ p.
      send_audit env p correlation at

  -- `IdempotencyTracker.initialize`
  unfoldable pub initialize : Env Raw → Task S Raw (Unit {0})
  initialize env w = (
    ok tt,
    record w {
      tracker = record {
        lru =
            if env.reachable w.tick
            then rebuild env.decode (env.polls w.processed) w.tracker.lru
            else w.tracker.lru;
        initialized = true;
      };
      tick = suc w.tick;
    },
  )

  -- `event_id in self._lru`
  unfoldable pub ask : Uuid → Task S Raw Bool
  ask id w =
      let (found, lru) = contains id w.tracker.lru in
      (ok found, record w { tracker = record w.tracker { lru = lru } })

  -- `IdempotencyTracker.is_duplicate`
  unfoldable pub is_duplicate : Env Raw → Uuid → Task S Raw Bool
  unfolding ask
  is_duplicate env id w = if w.tracker.initialized then ask id w else (initialize env >> ask id) w

  -- `IdempotencyTracker._persist`
  unfoldable pub persist : Env Raw → Uuid → Task S Raw (Unit {0})
  persist env id w =
      if env.delivers w.tick
      then (ok tt, record w { processed = w.processed ++ env.encode id ∷ []; tick = suc w.tick })
      else (ok tt, record w { tick = suc w.tick })

  -- `IdempotencyTracker.mark_processed`
  unfoldable pub mark_processed : Env Raw → Uuid → Task S Raw (Unit {0})
  unfolding persist
  mark_processed env id =
      modify (λ w. record w { tracker = record w.tracker { lru = insert id w.tracker.lru } })
      >> persist env id
