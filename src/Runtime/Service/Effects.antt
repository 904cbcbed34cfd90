-- ===== src/Runtime/Service/Effects.antt =====
-- The state that each step of `_handle_message` leaves.
use decentralized_agentic_re.Prelude.{
  ℕ, suc, String, ◌≡◌, refl, ap, ◌∙◌, Bool, true, false, Option, none, some, List, [], ◌∷◌, ◌++◌,
  Bool-cases, inl, inr, arith, if◌then◌else◌,
}
use decentralized_agentic_re.Prelude.Dict.{Uuid}
use decentralized_agentic_re.Prelude.Exec.{
  Error, Result, ok, err, send_failed, >>=-ok, >>=-err, catch-ok, catch-err, pure, catch, ◌>>=◌,
  ◌>>◌,
}
use decentralized_agentic_re.Contracts.{validate_reason_required}
use decentralized_agentic_re.Runtime.Cache.{contains, insert}
use decentralized_agentic_re.Runtime.Messages.{
  A2aMessage, TaskRequest, TaskResult, TaskStatus, completed, failed, rejected, ErrorCategory,
  validation, unsupported_capability, handler_error, duplicate, internal, validate_status_fields,
}
use decentralized_agentic_re.Runtime.Host.{
  Env, Host, Task, Tracker, Envelope, audit_payload, audit_envelope, publish_raw, write_task_audit,
  persist, mark_processed, is_duplicate, ask,
}
use decentralized_agentic_re.Runtime.Service.{
  Agent, TaskHandler, Message, result_envelope, publish_result, audits, answers, failure,
  completion, complete, fail, run_handler, serves, skip_duplicate, perform, accept, find_handler,
}

-- All but the log and the clock.
abbrev pub core : {S Raw : Type 0} → Host S Raw → S × Tracker × List Raw
core w = (w.served, w.tracker, w.processed)

-- The categories that `_handle_message` gives a result of this status.
unfoldable pub suits : TaskStatus → ErrorCategory → Bool
suits failed handler_error = true
suits failed internal = true
suits rejected validation = true
suits rejected unsupported_capability = true
suits _ _ = false

pub failure_lem :
    (status : TaskStatus) (category : ErrorCategory)
    → suits status category ≡ true
    → (task : Uuid) (performer message : String)
    → validate_status_fields (failure task status performer category message)
      ≡ ok (failure task status performer category message)
unfolding validate_status_fields failure suits
failure_lem completed validation h task performer message = cc
failure_lem completed unsupported_capability h task performer message = cc
failure_lem completed handler_error h task performer message = cc
failure_lem completed duplicate h task performer message = cc
failure_lem completed internal h task performer message = cc
failure_lem failed validation h task performer message = cc
failure_lem failed unsupported_capability h task performer message = cc
failure_lem failed handler_error h task performer message = refl
failure_lem failed duplicate h task performer message = cc
failure_lem failed internal h task performer message = refl
failure_lem rejected validation h task performer message = refl
failure_lem rejected unsupported_capability h task performer message = refl
failure_lem rejected handler_error h task performer message = cc
failure_lem rejected duplicate h task performer message = cc
failure_lem rejected internal h task performer message = cc

validated :
    (performer : String) (req : TaskRequest) (output : A2aMessage)
    → validate_status_fields (completion performer req output)
      ≡ ok (completion performer req output)
unfolding validate_status_fields completion
validated performer req output = refl

module _ {S Raw : Type 0} (env : Env Raw) where
  -- The envelope is sent, or the broker refuses it.
  unfoldable pub attempt : Envelope → Host S Raw → Host S Raw
  attempt e w = record w {
    log = if env.delivers w.tick then w.log ++ e ∷ [] else w.log;
    tick = suc w.tick;
  }

  attempt_lem :
      (e : Envelope) (w : Host S Raw)
      → catch (publish_raw env e) (λ x. pure tt) w ≡ (ok tt, attempt e w)
  unfolding publish_raw attempt
  attempt_lem e w = elim (Bool-cases (env.delivers w.tick)) [
    | inl y ↦
        let sent : publish_raw env e w
            ≡ (ok tt, record w { log = w.log ++ e ∷ []; tick = suc w.tick }) =
          rw y in
        rw y (catch-ok (publish_raw env e) (λ x. pure tt) sent)
    | inr n ↦
        let refused : publish_raw env e w ≡ (err send_failed, record w { tick = suc w.tick }) =
          rw n in
        rw n (catch-err (publish_raw env e) (λ x. pure tt) refused)
  ]

  unfoldable pub passed : ℕ → Host S Raw → Host S Raw
  passed n w = record w { tick = n }

  unfoldable pub recorded : Message → String → Option Uuid → Option String → Host S Raw → Host S Raw
  unfolding passed attempt
  recorded m outcome task reason w =
      attempt
        (audit_envelope (audit_payload m.event_id outcome task reason (env.now w.tick))
          m.correlation_id (env.uuid4 (suc w.tick)) (env.now w.tick))
        (passed (suc (suc w.tick)) w)

  unfoldable pub replied : Message → TaskResult → Host S Raw → Host S Raw
  unfolding passed attempt
  replied m r w =
      attempt (result_envelope m r (env.uuid4 w.tick) (env.now (suc w.tick)))
        (passed (suc (suc w.tick)) w)

  module _ (a : Agent S) (m : Message) where
    pub audits-eq :
        (o : String) (t : Option Uuid) (r : Option String) (w : Host S Raw)
        → ((at : ℕ)
            → validate_reason_required (audit_payload m.event_id o t r at)
              ≡ ok (audit_payload m.event_id o t r at))
        → audits env a m o t r w ≡ (ok tt, recorded m o t r w)
    unfolding audits write_task_audit recorded passed
    audits-eq o t r w h = rw (h (env.now w.tick)) (attempt_lem _ _)

    pub publish_result-eq :
        (r : TaskResult) (w : Host S Raw)
        → validate_status_fields r ≡ ok r
        → publish_result env a r m w ≡ (ok tt, replied m r w)
    unfolding publish_result replied passed
    publish_result-eq r w h = rw h (attempt_lem _ _)

    -- A result without an output, and its audit record.
    unfoldable pub answered : TaskResult → String → Option Uuid → String → Host S Raw → Host S Raw
    answered r o t reason w = recorded m o t (some reason) (replied m r w)

    pub answers-eq :
        (r : TaskResult) (o : String) (t : Option Uuid) (reason : String) (w : Host S Raw)
        → validate_status_fields r ≡ ok r
        → answers env a m r o t reason w ≡ (ok tt, answered r o t reason w)
    unfolding answers answered validate_reason_required
    answers-eq r o t reason w h =
        >>=-ok (publish_result env a r m) (λ u. audits env a m o t (some reason))
          (publish_result-eq r w h)
        ∙ audits-eq o t (some reason) (replied m r w) (λ at. ground arith)

    -- What the handler returns or raises, as a result of the task.
    unfoldable pub outcome_of : TaskRequest → Result A2aMessage → TaskResult
    unfolding failure completion
    outcome_of req (ok output) = completion a.agent_id req output
    outcome_of req (err e) = failure req.task_id failed a.agent_id handler_error (env.describe e)

    unfoldable pub concluded : TaskRequest → Result A2aMessage → Host S Raw → Host S Raw
    unfolding answered outcome_of
    concluded req (ok output) w =
        recorded m "completed" (some req.task_id) none (replied m (outcome_of req (ok output)) w)
    concluded req (err e) w =
        answered (outcome_of req (err e)) "failed" (some req.task_id) (env.describe e) w

    serves-eq :
        {r : Result A2aMessage} {s : S} (req : TaskRequest) (handler : TaskHandler S)
        (w : Host S Raw)
        → handler req w.served ≡ (r, s)
        → serves env a handler req w ≡ (r, record w { served = s })
    unfolding serves
    serves-eq req handler w h =
        ap (λ (x : Result A2aMessage × S). (x.0, record w { served = x.1 })) h

    complete-eq :
        (req : TaskRequest) (output : A2aMessage) (w : Host S Raw)
        → complete env a m req output w ≡ (ok tt, concluded req (ok output) w)
    unfolding complete concluded outcome_of validate_reason_required
    complete-eq req output w =
        >>=-ok (publish_result env a (completion a.agent_id req output) m)
          (λ u. audits env a m "completed" (some req.task_id) none)
          (publish_result-eq (completion a.agent_id req output) w (validated a.agent_id req output))
        ∙ audits-eq "completed" (some req.task_id) none _ (λ at. refl)

    fail-eq :
        (req : TaskRequest) (e : Error) (w : Host S Raw)
        → fail env a m req e w ≡ (ok tt, concluded req (err e) w)
    unfolding fail concluded outcome_of suits
    fail-eq req e w =
        answers-eq (outcome_of req (err e)) "failed" (some req.task_id) (env.describe e) w
          (failure_lem failed handler_error refl req.task_id a.agent_id (env.describe e))

    pub run_handler-eq :
        (r : Result A2aMessage) {s : S} (req : TaskRequest) (handler : TaskHandler S)
        (w : Host S Raw)
        → handler req w.served ≡ (r, s)
        → run_handler env a m req handler w ≡ (ok tt, concluded req r (record w { served = s }))
    unfolding run_handler
    run_handler-eq (ok output) req handler w h =
        catch-ok (catch (serves env a handler req >>= complete env a m req) (fail env a m req))
          (λ e. pure tt)
          (catch-ok (serves env a handler req >>= complete env a m req) (fail env a m req) (
            >>=-ok (serves env a handler req) (complete env a m req) (serves-eq req handler w h)
            ∙ complete-eq req output _))
    run_handler-eq (err e) req handler w h =
        catch-ok (catch (serves env a handler req >>= complete env a m req) (fail env a m req))
          (λ e. pure tt)
          (catch-err (serves env a handler req >>= complete env a m req) (fail env a m req) (
              >>=-err (serves env a handler req) (complete env a m req) (serves-eq req handler w h))
            ∙ fail-eq req e _)

  -- An id is marked, and its record kept if the broker takes it.
  unfoldable pub marked : Uuid → Host S Raw → Host S Raw
  marked id w = record w {
    tracker = record w.tracker { lru = insert id w.tracker.lru };
    processed = if env.delivers w.tick then w.processed ++ env.encode id ∷ [] else w.processed;
    tick = suc w.tick;
  }

  mark_processed-eq : (id : Uuid) (w : Host S Raw) → mark_processed env id w ≡ (ok tt, marked id w)
  unfolding mark_processed persist marked
  mark_processed-eq id w = elim (Bool-cases (env.delivers w.tick)) [
    | inl y ↦ rw (y, if◌then◌else◌)
    | inr n ↦ rw (n, if◌then◌else◌)
  ]

  pub attempt-served : (e : Envelope) (w : Host S Raw) → (attempt e w).served ≡ w.served
  unfolding attempt
  attempt-served e w = refl

  pub recorded-core :
      (m : Message) (o : String) (t : Option Uuid) (r : Option String) (w : Host S Raw)
      → core (recorded m o t r w) ≡ core w
  unfolding recorded attempt passed
  recorded-core m o t r w = refl

  pub replied-core : (m : Message) (r : TaskResult) (w : Host S Raw) → core (replied m r w) ≡ core w
  unfolding replied attempt passed
  replied-core m r w = refl

  module _ (a : Agent S) (m : Message) where
    pub answered-core :
        (r : TaskResult) (o : String) (t : Option Uuid) (reason : String) (w : Host S Raw)
        → core (answered a m r o t reason w) ≡ core w
    unfolding answered
    answered-core r o t reason w =
        recorded-core m o t (some reason) (replied m r w) ∙ replied-core m r w

    pub concluded-core :
        (req : TaskRequest) (r : Result A2aMessage) (w : Host S Raw)
        → core (concluded a m req r w) ≡ core w
    unfolding concluded
    concluded-core req (ok output) w =
        recorded-core m "completed" (some req.task_id) none
          (replied m (outcome_of a m req (ok output)) w)
        ∙ replied-core m (outcome_of a m req (ok output)) w
    concluded-core req (err e) w =
        answered-core (outcome_of a m req (err e)) "failed" (some req.task_id) (env.describe e) w

    -- The request is accepted, and the handler leaves `r` and its state `s`.
    unfoldable pub performed : TaskRequest → Result A2aMessage × S → Host S Raw → Host S Raw
    performed req (r, s) w = marked req.task_id (
        concluded a m req r
          (record (recorded m "accepted" (some req.task_id) none w) { served = s }))

    pub perform-eq :
        (req : TaskRequest) (handler : TaskHandler S) (w : Host S Raw)
        → perform env a m req (some handler) w ≡ (ok tt, performed req (handler req w.served) w)
    unfolding perform performed validate_reason_required
    perform-eq req handler w =
        >>=-ok
          (audits env a m "accepted" (some req.task_id) none >> run_handler env a m req handler)
          (λ u. catch (mark_processed env req.task_id) (λ e. pure tt))
          (>>=-ok (audits env a m "accepted" (some req.task_id) none)
              (λ u. run_handler env a m req handler)
              (audits-eq a m "accepted" (some req.task_id) none w (λ at. refl))
            ∙ run_handler-eq a m (handler req w.served).0 {s = (handler req w.served).1} req handler
                (recorded m "accepted" (some req.task_id) none w)
                (ap (λ (s : S). handler req s)
                  (ap (λ (c : S × Tracker × List Raw). c.0)
                    (recorded-core m "accepted" (some req.task_id) none w))))
        ∙ catch-ok (mark_processed env req.task_id) (λ e. pure tt) (mark_processed-eq req.task_id _)

    -- No handler is registered.
    unfoldable pub unhandled : TaskRequest → Host S Raw → Host S Raw
    unhandled req w =
        answered a m
          (failure req.task_id failed a.agent_id internal
            "No handler registered for this capability")
          "failed" (some req.task_id) "no_handler" (recorded m "accepted" (some req.task_id) none w)

    pub perform-none :
        (req : TaskRequest) (w : Host S Raw) → perform env a m req none w ≡ (ok tt, unhandled req w)
    unfolding perform unhandled validate_reason_required suits
    perform-none req w =
        >>=-ok (audits env a m "accepted" (some req.task_id) none)
          (λ u.
            answers env a m
              (failure req.task_id failed a.agent_id internal
                "No handler registered for this capability")
              "failed" (some req.task_id) "no_handler")
          (audits-eq a m "accepted" (some req.task_id) none w (λ at. refl))
        ∙ answers-eq a m _ "failed" (some req.task_id) "no_handler" _ (
            failure_lem failed internal refl req.task_id a.agent_id
              "No handler registered for this capability")

    -- The cache finds the id, and moves it.
    unfoldable pub touched : TaskRequest → Host S Raw → Host S Raw
    touched req w = record w {
      tracker = record w.tracker { lru = (contains req.task_id w.tracker.lru).1 };
    }

    unfoldable pub skipped : TaskRequest → Host S Raw → Host S Raw
    skipped req w = recorded m "duplicate_skipped" (some req.task_id) none (touched req w)

    is_duplicate-eq :
        (req : TaskRequest) (w : Host S Raw)
        → w.tracker.initialized ≡ true
        → is_duplicate env req.task_id w
          ≡ (ok (contains req.task_id w.tracker.lru).0, touched req w)
    unfolding is_duplicate ask touched
    is_duplicate-eq req w h = rw h

    skip : TaskRequest → Bool → Task S Raw Bool
    skip req seen =
        if seen
        then (audits env a m "duplicate_skipped" (some req.task_id) none >> pure true)
        else pure false

    pub skip_duplicate-seen :
        (req : TaskRequest) (w : Host S Raw)
        → w.tracker.initialized ≡ true
        → (contains req.task_id w.tracker.lru).0 ≡ true
        → skip_duplicate env a m req w ≡ (ok true, skipped req w)
    unfolding skip_duplicate skipped validate_reason_required skip
    skip_duplicate-seen req w i h =
        catch-ok (is_duplicate env req.task_id >>= skip req) (λ e. pure false)
          (>>=-ok (is_duplicate env req.task_id) (skip req) (is_duplicate-eq req w i)
            ∙ rw h (
                >>=-ok (audits env a m "duplicate_skipped" (some req.task_id) none) (λ u. pure true)
                  (audits-eq a m "duplicate_skipped" (some req.task_id) none _ (λ at. refl))))

    pub skip_duplicate-new :
        (req : TaskRequest) (w : Host S Raw)
        → w.tracker.initialized ≡ true
        → (contains req.task_id w.tracker.lru).0 ≡ false
        → skip_duplicate env a m req w ≡ (ok false, touched req w)
    unfolding skip_duplicate skip
    skip_duplicate-new req w i h =
        catch-ok (is_duplicate env req.task_id >>= skip req) (λ e. pure false)
          (>>=-ok (is_duplicate env req.task_id) (skip req) (is_duplicate-eq req w i) ∙ rw h)

    go_on : TaskRequest → Bool → Task S Raw (Unit {0})
    go_on req skipped =
        if skipped then pure tt else perform env a m req (find_handler req.capability a.handlers)

    pub accept-seen :
        (req : TaskRequest) (w : Host S Raw)
        → w.tracker.initialized ≡ true
        → (contains req.task_id w.tracker.lru).0 ≡ true
        → accept env a m req w ≡ (ok tt, skipped req w)
    unfolding accept go_on
    accept-seen req w i c =
        >>=-ok (skip_duplicate env a m req) (go_on req) (skip_duplicate-seen req w i c)

    pub accept-new :
        (req : TaskRequest) (w : Host S Raw)
        → w.tracker.initialized ≡ true
        → (contains req.task_id w.tracker.lru).0 ≡ false
        → accept env a m req w
          ≡ perform env a m req (find_handler req.capability a.handlers) (touched req w)
    unfolding accept go_on
    accept-new req w i c =
        >>=-ok (skip_duplicate env a m req) (go_on req) (skip_duplicate-new req w i c)
