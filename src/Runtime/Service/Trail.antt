-- ===== src/Runtime/Service/Trail.antt =====
-- What one message leaves on the topics of results and audit records.
use mathlib.Core.Path.{subst}
use mathlib.Core.List.{append_assoc}
use decentralized_agentic_re.Prelude.{
  ℕ, suc, String, ◌≡◌, refl, sym, ap, ◌∙◌, true, false, Option, none, some, List, [], ◌∷◌, ◌++◌,
  Bool-cases, inl, inr, str_eq,
}
use decentralized_agentic_re.Prelude.Dict.{Uuid}
use decentralized_agentic_re.Prelude.Text.{one_of}
use decentralized_agentic_re.Prelude.Exec.{Error, Result, ok, err}
use decentralized_agentic_re.Runtime.Cache.{contains}
use decentralized_agentic_re.Runtime.Messages.{
  A2aMessage, TaskRequest, TaskResult, TaskStatus, completed, failed, rejected, validation,
  unsupported_capability,
}
use decentralized_agentic_re.Runtime.Host.{Env, Host, Envelope, Body, result, audit}
use decentralized_agentic_re.Runtime.Service.{
  Agent, TaskHandler, Message, valid, failure, completion, perform, accept, find_handler,
  handle_request, handle_parsed, handle_message,
}
use decentralized_agentic_re.Runtime.Service.Effects.{
  attempt, passed, recorded, replied, answered, suits, failure_lem, answers-eq, outcome_of,
  concluded, marked, performed, perform-eq, unhandled, perform-none, touched, skipped, accept-seen,
  accept-new,
}

-- A result of a task, in answer to a message, and an audit record about one.
pub data Event : Type 0 where
  replies : Uuid → Uuid → TaskStatus → Event
  audits : Option Uuid → Uuid → String → Event

event_of : Envelope → Body → Event
event_of e (result r) = replies r.task_id e.causation_id r.status
event_of e (audit p) = audits p.task_id p.original p.outcome

unfoldable pub events : List Envelope → List Event
unfolding event_of
events [] = []
events (e ∷ es) = event_of e e.body ∷ events es

events-append :
    (es : List Envelope) (e : Envelope) → events (es ++ e ∷ []) ≡ events es ++ events (e ∷ [])
unfolding events
events-append [] e = refl
events-append (d ∷ es) e = ap (λ (r : List Event). event_of d d.body ∷ r) (events-append es e)

followed :
    (xs ys : List Event) (x : Event) (zs : List Event)
    → xs ≡ ys ++ x ∷ []
    → xs ++ zs ≡ ys ++ (x ∷ zs)
followed xs ys x zs h = ap (λ (l : List Event). l ++ zs) h ∙ append_assoc ys (x ∷ []) zs

-- Which events a task request is due, by the agent, the cache, and what the handler does.
pub data Course {S Raw : Type 0} (a : Agent S) (m : Message) (req : TaskRequest) (w : Host S Raw)
    : List Event → Type 0 where
  misdirected :
      str_eq req.target_agent_id a.agent_id ≡ false
      → Course a m req w (
          replies req.task_id m.event_id rejected
          ∷ audits (some req.task_id) m.event_id "rejected"
          ∷ [])
  unsupported :
      str_eq req.target_agent_id a.agent_id ≡ true
      → one_of req.capability a.capability_ids ≡ false
      → Course a m req w (
          replies req.task_id m.event_id rejected
          ∷ audits (some req.task_id) m.event_id "rejected"
          ∷ [])
  repeated :
      str_eq req.target_agent_id a.agent_id ≡ true
      → one_of req.capability a.capability_ids ≡ true
      → (contains req.task_id w.tracker.lru).0 ≡ true
      → Course a m req w (audits (some req.task_id) m.event_id "duplicate_skipped" ∷ [])
  unregistered :
      str_eq req.target_agent_id a.agent_id ≡ true
      → one_of req.capability a.capability_ids ≡ true
      → (contains req.task_id w.tracker.lru).0 ≡ false
      → find_handler req.capability a.handlers ≡ none
      → Course a m req w (
          audits (some req.task_id) m.event_id "accepted"
          ∷ replies req.task_id m.event_id failed
          ∷ audits (some req.task_id) m.event_id "failed"
          ∷ [])
  finished :
      (handler : TaskHandler S) (output : A2aMessage)
      → str_eq req.target_agent_id a.agent_id ≡ true
      → one_of req.capability a.capability_ids ≡ true
      → (contains req.task_id w.tracker.lru).0 ≡ false
      → find_handler req.capability a.handlers ≡ some handler
      → (handler req w.served).0 ≡ ok output
      → Course a m req w (
          audits (some req.task_id) m.event_id "accepted"
          ∷ replies req.task_id m.event_id completed
          ∷ audits (some req.task_id) m.event_id "completed"
          ∷ [])
  raised :
      (handler : TaskHandler S) (e : Error)
      → str_eq req.target_agent_id a.agent_id ≡ true
      → one_of req.capability a.capability_ids ≡ true
      → (contains req.task_id w.tracker.lru).0 ≡ false
      → find_handler req.capability a.handlers ≡ some handler
      → (handler req w.served).0 ≡ err e
      → Course a m req w (
          audits (some req.task_id) m.event_id "accepted"
          ∷ replies req.task_id m.event_id failed
          ∷ audits (some req.task_id) m.event_id "failed"
          ∷ [])

module _ {S Raw : Type 0} (env : Env Raw) (taken : (n : ℕ) → env.delivers n ≡ true) where
  events-attempt :
      (e : Envelope) (w : Host S Raw)
      → events (attempt env e w).log ≡ events w.log ++ events (e ∷ [])
  unfolding attempt
  events-attempt e w = rw (taken w.tick) (events-append w.log e)

  events-recorded :
      (m : Message) (o : String) (t : Option Uuid) (r : Option String) (w : Host S Raw)
      → events (recorded env m o t r w).log ≡ events w.log ++ audits t m.event_id o ∷ []
  unfolding recorded passed events
  events-recorded m o t r w = events-attempt _ (passed env (suc (suc w.tick)) w)

  events-replied :
      (m : Message) (r : TaskResult) (w : Host S Raw)
      → events (replied env m r w).log ≡ events w.log ++ replies r.task_id m.event_id r.status ∷ []
  unfolding replied passed events
  events-replied m r w = events-attempt _ (passed env (suc (suc w.tick)) w)

  module _ (a : Agent S) (m : Message) where
    events-answered :
        (r : TaskResult) (o : String) (t : Option Uuid) (reason : String) (w : Host S Raw)
        → events (answered env a m r o t reason w).log
          ≡ events w.log ++ (replies r.task_id m.event_id r.status ∷ audits t m.event_id o ∷ [])
    unfolding answered
    events-answered r o t reason w =
        rw (events-recorded m o t (some reason) (replied env m r w), events-replied m r w)
          (append_assoc (events w.log) _ _)

    -- The result, and its audit record.
    conclusion : TaskRequest → Result A2aMessage → List Event
    conclusion req (ok output) =
        replies req.task_id m.event_id completed
        ∷ audits (some req.task_id) m.event_id "completed"
        ∷ []
    conclusion req (err e) =
        replies req.task_id m.event_id failed ∷ audits (some req.task_id) m.event_id "failed" ∷ []

    events-concluded :
        (req : TaskRequest) (r : Result A2aMessage) (w : Host S Raw)
        → events (concluded env a m req r w).log ≡ events w.log ++ conclusion req r
    unfolding concluded outcome_of completion failure conclusion
    events-concluded req (ok output) w =
        rw
          (
            events-recorded m "completed" (some req.task_id) none
                (replied env m (completion a.agent_id req output) w),
            events-replied m (completion a.agent_id req output) w,
          )
          (append_assoc (events w.log) _ _)
    events-concluded req (err e) w =
        events-answered (outcome_of env a m req (err e)) "failed" (some req.task_id)
          (env.describe e) w

    events-performed :
        (req : TaskRequest) (r : Result A2aMessage × S) (w : Host S Raw)
        → events (performed env a m req r w).log
          ≡ events w.log ++ (audits (some req.task_id) m.event_id "accepted" ∷ conclusion req r.0)
    unfolding performed marked
    events-performed req (r, s) w =
        events-concluded req r _
        ∙ followed _ (events w.log) _ _ (events-recorded m "accepted" (some req.task_id) none w)

    events-unhandled :
        (req : TaskRequest) (w : Host S Raw)
        → events (unhandled env a m req w).log
          ≡ events w.log
            ++ (audits (some req.task_id) m.event_id "accepted"
                ∷ replies req.task_id m.event_id failed
                ∷ audits (some req.task_id) m.event_id "failed"
                ∷ [])
    unfolding unhandled failure
    events-unhandled req w =
        events-answered _ "failed" (some req.task_id) "no_handler" _
        ∙ followed _ (events w.log) _ _ (events-recorded m "accepted" (some req.task_id) none w)

    events-skipped :
        (req : TaskRequest) (w : Host S Raw)
        → events (skipped env a m req w).log
          ≡ events w.log ++ audits (some req.task_id) m.event_id "duplicate_skipped" ∷ []
    unfolding skipped touched
    events-skipped req w = events-recorded m "duplicate_skipped" (some req.task_id) none _

    -- What a task request is due, and what it gets: no exception, and one course.
    Served : TaskRequest → Host S Raw → Result (Unit {0}) × Host S Raw → Type 0
    Served req w (r, w') =
        (trail : List Event) × Course a m req w trail
        × (r ≡ ok tt)
        × (events w'.log ≡ events w.log ++ trail)

    module _ (req : TaskRequest) (w : Host S Raw)
        (target : str_eq req.target_agent_id a.agent_id ≡ true)
        (declared : one_of req.capability a.capability_ids ≡ true) where
      Course-finished :
          (handler : TaskHandler S) (r : Result A2aMessage)
          → (contains req.task_id w.tracker.lru).0 ≡ false
          → find_handler req.capability a.handlers ≡ some handler
          → (handler req w.served).0 ≡ r
          → Course a m req w (audits (some req.task_id) m.event_id "accepted" ∷ conclusion req r)
      unfolding conclusion
      Course-finished handler (ok output) c f h = finished handler output target declared c f h
      Course-finished handler (err e) c f h = raised handler e target declared c f h

      perform-Served :
          (found : Option (TaskHandler S))
          → find_handler req.capability a.handlers ≡ found
          → (contains req.task_id w.tracker.lru).0 ≡ false
          → Served req w (perform env a m req found (touched env a m req w))
      unfolding Served touched
      perform-Served none f c =
          subst (Served req w) (sym (perform-none env a m req (touched env a m req w))) (
            _,
            unregistered target declared c f,
            refl,
            events-unhandled req (touched env a m req w),
          )
      perform-Served (some handler) f c =
          subst (Served req w) (sym (perform-eq env a m req handler (touched env a m req w))) (
            _,
            Course-finished handler (handler req w.served).0 c f refl,
            refl,
            events-performed req (handler req w.served) (touched env a m req w),
          )

      accept-Served : w.tracker.initialized ≡ true → Served req w (accept env a m req w)
      unfolding Served
      accept-Served i = elim (Bool-cases (contains req.task_id w.tracker.lru).0) [
        | inl c ↦
            subst (Served req w) (sym (accept-seen env a m req w i c))
              (_, repeated target declared c, refl, events-skipped req w)
        | inr c ↦
            subst (Served req w) (sym (accept-new env a m req w i c)) (perform-Served _ refl c)
      ]

    handle_request-Served :
        (req : TaskRequest) (w : Host S Raw)
        → w.tracker.initialized ≡ true
        → Served req w (handle_request env a m req w)
    unfolding handle_request Served suits failure
    handle_request-Served req w i = elim (Bool-cases (str_eq req.target_agent_id a.agent_id)) [
      | inr n ↦ rw n (
          subst (Served req w)
            (sym (
              answers-eq env a m _ "rejected" (some req.task_id) "wrong_target" w
                (failure_lem rejected validation refl req.task_id a.agent_id _)))
            (
              _,
              misdirected n,
              refl,
              events-answered _ "rejected" (some req.task_id) "wrong_target" w,
            ))
      | inl y ↦ elim (Bool-cases (one_of req.capability a.capability_ids)) [
        | inl d ↦ rw (y, d) (accept-Served req w y d i)
        | inr d ↦
            rw (y, d)
              (subst (Served req w)
                (sym (
                  answers-eq env a m _ "rejected" (some req.task_id) "unsupported_capability" w
                    (failure_lem rejected unsupported_capability refl req.task_id a.agent_id _)))
                (
                  _,
                  unsupported y d,
                  refl,
                  events-answered _ "rejected" (some req.task_id) "unsupported_capability" w,
                ))
      ]
    ]

-- Where the broker takes every send and the tracker is initialized, an envelope with a task request
-- raises no exception and gets one course of events, by the first of these that applies: a request to
-- another agent or for a capability that the card does not declare is answered `rejected`, with an
-- audit record; a task that the cache holds gets an audit record `duplicate_skipped` and no result; a
-- task without a handler is accepted and answered `failed`; and any other task is accepted, and
-- answered `completed` or `failed` as its handler returns or raises. Each answer names the task and is
-- caused by the envelope, and these events are all that is added to the topics.
pub handle_message-trail :
    {S Raw : Type 0} (env : Env Raw) (a : Agent S) (m : Message) (req : TaskRequest)
    (w : Host S Raw)
    → ((n : ℕ) → env.delivers n ≡ true)
    → w.tracker.initialized ≡ true
    → m.payload ≡ valid req
    → (trail : List Event) × Course a m req w trail
      × ((handle_message env a (some m) w).0 ≡ ok tt)
      × (events (handle_message env a (some m) w).1.log ≡ events w.log ++ trail)
unfolding handle_message handle_parsed Served
handle_message-trail env a m req w taken i p =
    subst (λ x. Served env taken a m req w (handle_parsed env a m x w)) (sym p)
      (handle_request-Served env taken a m req w i)
