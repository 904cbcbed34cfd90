-- ===== src/Runtime/Service/Raising.antt =====
-- The exceptions that leave `_handle_message`, and the loop of `serve`.
use mathlib.Core.Path.{subst}
use decentralized_agentic_re.Prelude.{
  suc, String, ◌≡◌, refl, sym, ap, true, Option, none, some, List, ◌∷◌, Bool-cases, inl, inr, ◌↔◌,
  str_eq,
}
use decentralized_agentic_re.Prelude.Text.{one_of}
use decentralized_agentic_re.Prelude.Exec.{Error, value_error, Result, ok, err, >>=-err}
use decentralized_agentic_re.Runtime.Cache.{contains}
use decentralized_agentic_re.Runtime.Messages.{
  TaskRequest, rejected, validation, unsupported_capability,
}
use decentralized_agentic_re.Runtime.Host.{Env, Host}
use decentralized_agentic_re.Runtime.Service.{
  Agent, TaskHandler, Message, Parsed, valid, invalid, absent, uuid, malformed, task_id_for_result,
  perform, accept, handle_request, handle_parsed, handle_message, serve,
}
use decentralized_agentic_re.Runtime.Service.Effects.{
  passed, suits, failure_lem, answers-eq, perform-eq, perform-none, accept-seen, accept-new,
}

-- The id of the payload is a text that is no UUID.
abbrev pub IsMalformed : Parsed → Type 0
IsMalformed p = (text : String) × (p ≡ invalid malformed text)

abbrev pub Raises : {X : Type 0} → Result (Unit {0}) × X → Type 0
Raises x = (e : Error) × (x.0 ≡ err e)

module _ {S Raw : Type 0} (env : Env Raw) (a : Agent S) where
  -- The run ends without an exception.
  abbrev Ends : Result (Unit {0}) × Host S Raw → Type 0
  Ends x = x.0 ≡ ok tt

  perform-Ends :
      (m : Message) (req : TaskRequest) (found : Option (TaskHandler S)) (w : Host S Raw)
      → Ends (perform env a m req found w)
  perform-Ends m req none w = subst Ends (sym (perform-none env a m req w)) refl
  perform-Ends m req (some handler) w = subst Ends (sym (perform-eq env a m req handler w)) refl

  accept-Ends :
      (m : Message) (req : TaskRequest) (w : Host S Raw)
      → w.tracker.initialized ≡ true
      → Ends (accept env a m req w)
  accept-Ends m req w i = elim (Bool-cases (contains req.task_id w.tracker.lru).0) [
    | inl c ↦ subst Ends (sym (accept-seen env a m req w i c)) refl
    | inr c ↦ subst Ends (sym (accept-new env a m req w i c)) (perform-Ends m req _ _)
  ]

  handle_request-Ends :
      (m : Message) (req : TaskRequest) (w : Host S Raw)
      → w.tracker.initialized ≡ true
      → Ends (handle_request env a m req w)
  unfolding handle_request suits
  handle_request-Ends m req w i = elim (Bool-cases (str_eq req.target_agent_id a.agent_id)) [
    | inr n ↦ rw n (
        subst Ends
          (sym (
            answers-eq env a m _ "rejected" (some req.task_id) "wrong_target" w
              (failure_lem rejected validation refl req.task_id a.agent_id _)))
          refl)
    | inl y ↦ elim (Bool-cases (one_of req.capability a.capability_ids)) [
      | inl d ↦ rw (y, d) (accept-Ends m req w i)
      | inr d ↦
          rw (y, d)
            (subst Ends
              (sym (
                answers-eq env a m _ "rejected" (some req.task_id) "unsupported_capability" w
                  (failure_lem rejected unsupported_capability refl req.task_id a.agent_id _)))
              refl)
    ]
  ]

  handle_parsed-Ends :
      (m : Message) (p : Parsed) (w : Host S Raw)
      → w.tracker.initialized ≡ true
      → Raises (handle_parsed env a m p w)
      → IsMalformed p
  unfolding handle_parsed task_id_for_result suits passed
  handle_parsed-Ends m (valid req) w i (e, h) = cc (handle_request-Ends m req w i, h)
  handle_parsed-Ends m (invalid malformed text) w i h = (text, refl)
  handle_parsed-Ends m (invalid (uuid id) text) w i (e, h) = cc (
    answers-eq env a m _ "rejected" none text w
        (failure_lem rejected validation refl id a.agent_id text),
    h,
  )
  handle_parsed-Ends m (invalid absent text) w i (e, h) = cc (
    answers-eq env a m _ "rejected" none text (passed env (suc w.tick) w)
        (failure_lem rejected validation refl (env.uuid4 w.tick) a.agent_id text),
    h,
  )

  poisoned :
      (m : Message) (p : Parsed) (w : Host S Raw)
      → IsMalformed p
      → handle_parsed env a m p w ≡ (err value_error, w)
  unfolding handle_parsed task_id_for_result
  poisoned m p w (text, e) =
      subst (λ x. handle_parsed env a m x w ≡ (err value_error, w)) (sym e) refl

-- With an initialized tracker, whatever the handlers raise and the broker refuses, an exception leaves
-- `_handle_message` exactly when the payload is no task request and its `task_id` is a text that is
-- no UUID. Then the loop of `serve` ends there with `ValueError`: no answer and no audit record is
-- sent for the message, and the messages after it are not handled.
pub handle_message-Raises_iff :
    {S Raw : Type 0} (env : Env Raw) (a : Agent S) (m : Message) (w : Host S Raw)
    → w.tracker.initialized ≡ true
    → (Raises (handle_message env a (some m) w) ↔ IsMalformed m.payload)
      × ((ms : List (Option Message))
          → IsMalformed m.payload
          → serve env a (some m ∷ ms) w ≡ (err value_error, w))
unfolding handle_message serve
handle_message-Raises_iff env a m w i = (
  (
    λ h. handle_parsed-Ends env a m m.payload w i h,
    λ p. (value_error, ap (λ x. x.0) (poisoned env a m m.payload w p)),
  ),
  λ ms p.
      >>=-err (handle_message env a (some m)) (λ u. serve env a ms)
        (poisoned env a m m.payload w p),
)
