-- ===== src/Runtime/Service/Recall.antt =====
-- What a message does to the tracker, and how long the tracker recalls a task.
use mathlib.Core.Path.{subst}
use decentralized_agentic_re.Prelude.{
  ℕ, suc, ◌≤◌, ◌<◌, String, ◌≡◌, refl, sym, ap, ◌∙◌, Bool, true, false, Option, none, some, List,
  [], ◌∷◌, ◌++◌, length, Bool-cases, inl, inr, arith, str_eq, member, if◌then◌else◌,
}
use decentralized_agentic_re.Prelude.Dict.{Uuid}
use decentralized_agentic_re.Prelude.Text.{one_of}
use decentralized_agentic_re.Prelude.Exec.{Result, ok}
use decentralized_agentic_re.Runtime.Cache.{contains, insert}
use decentralized_agentic_re.Runtime.Cache.Refinement.{
  Follows, remembered, insert-Follows, contains-Follows, contains-answer, member-remembered,
}
use decentralized_agentic_re.Runtime.Messages.{
  A2aMessage, TaskRequest, TaskResult, rejected, validation, unsupported_capability,
}
use decentralized_agentic_re.Runtime.Host.{Env, Host, Tracker}
use decentralized_agentic_re.Runtime.Service.{
  Agent, TaskHandler, Message, Parsed, valid, invalid, absent, uuid, malformed, answers,
  task_id_for_result, perform, accept, find_handler, handle_request, handle_parsed, handle_message,
}
use decentralized_agentic_re.Runtime.Service.Effects.{
  passed, recorded, answered, answered-core, suits, failure_lem, answers-eq, concluded-core,
  recorded-core, marked, performed, perform-eq, unhandled, perform-none, touched, skipped,
  accept-seen, accept-new,
}

-- How a message moves the tracker: not at all, by a question, or by a question that misses, and a mark.
pub data Moves (t : Tracker) : Tracker → Type 0 where
  stays : Moves t t
  asks : (k : Uuid) → Moves t (record t { lru = (contains k t.lru).1 })
  marks :
      (k : Uuid)
      → (contains k t.lru).0 ≡ false
      → Moves t (record t { lru = insert k (contains k t.lru).1 })

module _ {S Raw : Type 0} (env : Env Raw) (a : Agent S) where
  unfoldable pub Moved : Host S Raw → Result (Unit {0}) × Host S Raw → Type 0
  Moved w (r, w') = Moves w.tracker w'.tracker

  answers-Moved :
      (m : Message) (r : TaskResult) (o : String) (t : Option Uuid) (reason : String)
      (w : Host S Raw)
      → answers env a m r o t reason w ≡ (ok tt, answered env a m r o t reason w)
      → Moved w (answers env a m r o t reason w)
  unfolding Moved
  answers-Moved m r o t reason w e = subst (Moved w) (sym e) (
      subst (Moves w.tracker)
        (sym (ap (λ (c : S × Tracker × List Raw). c.1) (answered-core env a m r o t reason w)))
        stays)

  pub tracker-performed :
      (m : Message) (req : TaskRequest) (r : Result A2aMessage) (s : S) (w : Host S Raw)
      → (performed env a m req (r, s) w).tracker
        ≡ record w.tracker { lru = insert req.task_id w.tracker.lru }
  unfolding performed marked
  tracker-performed m req r s w =
      ap (λ (c : S × Tracker × List Raw). record c.1 { lru = insert req.task_id c.1.lru })
        (concluded-core env a m req r
          (record (recorded env m "accepted" (some req.task_id) none w) { served = s }))
      ∙ ap (λ (c : S × Tracker × List Raw). record c.1 { lru = insert req.task_id c.1.lru })
          (recorded-core env m "accepted" (some req.task_id) none w)

  tracker-unhandled :
      (m : Message) (req : TaskRequest) (w : Host S Raw)
      → (unhandled env a m req w).tracker ≡ w.tracker
  unfolding unhandled
  tracker-unhandled m req w =
      ap (λ (c : S × Tracker × List Raw). c.1)
        (answered-core env a m _ "failed" (some req.task_id) "no_handler" _
          ∙ recorded-core env m "accepted" (some req.task_id) none w)

  perform-Moved :
      (m : Message) (req : TaskRequest) (found : Option (TaskHandler S)) (w : Host S Raw)
      → (contains req.task_id w.tracker.lru).0 ≡ false
      → Moved w (perform env a m req found (touched env a m req w))
  unfolding Moved touched
  perform-Moved m req none w c =
      subst (Moved w) (sym (perform-none env a m req (touched env a m req w))) (
        subst (Moves w.tracker) (sym (tracker-unhandled m req (touched env a m req w)))
          (asks req.task_id))
  perform-Moved m req (some handler) w c =
      subst (Moved w) (sym (perform-eq env a m req handler (touched env a m req w))) (
        subst (Moves w.tracker)
          (sym (
            tracker-performed m req (handler req w.served).0 (handler req w.served).1
              (touched env a m req w)))
          (marks req.task_id c))

  accept-Moved :
      (m : Message) (req : TaskRequest) (w : Host S Raw)
      → w.tracker.initialized ≡ true
      → Moved w (accept env a m req w)
  unfolding Moved skipped touched
  accept-Moved m req w i = elim (Bool-cases (contains req.task_id w.tracker.lru).0) [
    | inl c ↦ subst (Moved w) (sym (accept-seen env a m req w i c)) (
        subst (Moves w.tracker)
          (sym (
            ap (λ (c : S × Tracker × List Raw). c.1)
              (recorded-core env m "duplicate_skipped" (some req.task_id) none
                (touched env a m req w))))
          (asks req.task_id))
    | inr c ↦
        subst (Moved w) (sym (accept-new env a m req w i c))
          (perform-Moved m req (find_handler req.capability a.handlers) w c)
  ]

  handle_request-Moved :
      (m : Message) (req : TaskRequest) (w : Host S Raw)
      → w.tracker.initialized ≡ true
      → Moved w (handle_request env a m req w)
  unfolding handle_request suits Moved
  handle_request-Moved m req w i = elim (Bool-cases (str_eq req.target_agent_id a.agent_id)) [
    | inr n ↦ rw n (
        answers-Moved m _ "rejected" (some req.task_id) "wrong_target" w (
          answers-eq env a m _ "rejected" (some req.task_id) "wrong_target" w
            (failure_lem rejected validation refl req.task_id a.agent_id _)))
    | inl y ↦ elim (Bool-cases (one_of req.capability a.capability_ids)) [
      | inl d ↦ rw (y, d) (accept-Moved m req w i)
      | inr d ↦
          rw (y, d)
            (answers-Moved m _ "rejected" (some req.task_id) "unsupported_capability" w (
              answers-eq env a m _ "rejected" (some req.task_id) "unsupported_capability" w
                (failure_lem rejected unsupported_capability refl req.task_id a.agent_id _)))
    ]
  ]

  handle_parsed-Moved :
      (m : Message) (p : Parsed) (w : Host S Raw)
      → w.tracker.initialized ≡ true
      → Moved w (handle_parsed env a m p w)
  unfolding handle_parsed task_id_for_result suits Moved passed
  handle_parsed-Moved m (valid req) w i = handle_request-Moved m req w i
  handle_parsed-Moved m (invalid malformed text) w i = stays
  handle_parsed-Moved m (invalid (uuid id) text) w i = answers-Moved m _ "rejected" none text w (
      answers-eq env a m _ "rejected" none text w
        (failure_lem rejected validation refl id a.agent_id text))
  handle_parsed-Moved m (invalid absent text) w i =
      answers-Moved m _ "rejected" none text (passed env (suc w.tick) w) (
        answers-eq env a m _ "rejected" none text (passed env (suc w.tick) w)
          (failure_lem rejected validation refl (env.uuid4 w.tick) a.agent_id text))

  pub handle_message-Moved :
      (m : Option Message) (w : Host S Raw)
      → w.tracker.initialized ≡ true
      → Moved w (handle_message env a m w)
  unfolding handle_message Moved
  handle_message-Moved none w i = stays
  handle_message-Moved (some m) w i = handle_parsed-Moved m m.payload w i

-- The cache has room for `n` ids, and at most `d` touches have followed the last one of `k`.
pub record Recalls (n d : ℕ) (k : Uuid) (t : Tracker) : Type 0 where
  pub ready : t.initialized ≡ true
  pub later : List Uuid
  pub earlier : List Uuid
  pub few : length later ≤ d
  pub follows : Follows n t.lru (later ++ k ∷ earlier)

asked-Recalls :
    (n d : ℕ) (k j : Uuid) (t : Tracker) (b : Bool) (r : Recalls n d k t)
    → Follows n
        (contains j t.lru).1
        (if b then j ∷ r.later ++ k ∷ r.earlier else r.later ++ k ∷ r.earlier)
    → Recalls n (suc d) k (record t { lru = (contains j t.lru).1 })
asked-Recalls n d k j t true r f = record {
  ready = r.ready;
  later = j ∷ r.later;
  earlier = r.earlier;
  few = omega (arith, r.few);
  follows = f;
}
asked-Recalls n d k j t false r f = record {
  ready = r.ready;
  later = r.later;
  earlier = r.earlier;
  few = omega (arith, r.few);
  follows = f;
}

pub Moves-Recalls :
    (n d : ℕ) (k : Uuid) {t t' : Tracker} → Moves t t' → Recalls n d k t → Recalls n (suc d) k t'
Moves-Recalls n d k stays r = record {
  ready = r.ready;
  later = r.later;
  earlier = r.earlier;
  few = omega (arith, r.few);
  follows = r.follows;
}
Moves-Recalls n d k {t} (asks j) r =
    asked-Recalls n d k j t _ r (contains-Follows j n t.lru _ r.follows)
Moves-Recalls n d k {t} (marks j c) r =
    let miss : member j (remembered n (r.later ++ k ∷ r.earlier)) ≡ false =
      sym (contains-answer j n t.lru (r.later ++ k ∷ r.earlier) r.follows) ∙ c in
    record {
      ready = r.ready;
      later = j ∷ r.later;
      earlier = r.earlier;
      few = omega (arith, r.few);
      follows = insert-Follows j n (contains j t.lru).1 (r.later ++ k ∷ r.earlier) (
          subst
            (λ (b : Bool).
              Follows n (contains j t.lru).1
                (if b then j ∷ r.later ++ k ∷ r.earlier else r.later ++ k ∷ r.earlier))
            miss (contains-Follows j n t.lru _ r.follows));
    }

pub Recalls-mono : (n d e : ℕ) (k : Uuid) (t : Tracker) → d ≤ e → Recalls n d k t → Recalls n e k t
Recalls-mono n d e k t le r = record {
  ready = r.ready;
  later = r.later;
  earlier = r.earlier;
  few = omega (arith, r.few);
  follows = r.follows;
}

pub found_again :
    (n d : ℕ) (k : Uuid) (t : Tracker) → d < n → Recalls n d k t → (contains k t.lru).0 ≡ true
found_again n d k t lt r =
    contains-answer k n t.lru (r.later ++ k ∷ r.earlier) r.follows
    ∙ member-remembered k n r.later r.earlier (omega (arith, r.few))

pub asked_last :
    (n : ℕ) (k : Uuid) (t : Tracker) (h : List Uuid)
    → t.initialized ≡ true
    → Follows n t.lru h
    → (contains k t.lru).0 ≡ true
    → Recalls n 0 k (record t { lru = (contains k t.lru).1 })
asked_last n k t h i f c = record {
  ready = i;
  later = [];
  earlier = h;
  few = omega arith;
  follows =
      subst (λ (b : Bool). Follows n (contains k t.lru).1 (if b then k ∷ h else h))
        (sym (contains-answer k n t.lru h f) ∙ c) (contains-Follows k n t.lru h f);
}

pub marked_last :
    (n : ℕ) (k : Uuid) (t : Tracker) (h : List Uuid)
    → t.initialized ≡ true
    → Follows n t.lru h
    → Recalls n 0 k (record t { lru = insert k (contains k t.lru).1 })
marked_last n k t h i f = record {
  ready = i;
  later = [];
  earlier = if member k (remembered n h) then k ∷ h else h;
  few = omega arith;
  follows = insert-Follows k n (contains k t.lru).1 _ (contains-Follows k n t.lru h f);
}
