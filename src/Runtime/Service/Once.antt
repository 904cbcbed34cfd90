-- ===== src/Runtime/Service/Once.antt =====
-- Messages that deliver a task again.
use mathlib.Core.Path.{subst}
use decentralized_agentic_re.Prelude.{
  ℕ, suc, ◌+◌, ◌<◌, String, ◌≡◌, refl, sym, ap, ◌∙◌, true, Option, none, some, List, [], ◌∷◌, ◌++◌,
  length, Bool-cases, inl, inr, arith, str_eq,
}
use decentralized_agentic_re.Prelude.Dict.{Uuid}
use decentralized_agentic_re.Prelude.Text.{one_of}
use decentralized_agentic_re.Prelude.Exec.{Result, ok, err}
use decentralized_agentic_re.Runtime.Cache.{contains}
use decentralized_agentic_re.Runtime.Cache.Refinement.{Follows}
use decentralized_agentic_re.Runtime.Messages.{TaskRequest, TaskResult}
use decentralized_agentic_re.Runtime.Host.{Env, Host, Task, Tracker, Envelope, Body, result, audit}
use decentralized_agentic_re.Runtime.Service.{
  Agent, TaskHandler, Message, valid, perform, find_handler, handle_request, handle_parsed,
  handle_message, serve,
}
use decentralized_agentic_re.Runtime.Service.Effects.{
  attempt, passed, recorded, recorded-core, perform-eq, touched, skipped, accept-seen, accept-new,
}
use decentralized_agentic_re.Runtime.Service.Recall.{
  Moved, tracker-performed, handle_message-Moved, Recalls, Moves-Recalls, Recalls-mono, found_again,
  asked_last, marked_last,
}

add_result : Body → List TaskResult → List TaskResult
add_result (result r) rs = r ∷ rs
add_result (audit p) rs = rs

-- The task results among the sent envelopes.
unfoldable pub results : List Envelope → List TaskResult
unfolding add_result
results [] = []
results (e ∷ es) = add_result e.body (results es)

results-append :
    (es : List Envelope) (e : Envelope)
    → results (e ∷ []) ≡ []
    → results (es ++ e ∷ []) ≡ results es
unfolding results
results-append [] e h = h
results-append (d ∷ es) e h = ap (add_result d.body) (results-append es e h)

module _ {S Raw : Type 0} (env : Env Raw) (a : Agent S) where
  results-recorded :
      (m : Message) (o : String) (t : Option Uuid) (r : Option String) (w : Host S Raw)
      → results (recorded env m o t r w).log ≡ results w.log
  unfolding recorded attempt passed results
  results-recorded m o t r w = elim (Bool-cases (env.delivers (suc (suc w.tick)))) [
    | inl y ↦ rw y (results-append w.log _ refl)
    | inr n ↦ rw n
  ]

  carried :
      (P : Host S Raw → Type 0) (f : Task S Raw (Unit {0})) (x : Result (Unit {0}) × Host S Raw)
      → P (f x.1).1
      → P x.1
      → P
          (elim x.0 as (λ _. Result (Unit {0}) × Host S Raw) [
            | ok u ↦ f x.1
            | err e ↦ (err e, x.1)
          ]).1
  carried P f (ok u, w) p q = p
  carried P f (err e, w) p q = q

  serve-Recalls :
      (n d : ℕ) (k : Uuid) (ms : List (Option Message)) (w : Host S Raw)
      → Recalls n d k w.tracker
      → Recalls n (length ms + d) k (serve env a ms w).1.tracker
  unfolding serve Moved
  serve-Recalls n d k [] w r = Recalls-mono n d (0 + d) k w.tracker (omega arith) r
  serve-Recalls n d k (m ∷ ms) w r =
      let after = Moves-Recalls n d k (handle_message-Moved env a m w r.ready) r in
      carried (λ (v : Host S Raw). Recalls n (suc (length ms) + d) k v.tracker) (serve env a ms)
        (handle_message env a m w)
        (Recalls-mono n (length ms + suc d) _ k _ (omega arith)
          (serve-Recalls n (suc d) k ms (handle_message env a m w).1 after))
        (Recalls-mono n (suc d) _ k _ (omega arith) after)

  -- The end of a first delivery: the id is the last that was touched.
  handled-Recalls :
      (n : ℕ) (h : List Uuid) (m : Message) (req : TaskRequest) (handler : TaskHandler S)
      (w : Host S Raw)
      → w.tracker.initialized ≡ true
      → Follows n w.tracker.lru h
      → str_eq req.target_agent_id a.agent_id ≡ true
      → one_of req.capability a.capability_ids ≡ true
      → find_handler req.capability a.handlers ≡ some handler
      → Recalls n 0 req.task_id (handle_request env a m req w).1.tracker
  unfolding handle_request Moved touched skipped recorded
  handled-Recalls n h m req handler w i f target declared found =
      rw (target, declared)
        (elim (Bool-cases (contains req.task_id w.tracker.lru).0) [
          | inl c ↦
              subst (λ (x : Result (Unit {0}) × Host S Raw). Recalls n 0 req.task_id x.1.tracker)
                (sym (accept-seen env a m req w i c))
                (subst (Recalls n 0 req.task_id)
                  (sym (
                    ap (λ (c : S × Tracker × List Raw). c.1)
                      (recorded-core env m "duplicate_skipped" (some req.task_id) none
                        (touched env a m req w))))
                  (asked_last n req.task_id w.tracker h i f c))
          | inr c ↦
              subst (λ (x : Result (Unit {0}) × Host S Raw). Recalls n 0 req.task_id x.1.tracker)
                (sym (
                  accept-new env a m req w i c
                  ∙ ap
                      (λ (o : Option (TaskHandler S)).
                        perform env a m req o (touched env a m req w))
                      found
                  ∙ perform-eq env a m req handler (touched env a m req w)))
                (subst (Recalls n 0 req.task_id)
                  (sym (
                    tracker-performed env a m req (handler req w.served).0 (handler req w.served).1
                      (touched env a m req w)))
                  (marked_last n req.task_id w.tracker h i f))
        ])

  -- No exception, no run of a handler, no result, no record of an id.
  Silent : Host S Raw → Result (Unit {0}) × Host S Raw → Type 0
  Silent v (r, v') =
      (r ≡ ok tt)
      × (v'.served ≡ v.served)
      × (results v'.log ≡ results v.log)
      × (v'.processed ≡ v.processed)

  repeated-Silent :
      (m : Message) (req : TaskRequest) (v : Host S Raw)
      → v.tracker.initialized ≡ true
      → (contains req.task_id v.tracker.lru).0 ≡ true
      → str_eq req.target_agent_id a.agent_id ≡ true
      → one_of req.capability a.capability_ids ≡ true
      → Silent v (handle_request env a m req v)
  unfolding handle_request Silent skipped touched
  repeated-Silent m req v i c target declared =
      rw (target, declared)
        (subst (Silent v) (sym (accept-seen env a m req v i c)) (
          refl,
          ap (λ (k : S × Tracker × List Raw). k.0)
              (recorded-core env m "duplicate_skipped" (some req.task_id) none
                (touched env a m req v)),
          results-recorded m "duplicate_skipped" (some req.task_id) none (touched env a m req v),
          ap (λ (k : S × Tracker × List Raw). k.2)
              (recorded-core env m "duplicate_skipped" (some req.task_id) none
                (touched env a m req v)),
        ))

-- The tracker is initialized, and its cache has room for `n` ids and holds the last different ids of a
-- history `h`. A request comes that is addressed to the agent, for a capability that is declared and
-- has a handler. Then whatever fewer than `n` messages follow, whichever sends the broker refuses, and
-- even if one of them ends the loop: when a message brings the same request again, it raises no
-- exception, the state of the handlers is not touched, no task result is published, and no id is
-- written to the topic of processed ids.
pub served_once :
    {S Raw : Type 0} (env : Env Raw) (a : Agent S) (n : ℕ) (h : List Uuid) (m again : Message)
    (req : TaskRequest) (handler : TaskHandler S) (ms : List (Option Message)) (w : Host S Raw)
    → w.tracker.initialized ≡ true
    → Follows n w.tracker.lru h
    → m.payload ≡ valid req
    → again.payload ≡ valid req
    → str_eq req.target_agent_id a.agent_id ≡ true
    → one_of req.capability a.capability_ids ≡ true
    → find_handler req.capability a.handlers ≡ some handler
    → length ms < n
    → (let v = (serve env a ms (handle_message env a (some m) w).1).1 in
        let (r, v') = handle_message env a (some again) v in
        (r ≡ ok tt)
        × (v'.served ≡ v.served)
        × (results v'.log ≡ results v.log)
        × (v'.processed ≡ v.processed))
unfolding handle_message handle_parsed Silent
served_once {S} {Raw} env a n h m again req handler ms w i f p q target declared found few =
    subst (λ x. Silent env a v (handle_parsed env a again x v)) (sym q)
      (repeated-Silent env a again req v kept.ready
        (found_again n (length ms + 0) req.task_id v.tracker (omega (arith, few)) kept) target
        declared)
  where
    w' : Host S Raw
    w' = (handle_parsed env a m m.payload w).1

    v : Host S Raw
    v = (serve env a ms w').1

    first : Recalls n 0 req.task_id w'.tracker
    first =
        subst (λ x. Recalls n 0 req.task_id (handle_parsed env a m x w).1.tracker) (sym p)
          (handled-Recalls env a n h m req handler w i f target declared found)

    kept : Recalls n (length ms + 0) req.task_id v.tracker
    kept = serve-Recalls env a n 0 req.task_id ms w' first
