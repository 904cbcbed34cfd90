-- ===== src/Resolution/Delegation/Requests.antt =====
-- apps/agents/customer_resolution/a2a_handlers.py: `delegate`, by what it registers and what it sends.
use mathlib.Core.Path.{subst}
use mathlib.Core.List.{append_assoc}
use decentralized_agentic_re.Prelude.{
  ℕ, String, ◌≡◌, ◌≢◌, refl, sym, ap, ◌∙◌, false, some, List, [], ◌∷◌, ◌++◌, ◌⊎◌, inl, inr, All,
  add, arith, Bool-cases,
}
use decentralized_agentic_re.Prelude.Dict.{Uuid, lookup, insert, lookup-insert}
use decentralized_agentic_re.Prelude.Exec.{Result, ok, ◌>>=◌}
use decentralized_agentic_re.Runtime.Discovery.{find_capable}
use decentralized_agentic_re.Resolution.Models.{ResolutionCase}
use decentralized_agentic_re.Resolution.Store.{CaseStore, add_pending_task}
use decentralized_agentic_re.Resolution.World.{
  Env, World, Envelope, Payload, Handler, on_store, assign, publish, send, envelope_of,
  task_requested, review_requested,
}
use decentralized_agentic_re.Resolution.Deciding.{refetch}
use decentralized_agentic_re.Resolution.Handlers.Logic.{
  Assertion, Outcome, Triple, bind, after, reads_, pure_, weaken, given,
}
use decentralized_agentic_re.Resolution.Handlers.Once.{sent, refused, assigned_some}
use decentralized_agentic_re.Resolution.Handlers.Emission.{refetch-some}
use decentralized_agentic_re.Resolution.Delegation.{
  Network, has_peer, or_minted, billing_capability_id, risk_capability_id, validate_peer,
  billing_request, risk_request, review_payload,
}

-- What is sent, without its id and its time: the correlation, the cause and the payload.
abbrev pub outline : List Envelope → List (Uuid × (Uuid × Payload))
outline [] = []
outline (e ∷ es) = (e.correlation_id, (e.causation_id, e.payload)) ∷ outline es

outline-append : (xs ys : List Envelope) → outline (xs ++ ys) ≡ outline xs ++ outline ys
outline-append [] ys = refl
outline-append (e ∷ es) ys =
    ap (λ (r : List (Uuid × (Uuid × Payload))). (e.correlation_id, (e.causation_id, e.payload)) ∷ r)
      (outline-append es ys)

module _ (env : Env) (net : Network) (c : ResolutionCase) (event : Uuid) where
  abbrev pub billing_task : Uuid
  billing_task = or_minted c.billing_task_id (net.uuid5 c.correlation_id billing_capability_id)

  abbrev pub risk_task : Uuid
  risk_task = or_minted c.risk_task_id (net.uuid5 c.correlation_id risk_capability_id)

  -- The case with its two tasks, which are pending.
  abbrev pub with_tasks : ResolutionCase
  with_tasks = record c {
    billing_task_id = some billing_task;
    risk_task_id = some risk_task;
    pending_tasks = add risk_task (add billing_task c.pending_tasks);
  }

  abbrev pub billing_asked : Uuid × (Uuid × Payload)
  billing_asked =
      (c.correlation_id, (event, task_requested (billing_request env net with_tasks billing_task)))

  abbrev pub risk_asked : Uuid × (Uuid × Payload)
  risk_asked =
      (c.correlation_id, (event, task_requested (risk_request env net with_tasks risk_task)))

  abbrev pub announced : ℕ → Uuid × (Uuid × Payload)
  announced at = (
    c.correlation_id,
    (event, review_requested (review_payload env net with_tasks billing_task risk_task at)),
  )

  -- Both tasks are on the case, and the index leads from them to the case.
  abbrev pub Registered : CaseStore → Type 0
  Registered s =
      (lookup c.case_id s.cases ≡ some with_tasks)
      × (lookup billing_task s.by_task_id ≡ some c.case_id)
      × (lookup risk_task s.by_task_id ≡ some c.case_id)

  -- How a delegation ends: with all three messages, or with an exception before the last of them.
  abbrev pub Course : List Envelope → Result (Unit {0}) × World → Type 0
  Course before (r, w) =
      Registered w.store
      × (((r ≡ ok tt)
            × ((at : ℕ) × (outline w.log
                  ≡ outline before ++ billing_asked ∷ risk_asked ∷ announced at ∷ [])))
          ⊎ ((r ≢ ok tt)
              × ((outline w.log ≡ outline before ++ [])
                  ⊎ ((outline w.log ≡ outline before ++ billing_asked ∷ [])
                      ⊎ (outline w.log ≡ outline before ++ billing_asked ∷ risk_asked ∷ [])))))

  -- The case is stored as `d`, the tasks `ts` are its own in the index, and `ps` are sent since `sent_before`.
  module _ (sent_before : List (Uuid × (Uuid × Payload))) where
    pub record Stage (d : ResolutionCase) (ts : List Uuid) (ps : List (Uuid × (Uuid × Payload)))
        (s : CaseStore) (l : List Envelope) : Type 0 where
      pub stored : lookup c.case_id s.cases ≡ some d
      pub indexed : All (λ t. lookup t s.by_task_id ≡ some c.case_id) ts
      pub sends : outline l ≡ sent_before ++ ps

    abbrev pub At : List (Uuid × (Uuid × Payload)) → Assertion
    At = Stage with_tasks (risk_task ∷ billing_task ∷ [])

    -- What a delegation that raises leaves behind, and one that returns.
    abbrev pub Partial : Assertion
    Partial s l =
        At [] s l ⊎ (At (billing_asked ∷ []) s l ⊎ At (billing_asked ∷ risk_asked ∷ []) s l)

    abbrev pub Whole : Assertion
    Whole s l = (at : ℕ) × At (billing_asked ∷ risk_asked ∷ announced at ∷ []) s l

    added :
        (d : ResolutionCase) (t : Uuid) (w : World)
        → lookup c.case_id w.store.cases ≡ some d
        → on_store (add_pending_task c.case_id t) w ≡ (
          ok tt,
          record w {
            store = record w.store {
              cases =
                  insert c.case_id
                    (record d { pending_tasks = add t d.pending_tasks })
                    w.store.cases;
              by_task_id = insert t c.case_id w.store.by_task_id;
            };
          },
        )
    unfolding add_pending_task
    added d t w e = ground arith

    kept_index :
        (t : Uuid) (s : CaseStore) (ts : List Uuid)
        → All (λ u. lookup u s.by_task_id ≡ some c.case_id) ts
        → All (λ u. lookup u (insert t c.case_id s.by_task_id) ≡ some c.case_id) ts
    kept_index t s [] h = tt
    kept_index t s (u ∷ ts) (h, hs) = (rw lookup-insert (ground arith), kept_index t s ts hs)

    module _ {I : Assertion} where
      -- A result that is known, and what comes after it.
      pub fetched :
          {A B : Type 0} {P P' : Assertion} {Q : B → Assertion} {m : Handler A} (f : A → Handler B)
          (a : A)
          → Triple I P m (λ b s l. (b ≡ a) × P' s l)
          → Triple I P' (f a) Q
          → Triple I P (m >>= f) Q
      fetched {P' = P'} {Q = Q} f a t h = bind t λ b.
          given {F = b ≡ a} (λ s l g. g.0)
            λ e. weaken (λ s l g. g.1) (subst (λ z. Triple I P' (f z) Q) (sym e) h)

      pub assigns :
          {d : ResolutionCase} {ts : List Uuid} {ps : List (Uuid × (Uuid × Payload))}
          (f : ResolutionCase → ResolutionCase)
          → Triple I (Stage d ts ps) (assign c.case_id f) (λ u. Stage (f d) ts ps)
      assigns {d} {ts} {ps} f = record {
        run = λ w p.
            subst (Outcome I (λ u. Stage (f d) ts ps))
              (sym (assigned_some 0 0 0 c.case_id f d w p.stored))
              (record {
                stored = rw lookup-insert (ground arith);
                indexed = p.indexed;
                sends = p.sends;
              });
      }

      pub refetches :
          {d : ResolutionCase} {ts : List Uuid} {ps : List (Uuid × (Uuid × Payload))}
          → Triple I (Stage d ts ps) (refetch c) (λ e s l. (e ≡ d) × Stage d ts ps s l)
      refetches {d} {ts} {ps} = record {
        run = λ w p.
            subst (Outcome I (λ e s l. (e ≡ d) × Stage d ts ps s l))
              (sym (refetch-some 0 0 0 env c d w p.stored)) (refl, p);
      }

      pub adds :
          {d : ResolutionCase} {ts : List Uuid} {ps : List (Uuid × (Uuid × Payload))} (t : Uuid)
          → Triple I
              (Stage d ts ps)
              (on_store (add_pending_task c.case_id t))
              (λ u. Stage (record d { pending_tasks = add t d.pending_tasks }) (t ∷ ts) ps)
      adds {d} {ts} {ps} t = record {
        run = λ w p.
            subst
              (Outcome I
                (λ u. Stage (record d { pending_tasks = add t d.pending_tasks }) (t ∷ ts) ps))
              (sym (added d t w p.stored))
              (record {
                stored = rw lookup-insert (ground arith);
                indexed = (rw lookup-insert (ground arith), kept_index t w.store ts p.indexed);
                sends = p.sends;
              });
      }

      -- A peer that is found, or else an exception.
      pub checks :
          {P : Assertion} (capability peer : String)
          → ((n : ℕ) (s : CaseStore) (l : List Envelope)
              → has_peer peer (find_capable capability (net.cards n)) ≡ false
              → P s l
              → I s l)
          → Triple I P (validate_peer env net capability peer) (λ u. P)
      unfolding validate_peer
      checks {P} capability peer h = record {
        run = λ w p.
            elim (Bool-cases (has_peer peer (find_capable capability (net.cards w.tick)))) [
              | inl y ↦ rw y p
              | inr n ↦ rw n (h w.tick w.store w.log n p)
            ];
      }

      sending :
          {d : ResolutionCase} {ts : List Uuid} {ps : List (Uuid × (Uuid × Payload))} (e : Envelope)
          → ((t : ℕ) (s : CaseStore) (l : List Envelope)
              → env.delivers t ≡ false
              → Stage d ts ps s l
              → I s l)
          → Triple I
              (Stage d ts ps)
              (send env e)
              (λ u. Stage d ts (ps ++ (e.correlation_id, (e.causation_id, e.payload)) ∷ []))
      sending {d} {ts} {ps} e h = record {
        run = λ w p. elim (Bool-cases (env.delivers w.tick)) [
          | inl y ↦
              subst
                (Outcome I
                  (λ u. Stage d ts (ps ++ (e.correlation_id, (e.causation_id, e.payload)) ∷ [])))
                (sym (sent 0 0 0 env e w y))
                (record {
                  stored = p.stored;
                  indexed = p.indexed;
                  sends =
                      outline-append w.log (e ∷ [])
                      ∙ ap (λ o. o ++ (e.correlation_id, (e.causation_id, e.payload)) ∷ []) p.sends
                      ∙ append_assoc sent_before ps _;
                })
          | inr n ↦
              subst
                (Outcome I
                  (λ u. Stage d ts (ps ++ (e.correlation_id, (e.causation_id, e.payload)) ∷ [])))
                (sym (refused 0 0 0 env e w n)) (h w.tick w.store w.log n p)
        ];
      }

      pub publishes :
          {d : ResolutionCase} {ts : List Uuid} {ps : List (Uuid × (Uuid × Payload))} (p : Payload)
          → ((t : ℕ) (s : CaseStore) (l : List Envelope)
              → env.delivers t ≡ false
              → Stage d ts ps s l
              → I s l)
          → Triple I
              (Stage d ts ps)
              (publish env p c.correlation_id event)
              (λ e. Stage d ts (ps ++ (c.correlation_id, (event, p)) ∷ []))
      unfolding publish
      publishes {d} {ts} {ps} p h = bind (reads_ env.uuid4) λ i. bind (reads_ env.now) λ a.
          after (sending (envelope_of p c.correlation_id event i a) h)
            (pure_ {a = envelope_of p c.correlation_id event i a})
