-- ===== src/Resolution/Handlers/Emission.antt =====
-- apps/agents/customer_resolution/event_handlers.py, reaper.py: the emission of a decision against
-- the invariant on published decisions.
use mathlib.Core.Path.{subst}
use decentralized_agentic_re.Prelude.{
  ℕ, ◌≡◌, refl, sym, ◌∙◌, String, true, false, Option, none, some, List, inl, inr, ==_iff, arith,
  Option-cases,
}
use decentralized_agentic_re.Prelude.Text.{◌<>◌}
use decentralized_agentic_re.Prelude.Dict.{Uuid, lookup}
use decentralized_agentic_re.Prelude.Exec.{ok}
use decentralized_agentic_re.Contracts.{CustomerResponseDecisionPayload}
use decentralized_agentic_re.Resolution.Models.{ResolutionCase, CaseStatus, decided, is_terminal}
use decentralized_agentic_re.Resolution.Store.{CaseStore, get, is_settled, save}
use decentralized_agentic_re.Resolution.Store.Settled.{settled_at, save-settled}
use decentralized_agentic_re.Resolution.Store.Effects.{Evolves}
use decentralized_agentic_re.Resolution.Store.Operations.{save_cases, saved}
use decentralized_agentic_re.Resolution.World.{
  Env, World, Envelope, Payload, Handler, on_store, assign, publish, write_audit,
  resolution_decided, response_drafted, envelope_of, audit_of,
}
use decentralized_agentic_re.Resolution.Deciding.{
  outcome_text, refetch, draft_of, follow_up, emit_decision_and_draft, settle_case, decision_of,
  decide_and_emit,
}
use decentralized_agentic_re.Resolution.Handlers.Logic.{
  Assertion, Outcome, Triple, bind, after, guard, reads_, pure_, lift_, weaken, given, stored,
}
use decentralized_agentic_re.Resolution.Handlers.Once.{
  is_decision, Good, Licensed, Own, Owned-insert, Harmless, assign-Good, send_other, send_decision,
}

module _ (k x : Uuid) (spent : ℕ) (env : Env) where
  abbrev pub G : Assertion
  G = Good k x spent

  -- From the invariant to the invariant.
  abbrev pub Keeps : {A : Type 0} → Handler A → Type 0
  Keeps m = Triple G G m (λ a. G)

  pub harmless :
      (f : ResolutionCase → ResolutionCase)
      → ((c : ResolutionCase) → Evolves c (f c))
      → ((c : ResolutionCase) → is_settled c.status ≡ true → is_settled (f c).status ≡ true)
      → Harmless k x spent f
  harmless f e s = record { evolves = e; settles = s }

  Keeps-publish :
      (p : Payload) (c id : Uuid)
      → ((i a : ℕ) → is_decision x (envelope_of p c id i a) ≡ false)
      → Keeps (publish env p c id)
  unfolding publish
  Keeps-publish p c id h = bind (reads_ env.uuid4) λ i. bind (reads_ env.now) λ a.
      after (send_other k x spent env (envelope_of p c id i a) (h i a))
        (pure_ {a = envelope_of p c id i a})

  pub Keeps-audit :
      (original correlation : Uuid) (outcome : String) (task : Option Uuid) (reason : Option String)
      → Keeps (write_audit env original correlation outcome task reason)
  unfolding write_audit
  Keeps-audit o c t u r = bind (reads_ env.now) λ a. bind (reads_ env.uuid4) λ i.
      guard (send_other k x spent env (envelope_of (audit_of o t u r a) c o i a) refl) (λ e. pure_)

  publish_decision :
      (d : CustomerResponseDecisionPayload) (c id cause : Uuid)
      → (c ≡ x → id ≡ k)
      → Triple G (Licensed k x spent id) (publish env (resolution_decided d) c cause) (λ e. G)
  unfolding publish
  publish_decision d c id cause own = bind (reads_ env.uuid4) λ i. bind (reads_ env.now) λ a.
      after
        (send_decision k x spent env (envelope_of (resolution_decided d) c cause i a) id
          (λ q. own ((==_iff c x).0 q)))
        (pure_ {a = envelope_of (resolution_decided d) c cause i a})

  Keeps-drafted :
      (id event : Uuid) → Keeps (assign id (λ y. record y { drafted_event_id = some event }))
  Keeps-drafted id event = assign-Good k x spent (harmless _ (λ y. ground arith) (λ y h. h)) id

  Keeps-decided :
      (id event : Uuid) → Keeps (assign id (λ y. record y { decided_event_id = some event }))
  Keeps-decided id event = assign-Good k x spent (harmless _ (λ y. ground arith) (λ y h. h)) id

  follow_up-Keeps :
      (c : ResolutionCase) (d : CustomerResponseDecisionPayload) (e : Envelope)
      → Keeps (follow_up env c d e)
  unfolding follow_up
  follow_up-Keeps c d e =
      bind
        (after
          (guard
            (Keeps-audit e.event_id e.correlation_id "completed" none
              (some ("decision: " <> outcome_text d.outcome)))
            (λ r. pure_ {a = tt}))
          (reads_ env.now))
        λ at. bind (lift_ {r = draft_of c d e.event_id at} (λ s l g. g)) λ draft.
          bind (Keeps-publish (response_drafted draft) c.correlation_id e.event_id (λ i a. refl))
            λ drafted. after (Keeps-drafted c.case_id drafted.event_id) (pure_ {a = e})

  pub emit-lem :
      (c : ResolutionCase) (d : CustomerResponseDecisionPayload) (cause : Uuid)
      → Own k x c
      → Triple G (Licensed k x spent c.case_id) (emit_decision_and_draft env c d cause) (λ e. G)
  unfolding emit_decision_and_draft
  emit-lem c d cause own =
      bind (publish_decision d c.correlation_id c.case_id cause own)
        λ sent. after (Keeps-decided c.case_id sent.event_id) (follow_up-Keeps c d sent)

  -- What `refetch` brings back.
  pub record Fetched (c d : ResolutionCase) (P : Assertion) (s : CaseStore) (l : List Envelope)
      : Type 0 where
    pub holds : P s l
    pub same_id : d.case_id ≡ c.case_id
    pub own : Own k x d
    pub current : settled_at k s ≡ true → d.case_id ≡ k → is_settled d.status ≡ true

  pub refetch-none :
      (c : ResolutionCase) (w : World)
      → lookup c.case_id w.store.cases ≡ none
      → refetch c w ≡ (ok c, w)
  unfolding refetch get
  refetch-none c w e = ground arith

  pub refetch-some :
      (c d : ResolutionCase) (w : World)
      → lookup c.case_id w.store.cases ≡ some d
      → refetch c w ≡ (ok d, w)
  unfolding refetch get
  refetch-some c d w e = ground arith

  Fetched-none :
      {P : Assertion} (c : ResolutionCase) (s : CaseStore) (l : List Envelope)
      → Own k x c
      → lookup c.case_id s.cases ≡ none
      → P s l
      → Fetched c c P s l
  Fetched-none c s l own e p = record {
    holds = p;
    same_id = refl;
    own = own;
    current = λ h q. absurd (ground (arith, e, q, h));
  }

  Fetched-some :
      {P : Assertion} (c d : ResolutionCase) (s : CaseStore) (l : List Envelope)
      → G s l
      → lookup c.case_id s.cases ≡ some d
      → P s l
      → Fetched c d P s l
  Fetched-some c d s l g e p =
      let (i, o) = g.owned.0 c.case_id d e in
      record {
        holds = p;
        same_id = i;
        own = λ q. i ∙ o q;
        current = λ h q. let j : c.case_id ≡ k = sym i ∙ q in ground (arith, e, j, h);
      }

  pub refetch-lem :
      (P : Assertion) (c : ResolutionCase)
      → Own k x c
      → ((s : CaseStore) (l : List Envelope) → P s l → G s l)
      → Triple G P (refetch c) (λ d. Fetched c d P)
  refetch-lem P c own good = record {
    run = λ w p. elim (Option-cases (lookup c.case_id w.store.cases)) [
      | inl e ↦
          subst (Outcome G (λ d. Fetched c d P)) (sym (refetch-none c w e))
            (Fetched-none c w.store w.log own e p)
      | inr (d, e) ↦
          subst (Outcome G (λ d. Fetched c d P)) (sym (refetch-some c d w e))
            (Fetched-some c d w.store w.log (good w.store w.log p) e p)
    ];
  }

  -- A case that is saved as it is stored.
  save-Good :
      (d : ResolutionCase) (at : ℕ) (s : CaseStore) (l : List Envelope)
      → Own k x d
      → (settled_at k s ≡ true → d.case_id ≡ k → is_settled d.status ≡ true)
      → G s l
      → G (save d none at s).1 l
  save-Good d at s l own current g = record {
    owned = elim (save_cases d none at s) [
      | inl e ↦ rw e g.owned
      | inr e ↦ rw e (Owned-insert k x d.case_id (saved d at s) s.cases refl own g.owned)
    ];
    once = g.once;
    recorded = λ n. save-settled k s (g.recorded n) d none at (current (g.recorded n));
  }

  save-lem :
      (c d : ResolutionCase) (at : ℕ)
      → Triple G (Fetched c d G) (on_store (save d none at)) (λ r. G)
  save-lem c d at =
      stored (save d none at)
        λ s l f. let g = save-Good d at s l f.own f.current f.holds in (g, λ a e. g)

  pub settle-Keeps :
      (c : ResolutionCase) (status : CaseStatus)
      → Own k x c
      → is_settled status ≡ true
      → Keeps (settle_case env c status)
  unfolding settle_case
  settle-Keeps c status own h =
      bind
        (after
          (assign-Good k x spent
            (harmless (λ y. record y { status = status }) (λ y. ground arith) (λ y q. h)) c.case_id)
          (refetch-lem G c own (λ s l g. g)))
        λ d. bind (reads_ env.now) λ at. after (save-lem c d at) (pure_ {a = tt})

  pub decide_and_emit-lem :
      (c : ResolutionCase) (cause : Uuid)
      → Own k x c
      → Triple G (Licensed k x spent c.case_id) (decide_and_emit env c cause) (λ u. G)
  unfolding decide_and_emit is_terminal
  decide_and_emit-lem c cause own =
      bind (refetch-lem (Licensed k x spent c.case_id) c own (λ s l g. g.good)) λ d.
        given {F = (d.case_id ≡ c.case_id) × Own k x d} (λ s l f. (f.same_id, f.own))
          λ facts.
            weaken (λ s l f. subst (λ i. Licensed k x spent i s l) (sym facts.0) f.holds)
              (bind (reads_ env.now) λ at.
                bind (lift_ {r = decision_of d at} (λ s l g. g.good)) λ decision.
                  after (emit-lem d decision cause facts.1) (settle-Keeps d decided facts.1 refl))
