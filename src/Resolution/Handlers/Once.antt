-- ===== src/Resolution/Handlers/Once.antt =====
-- apps/agents/customer_resolution/event_handlers.py, reaper.py: the invariant on the decisions that
-- are published for one case.
use mathlib.Core.Path.{subst}
use decentralized_agentic_re.Prelude.{
  ℕ, suc, ◌+◌, ◌≤◌, ◌≡◌, refl, sym, ◌∙◌, Bool, true, false, none, some, List, [], ◌∷◌, ◌++◌, inl,
  inr, ◌==◌, ==_iff, All, arith, count, count-append, Option-cases, Bool-cases, if◌then◌else◌,
}
use decentralized_agentic_re.Prelude.Dict.{Uuid, Dict, lookup, insert, values, lookup-insert}
use decentralized_agentic_re.Prelude.Exec.{ok, err, send_failed}
use decentralized_agentic_re.Resolution.Models.{ResolutionCase}
use decentralized_agentic_re.Resolution.Store.{CaseStore, put, is_settled}
use decentralized_agentic_re.Resolution.Store.Settled.{settled_at, settled-insert}
use decentralized_agentic_re.Resolution.Store.Effects.{Change, kept, replaced, Evolves}
use decentralized_agentic_re.Resolution.World.{
  task_requested, issue_classified, review_requested, Env, World, Envelope, assign, send,
  resolution_decided, response_drafted, audit,
}
use decentralized_agentic_re.Resolution.Handlers.Logic.{Assertion, Outcome, Triple}

-- A decision event of the workflow `x`.
abbrev pub is_decision : Uuid → Envelope → Bool
is_decision x e = elim e.payload [
  | resolution_decided d ↦ e.correlation_id == x
  | response_drafted d ↦ false
  | task_requested r ↦ false
  | issue_classified i ↦ false
  | review_requested r ↦ false
  | audit a ↦ false
]

abbrev pub decisions : Uuid → List Envelope → ℕ
decisions x log = count (is_decision x) log

module _ (k x : Uuid) where
  -- A case object that is the one of `x` at most as `k`.
  abbrev pub Own : ResolutionCase → Type 0
  Own c = c.correlation_id ≡ x → c.case_id ≡ k

  -- Each case is stored under its own id, and `k` alone has the correlation id `x`.
  abbrev pub Owned : Dict ResolutionCase → Type 0
  Owned d =
      ((j : Uuid) (c : ResolutionCase)
        → lookup j d ≡ some c
        → (c.case_id ≡ j) × (c.correlation_id ≡ x → j ≡ k))
      × All Own (values d)

  listed-insert :
      (id : Uuid) (new : ResolutionCase) (d : Dict ResolutionCase)
      → Own new
      → All Own (values d)
      → All Own (values (insert id new d))
  unfolding insert
  listed-insert id new [] own h = (own, tt)
  listed-insert id new ((j, c) ∷ d) own (h, hs) = elim (Bool-cases (j == id)) [
    | inl e ↦ rw e (own, hs)
    | inr e ↦ rw e (h, listed-insert id new d own hs)
  ]

  pub Owned-insert :
      (id : Uuid) (new : ResolutionCase) (d : Dict ResolutionCase)
      → new.case_id ≡ id
      → Own new
      → Owned d
      → Owned (insert id new d)
  Owned-insert id new d e own h = (
    λ j c l.
        let l' : (if id == j then some new else lookup j d) ≡ some c = rw lookup-insert at l in
        elim (Bool-cases (id == j)) [
          | inl same ↦
              let q : some new ≡ some c = rw same at l' in
              let r : new ≡ c = cc in
              let i : id ≡ j = (==_iff id j).0 same in
              subst (λ z. (z.case_id ≡ j) × (z.correlation_id ≡ x → j ≡ k)) r
                (e ∙ i, λ p. sym i ∙ sym e ∙ own p)
          | inr other ↦ h.0 j c (rw other at l')
        ],
    listed-insert id new d own h.1,
  )

  Owned-Change : {s s' : CaseStore} → Change s s' → Owned s.cases → Owned s'.cases
  Owned-Change (kept e) h = rw e h
  Owned-Change {s} (replaced id old new f v e) h =
      let (i, o) = h.0 id old f in
      rw e (
        Owned-insert id new s.cases (v.same_id ∙ i)
          (λ p. v.same_id ∙ i ∙ o (sym v.same_correlation ∙ p)) h)

module _ (k x : Uuid) (spent : ℕ) where
  -- With `spent` decisions of `x` counted beforehand, there is at most one, and if there is one, the
  -- case is settled.
  pub record Good (s : CaseStore) (l : List Envelope) : Type 0 where
    pub owned : Owned k x s.cases
    pub once : spent + decisions x l ≤ 1
    pub recorded : 1 ≤ spent + decisions x l → settled_at k s ≡ true

  -- The decision of `id` is claimed and not out yet.
  pub record Licensed (id : Uuid) (s : CaseStore) (l : List Envelope) : Type 0 where
    pub good : Good s l
    pub unused : id ≡ k → spent + decisions x l ≡ 0
    pub claimed : id ≡ k → settled_at k s ≡ true

  pub Good-Change :
      {s s' : CaseStore} {l : List Envelope}
      → Change s s'
      → (settled_at k s ≡ true → settled_at k s' ≡ true)
      → Good s l
      → Good s' l
  Good-Change c keep g = record {
    owned = Owned-Change k x c g.owned;
    once = g.once;
    recorded = λ n. keep (g.recorded n);
  }

  -- An assignment that keeps the ids of the case, and a settled status settled.
  pub record Harmless (f : ResolutionCase → ResolutionCase) : Type 0 where
    pub evolves : (c : ResolutionCase) → Evolves c (f c)
    pub settles : (c : ResolutionCase) → is_settled c.status ≡ true → is_settled (f c).status ≡ true

  put-settled :
      (id : Uuid) (c c' : ResolutionCase) (s : CaseStore)
      → lookup id s.cases ≡ some c
      → (is_settled c.status ≡ true → is_settled c'.status ≡ true)
      → settled_at k s ≡ true
      → settled_at k (put id c' s) ≡ true
  put-settled id c c' s e keep h = ground (arith, settled-insert k id c' s.cases, ==_iff id k)

  pub assigned_some :
      (id : Uuid) (f : ResolutionCase → ResolutionCase) (c : ResolutionCase) (w : World)
      → lookup id w.store.cases ≡ some c
      → assign id f w ≡ (ok tt, record w { store = put id (f c) w.store })
  unfolding assign
  assigned_some id f c w e = ground arith

  pub assigned_none :
      (id : Uuid) (f : ResolutionCase → ResolutionCase) (w : World)
      → lookup id w.store.cases ≡ none
      → assign id f w ≡ (ok tt, w)
  unfolding assign
  assigned_none id f w e = ground arith

  assigned :
      (P : Assertion) (f : ResolutionCase → ResolutionCase)
      → ((id : Uuid) (c : ResolutionCase) (s : CaseStore) (l : List Envelope)
          → lookup id s.cases ≡ some c
          → P s l
          → P (put id (f c) s) l)
      → (id : Uuid) → Triple Good P (assign id f) (λ u. P)
  assigned P f h id = record {
    run = λ w p. elim (Option-cases (lookup id w.store.cases)) [
      | inl e ↦ subst (Outcome Good (λ u. P)) (sym (assigned_none id f w e)) p
      | inr (c, e) ↦
          subst (Outcome Good (λ u. P)) (sym (assigned_some id f c w e)) (h id c w.store w.log e p)
    ];
  }

  Good-put :
      {f : ResolutionCase → ResolutionCase}
      → Harmless f
      → (id : Uuid) (c : ResolutionCase) (s : CaseStore) (l : List Envelope)
      → lookup id s.cases ≡ some c
      → Good s l
      → Good (put id (f c) s) l
  Good-put {f} h id c s l e g =
      Good-Change (replaced id c (f c) e (h.evolves c) refl)
        (put-settled id c (f c) s e (h.settles c)) g

  pub assign-Good :
      {f : ResolutionCase → ResolutionCase}
      → Harmless f
      → (id : Uuid) → Triple Good Good (assign id f) (λ u. Good)
  assign-Good {f} h id = assigned Good f (Good-put h) id

  pub assign-Licensed :
      {f : ResolutionCase → ResolutionCase}
      → Harmless f
      → (id j : Uuid) → Triple Good (Licensed j) (assign id f) (λ u. Licensed j)
  assign-Licensed {f} h id j =
      assigned (Licensed j) f
        (λ i c s l e g. record {
          good = Good-put h i c s l e g.good;
          unused = g.unused;
          claimed = λ q. put-settled i c (f c) s e (h.settles c) (g.claimed q);
        })
        id

  -- Sending.
  pub sent :
      (env : Env) (e : Envelope) (w : World)
      → env.delivers w.tick ≡ true
      → send env e w ≡ (ok tt, record w { log = w.log ++ e ∷ []; tick = suc w.tick })
  unfolding send
  sent env e w d = rw d refl

  pub refused :
      (env : Env) (e : Envelope) (w : World)
      → env.delivers w.tick ≡ false
      → send env e w ≡ (err send_failed, record w { tick = suc w.tick })
  unfolding send
  refused env e w d = rw d refl

  pub decisions-append :
      (e : Envelope) (l : List Envelope)
      → decisions x (l ++ e ∷ []) ≡ decisions x l + (if is_decision x e then 1 else 0)
  decisions-append e l = omega (arith, count-append (is_decision x) l (e ∷ []))

  sends :
      {P : Assertion} {Q : Assertion} (env : Env) (e : Envelope)
      → ((s : CaseStore) (l : List Envelope) → P s l → Good s l × Q s (l ++ e ∷ []))
      → Triple Good P (send env e) (λ u. Q)
  sends {Q = Q} env e h = record {
    run = λ w p. elim (Bool-cases (env.delivers w.tick)) [
      | inl d ↦ subst (Outcome Good (λ u. Q)) (sym (sent env e w d)) (h w.store w.log p).1
      | inr d ↦ subst (Outcome Good (λ u. Q)) (sym (refused env e w d)) (h w.store w.log p).0
    ];
  }

  pub send_other :
      (env : Env) (e : Envelope)
      → is_decision x e ≡ false
      → Triple Good Good (send env e) (λ u. Good)
  send_other env e n = sends env e λ s l g. (
    g,
    record {
      owned = g.owned;
      once =
          let o = g.once in
          let q : decisions x (l ++ e ∷ []) ≡ decisions x l =
            rw decisions-append (rw n (omega arith)) in
          rw q o;
      recorded = λ h.
          let q : decisions x (l ++ e ∷ []) ≡ decisions x l =
            rw decisions-append (rw n (omega arith)) in
          g.recorded (rw q at h);
    },
  )

  pub send_decision :
      (env : Env) (e : Envelope) (id : Uuid)
      → (is_decision x e ≡ true → id ≡ k)
      → Triple Good (Licensed id) (send env e) (λ u. Good)
  send_decision env e id own = sends env e λ s l g. (
    g.good,
    elim (Bool-cases (is_decision x e)) [
      | inl y ↦ record {
        owned = g.good.owned;
        once = let z = g.unused (own y) in rw decisions-append (rw y (omega arith));
        recorded = λ h. g.claimed (own y);
      }
      | inr n ↦
          let q : decisions x (l ++ e ∷ []) ≡ decisions x l =
            rw decisions-append (rw n (omega arith)) in
          record {
            owned = g.good.owned;
            once = rw q g.good.once;
            recorded = λ h. g.good.recorded (rw q at h);
          }
    ],
  )
