-- ===== src/Runtime/Host/Restart.antt =====
-- The tracker of an agent that starts again, from the topic of the processed ids.
use mathlib.Core.Path.{subst}
use decentralized_agentic_re.Prelude.{
  ℕ, suc, ◌+◌, ◌≤◌, ◌<◌, ◌≡◌, refl, sym, ap, ◌∙◌, true, false, Option, none, some, List, [], ◌∷◌,
  ◌++◌, length, member, arith,
}
use decentralized_agentic_re.Prelude.Dict.{Uuid}
use decentralized_agentic_re.Prelude.Exec.{ok}
use decentralized_agentic_re.Runtime.Cache.{Cache, empty_cache, contains, insert}
use decentralized_agentic_re.Runtime.Cache.Refinement.{
  Follows, empty_cache-Follows, insert-Follows, contains-answer, member-remembered, remembered,
}
use decentralized_agentic_re.Runtime.Host.{Env, Host, load, rebuild, initialize, ask, is_duplicate}

-- The records that are handed out before the first empty poll.
abbrev pub handed : {Raw : Type 0} → List (List Raw) → List Raw
handed [] = []
handed ([] ∷ batches) = []
handed ((r ∷ rs) ∷ batches) = (r ∷ rs) ++ handed batches

-- The ids of records, the last one first, before those of `h`. A record that cannot be read has none.
abbrev pub history_of : {Raw : Type 0} → (Raw → Option Uuid) → List Raw → List Uuid → List Uuid
history_of decode [] h = h
history_of decode (r ∷ rs) h =
    history_of decode rs (elim (decode r) [ none ↦ h | some id ↦ id ∷ h ])

module _ {Raw : Type 0} (decode : Raw → Option Uuid) where
  load-append :
      (xs ys : List Raw) (c : Cache) → load decode (xs ++ ys) c ≡ load decode ys (load decode xs c)
  unfolding load
  load-append [] ys c = refl
  load-append (x ∷ xs) ys c = load-append xs ys _

  rebuild-handed :
      (batches : List (List Raw)) (c : Cache)
      → rebuild decode batches c ≡ load decode (handed batches) c
  unfolding rebuild load
  rebuild-handed [] c = refl
  rebuild-handed ([] ∷ batches) c = refl
  rebuild-handed ((r ∷ rs) ∷ batches) c =
      rebuild-handed batches _ ∙ sym (load-append (r ∷ rs) (handed batches) c)

  noted-Follows :
      (n : ℕ) (o : Option Uuid) (c : Cache) (h : List Uuid)
      → Follows n c h
      → Follows n
          (elim o [ none ↦ c | some id ↦ insert id c ])
          (elim o [ none ↦ h | some id ↦ id ∷ h ])
  noted-Follows n none c h f = f
  noted-Follows n (some id) c h f = insert-Follows id n c h f

  load-Follows :
      (n : ℕ) (rs : List Raw) (c : Cache) (h : List Uuid)
      → Follows n c h
      → Follows n (load decode rs c) (history_of decode rs h)
  unfolding load
  load-Follows n [] c h f = f
  load-Follows n (r ∷ rs) c h f = load-Follows n rs _ _ (noted-Follows n (decode r) c h f)

module _ (n : ℕ) where
  abbrev pub Some : Cache → Type 0
  Some c = (h : List Uuid) × Follows n c h

  -- At most `d` touches have followed the last one of `k`.
  Remembers : Uuid → ℕ → Cache → Type 0
  Remembers k d c =
      (later : List Uuid) × (earlier : List Uuid) × (length later ≤ d)
      × Follows n c (later ++ k ∷ earlier)

  noted-Some :
      (o : Option Uuid) (c : Cache) → Some c → Some (elim o [ none ↦ c | some id ↦ insert id c ])
  noted-Some none c s = s
  noted-Some (some id) c (h, f) = (id ∷ h, insert-Follows id n c h f)

  noted-Remembers :
      (o : Option Uuid) (k : Uuid) (d : ℕ) (c : Cache)
      → Remembers k d c
      → Remembers k (suc d) (elim o [ none ↦ c | some id ↦ insert id c ])
  unfolding Remembers
  noted-Remembers none k d c (later, earlier, l, f) = (later, earlier, omega (arith, l), f)
  noted-Remembers (some id) k d c (later, earlier, l, f) =
      (id ∷ later, earlier, omega (arith, l), insert-Follows id n c (later ++ k ∷ earlier) f)

  module _ {Raw : Type 0} (decode : Raw → Option Uuid) where
    load-Some : (rs : List Raw) (c : Cache) → Some c → Some (load decode rs c)
    unfolding load
    load-Some [] c s = s
    load-Some (r ∷ rs) c s = load-Some rs _ (noted-Some (decode r) c s)

    load-Remembers :
        (k : Uuid) (d : ℕ) (rs : List Raw) (c : Cache)
        → Remembers k d c
        → Remembers k (length rs + d) (load decode rs c)
    unfolding load
    load-Remembers k d [] c s = subst (λ (e : ℕ). Remembers k e c) (omega arith) s
    load-Remembers k d (r ∷ rs) c s =
        subst (λ (e : ℕ). Remembers k e (load decode (r ∷ rs) c)) (omega arith)
          (load-Remembers k (suc d) rs _ (noted-Remembers (decode r) k d c s))

    remembered-loaded :
        (k : Uuid) (c : Cache) (after : List Raw)
        → Some c
        → length after < n
        → (contains k (load decode after (insert k c))).0 ≡ true
    unfolding Remembers
    remembered-loaded k c after (h, f) l =
        let (later, earlier, few, g) =
          load-Remembers k 0 after (insert k c) ([], h, omega arith, insert-Follows k n c h f) in
        contains-answer k n _ (later ++ k ∷ earlier) g
        ∙ member-remembered k n later earlier (omega (arith, few, l))

    -- The records up to one of `k`, and fewer than `n` after it.
    pub loaded :
        (k : Uuid) (before after : List Raw) (r : Raw) (c : Cache)
        → Some c
        → decode r ≡ some k
        → length after < n
        → (contains k (load decode (before ++ r ∷ after) c)).0 ≡ true
    unfolding load
    loaded k before after r c s e l = rw (load-append decode before (r ∷ after) c) (
        subst
          (λ (o : Option Uuid).
            (contains k (
              load decode after (elim o [
                | none ↦ load decode before c
                | some id ↦ insert id (load decode before c)
              ]))).0
            ≡ true)
          (sym e) (remembered-loaded k (load decode before c) after (load-Some before c s) l))

started :
    {S Raw : Type 0} (env : Env Raw) (id : Uuid) (v : Host S Raw)
    → v.tracker.initialized ≡ false
    → env.reachable v.tick ≡ true
    → (is_duplicate env id v).0
      ≡ ok (contains id (rebuild env.decode (env.polls v.processed) v.tracker.lru)).0
unfolding is_duplicate initialize ask
started env id v i reach = simp (i, reach)

-- An agent starts with an empty cache for `n` ids, and the topic of processed ids can be read. Whatever
-- its polls hand out, the agent takes an id for a duplicate exactly when it is among the last `n`
-- different ids of the records handed out before the first empty poll: what stands behind an early
-- empty poll is forgotten.
pub restart_answers :
    {S Raw : Type 0} (env : Env Raw) (n : ℕ) (id : Uuid) (v : Host S Raw)
    → env.reachable v.tick ≡ true
    → v.tracker.lru ≡ empty_cache n
    → v.tracker.initialized ≡ false
    → (is_duplicate env id v).0
      ≡ ok (member id (remembered n (history_of env.decode (handed (env.polls v.processed)) [])))
restart_answers env n id v reach fresh i =
    started env id v i reach
    ∙ ap ok (
        ap (λ (c : Cache). (contains id c).0)
          (rebuild-handed env.decode (env.polls v.processed) v.tracker.lru)
        ∙ contains-answer id n _ _ (
            load-Follows env.decode n (handed (env.polls v.processed)) v.tracker.lru []
              (subst (λ (c : Cache). Follows n c []) (sym fresh) (empty_cache-Follows n))))
