-- ===== src/Runtime/Cache/Refinement.antt =====
-- The cache beside the history of the ids that it was asked for.
use decentralized_agentic_re.Prelude.{
  ℕ, zero, suc, ◌≤◌, ◌<◌, ◌≡◌, refl, sym, ap, ◌∙◌, Bool, true, List, [], ◌∷◌, ◌++◌, length, member,
  discard, arith, ◌==◌, ltb, Bool-cases, inl, inr, if◌then◌else◌, ==_refl, ◌||◌,
}
use decentralized_agentic_re.Prelude.Dict.{Uuid}
use decentralized_agentic_re.Runtime.Cache.{
  Cache, contains, insert, set_item, move_to_end, pop_first, empty_cache,
}
use decentralized_agentic_re.Runtime.Cache.History.{
  take, distinct, Nodup, distinct-Nodup, take-discard, take_all, length-discard,
  member-take-discard,
}

-- A question to the cache, or an id that it is to remember.
pub data Request : Type 0 where
  ask : Uuid → Request
  note : Uuid → Request

-- The answers to the questions, and the cache in the end.
unfoldable pub run : List Request → Cache → List Bool × Cache
run [] c = ([], c)
run (ask k ∷ rs) c =
    let (found, c') = contains k c in let (answers, d) = run rs c' in (found ∷ answers, d)
run (note k ∷ rs) c = run rs (insert k c)

-- What the cache is to remember of a history, the last touched first: as many different ids as it has
-- room for.
abbrev pub remembered : ℕ → List Uuid → List Uuid
remembered n h = take n (distinct h)

-- A question touches an id that is remembered; a note touches its id.
unfoldable pub replay : ℕ → List Request → List Uuid → List Bool × List Uuid
replay n [] h = ([], h)
replay n (ask k ∷ rs) h =
    let found = member k (remembered n h) in
    let (answers, h') = replay n rs (if found then k ∷ h else h) in (found ∷ answers, h')
replay n (note k ∷ rs) h = replay n rs (k ∷ h)

pop_first-eq-take : (n : ℕ) (xs : List Uuid) → length xs ≡ suc n → pop_first xs ≡ take n xs
unfolding pop_first
pop_first-eq-take n [] h = absurd (omega arith)
pop_first-eq-take zero (x ∷ []) h = refl
pop_first-eq-take zero (x ∷ y ∷ xs) h = absurd (omega arith)
pop_first-eq-take (suc n) (x ∷ []) h = absurd (omega arith)
pop_first-eq-take (suc n) (x ∷ y ∷ xs) h =
    ap (λ (r : List Uuid). x ∷ r) (pop_first-eq-take n (y ∷ xs) (omega arith))

length-take : (n : ℕ) (xs : List Uuid) → length (take n xs) ≤ n
length-take zero xs = omega arith
length-take (suc n) [] = omega arith
length-take (suc n) (x ∷ xs) = omega (arith, length-take n xs)

length-discard-member :
    (k : Uuid) (xs : List Uuid) → member k xs ≡ true → length (discard k xs) < length xs
length-discard-member k [] h = cc
length-discard-member k (x ∷ xs) h = ground (arith, length-discard-member k xs, length-discard k xs)

-- Cutting the history before an id is moved to its front, or after, is the same.
take_moved :
    (k : Uuid) (n : ℕ) (xs : List Uuid)
    → Nodup xs
    → take n (k ∷ discard k (take n xs)) ≡ take n (k ∷ discard k xs)
take_moved k zero xs h = refl
take_moved k (suc n) xs h = ap (λ (r : List Uuid). k ∷ r) (take-discard k n xs h)

cut : ℕ → List Uuid → List Uuid
cut n keys = if ltb n (length keys) then pop_first keys else keys

cut-eq-take : (n : ℕ) (xs : List Uuid) → length xs ≤ suc n → cut n xs ≡ take n xs
unfolding cut
cut-eq-take n xs h = elim (Bool-cases (ltb n (length xs))) [
  | inl e ↦ rw e (pop_first-eq-take n xs (ground arith))
  | inr e ↦ rw e (sym (take_all n xs (ground arith)))
]

move-set : (k : Uuid) (xs : List Uuid) → move_to_end k (set_item k xs) ≡ k ∷ discard k xs
unfolding move_to_end set_item
move-set k xs = ground (arith, ==_refl k)

keys-insert : (k : Uuid) (c : Cache) → (insert k c).keys ≡ cut c.maxsize (k ∷ discard k c.keys)
unfolding insert cut
keys-insert k c = ground (arith, move-set k c.keys)

maxsize-insert : (k : Uuid) (c : Cache) → (insert k c).maxsize ≡ c.maxsize
unfolding insert
maxsize-insert k c = ground arith

cut_moved :
    (k : Uuid) (n : ℕ) (keys xs : List Uuid)
    → Nodup xs
    → keys ≡ take n xs
    → cut n (k ∷ discard k keys) ≡ take n (k ∷ discard k xs)
cut_moved k n keys xs d e = rw e (
    cut-eq-take n (k ∷ discard k (take n xs))
      (omega (arith, length-discard k (take n xs), length-take n xs))
    ∙ take_moved k n xs d)

hit_moved :
    (k : Uuid) (n : ℕ) (keys xs : List Uuid)
    → Nodup xs
    → keys ≡ take n xs
    → member k (take n xs) ≡ true
    → k ∷ discard k keys ≡ take n (k ∷ discard k xs)
hit_moved k n keys xs d e m = rw e (
    sym (
      take_all n (k ∷ discard k (take n xs))
        (omega (arith, length-discard-member k (take n xs) m, length-take n xs)))
    ∙ take_moved k n xs d)

-- The cache has room for `n` ids, and its keys are what it is to remember of `h`.
abbrev pub Follows : ℕ → Cache → List Uuid → Type 0
Follows n c h = (c.maxsize ≡ n) × (c.keys ≡ remembered n h)

take-nil : (n : ℕ) → take {A = Uuid} n [] ≡ []
take-nil zero = refl
take-nil (suc n) = refl

pub empty_cache-Follows : (n : ℕ) → Follows n (empty_cache n) []
unfolding empty_cache
empty_cache-Follows n = (refl, sym (take-nil n))

pub insert-Follows :
    (k : Uuid) (n : ℕ) (c : Cache) (h : List Uuid) → Follows n c h → Follows n (insert k c) (k ∷ h)
insert-Follows k n c h f = (
  maxsize-insert k c ∙ f.0,
  keys-insert k c
      ∙ ap (λ (m : ℕ). cut m (k ∷ discard k c.keys)) f.0
      ∙ cut_moved k n c.keys (distinct h) (distinct-Nodup h) f.1,
)

pub contains-Follows :
    (k : Uuid) (n : ℕ) (c : Cache) (h : List Uuid)
    → Follows n c h
    → Follows n (contains k c).1 (if member k (remembered n h) then k ∷ h else h)
unfolding contains move_to_end
contains-Follows k n c h f = elim (Bool-cases (member k c.keys)) [
  | inl e ↦ ground (arith, hit_moved k n c.keys (distinct h) (distinct-Nodup h))
  | inr e ↦ ground arith
]

pub contains-answer :
    (k : Uuid) (n : ℕ) (c : Cache) (h : List Uuid)
    → Follows n c h
    → (contains k c).0 ≡ member k (remembered n h)
unfolding contains
contains-answer k n c h f = ground arith

-- From a cache with room for `n` ids whose keys are the last `n` different ids of the history `h`, any
-- questions and notes get the answers of the history that is kept whole: an id is found exactly when
-- it is among the last `n` different ids touched, a question that finds its id and a note being the
-- touches. And the keys in the end are again the last `n` different ids, in the order of their last
-- touches.
pub run_refines :
    (n : ℕ) (rs : List Request) (c : Cache) (h : List Uuid)
    → Follows n c h
    → ((run rs c).0 ≡ (replay n rs h).0) × Follows n (run rs c).1 (replay n rs h).1
unfolding run replay
run_refines n [] c h f = (refl, f)
run_refines n (note k ∷ rs) c h f = run_refines n rs (insert k c) (k ∷ h) (insert-Follows k n c h f)
run_refines n (ask k ∷ rs) c h f =
    let rest = run_refines n rs (contains k c).1 _ (contains-Follows k n c h f) in
    (cc (rest.0, contains-answer k n c h f), rest.1)

-- An id that was touched is remembered while fewer than `n` touches follow it.
pub member-remembered :
    (k : Uuid) (n : ℕ) (later h : List Uuid)
    → length later < n
    → member k (remembered n (later ++ k ∷ h)) ≡ true
member-remembered k zero later h l = absurd (omega arith)
member-remembered k (suc n) [] h l = ground (arith, ==_refl k)
member-remembered k (suc n) (x ∷ later) h l = elim (Bool-cases (k == x)) [
  | inl e ↦ ground arith
  | inr e ↦
      rw (e, ◌||◌)
        (member-take-discard k x n (distinct (later ++ k ∷ h)) e
          (member-remembered k n later h (omega arith)))
]
