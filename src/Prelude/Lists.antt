-- ===== src/Prelude/Lists.antt =====
-- Python lists measured by native numbers, and the tests on them.
use Prim.Native.Nat.{ℕ, suc, ◌+◌}
use mathlib.Core.Path.{◌≡◌, refl}
use mathlib.Core.Bool.{Bool, true, false, ◌||◌}
use mathlib.Core.List.{List, [], ◌∷◌, ◌++◌}
use native.Mathlib.Omega.{arith}
use decentralized_agentic_re.Prelude.Tests.{◌==◌, if◌then◌else◌}

module _ {ℓ} {A : Type ℓ} where
  abbrev pub length : List A → ℕ
  length [] = 0
  length (x ∷ xs) = suc (length xs)

  -- `not xs`
  abbrev pub is_empty : List A → Bool
  is_empty [] = true
  is_empty (x ∷ xs) = false

  pub length-append : (xs ys : List A) → length (xs ++ ys) ≡ length xs + length ys
  length-append [] ys = omega arith
  length-append (x ∷ xs) ys = omega (arith, length-append xs ys)

  -- How many items pass a test.
  abbrev pub count : (A → Bool) → List A → ℕ
  count p [] = 0
  count p (x ∷ xs) = (if p x then 1 else 0) + count p xs

  pub count-append : (p : A → Bool) (xs ys : List A) → count p (xs ++ ys) ≡ count p xs + count p ys
  count-append p [] ys = omega arith
  count-append p (x ∷ xs) ys = omega (arith, count-append p xs ys)

  -- `[x for x in xs if p(x)]`
  abbrev pub keep_if : (A → Bool) → List A → List A
  keep_if p [] = []
  keep_if p (x ∷ xs) = if p x then x ∷ keep_if p xs else keep_if p xs

  abbrev pub All {κ} : (A → Type κ) → List A → Type κ
  All P [] = Unit
  All P (x ∷ xs) = P x × All P xs

-- A Python set of UUIDs as the list of its members: `in`, `add`, `discard`.
abbrev pub member : ℕ → List ℕ → Bool
member a [] = false
member a (x ∷ xs) = a == x || member a xs

abbrev pub add : ℕ → List ℕ → List ℕ
add a xs = if member a xs then xs else xs ++ a ∷ []

abbrev pub discard : ℕ → List ℕ → List ℕ
discard a [] = []
discard a (x ∷ xs) = if a == x then discard a xs else x ∷ discard a xs

pub member-append : (a : ℕ) (xs ys : List ℕ) → member a (xs ++ ys) ≡ (member a xs || member a ys)
member-append a [] ys = refl
member-append a (x ∷ xs) ys = ground (arith, member-append a xs ys)

pub member-discard_self : (a : ℕ) (xs : List ℕ) → member a (discard a xs) ≡ false
member-discard_self a [] = refl
member-discard_self a (x ∷ xs) = ground (arith, member-discard_self a xs)

pub member-discard :
    (a b : ℕ) (xs : List ℕ) → member b (discard a xs) ≡ (if a == b then false else member b xs)
member-discard a b [] = ground arith
member-discard a b (x ∷ xs) = ground (arith, member-discard a b xs)

pub discard_comm : (a b : ℕ) (xs : List ℕ) → discard a (discard b xs) ≡ discard b (discard a xs)
discard_comm a b [] = refl
discard_comm a b (x ∷ xs) = ground (arith, discard_comm a b xs)

pub is_empty_of_member : (a : ℕ) (xs : List ℕ) → member a xs ≡ true → is_empty xs ≡ false
is_empty_of_member a [] h = cc
is_empty_of_member a (x ∷ xs) h = refl
