-- ===== src/Runtime/Cache/History.antt =====
-- The ids of a history, each once, and lists cut to a length.
use decentralized_agentic_re.Prelude.{
  ℕ, zero, suc, ◌≤◌, ◌≡◌, refl, true, false, List, [], ◌∷◌, length, member, discard, member-discard,
  member-discard_self, arith, ◌==◌, ap, Bool-cases, inl, inr, ==_iff, if◌then◌else◌,
}
use decentralized_agentic_re.Prelude.Dict.{Uuid}

abbrev pub take {ℓ} : {A : Type ℓ} → ℕ → List A → List A
take zero xs = []
take (suc n) [] = []
take (suc n) (x ∷ xs) = x ∷ take n xs

-- The ids of a history, the last touched first, each at its last touch.
abbrev pub distinct : List Uuid → List Uuid
distinct [] = []
distinct (k ∷ h) = k ∷ discard k (distinct h)

-- No id stands twice.
abbrev pub Nodup : List Uuid → Type 0
Nodup [] = Unit
Nodup (x ∷ xs) = (member x xs ≡ false) × Nodup xs

pub discard-Nodup : (k : Uuid) (xs : List Uuid) → Nodup xs → Nodup (discard k xs)
discard-Nodup k [] h = tt
discard-Nodup k (x ∷ xs) h = ground (arith, discard-Nodup k xs h.1, member-discard k x xs, h.0)

pub distinct-Nodup : (h : List Uuid) → Nodup (distinct h)
distinct-Nodup [] = tt
distinct-Nodup (k ∷ h) =
    (member-discard_self k (distinct h), discard-Nodup k (distinct h) (distinct-Nodup h))

pub discard_absent : (k : Uuid) (xs : List Uuid) → member k xs ≡ false → discard k xs ≡ xs
discard_absent k [] h = refl
discard_absent k (x ∷ xs) h = ground (arith, discard_absent k xs)

pub length-discard : (k : Uuid) (xs : List Uuid) → length (discard k xs) ≤ length xs
length-discard k [] = omega arith
length-discard k (x ∷ xs) = ground (arith, length-discard k xs)

pub take_all : (n : ℕ) (xs : List Uuid) → length xs ≤ n → take n xs ≡ xs
take_all zero [] h = refl
take_all zero (x ∷ xs) h = absurd (omega arith)
take_all (suc n) [] h = refl
take_all (suc n) (x ∷ xs) h = ap (λ (r : List Uuid). x ∷ r) (take_all n xs (omega arith))

pub take-take : (n : ℕ) (xs : List Uuid) → take n (take n xs) ≡ take n xs
take-take zero xs = refl
take-take (suc n) [] = refl
take-take (suc n) (x ∷ xs) = ap (λ (r : List Uuid). x ∷ r) (take-take n xs)

pub member_of_take :
    (k : Uuid) (n : ℕ) (xs : List Uuid) → member k xs ≡ false → member k (take n xs) ≡ false
member_of_take k zero xs h = refl
member_of_take k (suc n) [] h = refl
member_of_take k (suc n) (x ∷ xs) h = ground (arith, member_of_take k n xs)

-- One id taken out of the first n + 1 leaves the first n of the rest.
pub take-discard :
    (k : Uuid) (n : ℕ) (xs : List Uuid)
    → Nodup xs
    → take n (discard k (take (suc n) xs)) ≡ take n (discard k xs)
take-discard k zero xs h = refl
take-discard k (suc n) [] h = refl
take-discard k (suc n) (x ∷ xs) h = elim (Bool-cases (k == x)) [
  | inl e ↦ ground (
    arith,
    discard_absent k xs,
    discard_absent k (take (suc n) xs),
    member_of_take k (suc n) xs,
    take-take (suc n) xs,
    ==_iff k x,
  )
  | inr e ↦ rw (e, if◌then◌else◌) (ap (λ (r : List Uuid). x ∷ r) (take-discard k n xs h.1))
]

pub member-take-suc :
    (k : Uuid) (n : ℕ) (xs : List Uuid)
    → member k (take n xs) ≡ true
    → member k (take (suc n) xs) ≡ true
member-take-suc k zero xs h = cc
member-take-suc k (suc n) [] h = cc
member-take-suc k (suc n) (x ∷ xs) h = ground (arith, member-take-suc k n xs)

-- An id among the first n stays there when another is taken out.
pub member-take-discard :
    (k j n : ℕ) (xs : List Uuid)
    → (k == j) ≡ false
    → member k (take n xs) ≡ true
    → member k (take n (discard j xs)) ≡ true
member-take-discard k j zero xs e h = cc
member-take-discard k j (suc n) [] e h = cc
member-take-discard k j (suc n) (x ∷ xs) e h =
    ground (arith, member-take-discard k j n xs, member-take-suc k n (discard j xs))
