-- ===== src/Resolution/Handlers/Logic.antt =====
-- Triples for handlers: what holds before, and what holds of the result after. An exception leaves
-- the invariant.
use decentralized_agentic_re.Prelude.{ℕ, ◌≡◌, refl, Bool, true, false, List}
use decentralized_agentic_re.Prelude.Exec.{
  Result, ok, err, Exec, pure, lift, catch, ◌>>=◌, ◌>>◌, only_if, Error,
}
use decentralized_agentic_re.Resolution.Store.{CaseStore}
use decentralized_agentic_re.Resolution.World.{World, Envelope, Handler, reads, on_store}

-- What is claimed of the store and the log.
abbrev pub Assertion : Type 1
Assertion = CaseStore → List Envelope → Type 0

abbrev pub Outcome : {A : Type 0} → (Assertion) → (A → Assertion) → Result A × World → Type 0
Outcome P Q (ok a, w) = Q a w.store w.log
Outcome P Q (err e, w) = P w.store w.log

-- From `P`, `m` ends in `Q` of its result, or raises and leaves `I`.
pub record Triple {A : Type 0} (I P : Assertion) (m : Handler A) (Q : A → Assertion) : Type 0 where
  pub run : (w : World) → P w.store w.log → Outcome I Q (m w)

next : {A B : Type 0} → (A → Handler B) → Result A × World → Result B × World
next f (r, w) = elim r [ ok a ↦ f a w | err e ↦ (err e, w) ]

Outcome-next :
    {I : Assertion} {A B : Type 0} {Q : A → Assertion} (R : B → Assertion) (f : A → Handler B)
    (r : Result A × World)
    → Outcome I Q r
    → ((a : A) → Triple I (Q a) (f a) R)
    → Outcome I R (next f r)
unfolding next
Outcome-next R f (ok a, w) o k = (k a).run w o
Outcome-next R f (err e, w) o k = o

pub bind :
    {I : Assertion} {A B : Type 0} {P : Assertion} {Q : A → Assertion} {R : B → Assertion}
    {m : Handler A} {f : A → Handler B}
    → Triple I P m Q
    → ((a : A) → Triple I (Q a) (f a) R)
    → Triple I P (m >>= f) R
unfolding next
bind {R = R} {m = m} {f} t k = record { run = λ w p. Outcome-next R f (m w) (t.run w p) k }

-- The same, where the first result is dropped.
pub after :
    {I : Assertion} {A B : Type 0} {P : Assertion} {Q : Assertion} {R : B → Assertion}
    {m : Handler A} {f : Handler B}
    → Triple I P m (λ a. Q)
    → Triple I Q f R
    → Triple I P (m >> f) R
after t k = bind t λ a. k

Outcome-caught :
    {I : Assertion} {A : Type 0} (Q : A → Assertion) (h : Error → Handler A) (r : Result A × World)
    → Outcome I Q r
    → ((e : Error) → Triple I I (h e) Q)
    → Outcome I Q (elim r.0 as (λ _. Result A × World) [ ok a ↦ (ok a, r.1) | err e ↦ h e r.1 ])
Outcome-caught Q h (ok a, w) o k = o
Outcome-caught Q h (err e, w) o k = (k e).run w o

pub guard :
    {I P : Assertion} {A : Type 0} {Q : A → Assertion} {m : Handler A} {h : Error → Handler A}
    → Triple I P m Q
    → ((e : Error) → Triple I I (h e) Q)
    → Triple I P (catch m h) Q
guard {Q = Q} {m} {h} t k = record { run = λ w p. Outcome-caught Q h (m w) (t.run w p) k }

pub when_ :
    {I P : Assertion} {Q : Assertion} (b : Bool) {m : Handler (Unit {0})}
    → (b ≡ true → Triple I P m (λ u. Q))
    → (b ≡ false → (s : CaseStore) (l : List Envelope) → P s l → Q s l)
    → Triple I P (only_if b m) (λ u. Q)
when_ true t f = t refl
when_ false t f = record { run = λ w p. f refl w.store w.log p }

answered :
    {A : Type 0} (I : Assertion) (Q : A → Assertion) (r : Result A) (w : World)
    → I w.store w.log
    → ((a : A) → r ≡ ok a → Q a w.store w.log)
    → Outcome I Q (r, w)
answered I Q (ok a) w i q = q a refl
answered I Q (err e) w i q = i

module _ {I P : Assertion} {A : Type 0} where
  pub reads_ : (f : ℕ → A) → Triple I P (reads f) (λ a. P)
  reads_ f = record { run = λ w p. p }

  pub pure_ : {a : A} → Triple I P (pure a) (λ a. P)
  pure_ = record { run = λ w p. p }

  pub lift_ :
      {r : Result A}
      → ((s : CaseStore) (l : List Envelope) → P s l → I s l)
      → Triple I P (lift r) (λ a. P)
  lift_ {r = ok a} f = record { run = λ w p. p }
  lift_ {r = err e} f = record { run = λ w p. f w.store w.log p }

  -- The rule of consequence, and facts that the state carries.
  pub weaken :
      {P' : Assertion} {Q : A → Assertion} {m : Handler A}
      → ((s : CaseStore) (l : List Envelope) → P s l → P' s l)
      → Triple I P' m Q
      → Triple I P m Q
  weaken f t = record { run = λ w p. t.run w (f w.store w.log p) }

  pub given :
      {F : Type 0} {Q : A → Assertion} {m : Handler A}
      → ((s : CaseStore) (l : List Envelope) → P s l → F)
      → (F → Triple I P m Q)
      → Triple I P m Q
  given f t = record { run = λ w p. (t (f w.store w.log p)).run w p }

  pub stored :
      {Q : A → Assertion} (m : Exec CaseStore A)
      → ((s : CaseStore) (l : List Envelope)
          → P s l
          → I (m s).1 l × ((a : A) → (m s).0 ≡ ok a → Q a (m s).1 l))
      → Triple I P (on_store m) Q
  stored {Q = Q} m h = record {
    run = λ w p.
        answered I Q (m w.store).0 (record w { store = (m w.store).1 }) (h w.store w.log p).0
          (h w.store w.log p).1;
  }
