-- ===== src/Prelude/Exec.antt =====
-- Code that changes a state and may raise: what was written before a raise stays written, so the
-- state comes back beside the exception too.
use mathlib.Core.Bool.{Bool}
use Prim.Native.String.{String}
use mathlib.Core.Path.{◌≡◌}
use decentralized_agentic_re.Prelude.Tests.{if◌then◌else◌}

-- The exceptions of the modelled code: `ValueError`, `KeyError`, `CaseSaveConflict`, the two
-- `...PeerUnavailable`, a send that the broker refuses, and what a task handler raises.
pub data Error : Type 0 where
  value_error : Error
  key_error : Error
  save_conflict : Error
  peer_unavailable : Error
  send_failed : Error
  handler_error : String → Error

pub data Result {ℓ} (A : Type ℓ) : Type ℓ where
  ok : A → Result A
  err : Error → Result A

abbrev pub Exec {ℓ} : Type ℓ → Type ℓ → Type ℓ
Exec S A = S → Result A × S

module _ {ℓ} {S A : Type ℓ} where
  abbrev pub pure : A → Exec S A
  pure a s = (ok a, s)

  abbrev pub raise : Error → Exec S A
  raise e s = (err e, s)

  abbrev pub lift : Result A → Exec S A
  lift r s = (r, s)

  abbrev pub gets : (S → A) → Exec S A
  gets f s = (ok (f s), s)

  -- `try: m except Exception: h`
  abbrev pub catch : Exec S A → (Error → Exec S A) → Exec S A
  catch m h s = let (r, s') = m s in elim r [ ok a ↦ (ok a, s') | err e ↦ h e s' ]

infixl 10 ◌>>=◌ ◌>>◌
abbrev pub ◌>>=◌ {ℓ} : {S A B : Type ℓ} → Exec S A → (A → Exec S B) → Exec S B
◌>>=◌ m f s = let (r, s') = m s in elim r [ ok a ↦ f a s' | err e ↦ (err e, s') ]

abbrev pub ◌>>◌ {ℓ} : {S A B : Type ℓ} → Exec S A → Exec S B → Exec S B
m >> k = m >>= λ _. k

abbrev pub modify : {S : Type 0} → (S → S) → Exec S Unit
modify f s = (ok tt, f s)

-- `if c: m`, and on with the rest.
abbrev pub only_if : {S : Type 0} → Bool → Exec S Unit → Exec S Unit
only_if c m = if c then m else pure tt

-- How the parts of a run give the run of the whole.
module _ {ℓ} {S A : Type ℓ} (m : Exec S A) {s s' : S} where
  pub >>=-ok : {B : Type ℓ} {a : A} (f : A → Exec S B) → m s ≡ (ok a, s') → (m >>= f) s ≡ f a s'
  >>=-ok f p = rw (p, ◌>>=◌) (rw p)

  pub >>=-err :
      {B : Type ℓ} {e : Error} (f : A → Exec S B) → m s ≡ (err e, s') → (m >>= f) s ≡ (err e, s')
  >>=-err f p = rw (p, ◌>>=◌) (rw p)

  pub catch-ok : {a : A} (h : Error → Exec S A) → m s ≡ (ok a, s') → catch m h s ≡ (ok a, s')
  catch-ok h p = rw (p, catch) (rw p)

  pub catch-err : {e : Error} (h : Error → Exec S A) → m s ≡ (err e, s') → catch m h s ≡ h e s'
  catch-err h p = rw (p, catch) (rw p)
