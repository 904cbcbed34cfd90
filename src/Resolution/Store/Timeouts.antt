-- ===== src/Resolution/Store/Timeouts.antt =====
-- apps/agents/customer_resolution/state_store.py: which cases the timeout reaper is given.
use decentralized_agentic_re.Prelude.{
  ℕ, ◌<◌, ◌≡◌, refl, sym, ◌↔◌, Bool, true, false, Option, none, some, List, [], ◌∷◌, arith,
  is_empty, keep_if, Bool-cases, inl, inr,
}
use decentralized_agentic_re.Prelude.Dict.{values}
use decentralized_agentic_re.Resolution.Models.{ResolutionCase, is_past}
use decentralized_agentic_re.Resolution.Store.{
  CaseStore, is_timed_out, list_timed_out_cases, is_settled,
}

-- `c` is one of `cs`.
pub data Among (c : ResolutionCase) : List ResolutionCase → Type 0 where
  here : {d : ResolutionCase} {cs : List ResolutionCase} → c ≡ d → Among c (d ∷ cs)
  there : {d : ResolutionCase} {cs : List ResolutionCase} → Among c cs → Among c (d ∷ cs)

-- The reaper's condition: the deadline of an undecided case has passed and a review is pending.
pub record IsOverdue (now : ℕ) (c : ResolutionCase) : Type 0 where
  pub is_active : is_settled c.status ≡ false
  pub late : (d : ℕ) × (c.deadline_at ≡ some d) × (d < now)
  pub waits : is_empty c.pending_tasks ≡ false

is_past-late : (o : Option ℕ) (now : ℕ) → is_past o now ≡ true → (d : ℕ) × (o ≡ some d) × (d < now)
is_past-late none now h = cc
is_past-late (some d) now h = (d, refl, ground arith)

is_timed_out_iff : (now : ℕ) (c : ResolutionCase) → (is_timed_out now c ≡ true) ↔ IsOverdue now c
unfolding is_timed_out
is_timed_out_iff now c = (
  λ h. record {
    is_active = ground arith;
    late = is_past-late c.deadline_at now (ground arith);
    waits = ground arith;
  },
  λ o. let (d, e, l) = o.late in ground (arith, o.is_active, o.waits, e),
)

kept_head :
    (p : ResolutionCase → Bool) (c d : ResolutionCase) (cs : List ResolutionCase)
    → p d ≡ true
    → Among c (d ∷ keep_if p cs)
    → (Among c (keep_if p cs) → Among c cs × (p c ≡ true))
    → Among c (d ∷ cs) × (p c ≡ true)
kept_head p c d cs e (here q) rest = (here q, rw q e)
kept_head p c d cs e (there a) rest = let (b, f) = rest a in (there b, f)

Among-keep_if :
    (p : ResolutionCase → Bool) (c : ResolutionCase) (cs : List ResolutionCase)
    → Among c (keep_if p cs)
    → Among c cs × (p c ≡ true)
Among-keep_if p c [] m = elim m [ ]
Among-keep_if p c (d ∷ cs) m = elim (Bool-cases (p d)) [
  | inl e ↦ kept_head p c d cs e (rw e at m) (Among-keep_if p c cs)
  | inr e ↦ let (a, b) = Among-keep_if p c cs (rw e at m) in (there a, b)
]

keep_if-Among :
    (p : ResolutionCase → Bool) (c : ResolutionCase) (cs : List ResolutionCase)
    → Among c cs
    → p c ≡ true
    → Among c (keep_if p cs)
keep_if-Among p c [] m e = elim m [ ]
keep_if-Among p c (d ∷ cs) (here q) e = rw (sym q) (rw e (here refl))
keep_if-Among p c (d ∷ cs) (there a) e = elim (Bool-cases (p d)) [
  | inl f ↦ rw f (there (keep_if-Among p c cs a e))
  | inr f ↦ rw f (keep_if-Among p c cs a e)
]

-- The reaper is given exactly the stored cases that are neither decided nor terminal, whose deadline
-- has passed and which still wait for a review.
pub list_timed_out_iff :
    (now : ℕ) (s : CaseStore) (c : ResolutionCase)
    → Among c (list_timed_out_cases now s) ↔ (Among c (values s.cases) × IsOverdue now c)
unfolding list_timed_out_cases
list_timed_out_iff now s c = (
  λ m.
      let (a, b) = Among-keep_if (is_timed_out now) c (values s.cases) m in
      (a, (is_timed_out_iff now c).0 b),
  λ (a, o). keep_if-Among (is_timed_out now) c (values s.cases) a ((is_timed_out_iff now c).1 o),
)
