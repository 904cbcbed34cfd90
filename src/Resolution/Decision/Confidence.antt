-- ===== src/Resolution/Decision/Confidence.antt =====
-- apps/agents/customer_resolution/decision_engine.py: `compute_confidence` and the scores that are
-- present.
use decentralized_agentic_re.Prelude.{Option-cases, ◌↔◌}
use decentralized_agentic_re.Prelude.Int.{◌-ℤ◌, ◌<ℤ◌}
use decentralized_agentic_re.Prelude.{inl, inr, Option, none, some, List, [], ◌∷◌, All, arith}
use decentralized_agentic_re.Prelude.Int.{ℤ, pos, one, ◌≤ℤ◌, min_ℤ, max_ℤ}
use decentralized_agentic_re.Resolution.Models.{Triage, BillingFinding, RiskFinding}
use decentralized_agentic_re.Resolution.Decision.{scores, least, bounded_least, compute_confidence}

le_min_left : (c x y : ℤ) → c ≤ℤ min_ℤ x y → c ≤ℤ x
le_min_left c x y h = ground arith

le_min_right : (c x y : ℤ) → c ≤ℤ min_ℤ x y → c ≤ℤ y
le_min_right c x y h = ground arith

le_min : (c x y : ℤ) → c ≤ℤ x → c ≤ℤ y → c ≤ℤ min_ℤ x y
le_min c x y h k = ground arith

clamp_up : (c y : ℤ) → pos 0 <ℤ c → c ≤ℤ max_ℤ (pos 0) (min_ℤ one y) → c ≤ℤ y
clamp_up c y p h = ground arith

clamp_down : (c y : ℤ) → c ≤ℤ one → c ≤ℤ y → c ≤ℤ max_ℤ (pos 0) (min_ℤ one y)
clamp_down c y q h = ground arith

le-least_iff : (c x : ℤ) (ys : List ℤ) → (c ≤ℤ least x ys) ↔ ((c ≤ℤ x) × All (λ y. c ≤ℤ y) ys)
le-least_iff c x [] = (λ h. (h, tt), λ h. h.0)
le-least_iff c x (y ∷ ys) = (
  λ h.
      let g = (le-least_iff c (min_ℤ x y) ys).0 h in
      (le_min_left c x y g.0, (le_min_right c x y g.0, g.1)),
  λ h. (le-least_iff c (min_ℤ x y) ys).1 (le_min c x y h.0 h.1.0, h.1.1),
)

bounded_iff :
    (c x : ℤ) (xs : List ℤ)
    → pos 0 <ℤ c
    → c ≤ℤ one
    → (c ≤ℤ bounded_least (x ∷ xs)) ↔ (c ≤ℤ least x xs)
bounded_iff c x xs p q = (clamp_up c (least x xs) p, clamp_down c (least x xs) q)

-- A score that is absent stands in no one's way.
abbrev pub Reaches : ℤ → Option ℤ → Type 0
Reaches c none = Unit
Reaches c (some s) = c ≤ℤ s

-- The certainty that a risk score leaves: 1.0 - score.
abbrev pub LeavesRoom : ℤ → Option ℤ → Type 0
LeavesRoom c none = Unit
LeavesRoom c (some s) = c ≤ℤ one -ℤ s

every_score :
    (c : ℤ) (t : Triage) (b : BillingFinding) (r : RiskFinding)
    → ((c ≤ℤ t.confidence) × All (λ s. c ≤ℤ s) (scores none (some b) (some r)))
      ↔ ((c ≤ℤ t.confidence) × Reaches c b.confidence × LeavesRoom c r.score)
unfolding scores
every_score c t b r = elim (Option-cases b.confidence) [
  | inl no_b ↦ elim (Option-cases r.score) [
    | inl no_r ↦ rw (no_b, no_r) (λ h. (h.0, tt, tt), λ h. (h.0, tt))
    | inr (s, e) ↦ rw (no_b, e) (λ h. (h.0, tt, h.1.0), λ h. (h.0, (h.2, tt)))
  ]
  | inr (u, d) ↦ elim (Option-cases r.score) [
    | inl no_r ↦ rw (d, no_r) (λ h. (h.0, h.1.0, tt), λ h. (h.0, (h.1, tt)))
    | inr (s, e) ↦ rw (d, e) (λ h. (h.0, h.1.0, h.1.1.0), λ h. (h.0, (h.1, (h.2, tt))))
  ]
]

abbrev rest : BillingFinding → RiskFinding → List ℤ
rest b r = scores none (some b) (some r)

-- With the triage and both findings there, the confidence reaches a threshold above 0.0 and up to
-- 1.0 exactly when the triage's confidence does, the billing confidence does if it is given, and
-- 1.0 minus the risk score does if that is given.
pub compute_confidence_iff :
    (c : ℤ) (t : Triage) (b : BillingFinding) (r : RiskFinding)
    → pos 0 <ℤ c
    → c ≤ℤ one
    → (c ≤ℤ compute_confidence (some t) (some b) (some r))
      ↔ ((c ≤ℤ t.confidence) × Reaches c b.confidence × LeavesRoom c r.score)
unfolding compute_confidence
compute_confidence_iff c t b r p q = (
  λ h. (every_score c t b r).0 (
      (le-least_iff c t.confidence (rest b r)).0 ((bounded_iff c t.confidence (rest b r) p q).0 h)),
  λ h.
      (bounded_iff c t.confidence (rest b r) p q).1
        ((le-least_iff c t.confidence (rest b r)).1 ((every_score c t b r).1 h)),
)
