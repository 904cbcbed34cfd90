-- ===== src/Billing/Rules/Evaluate/Policy.antt =====
-- apps/agents/billing_entitlement/rules_engine.py: `evaluate` and the conditions of an approval, stated
-- in numbers, times and flags.
use decentralized_agentic_re.Prelude.{
  ℕ, ◌+◌, ◌*◌, ◌≤◌, ◌<◌, ◌≡◌, ◌⊎◌, Bool, true, false, not, Option, none, some, is_empty,
}
use decentralized_agentic_re.Prelude.Int.{pos, ◌≤ℤ◌, pos_part, neg_part}
use decentralized_agentic_re.Billing.Facts.{
  Subscription, cancelled, Invoice, Payment, Entitlement, revoked, ProductUsage, BillingFacts,
}
use decentralized_agentic_re.Billing.Entitlement.{conflicts}

-- Less than 31 days, of 86,400 million microseconds each, after the issue.
abbrev pub InTime : ℕ → ℕ → Type 0
InTime now issued = now < issued + 31 * 86400000000

-- At most four fifths of a positive allotment is used.
abbrev pub Light : Option ProductUsage → Type 0
Light none = Unit {0}
Light (some u) =
    (u.allotment_units ≤ℤ pos 0)
    ⊎ (5 * pos_part u.usage_units + 4 * neg_part u.allotment_units
        ≤ 4 * pos_part u.allotment_units + 5 * neg_part u.usage_units)

-- Nothing of the payment is reversed, unless it is of no positive amount.
abbrev pub Unreversed : Payment → Type 0
Unreversed p = (p.amount ≤ℤ pos 0) ⊎ (p.reversed_amount ≤ℤ pos 0)

abbrev pub Cancelled : Option Subscription → Type 0
Cancelled none = ⊥
Cancelled (some s) = s.status ≡ cancelled

-- The product is not delivered, and the entitlement contradicts neither itself nor the subscription.
abbrev pub Undelivered : Option Entitlement → Option Subscription → Type 0
Undelivered none s = Unit {0}
Undelivered (some e) s =
    (e.delivered ≡ false)
    × (e.access_used ≡ true → e.access_granted ≡ true)
    × (e.account_active ≡ true → ¬ Cancelled s)
    × (e.status ≡ revoked → e.feature_enabled ≡ false)

abbrev pub Refundable : ℕ → BillingFacts → Option Invoice → Option Payment → Type 0
Refundable now f (some i) (some p) =
    InTime now i.issued_at
    × (i.paid ≡ true)
    × (p.captured ≡ true)
    × Unreversed p
    × Light f.usage
    × Undelivered f.entitlement f.subscription
Refundable now f _ _ = ⊥

mismatched : Option Entitlement → Option Subscription → Bool
mismatched none s = false
mismatched (some e) s = not (is_empty (conflicts e s))
