-- ===== src/Billing/Rules.antt =====
-- apps/agents/billing_entitlement/rules_engine.py: `evaluate`, step by step. The ratio of usage is
-- compared without dividing. How Python prints a ratio, an amount and a time is a parameter. The
-- request and the policy are not read.
pub mod Evaluate
use decentralized_agentic_re.Prelude.{
  ℕ, suc, ◌+◌, ◌-◌, ◌*◌, ◌/◌, String, Bool, true, false, not, ◌&&◌, ◌||◌, Option, none, some, List,
  [], ◌∷◌, ◌++◌, ltb, leb, is_empty, is_some, if◌then◌else◌,
}
use decentralized_agentic_re.Prelude.Int.{ℤ, pos, negsuc, ◌-ℤ◌, ltb_ℤ, leb_ℤ, eqb_ℤ, sub_ℕ}
use decentralized_agentic_re.Prelude.Text.{◌<>◌, join, show, one_of, distinct_from}
use decentralized_agentic_re.Contracts.{
  EvidenceItem, Json, Items, nil, cons, arr, bool, num, text, object, int,
}
use decentralized_agentic_re.Billing.Facts.{
  Recommendation, approve_full_refund, deny_refund, request_more_information, manual_review,
  Subscription, SubscriptionStatus, active, cancelled, lapsed, Term, monthly, annual, Invoice,
  Payment, Entitlement, EntitlementStatus, in_force, revoked, ProductUsage, BillingFacts,
  EligibilityRecommendation, refund_window_days,
}
use decentralized_agentic_re.Billing.Entitlement.{check_entitlement, build_entitlement_evidence}

pub record Format : Type 0 where
  pub ratio_3f : Option ProductUsage → String
  pub ratio_json : Option ProductUsage → Json
  pub amount : ℤ → String
  pub amount_json : ℤ → Json
  pub units_json : ℤ → Json
  pub isoformat : ℕ → String

abbrev microseconds_per_day : ℕ
microseconds_per_day = 86400000000

-- `(now - issued_at).days`, which rounds down.
unfoldable pub days_between : ℕ → ℕ → ℤ
days_between now issued =
    if leb issued now
    then pos ((now - issued) / microseconds_per_day)
    else negsuc ((issued - now - 1) / microseconds_per_day)

-- The units used and allotted, where both are above zero; the ratio is else not above zero.
positive_ratio : Option ProductUsage → Option (ℕ × ℕ)
positive_ratio none = none
positive_ratio (some u) = elim u.usage_units [
  | negsuc n ↦ none
  | pos n ↦ elim u.allotment_units [
    | negsuc k ↦ none
    | pos k ↦ if ltb 0 k then some (n, k) else none
  ]
]

-- `usage_ratio > 0.8`
unfoldable pub is_heavy : Option ProductUsage → Bool
unfolding positive_ratio
is_heavy u = elim (positive_ratio u) [ none ↦ false | some (n, k) ↦ ltb (4 * k) (5 * n) ]

-- `usage_ratio >= 0.5`
is_moderate : Option ProductUsage → Bool
unfolding positive_ratio
is_moderate u = elim (positive_ratio u) [ none ↦ false | some (n, k) ↦ leb k (2 * n) ]

-- `abs(usage_ratio - 0.8) < 1e-9`
unfoldable pub is_borderline_usage : Option ProductUsage → Bool
unfolding positive_ratio
is_borderline_usage u = elim (positive_ratio u) [
  | none ↦ false
  | some (n, k) ↦ ltb (((5 * n - 4 * k) + (4 * k - 5 * n)) * 1000000000) (5 * k)
]

unfoldable pub usage_level : Option ProductUsage → String
unfolding is_moderate
usage_level u = if is_heavy u then "heavy" else if is_moderate u then "moderate" else "light"

status_text : SubscriptionStatus → String
status_text active = "active"
status_text cancelled = "cancelled"
status_text lapsed = "lapsed"

term_text : Term → String
term_text monthly = "monthly"
term_text annual = "annual"

subscription_text : Option Subscription → String
unfolding status_text
subscription_text none = "unknown"
subscription_text (some s) = status_text s.status

entitlement_text : Option Entitlement → String
entitlement_text none = "unknown"
entitlement_text (some e) = elim e.status [ in_force ↦ "active" | revoked ↦ "revoked" ]

item : String → String → Json → EvidenceItem
item source description value = record { source = source; description = description; value = value }

missing_facts : BillingFacts → List String
missing_facts f =
    (if is_some f.invoice then [] else "invoice" ∷ [])
    ++ (if is_some f.payment then [] else "payment" ∷ [])

texts : List String → Items
texts [] = nil
texts (s ∷ ss) = cons (text s) (texts ss)

-- Step 1: the invoice or the payment is missing.
ask_for_facts : BillingFacts → EligibilityRecommendation
unfolding missing_facts texts item subscription_text entitlement_text
ask_for_facts f = record {
  recommendation = request_more_information;
  confidence = pos 200000000;
  evidence =
      item "refund_policy" "Data-completeness gate: missing required billing facts"
        (object (("missing", arr (texts (missing_facts f))) ∷ []))
      ∷ [];
  policy_references = [];
  reasoning_summary = "Missing required billing facts: " <> join ", " (missing_facts f) <> ".";
  requires_human_review = true;
  eligible_refund_amount = pos 0;
  subscription_status = subscription_text f.subscription;
  invoice_status = "unknown";
  payment_status = "unknown";
  entitlement_status = entitlement_text f.entitlement;
  usage_level = "unknown";
  refund_window_status = "unknown";
}

is_partly_reversed : Invoice → Payment → Bool
is_partly_reversed i p =
    ltb_ℤ (pos 0) p.reversed_amount && i.paid && ltb_ℤ p.reversed_amount p.amount

unfoldable pub contradictions : Format → BillingFacts → Invoice → Payment → List String
unfolding is_partly_reversed
contradictions fmt f i p =
    (if is_partly_reversed i p
      then ("payment.reversed_amount="
          <> fmt.amount p.reversed_amount
          <> " > 0 on a paid invoice (partial reversal already applied)")
        ∷ []
      else [])
    ++ (if (check_entitlement f).mismatch then (check_entitlement f).summary ∷ [] else [])

entitlement_evidence : BillingFacts → List EvidenceItem
entitlement_evidence f =
    if is_some f.entitlement then build_entitlement_evidence (check_entitlement f) ∷ [] else []

conflict_evidence : List String → List EvidenceItem
unfolding item
conflict_evidence [] = []
conflict_evidence (c ∷ cs) =
    item "refund_policy" "Contradiction gate" (object (("conflict", text c) ∷ []))
    ∷ conflict_evidence cs

subscription_evidence : Option Subscription → List EvidenceItem
unfolding item status_text term_text
subscription_evidence none = []
subscription_evidence (some s) =
    item "subscription" "Subscription status" (
      object (
        ("subscription_id", text s.subscription_id)
        ∷ ("status", text (status_text s.status))
        ∷ ("term", text (term_text s.term))
        ∷ []))
    ∷ []

usage_evidence : Format → Option ProductUsage → List EvidenceItem
unfolding item
usage_evidence fmt none = []
usage_evidence fmt (some u) =
    item "product_usage" ("Usage ratio: " <> fmt.ratio_3f (some u) <> " (threshold=0.8)") (
      object (
        ("usage_units", fmt.units_json u.usage_units)
        ∷ ("allotment_units", fmt.units_json u.allotment_units)
        ∷ ("usage_ratio", fmt.ratio_json (some u))
        ∷ ("heavy_threshold", num (pos 800000000))
        ∷ []))
    ∷ []

-- The owned facts, for every path after the contradiction gate.
base_evidence : Format → BillingFacts → Invoice → Payment → ℤ → List EvidenceItem
unfolding item entitlement_evidence subscription_evidence usage_evidence
base_evidence fmt f i p days =
    entitlement_evidence f
    ++ item "invoice" ("Invoice issued " <> show days <> " days ago") (
        object (
          ("invoice_id", text i.invoice_id)
          ∷ ("issued_at", text (fmt.isoformat i.issued_at))
          ∷ ("paid", bool i.paid)
          ∷ ("days_since_issued", int days)
          ∷ ("window_days", int refund_window_days)
          ∷ []))
      ∷ item "payment" "Payment capture and reversal status" (
          object (
            ("payment_id", text p.payment_id)
            ∷ ("captured", bool p.captured)
            ∷ ("amount", fmt.amount_json p.amount)
            ∷ ("reversed_amount", fmt.amount_json p.reversed_amount)
            ∷ []))
      ∷ subscription_evidence f.subscription
    ++ usage_evidence fmt f.usage

-- What the returns after the first gate differ in.
record Answer : Type 0 where
  advice : Recommendation
  certainty : ℤ
  proof : List EvidenceItem
  rules : List String
  why : String
  review : Bool
  amount : ℤ
  invoice_text : String
  payment_text : String
  usage_text : String
  window_text : String

answer : BillingFacts → Answer → EligibilityRecommendation
unfolding subscription_text entitlement_text
answer f a = record {
  recommendation = a.advice;
  confidence = a.certainty;
  evidence = a.proof;
  policy_references = a.rules;
  reasoning_summary = a.why;
  requires_human_review = a.review;
  eligible_refund_amount = a.amount;
  subscription_status = subscription_text f.subscription;
  invoice_status = a.invoice_text;
  payment_status = a.payment_text;
  entitlement_status = entitlement_text f.entitlement;
  usage_level = a.usage_text;
  refund_window_status = a.window_text;
}
