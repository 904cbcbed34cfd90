-- ===== src/Billing/Rules/Evaluate/Approval.antt =====
-- apps/agents/billing_entitlement/rules_engine.py: when a refund is approved, and how much of it.
use mathlib.Core.Path.{subst}
use decentralized_agentic_re.Prelude.{
  ℕ, ◌≡◌, refl, sym, ◌∙◌, Bool, true, false, not, ◌&&◌, Option, none, some, is_empty, arith,
  if◌then◌else◌,
}
use decentralized_agentic_re.Prelude.Int.{
  ℤ, pos, ◌-ℤ◌, ◌≤ℤ◌, ◌<ℤ◌, ltb_ℤ, leb_ℤ, pos_part, neg_part, -ℤ_parts, eq_of_parts,
}
use decentralized_agentic_re.Billing.Facts.{
  Recommendation, approve_full_refund, request_more_information, manual_review, Invoice, Payment,
  BillingFacts, EligibilityRecommendation,
}
use decentralized_agentic_re.Billing.Rules.{
  Format, days_between, is_heavy, contradictions, answer, ask_for_facts, is_partly_reversed,
}
use decentralized_agentic_re.Billing.Rules.Evaluate.{
  is_within, is_fully_reversed, is_delivered, evaluate, evaluate_found, evaluate_facts,
  contradictory, expired, unpaid, uncaptured, reversed, heavy, approved, unresolved, denied,
}

abbrev pub is_approval : Recommendation → Bool
is_approval approve_full_refund = true
is_approval _ = false

-- The recommendations that settle nothing.
abbrev pub is_open_question : Recommendation → Bool
is_open_question request_more_information = true
is_open_question manual_review = true
is_open_question _ = false

-- Every gate lets the facts pass.
abbrev pub passes : Format → ℕ → BillingFacts → Invoice → Payment → Bool
passes fmt now f i p =
    is_empty (contradictions fmt f i p)
    && is_within (days_between now i.issued_at)
    && i.paid
    && p.captured
    && not (is_fully_reversed p)
    && not (is_heavy f.usage)
    && not (is_delivered f.entitlement)

abbrev pub both_pass : Format → ℕ → BillingFacts → Option Invoice → Option Payment → Bool
both_pass fmt now f (some i) (some p) = passes fmt now f i p
both_pass fmt now f _ _ = false

facts-approval :
    (fmt : Format) (now : ℕ) (f : BillingFacts) (i : Invoice) (p : Payment)
    → is_approval (evaluate_facts fmt f i p (days_between now i.issued_at)).recommendation
      ≡ passes fmt now f i p
unfolding evaluate_facts answer contradictory expired unpaid uncaptured reversed heavy approved
    unresolved denied
facts-approval fmt now f i p = ground arith

found-approval :
    (fmt : Format) (now : ℕ) (f : BillingFacts) (i : Option Invoice) (p : Option Payment)
    → is_approval (evaluate_found fmt now f i p).recommendation ≡ both_pass fmt now f i p
unfolding evaluate_found ask_for_facts
found-approval fmt now f none none = refl
found-approval fmt now f none (some p) = refl
found-approval fmt now f (some i) none = refl
found-approval fmt now f (some i) (some p) = facts-approval fmt now f i p

-- A full refund is recommended exactly when the invoice and the payment are there, nothing contradicts,
-- the invoice is within the window and paid, the payment is captured and not fully reversed, the usage
-- is not heavy, and the product is not delivered.
pub evaluate-approves :
    (fmt : Format) (now : ℕ) (f : BillingFacts)
    → is_approval (evaluate fmt now f).recommendation ≡ both_pass fmt now f f.invoice f.payment
unfolding evaluate
evaluate-approves fmt now f = found-approval fmt now f f.invoice f.payment

facts-IsSettled :
    (fmt : Format) (f : BillingFacts) (i : Invoice) (p : Payment) (days : ℤ)
    → let r = evaluate_facts fmt f i p days in
      (r.requires_human_review ≡ is_open_question r.recommendation)
      × (r.eligible_refund_amount
          ≡ (if is_approval r.recommendation then p.amount -ℤ p.reversed_amount else pos 0))
      × (pos 200000000 ≤ℤ r.confidence)
      × (r.confidence ≤ℤ pos 900000000)
unfolding evaluate_facts answer contradictory expired unpaid uncaptured reversed heavy approved
    unresolved denied
facts-IsSettled fmt f i p days = ground arith

-- The difference of the payment and what was reversed of it, where there is a payment.
abbrev pub refundable : Option Payment → ℤ
refundable none = pos 0
refundable (some p) = p.amount -ℤ p.reversed_amount

-- What a recommendation promises besides its evidence.
abbrev pub IsSettled : Option Payment → EligibilityRecommendation → Type 0
IsSettled p r =
    (r.requires_human_review ≡ is_open_question r.recommendation)
    × (r.eligible_refund_amount ≡ (if is_approval r.recommendation then refundable p else pos 0))
    × (pos 200000000 ≤ℤ r.confidence)
    × (r.confidence ≤ℤ pos 900000000)

found-IsSettled :
    (fmt : Format) (now : ℕ) (f : BillingFacts) (i : Option Invoice) (p : Option Payment)
    → IsSettled p (evaluate_found fmt now f i p)
unfolding evaluate_found ask_for_facts
found-IsSettled fmt now f none none = ground arith
found-IsSettled fmt now f none (some p) = ground arith
found-IsSettled fmt now f (some i) none = ground arith
found-IsSettled fmt now f (some i) (some p) =
    facts-IsSettled fmt f i p (days_between now i.issued_at)

-- Every recommendation has a confidence between 0.2 and 0.9, asks for a human review exactly when it
-- asks for more information or for a manual review, and offers the payment less what was reversed if
-- it approves a full refund, and else nothing.
pub evaluate-IsSettled :
    (fmt : Format) (now : ℕ) (f : BillingFacts) → IsSettled f.payment (evaluate fmt now f)
unfolding evaluate
evaluate-IsSettled fmt now f = found-IsSettled fmt now f f.invoice f.payment

no_reversal :
    (a r : ℤ)
    → (ltb_ℤ (pos 0) r && ltb_ℤ r a) ≡ false
    → (leb_ℤ a r && ltb_ℤ (pos 0) a) ≡ false
    → pos 0 <ℤ a
    → pos 0 ≤ℤ r
    → pos_part r ≡ neg_part r
no_reversal a r part whole positive sane = ground arith

not_partly :
    (fmt : Format) (f : BillingFacts) (i : Invoice) (p : Payment)
    → i.paid ≡ true
    → is_empty (contradictions fmt f i p) ≡ true
    → (ltb_ℤ (pos 0) p.reversed_amount && ltb_ℤ p.reversed_amount p.amount) ≡ false
unfolding contradictions is_partly_reversed
not_partly fmt f i p paid quiet = ground arith

whole_amount : (a r : ℤ) → pos_part r ≡ neg_part r → a -ℤ r ≡ a
whole_amount a r h = eq_of_parts (a -ℤ r) a (omega (arith, -ℤ_parts a r, h))

offered :
    (fmt : Format) (now : ℕ) (f : BillingFacts) (i : Option Invoice) (o : Option Payment)
    (p : Payment)
    → o ≡ some p
    → both_pass fmt now f i o ≡ true
    → pos 0 <ℤ p.amount
    → pos 0 ≤ℤ p.reversed_amount
    → refundable o ≡ p.amount
offered fmt now f none o p e both positive sane = ground arith
offered fmt now f (some i) none p e both positive sane = cc
offered fmt now f (some i) (some q) p e both positive sane =
    let same : q ≡ p = cc in
    subst (λ z. refundable (some q) ≡ z.amount) same
      (whole_amount q.amount q.reversed_amount (
        no_reversal q.amount q.reversed_amount
          (not_partly fmt f i q (ground (arith, both)) (ground (arith, both)))
          (ground (arith, both)) (subst (λ z. pos 0 <ℤ z.amount) (sym same) positive)
          (subst (λ z. pos 0 ≤ℤ z.reversed_amount) (sym same) sane)))

approved_amount : {b : Bool} {x a : ℤ} → b ≡ true → x ≡ (if b then a else pos 0) → x ≡ a
approved_amount h e = e ∙ rw h refl

-- An approval of a payment with a positive amount, of which nothing negative was reversed, offers the
-- whole amount of the payment: a partial reversal is never approved.
pub evaluate_refunds_whole :
    (fmt : Format) (now : ℕ) (f : BillingFacts) (p : Payment)
    → f.payment ≡ some p
    → pos 0 <ℤ p.amount
    → pos 0 ≤ℤ p.reversed_amount
    → is_approval (evaluate fmt now f).recommendation ≡ true
    → (evaluate fmt now f).eligible_refund_amount ≡ p.amount
evaluate_refunds_whole fmt now f p e positive sane granted =
    let both : both_pass fmt now f f.invoice f.payment ≡ true =
      sym (evaluate-approves fmt now f) ∙ granted in
    approved_amount granted (evaluate-IsSettled fmt now f).1
    ∙ offered fmt now f f.invoice f.payment p e both positive sane
