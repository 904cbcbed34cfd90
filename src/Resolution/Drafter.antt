-- ===== src/Resolution/Drafter.antt =====
-- apps/agents/customer_resolution/response_drafter.py: the customer-facing templates and the guard
-- that no internal field name leaks into them.
pub mod Structured
use decentralized_agentic_re.Prelude.{String, false, ◌≡◌, refl, List, [], ◌∷◌, if◌then◌else◌}
use decentralized_agentic_re.Prelude.Exec.{Result, ok, err, value_error}
use decentralized_agentic_re.Prelude.Text.{lower, has_part, is_blank}
use decentralized_agentic_re.Contracts.{
  ResolutionOutcome, approve_refund, deny_refund, escalate_human, direct_response,
  offer_partial_credit, request_more_information,
}

abbrev pub internal_only_draft_fields : List String
internal_only_draft_fields =
    "rationale" ∷ "escalation_reason" ∷ "billing_summary" ∷ "risk_summary" ∷ []

abbrev pub fraud_scoring_fields : List String
fraud_scoring_fields = "score" ∷ "confidence" ∷ "risk_level" ∷ "evidence" ∷ "reasoning_summary" ∷ []

unfoldable pub template : ResolutionOutcome → String
template approve_refund =
    "We have reviewed your request and are pleased to approve your refund. Please allow 3-5 business days for the amount to appear in your account."
template deny_refund =
    "We have reviewed your request. Based on our review, we are unable to process a refund at this time. If you have further questions, please contact our support team."
template escalate_human =
    "Thank you for contacting us. Your case has been forwarded to a specialist who will review your request and reach out to you shortly."
template direct_response =
    "Thank you for reaching out. Our team is happy to assist you. Please let us know if you need any further information."
template offer_partial_credit =
    "We have reviewed your request. We are able to offer a partial credit to your account as a resolution. A specialist will reach out with details."
template request_more_information =
    "Thank you for contacting us. To better assist you, we need some additional information. A support specialist will be in touch shortly."

assert_no_leak : List String → String → Result (Unit {0})
assert_no_leak [] text = ok tt
assert_no_leak (field ∷ fields) text =
    if has_part field (lower text) then err value_error else assert_no_leak fields text

-- `_assert_no_internal_leak`
unfoldable pub assert_no_internal_leak : String → Result (Unit {0})
unfolding assert_no_leak
assert_no_internal_leak text = elim (assert_no_leak internal_only_draft_fields text) [
  | ok _ ↦ assert_no_leak fraud_scoring_fields text
  | err e ↦ err e
]

guarded : Result (Unit {0}) → String → Result String
guarded (ok _) text = ok text
guarded (err e) text = err e

unfoldable pub draft_customer_response : ResolutionOutcome → Result String
unfolding template assert_no_internal_leak guarded
draft_customer_response outcome =
    guarded (assert_no_internal_leak (template outcome)) (template outcome)

-- The leak guard passes on the template of every outcome, so drafting a response never raises and
-- returns that template, which is not blank.
pub draft-eq-template :
    (o : ResolutionOutcome)
    → (draft_customer_response o ≡ ok (template o)) × (is_blank (template o) ≡ false)
unfolding draft_customer_response lower is_blank
draft-eq-template approve_refund = (refl, refl)
draft-eq-template deny_refund = (refl, refl)
draft-eq-template escalate_human = (refl, refl)
draft-eq-template direct_response = (refl, refl)
draft-eq-template offer_partial_credit = (refl, refl)
draft-eq-template request_more_information = (refl, refl)
