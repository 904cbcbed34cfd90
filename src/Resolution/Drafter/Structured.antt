-- ===== src/Resolution/Drafter/Structured.antt =====
-- apps/agents/customer_resolution/response_drafter.py: the structured draft, and the draft of the
-- language model with its guard. What the model answers, and how Python prints an amount, are
-- parameters.
use decentralized_agentic_re.Prelude.{
  ℕ, suc, String, Bool, true, false, not, ◌&&◌, Option, none, some, str_eq, if◌then◌else◌,
}
use decentralized_agentic_re.Prelude.Int.{ℤ, pos, eqb_ℤ}
use decentralized_agentic_re.Prelude.Dict.{Uuid}
use decentralized_agentic_re.Prelude.Text.{is_blank, strip, ◌<>◌}
use decentralized_agentic_re.Prelude.Exec.{Result, ok, err, value_error}
use decentralized_agentic_re.Contracts.{
  ResolutionOutcome, approve_refund, deny_refund, escalate_human, direct_response,
  offer_partial_credit, request_more_information, CustomerResponseDecisionPayload,
  CustomerResponseDraftedPayload, validate_draft_payload,
}
use decentralized_agentic_re.Resolution.Models.{BillingFinding, Eligibility, eligible}
use decentralized_agentic_re.Resolution.Decision.{requires_human_approval}
use decentralized_agentic_re.Resolution.Drafter.{template, assert_no_internal_leak}

pub record ToneConfig : Type 0 where
  pub brand_name : String
  pub greeting : String
  pub signoff : String
  pub formality : String
  pub apologetic : Bool

abbrev pub default_tone : ToneConfig
default_tone = record {
  brand_name = "Support";
  greeting = "Dear Customer,";
  signoff = "Best regards,\nThe Support Team";
  formality = "friendly";
  apologetic = true;
}

-- The refund amount is in cents.
pub record AllowedFacts : Type 0 where
  pub refund_amount : Option ℤ
  pub currency : Option String
  pub order_reference : Option String
  pub billing_outcome_summary : Option String
  pub eligibility : Option Bool

pub record ResponseDraft : Type 0 where
  pub subject : String
  pub body : String
  pub response_type : String
  pub requires_human_approval : Bool

unfoldable pub validate_draft : ResponseDraft → Result ResponseDraft
validate_draft d =
    if is_blank d.subject
    then err value_error
    else if is_blank d.body
    then err value_error
    else ok d

unfoldable pub response_type : ResolutionOutcome → String
response_type approve_refund = "refund_confirmation"
response_type deny_refund = "refund_denial"
response_type escalate_human = "escalation_acknowledgement"
response_type direct_response = "direct_answer"
response_type offer_partial_credit = "partial_credit_offer"
response_type request_more_information = "information_request"

is_eligible : Eligibility → Bool
is_eligible eligible = true
is_eligible _ = false

summary_if_any : Option BillingFinding → Option String
summary_if_any none = none
summary_if_any (some b) = if str_eq b.summary "" then none else some b.summary

eligible_if_any : Option BillingFinding → Option Bool
unfolding is_eligible
eligible_if_any none = none
eligible_if_any (some b) = some (is_eligible b.eligibility)

unfoldable pub build_allowed_facts : ℤ → String → String → Option BillingFinding → AllowedFacts
unfolding summary_if_any eligible_if_any
build_allowed_facts amount currency ticket billing = record {
  refund_amount = some amount;
  currency = some currency;
  order_reference = some ticket;
  billing_outcome_summary = summary_if_any billing;
  eligibility = eligible_if_any billing;
}

-- `outcome in (APPROVE_REFUND, OFFER_PARTIAL_CREDIT)`
pays : ResolutionOutcome → Bool
pays approve_refund = true
pays offer_partial_credit = true
pays _ = false

text_of : Option String → String
text_of none = ""
text_of (some s) = s

module _ (show_amount : ℤ → String) where
  -- The template, with the amount where one is paid.
  body_of : ResolutionOutcome → AllowedFacts → Option ℤ → String
  unfolding pays text_of
  body_of outcome facts none = template outcome
  body_of outcome facts (some amount) =
      if not (eqb_ℤ amount (pos 0)) && pays outcome
      then strip
          (template outcome <> " Amount: " <> show_amount amount <> " " <> text_of facts.currency)
      else template outcome

  unfoldable pub draft_structured_response :
      ResolutionOutcome → AllowedFacts → ToneConfig → Result ResponseDraft
  unfolding body_of
  draft_structured_response outcome facts tone =
      let body = body_of outcome facts facts.refund_amount in
      elim (assert_no_internal_leak body) [
        | err e ↦ err e
        | ok _ ↦ validate_draft (record {
          subject = tone.brand_name <> ": Your support request has been reviewed";
          body = tone.greeting <> "\n\n" <> body <> "\n\n" <> tone.signoff;
          response_type = response_type outcome;
          requires_human_approval = requires_human_approval outcome;
        })
      ]

  -- What `assist_or_fallback` returns: a draft of the model, the fallback's, or a value of another type.
  pub data Assisted : Type 0 where
    answered : ResponseDraft → Assisted
    fell_back : Assisted
    other : Assisted

  for_approval : Result ResponseDraft → Result ResponseDraft
  for_approval (err e) = err e
  for_approval (ok d) = validate_draft (record d { requires_human_approval = true })

  -- A fallback for a draft that leaks is drafted anew.
  approved_fallback : ResolutionOutcome → AllowedFacts → ToneConfig → Result ResponseDraft
  unfolding for_approval
  approved_fallback outcome facts tone = for_approval (draft_structured_response outcome facts tone)

  checked :
      ResolutionOutcome
      → AllowedFacts
      → ToneConfig
      → Result ResponseDraft
      → Bool
      → Result ResponseDraft
  unfolding approved_fallback for_approval
  checked outcome facts tone (err e) by_fallback = err e
  checked outcome facts tone (ok d) by_fallback = elim (assert_no_internal_leak d.body) [
    | err e ↦ approved_fallback outcome facts tone
    | ok _ ↦ if by_fallback then for_approval (ok d) else ok d
  ]

  unfoldable pub draft_with_llm :
      ResolutionOutcome → AllowedFacts → ToneConfig → Assisted → Result ResponseDraft
  unfolding checked
  draft_with_llm outcome facts tone (answered d) = checked outcome facts tone (ok d) false
  draft_with_llm outcome facts tone fell_back =
      checked outcome facts tone (draft_structured_response outcome facts tone) true
  draft_with_llm outcome facts tone other = draft_structured_response outcome facts tone

unfoldable pub build_response_drafted_payload :
    CustomerResponseDecisionPayload → Uuid → Uuid → Bool → ℕ → Result CustomerResponseDraftedPayload
build_response_drafted_payload d correlation event approval at = validate_draft_payload (record {
  case_id = correlation;
  ticket_id = d.ticket_id;
  customer_id = d.customer_id;
  decision_event_id = event;
  outcome = d.outcome;
  draft_response = d.customer_response;
  requires_human_approval = approval;
  drafted_at = at;
})

-- `text[:n]`
unfoldable pub first : ℕ → String → String
first ℕ.zero s = ""
first (suc n) String.[] = ""
first (suc n) (String.◌∷◌ c s) = String.◌∷◌ c (first n s)

abbrev pub max_summary_length : ℕ
max_summary_length = 200

unfoldable pub minimize_summary : String → String
minimize_summary text = if str_eq text "" then "" else first max_summary_length text
