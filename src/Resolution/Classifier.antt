-- ===== src/Resolution/Classifier.antt =====
-- apps/agents/customer_resolution/ticket_classifier.py: the triage of a ticket. The refund-intent
-- vocabulary is a set, which Python iterates in any order: the order is the argument `signals`. What
-- the language model answers is a parameter. A confidence is in billionths.
use decentralized_agentic_re.Prelude.{
  ◌<◌, String, ◌≡◌, refl, ◌↔◌, ◌⊎◌, inl, inr, Bool, true, false, not, ◌||◌, List, [], ◌∷◌, is_empty,
  ltb, keep_if, str_eq, Bool-cases, if◌then◌else◌,
}
use decentralized_agentic_re.Prelude.Int.{ℤ, pos, ltb_ℤ, one}
use decentralized_agentic_re.Prelude.Dict.{Uuid}
use decentralized_agentic_re.Prelude.Text.{lower, has_part, strip, text_length, join, ◌<>◌}
use decentralized_agentic_re.Contracts.{SupportTicketCreatedPayload, CustomerIssueClassifiedPayload}
use decentralized_agentic_re.Resolution.Models.{Triage}

abbrev pub refund_intent_signals : List String
refund_intent_signals =
    "refund" ∷ "refunded" ∷ "charged" ∷ "charge" ∷ "overcharge" ∷ "overcharged" ∷ "double charged"
    ∷ "double-charged" ∷ "charged twice" ∷ "dispute" ∷ "disputed" ∷ "chargeback" ∷ "money back"
    ∷ "reimburse" ∷ "reimbursement" ∷ "billing error" ∷ "wrong amount" ∷ "cancel and refund" ∷ []

pub record TicketClassification : Type 0 where
  pub issue_type : String
  pub needs_refund_review : Bool
  pub confidence : ℤ
  pub rationale : String
  pub matched_signals : List String

unfoldable pub to_triage : TicketClassification → Triage
to_triage c = record {
  needs_refund_review = c.needs_refund_review;
  ambiguous = ltb_ℤ c.confidence (pos 700000000);
  matched_signals = c.matched_signals;
  rationale = c.rationale;
  issue_type = c.issue_type;
  confidence = c.confidence;
}

-- `_looks_ambiguous`
unfoldable pub looks_ambiguous : String → Bool
looks_ambiguous reason_lower = ltb (text_length (strip reason_lower)) 5

-- The signals that occur in the text, in the order of the set.
abbrev pub matching : List String → String → List String
matching signals text = keep_if (λ signal. has_part signal text) signals

refund_triage : List String → Triage
refund_triage matched = record {
  needs_refund_review = true;
  ambiguous = false;
  matched_signals = matched;
  rationale = "Refund intent detected: " <> join ", " matched;
  issue_type = "refund_request";
  confidence = one;
}

-- The source's text has a wrongly encoded dash with a control character, for which a dash stands here.
ambiguous_triage : Triage
ambiguous_triage = record {
  needs_refund_review = true;
  ambiguous = true;
  matched_signals = [];
  rationale = "Ambiguous intent — defaulted to refund review";
  issue_type = "unknown";
  confidence = pos 500000000;
}

inquiry_triage : Triage
inquiry_triage = record {
  needs_refund_review = false;
  ambiguous = false;
  matched_signals = [];
  rationale = "No refund intent detected";
  issue_type = "general_inquiry";
  confidence = pos 900000000;
}

classify_text : List String → String → Triage
unfolding refund_triage ambiguous_triage inquiry_triage looks_ambiguous
classify_text signals reason_lower =
    let matched = matching signals reason_lower in
    if not (is_empty matched)
    then refund_triage matched
    else if str_eq reason_lower "" || looks_ambiguous reason_lower
    then ambiguous_triage
    else inquiry_triage

unfoldable pub classify : List String → SupportTicketCreatedPayload → Triage
unfolding classify_text
classify signals ticket = classify_text signals (lower ticket.reason)

-- The fallback of `classify_with_llm`, where the model is not to be had.
unfoldable pub fallback : List String → SupportTicketCreatedPayload → TicketClassification
unfolding classify
fallback signals ticket =
    let t = classify signals ticket in
    record {
      issue_type = t.issue_type;
      needs_refund_review = t.needs_refund_review;
      confidence = t.confidence;
      rationale = t.rationale;
      matched_signals = t.matched_signals;
    }

-- `classify_with_llm`, by what `assist_or_fallback` returns: a classification of the model, none, for
-- the fallback's, or a value of another type.
pub data Assisted : Type 0 where
  answered : TicketClassification → Assisted
  fell_back : Assisted
  other : Assisted

unfoldable pub classify_with_llm : List String → SupportTicketCreatedPayload → Assisted → Triage
unfolding to_triage fallback
classify_with_llm signals ticket (answered c) = to_triage c
classify_with_llm signals ticket fell_back = to_triage (fallback signals ticket)
classify_with_llm signals ticket other = classify signals ticket

unfoldable pub build_issue_classified_payload :
    SupportTicketCreatedPayload → Uuid → Triage → CustomerIssueClassifiedPayload
build_issue_classified_payload ticket correlation triage = record {
  case_id = correlation;
  ticket_id = ticket.ticket_id;
  customer_id = ticket.customer_id;
  issue_type = triage.issue_type;
  confidence = triage.confidence;
  requires_billing_review = triage.needs_refund_review;
  requires_risk_review = triage.needs_refund_review;
  requires_human_review = triage.ambiguous;
  reasoning_summary = triage.rationale;
}

-- A signal of the set occurs in the text.
abbrev pub Mentions : List String → String → Type 0
Mentions [] text = ⊥
Mentions (s ∷ ss) text = (has_part s text ≡ true) ⊎ Mentions ss text

-- Too short a text, once it is stripped, or an empty one.
abbrev pub IsVague : String → Type 0
IsVague text = (text ≡ "") ⊎ (text_length (strip text) < 5)

vague : String → Bool
vague text = str_eq text "" || looks_ambiguous text

-- What the classifier is to say of a text.
abbrev pub Says : List String → String → Triage → Type 0
Says signals text t =
    ((t.needs_refund_review ≡ true) ↔ (Mentions signals text ⊎ IsVague text))
    × ((t.ambiguous ≡ true) ↔ ((Mentions signals text → ⊥) × IsVague text))

-- A triage as the model's record, and back.
abbrev again : Triage → Triage
again t = to_triage (record {
  issue_type = t.issue_type;
  needs_refund_review = t.needs_refund_review;
  confidence = t.confidence;
  rationale = t.rationale;
  matched_signals = t.matched_signals;
})

fallen_back :
    (signals : List String) (text : String)
    → again (classify_text signals text) ≡ classify_text signals text
unfolding to_triage classify_text
fallen_back signals text = elim (Bool-cases (is_empty (matching signals text))) [
  | inr e ↦ rw e refl
  | inl e ↦ elim (Bool-cases (str_eq text "" || looks_ambiguous text)) [
    | inl v ↦ rw (e, v) refl
    | inr v ↦ rw (e, v) refl
  ]
]

-- The fallback of `classify_with_llm` goes through the model's own record, and gives the triage that
-- the deterministic `classify` gives: its confidences lie on the side of 0.7 that its `ambiguous` says.
pub classify_with_llm-fell_back :
    (signals : List String) (ticket : SupportTicketCreatedPayload)
    → classify_with_llm signals ticket fell_back ≡ classify signals ticket
unfolding classify_with_llm classify
classify_with_llm-fell_back signals ticket = fallen_back signals (lower ticket.reason)
