-- ===== src/Resolution/Decision/Payload.antt =====
-- What `decide` builds: the payload of a decision, and the payload of the draft that follows it.
use decentralized_agentic_re.Prelude.Text.{text_or, ◌<>◌}
use decentralized_agentic_re.Resolution.Decision.{eligibility_text, level_text}
use decentralized_agentic_re.Prelude.{not, ◌||◌}
use decentralized_agentic_re.Prelude.Exec.{value_error}
use decentralized_agentic_re.Prelude.{
  String, ◌≡◌, refl, Bool, true, false, ◌&&◌, Option, none, some, arith, if◌then◌else◌,
}
use decentralized_agentic_re.Prelude.Int.{ltb_ℤ}
use decentralized_agentic_re.Prelude.Dict.{Uuid}
use decentralized_agentic_re.Prelude.Exec.{Result, ok, err}
use decentralized_agentic_re.Contracts.{
  ResolutionOutcome, CustomerResponseDecisionPayload, is_escalation, is_missing,
  validate_escalation_reason, CustomerResponseDraftedPayload, validate_draft_payload,
}
use decentralized_agentic_re.Resolution.Models.{
  Triage, BillingFinding, RiskFinding, TimeoutStatus, Eligibility, eligible, partial, ineligible,
  indeterminate, Level, low, elevated, high, billing_failed, risk_failed,
}
use decentralized_agentic_re.Resolution.Drafter.{template, draft-eq-template}
use decentralized_agentic_re.Resolution.Decision.{
  confidence_threshold, compute_confidence, respond, any_missing, deadline_exceeded, decide,
  decide_findings, decide_present, decide_reviews, requires_human_approval,
}

-- The outcome and the escalation reason of a decision; nothing, if an exception was raised.
abbrev pub verdict :
    Result CustomerResponseDecisionPayload → Option (ResolutionOutcome × Option String)
verdict (ok p) = some (p.outcome, p.escalation_reason)
verdict (err e) = none

-- The case ids of the payload, the outcome's template, and a reason where there must be one.
abbrev pub IsIssued : Uuid → String → String → Result CustomerResponseDecisionPayload → Type 0
IsIssued cid ticket customer (ok p) =
    (p.case_id ≡ cid)
    × (p.ticket_id ≡ ticket)
    × (p.customer_id ≡ customer)
    × (p.customer_response ≡ template p.outcome)
    × ((is_escalation p.outcome && is_missing p.escalation_reason) ≡ false)
IsIssued cid ticket customer (err e) = ⊥

-- Building a decision raises exactly on an escalation with no reason; else it carries the template.
pub respond_lem :
    (cid : Uuid) (ticket customer : String) (o : ResolutionOutcome) (reason bs rs : Option String)
    (why : String)
    → respond cid ticket customer o reason bs rs why ≡ (
        if is_escalation o && is_missing reason
        then err value_error
        else ok (record {
          case_id = cid;
          ticket_id = ticket;
          customer_id = customer;
          outcome = o;
          customer_response = template o;
          escalation_reason = reason;
          billing_summary = bs;
          risk_summary = rs;
          rationale = why;
        }))
unfolding respond validate_escalation_reason
respond_lem cid ticket customer o reason bs rs why = ground (arith, (draft-eq-template o).0)

pub verdict-respond :
    (cid : Uuid) (ticket customer : String) (o : ResolutionOutcome) (reason bs rs : Option String)
    (why : String)
    → verdict (respond cid ticket customer o reason bs rs why)
      ≡ (if is_escalation o && is_missing reason then none else some (o, reason))
verdict-respond cid ticket customer o reason bs rs why = rw respond_lem (ground arith)

module _ (cid : Uuid) (ticket customer : String) where
  respond-IsIssued :
      (o : ResolutionOutcome) (reason bs rs : Option String) (why : String)
      → (is_escalation o && is_missing reason) ≡ false
      → IsIssued cid ticket customer (respond cid ticket customer o reason bs rs why)
  respond-IsIssued o reason bs rs why valid =
      rw respond_lem (rw valid (refl, refl, refl, refl, valid))

  abbrev Issues :
      (ResolutionOutcome → Option String → String → Result CustomerResponseDecisionPayload) → Type 0
  Issues out =
      (o : ResolutionOutcome) (reason : Option String) (why : String)
      → (is_escalation o && is_missing reason) ≡ false
      → IsIssued cid ticket customer (out o reason why)

  findings-IsIssued :
      (out : ResolutionOutcome → Option String → String → Result CustomerResponseDecisionPayload)
      → Issues out
      → (e : Eligibility) (l : Level) → IsIssued cid ticket customer (decide_findings out e l)
  unfolding decide_findings
  findings-IsIssued out h eligible low = h _ _ _ refl
  findings-IsIssued out h eligible elevated = h _ _ _ refl
  findings-IsIssued out h eligible high = h _ _ _ refl
  findings-IsIssued out h partial low = h _ _ _ refl
  findings-IsIssued out h partial elevated = h _ _ _ refl
  findings-IsIssued out h partial high = h _ _ _ refl
  findings-IsIssued out h ineligible low = h _ _ _ refl
  findings-IsIssued out h ineligible elevated = h _ _ _ refl
  findings-IsIssued out h ineligible high = h _ _ _ refl
  findings-IsIssued out h indeterminate low = h _ _ _ refl
  findings-IsIssued out h indeterminate elevated = h _ _ _ refl
  findings-IsIssued out h indeterminate high = h _ _ _ refl

  if-IsIssued :
      (c : Bool) (x y : Result CustomerResponseDecisionPayload)
      → IsIssued cid ticket customer x
      → IsIssued cid ticket customer y
      → IsIssued cid ticket customer (if c then x else y)
  if-IsIssued true x y hx hy = hx
  if-IsIssued false x y hx hy = hy

  present-IsIssued :
      (t : Triage) (b : BillingFinding) (r : RiskFinding)
      → IsIssued cid ticket customer (decide_present cid ticket customer t b r)
  unfolding decide_present
  present-IsIssued t b r =
      if-IsIssued (billing_failed b || risk_failed r) _ _ (respond-IsIssued _ _ _ _ _ refl) (
        if-IsIssued (b.requires_human_review || r.requires_human_review) _ _
          (respond-IsIssued _ _ _ _ _ refl)
          (if-IsIssued (ltb_ℤ (compute_confidence (some t) (some b) (some r)) confidence_threshold)
            _ _ (respond-IsIssued _ _ _ _ _ refl)
            (findings-IsIssued _
              (λ o reason why.
                respond-IsIssued o reason
                  (some (text_or b.summary ("eligibility=" <> eligibility_text b.eligibility)))
                  (some (text_or r.summary ("level=" <> level_text r.level))) why)
              b.eligibility r.level)))

  reviews-IsIssued :
      (t : Triage) (b : Option BillingFinding) (r : Option RiskFinding)
      → IsIssued cid ticket customer (decide_reviews cid ticket customer t b r)
  unfolding decide_reviews
  reviews-IsIssued t (some b) (some r) = present-IsIssued t b r
  reviews-IsIssued t (some b) none = respond-IsIssued _ _ _ _ _ refl
  reviews-IsIssued t none r = respond-IsIssued _ _ _ _ _ refl

  timeout_reason :
      (c : Bool)
      → (true && is_missing (some (if c then "analysis_timeout" else "missing_analysis"))) ≡ false
  timeout_reason true = refl
  timeout_reason false = refl

  -- Whatever it is given, `decide` raises no exception: its payload names the case, the ticket and the
  -- customer, carries the customer-facing template of its outcome, and passes the validator, so an
  -- escalation has a reason.
  pub decide-IsIssued :
      (t : Triage) (b : Option BillingFinding) (r : Option RiskFinding) (ts : Option TimeoutStatus)
      → IsIssued cid ticket customer (decide cid ticket customer t b r ts)
  unfolding decide
  decide-IsIssued t b r ts =
      if-IsIssued (not t.needs_refund_review) _ _ (respond-IsIssued _ _ _ _ _ refl) (
        if-IsIssued (any_missing ts) _ _
          (respond-IsIssued _ _ _ _ _ (timeout_reason (deadline_exceeded ts)))
          (reviews-IsIssued t b r))

-- A draft that carries the template of its outcome and the flag of the human-approval gate passes the
-- validator of the drafted payload.
pub draft-IsValid :
    (d : CustomerResponseDraftedPayload)
    → d.draft_response ≡ template d.outcome
    → d.requires_human_approval ≡ requires_human_approval d.outcome
    → validate_draft_payload d ≡ ok d
unfolding validate_draft_payload requires_human_approval
draft-IsValid d text flag = ground (arith, (draft-eq-template d.outcome).1)
