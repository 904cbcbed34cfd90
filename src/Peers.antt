-- ===== src/Peers.antt =====
-- apps/agents/risk_fraud/service.py, apps/agents/billing_entitlement/service.py and
-- apps/agents/customer_resolution: the results of the peers at the agent that decides.
mod Tests
use decentralized_agentic_re.Prelude.{
  ℕ, String, ◌≡◌, refl, sym, ap, ◌∙◌, Bool, true, false, ◌||◌, ◌&&◌, arith, Option, none, some,
  List, inl, inr, ◌⊎◌, str_eq, Bool-cases, if◌then◌else◌,
}
use decentralized_agentic_re.Prelude.Dict.{Uuid}
use decentralized_agentic_re.Prelude.Int.{ℤ}
use decentralized_agentic_re.Prelude.Text.{lower, one_of}
use decentralized_agentic_re.Prelude.Exec.{Result, ok, err}
use decentralized_agentic_re.Contracts.{ResolutionOutcome, escalate_human}
use decentralized_agentic_re.Runtime.Messages.{A2aPart}
use decentralized_agentic_re.Resolution.Models.{
  Triage, BillingFinding, RiskFinding, TimeoutStatus, Eligibility, eligible, partial, ineligible,
  indeterminate, Level,
}
use decentralized_agentic_re.Resolution.Decision.{decide}
use decentralized_agentic_re.Resolution.Decision.Payload.{verdict}
use decentralized_agentic_re.Resolution.Decision.Rows.{
  Row, direct, timed_out, awaited, absent, failed, asked, unsure, settled,
}
use decentralized_agentic_re.Resolution.Decision.Table.{decide_iff, some_row}
use decentralized_agentic_re.Resolution.Handlers.{
  risk_finding, billing_finding, level_of, eligibility_of, is_ineligible,
}
use decentralized_agentic_re.Risk.Signals.{
  RiskLevel, low, elevated, high, RiskAssessment, RiskAssessmentRequest,
}
use decentralized_agentic_re.Risk.Service.{
  Service, RiskNarrative, validate_input, level_value, load_signals, assess_loaded,
  missing_data_assessment, assess, to_result_payload,
}
use decentralized_agentic_re.Billing.Facts.{
  Recommendation, approve_full_refund, approve_partial_refund, deny_refund,
  request_more_information, manual_review, BillingFacts, EligibilityRecommendation,
}
use decentralized_agentic_re.Billing.Service.{
  BillingNarrative, RefundEligibilityRequest, recommendation_value, build_result_payload,
}

-- How a level and a recommendation are to be read.
abbrev pub same_level : RiskLevel → Level
same_level low = Level.low
same_level elevated = Level.elevated
same_level high = Level.high

abbrev pub same_eligibility : Recommendation → String → Eligibility
same_eligibility approve_full_refund usage = eligible
same_eligibility approve_partial_refund usage = partial
same_eligibility deny_refund usage = if str_eq usage "heavy" then partial else ineligible
same_eligibility request_more_information usage = indeterminate
same_eligibility manual_review usage = indeterminate

level_read : (l : RiskLevel) (c : ℤ) → level_of (lower (level_value l)) c ≡ same_level l
unfolding level_of level_value lower
level_read low c = refl
level_read elevated c = refl
level_read high c = refl

eligibility_read :
    (r : Recommendation) (usage : String)
    → (if is_ineligible (eligibility_of (lower (recommendation_value r))) && str_eq usage "heavy"
        then partial
        else eligibility_of (lower (recommendation_value r)))
      ≡ same_eligibility r usage
unfolding eligibility_of recommendation_value lower is_ineligible
eligibility_read approve_full_refund usage = refl
eligibility_read approve_partial_refund usage = refl
eligibility_read deny_refund usage = refl
eligibility_read request_more_information usage = refl
eligibility_read manual_review usage = refl

-- What the peers send is read back as it was meant: the finding of a risk result has the assessment's
-- level and review flag, and the finding of a billing result has the recommendation's eligibility,
-- confidence and review flag, where a refund denied for a heavily used purchase counts as partial. A
-- narrative changes none of it.
pub findings_roundtrip :
    (task : Uuid) (a : RiskAssessment) (ra : RiskAssessmentRequest) (na : Option RiskNarrative)
    (rec : EligibilityRecommendation) (rb : RefundEligibilityRequest) (facts : Option BillingFacts)
    (nb : Option BillingNarrative)
    → ((risk_finding task (to_result_payload a ra na)).level ≡ same_level a.risk_level)
      × ((risk_finding task (to_result_payload a ra na)).requires_human_review
          ≡ a.requires_human_review)
      × ((billing_finding task (build_result_payload rb rec facts nb)).eligibility
          ≡ same_eligibility rec.recommendation rec.usage_level)
      × ((billing_finding task (build_result_payload rb rec facts nb)).confidence
          ≡ some rec.confidence)
      × ((billing_finding task (build_result_payload rb rec facts nb)).requires_human_review
          ≡ rec.requires_human_review)
unfolding risk_finding to_result_payload billing_finding build_result_payload
findings_roundtrip task a ra na rec rb facts nb = (
  level_read a.risk_level a.confidence,
  refl,
  eligibility_read rec.recommendation rec.usage_level,
  refl,
  refl,
)

clash : {b : Bool} → b ≡ true → ¬ (b ≡ false)
clash p q = cc

unasked :
    (x : BillingFinding) (y z : RiskFinding)
    → y.requires_human_review ≡ true
    → some y ≡ some z
    → ¬ ((x.requires_human_review || z.requires_human_review) ≡ false)
unasked x y z h e g =
    let q : y ≡ z = cc in
    let r : z.requires_human_review ≡ true = sym (ap (λ f. f.requires_human_review) q) ∙ h in
    ground (arith, g, r)

-- A verdict of the table on a finding that asks for a human.
reviewed :
    (t : Triage) (b : Option BillingFinding) (y : RiskFinding) (ts : Option TimeoutStatus)
    (o : ResolutionOutcome) (reason : Option String)
    → t.needs_refund_review ≡ true
    → y.requires_human_review ≡ true
    → Row t b (some y) ts o reason
    → o ≡ escalate_human
reviewed t b y ts o reason n h (direct m p q) = absurd (clash n m)
reviewed t b y ts o reason n h (timed_out m a d p q) = p
reviewed t b y ts o reason n h (awaited m a d p q) = p
reviewed t b y ts o reason n h (absent m a d p q) = p
reviewed t b y ts o reason n h (failed x z f v p q) = p
reviewed t b y ts o reason n h (asked x z f v g p q) = p
reviewed t b y ts o reason n h (unsure x z f v g u p q) = p
reviewed t b y ts o reason n h (settled x z f v g u s) = absurd (unasked x y z h f.risk_there g)

loaded-missing :
    (svc : Service) (r : RiskAssessmentRequest)
    → load_signals svc r.customer_id ≡ none
    → (assess_loaded svc r (load_signals svc r.customer_id)).requires_human_review ≡ true
unfolding assess_loaded missing_data_assessment
loaded-missing svc r e = rw e refl

ok_same : {A : Type 0} {x y : A} → Result.ok x ≡ Result.ok y → x ≡ y
ok_same h = cc

abbrev finish :
    Service → Result RiskAssessmentRequest → Result (RiskAssessment × RiskAssessmentRequest)
finish svc v = elim v [
  | err e ↦ err e
  | ok q ↦ ok (assess_loaded svc q (load_signals svc q.customer_id), q)
]

finished :
    (svc : Service) (v : Result RiskAssessmentRequest) (a : RiskAssessment)
    (r : RiskAssessmentRequest)
    → finish svc v ≡ ok (a, r)
    → a ≡ assess_loaded svc r (load_signals svc r.customer_id)
finished svc (err e) a r h = cc
finished svc (ok q) a r h =
    let p = ok_same h in
    let same : q ≡ r = ap (λ z. z.1) p in
    sym (ap (λ z. z.0) p) ∙ ap (λ z. assess_loaded svc z (load_signals svc z.customer_id)) same

-- Where the risk agent assesses a customer of whom it has no signals, the ticket of a refund review is
-- escalated to a human, whatever the triage's confidence, the billing finding and the deadline are, and
-- although the assessment's level is low.
pub unknown_customer_escalates :
    (svc : Service) (parts : List A2aPart) (a : RiskAssessment) (r : RiskAssessmentRequest)
    (n : Option RiskNarrative) (task cid : Uuid) (ticket customer : String) (t : Triage)
    (b : Option BillingFinding) (ts : Option TimeoutStatus)
    → assess svc parts ≡ ok (a, r)
    → load_signals svc r.customer_id ≡ none
    → t.needs_refund_review ≡ true
    → (reason : Option String) × (verdict
          (decide cid ticket customer t b (some (risk_finding task (to_result_payload a r n))) ts)
        ≡ some (escalate_human, reason))
unfolding assess risk_finding to_result_payload
unknown_customer_escalates svc parts a r n task cid ticket customer t b ts h e refund =
    let y = risk_finding task (to_result_payload a r n) in
    let asked_for : a.requires_human_review ≡ true =
      ap (λ z. z.requires_human_review) (finished svc (validate_input svc parts) a r h)
      ∙ loaded-missing svc r e in
    let (o, reason, row) = some_row cid ticket customer t b (some y) ts in
    let human : o ≡ escalate_human = reviewed t b y ts o reason refund asked_for row in
    (
      reason,
      (decide_iff cid ticket customer t b (some y) ts o reason).1 row
          ∙ ap (λ z. some (z, reason)) human,
    )
