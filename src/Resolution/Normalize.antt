-- ===== src/Resolution/Normalize.antt =====
-- apps/agents/customer_resolution/event_handlers.py: `normalize_billing_result` and
-- `normalize_risk_result`, from the dict of a task result to a finding. The conversions of Python and of
-- the payload library from a dynamic value to a number or a text are parameters.
use decentralized_agentic_re.Prelude.{
  String, Bool, false, Option, none, some, [], ◌∷◌, str_eq, if◌then◌else◌,
}
use decentralized_agentic_re.Prelude.Int.{ℤ, pos}
use decentralized_agentic_re.Prelude.Dict.{Uuid}
use decentralized_agentic_re.Prelude.Text.{lower, one_of}
use decentralized_agentic_re.Prelude.Exec.{Result, ok, err, value_error}
use decentralized_agentic_re.Contracts.{Json, null, bool, num, text, truthy, Fields, end, field}
use decentralized_agentic_re.Resolution.Models.{
  BillingFinding, RiskFinding, Eligibility, eligible, partial, ineligible, indeterminate, Level,
  low, elevated, high,
}
use decentralized_agentic_re.Resolution.Handlers.{
  eligibility_of, risk_level_from_score, uncertainty_from_confidence,
}

pub record Coercions : Type 0 where
  -- A field of type `float | None`, `float(value)`, and `str(value)`.
  pub float_field : Json → Result (Option ℤ)
  pub float_of : Json → Result ℤ
  pub str_of : Json → String

-- `data.get(key)`
unfoldable pub field_of : String → Fields → Option Json
field_of k end = none
field_of k (field j v fs) = if str_eq j k then some v else field_of k fs

-- `data.get(key, default)`
get_or : Json → Option Json → Json
get_or default none = default
get_or default (some v) = v

-- A field of type `str`.
text_field : Json → Result String
text_field (text s) = ok s
text_field _ = err value_error

-- `value.lower()` of a dynamic value.
lowered : Json → Result String
lowered (text s) = ok (lower s)
lowered _ = err value_error

infixl 10 ◌then_◌
abbrev ◌then_◌ : {A B : Type 0} → Result A → (A → Result B) → Result B
ok a then_ f = f a
err e then_ f = err e

-- `try: ... except Exception: return None`
caught : {A : Type 0} → Result (Option A) → Option A
caught (ok o) = o
caught (err e) = none

module _ (co : Coercions) (task : Uuid) (performer : String) (data_ : Fields) where
  needs_review : Bool
  unfolding field_of get_or truthy
  needs_review = truthy (get_or (bool false) (field_of "requires_human_review" data_))

  confidence : Json
  unfolding field_of get_or
  confidence = get_or null (field_of "confidence" data_)

  summary : Result String
  unfolding field_of get_or text_field
  summary = text_field (get_or (text "") (field_of "reasoning_summary" data_))

  canonical_billing : Json → Result (Option BillingFinding)
  unfolding lowered needs_review confidence summary
  canonical_billing rec = lowered rec then_ λ r. co.float_field confidence then_ λ c.
      summary then_ λ s. ok (
        some (record {
          eligibility = eligibility_of r;
          requires_human_review = needs_review;
          confidence = c;
          summary = s;
          performer_agent_id = performer;
          task_id = some task;
        }))

  stub_billing : Eligibility → BillingFinding
  stub_billing e = record {
    eligibility = e;
    requires_human_review = false;
    confidence = none;
    summary = "";
    performer_agent_id = performer;
    task_id = some task;
  }

  -- The `eligible` of the demo stub, as one of the four words or as `true`.
  word_eligibility : String → Eligibility
  word_eligibility w =
      if str_eq w "eligible"
      then eligible
      else if str_eq w "partial"
      then partial
      else if str_eq w "ineligible"
      then ineligible
      else if str_eq w "indeterminate"
      then indeterminate
      else if str_eq (lower w) "true"
      then eligible
      else ineligible

  stub_eligibility : Json → Option Eligibility
  unfolding word_eligibility
  stub_eligibility (bool b) = some (if b then eligible else ineligible)
  stub_eligibility (text w) = some (word_eligibility w)
  stub_eligibility _ = none

  stubbed_billing : Option Eligibility → Option BillingFinding
  unfolding stub_billing
  stubbed_billing none = none
  stubbed_billing (some e) = some (stub_billing e)

  billing_by : Option Json → Option Json → Option BillingFinding
  unfolding canonical_billing caught stub_eligibility stubbed_billing
  billing_by (some rec) _ = caught (canonical_billing rec)
  billing_by none (some e) = stubbed_billing (stub_eligibility e)
  billing_by none none = none

  unfoldable pub normalize_billing_result : Option BillingFinding
  unfolding billing_by field_of
  normalize_billing_result =
      billing_by (field_of "recommendation" data_) (field_of "eligible" data_)

  -- `float(data.get("score", data.get("confidence", 0.0)))`, read where no word gives the level.
  scored_level : Result Level
  unfolding field_of get_or confidence
  scored_level =
      co.float_of
        (get_or (get_or (num (pos 0)) (field_of "confidence" data_)) (field_of "score" data_))
      then_ λ score. ok (risk_level_from_score score (pos 500000000) (pos 800000000))

  recommended_level : String → Result Level
  unfolding scored_level
  recommended_level rec =
      if one_of rec ("low" ∷ "approve" ∷ "acceptable" ∷ [])
      then ok low
      else if str_eq rec "elevated"
      then ok elevated
      else if one_of rec ("high" ∷ "deny" ∷ "block" ∷ [])
      then ok high
      else scored_level

  -- `_uncertainty_from_confidence(data.get("confidence"))`
  uncertainty : Json → Result (Option ℤ)
  uncertainty null = ok none
  uncertainty v = co.float_of v then_ λ c. ok (uncertainty_from_confidence (some c))

  canonical_risk : Json → Result (Option RiskFinding)
  unfolding lowered recommended_level uncertainty needs_review confidence summary
  canonical_risk rec = lowered rec then_ λ r. recommended_level r then_ λ level.
      uncertainty confidence then_ λ score. summary then_ λ s. ok (
        some (record {
          level = level;
          requires_human_review = needs_review;
          score = score;
          summary = s;
          performer_agent_id = performer;
          task_id = some task;
        }))

  stub_level : String → Level
  stub_level w = if str_eq w "elevated" then elevated else if str_eq w "high" then high else low

  stub_risk : Json → Result (Option RiskFinding)
  unfolding stub_level field_of get_or
  stub_risk risk = co.float_field (get_or null (field_of "score" data_)) then_ λ score. ok (
      some (record {
        level = stub_level (lower (co.str_of risk));
        requires_human_review = false;
        score = score;
        summary = "";
        performer_agent_id = performer;
        task_id = some task;
      }))

  risk_by : Option Json → Option Json → Option RiskFinding
  unfolding canonical_risk stub_risk caught
  risk_by (some rec) _ = caught (canonical_risk rec)
  risk_by none (some risk) = caught (stub_risk risk)
  risk_by none none = none

  unfoldable pub normalize_risk_result : Option RiskFinding
  unfolding risk_by field_of
  normalize_risk_result = risk_by (field_of "recommendation" data_) (field_of "risk" data_)
