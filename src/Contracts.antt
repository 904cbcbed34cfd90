-- ===== src/Contracts.antt =====
-- The event payloads of packages/contracts/events/payloads.py that the agents exchange, with the
-- validators that run when one is built. The payload of `evidence` is any JSON value.
use decentralized_agentic_re.Prelude.{
  String, Bool, true, false, not, Option, none, some, List, is_none, is_empty, ◌||◌, if◌then◌else◌,
}
use decentralized_agentic_re.Prelude.{◌&&◌, str_eq, ℕ, zero, suc, ◌*◌, ◌-◌, [], ◌∷◌}
use decentralized_agentic_re.Prelude.Int.{ℤ, pos, negsuc}
use decentralized_agentic_re.Prelude.Dict.{Uuid}
use decentralized_agentic_re.Prelude.Exec.{Result, ok, err, value_error}
use decentralized_agentic_re.Prelude.Text.{is_blank, one_of}

-- Values of a dynamic field (`Any`, `dict`).
mutual
  pub data Json : Type 0 where
    null : Json
    bool : Bool → Json
    num : ℤ → Json
    text : String → Json
    arr : Items → Json
    obj : Fields → Json

  pub data Items : Type 0 where
    nil : Items
    cons : Json → Items → Items

  pub data Fields : Type 0 where
    end : Fields
    field : String → Json → Fields → Fields

abbrev pub fields : List (String × Json) → Fields
fields [] = end
fields ((k, v) ∷ kvs) = field k v (fields kvs)

scaled : ℤ → ℤ
scaled (pos n) = pos (n * 1000000000)
scaled (negsuc n) = negsuc (suc n * 1000000000 - 1)

-- A dict literal; an int in a dynamic field, which holds billionths.
abbrev pub object : List (String × Json) → Json
object kvs = obj (fields kvs)

unfoldable pub int : ℤ → Json
unfolding scaled
int n = num (scaled n)

-- `bool(value)`
unfoldable pub truthy : Json → Bool
truthy null = false
truthy (bool b) = b
truthy (num (pos zero)) = false
truthy (num (pos (suc n))) = true
truthy (num (negsuc n)) = true
truthy (text s) = not (str_eq s "")
truthy (arr nil) = false
truthy (arr (cons x xs)) = true
truthy (obj end) = false
truthy (obj (field k v fs)) = true

pub record EvidenceItem : Type 0 where
  pub source : String
  pub description : String
  pub value : Json

-- `[e.model_dump() for e in evidence]`
unfoldable pub dump_evidence : List EvidenceItem → Items
dump_evidence [] = nil
dump_evidence (e ∷ es) =
    cons
      (object
        (("source", text e.source) ∷ ("description", text e.description) ∷ ("value", e.value) ∷ []))
      (dump_evidence es)

-- A list of texts in a dynamic field.
unfoldable pub texts : List String → Items
texts [] = nil
texts (t ∷ ts) = cons (text t) (texts ts)

-- The amounts are whole cents.
pub record SupportTicketCreatedPayload : Type 0 where
  pub ticket_id : String
  pub customer_id : String
  pub amount : ℤ
  pub currency : String
  pub reason : String
  pub created_at : ℕ

pub data ResolutionOutcome : Type 0 where
  approve_refund : ResolutionOutcome
  deny_refund : ResolutionOutcome
  escalate_human : ResolutionOutcome
  direct_response : ResolutionOutcome
  offer_partial_credit : ResolutionOutcome
  request_more_information : ResolutionOutcome

abbrev pub is_escalation : ResolutionOutcome → Bool
is_escalation escalate_human = true
is_escalation _ = false

pub record CustomerResponseDecisionPayload : Type 0 where
  pub case_id : Uuid
  pub ticket_id : String
  pub customer_id : String
  pub outcome : ResolutionOutcome
  pub customer_response : String
  pub escalation_reason : Option String
  pub billing_summary : Option String
  pub risk_summary : Option String
  pub rationale : String

-- `not p.escalation_reason`: absent or empty.
abbrev pub is_missing : Option String → Bool
is_missing none = true
is_missing (some s) = str_eq s ""

unfoldable pub validate_escalation_reason :
    CustomerResponseDecisionPayload → Result CustomerResponseDecisionPayload
validate_escalation_reason p =
    if is_escalation p.outcome && is_missing p.escalation_reason then err value_error else ok p

pub record CustomerIssueClassifiedPayload : Type 0 where
  pub case_id : Uuid
  pub ticket_id : String
  pub customer_id : String
  pub issue_type : String
  pub confidence : ℤ
  pub requires_billing_review : Bool
  pub requires_risk_review : Bool
  pub requires_human_review : Bool
  pub reasoning_summary : String

pub record CustomerResponseDraftedPayload : Type 0 where
  pub case_id : Uuid
  pub ticket_id : String
  pub customer_id : String
  pub decision_event_id : Uuid
  pub outcome : ResolutionOutcome
  pub draft_response : String
  pub requires_human_approval : Bool
  pub drafted_at : ℕ

unfoldable pub validate_draft_payload :
    CustomerResponseDraftedPayload → Result CustomerResponseDraftedPayload
validate_draft_payload p =
    if is_blank p.draft_response
    then err value_error
    else if is_escalation p.outcome && not p.requires_human_approval
    then err value_error
    else ok p

pub record BillingRefundAnalysisCompletedPayload : Type 0 where
  pub ticket_id : String
  pub recommendation : String
  pub confidence : ℤ
  pub evidence : List EvidenceItem
  pub reasoning_summary : String
  pub requires_human_review : Bool
  pub case_id : Uuid
  pub customer_id : String
  pub billing_account_id : Option String
  pub subscription_status : String
  pub invoice_status : String
  pub payment_status : String
  pub entitlement_status : String
  pub usage_level : String
  pub refund_window_status : String
  pub eligible_refund_amount : ℤ
  pub enriched_reasoning_summary : Option String
  pub evidence_explanation : Option String

pub record RiskReviewCompletedPayload : Type 0 where
  pub ticket_id : String
  pub recommendation : String
  pub confidence : ℤ
  pub evidence : List EvidenceItem
  pub reasoning_summary : String
  pub requires_human_review : Bool
  pub enriched_reasoning_summary : Option String
  pub evidence_explanation : Option String

pub record RefundReviewRequestedPayload : Type 0 where
  pub case_id : Uuid
  pub ticket_id : String
  pub customer_id : String
  pub requested_reviews : List String
  pub billing_task_id : Uuid
  pub risk_task_id : Uuid
  pub timeout_seconds : Option ℕ
  pub requested_at : ℕ

abbrev pub has_repeat : List String → Bool
has_repeat [] = false
has_repeat (x ∷ xs) = one_of x xs || has_repeat xs

-- The list is not empty and names no review twice.
unfoldable pub validate_reviews : RefundReviewRequestedPayload → Result RefundReviewRequestedPayload
validate_reviews p =
    if is_empty p.requested_reviews
    then err value_error
    else if has_repeat p.requested_reviews
    then err value_error
    else ok p

-- `AuditPayload` of src/agent_foundation/payloads/sample.py, with the event id of the original
-- envelope.
pub record AuditPayload : Type 0 where
  pub original : Uuid
  pub outcome : String
  pub reason : Option String
  pub task_id : Option Uuid
  pub recorded_at : ℕ

unfoldable pub validate_reason_required : AuditPayload → Result AuditPayload
validate_reason_required a =
    if one_of a.outcome ("rejected" ∷ "failed" ∷ []) && is_none a.reason
    then err value_error
    else ok a
