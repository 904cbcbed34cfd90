-- ===== src/Resolution/Models.antt =====
-- apps/agents/customer_resolution/models.py: the case, its lifecycle, and what the peers found.
use decentralized_agentic_re.Prelude.{
  ℕ, String, Bool, true, false, not, ◌||◌, Option, none, some, List, [], ◌∷◌, ◌++◌, ltb, member,
  is_empty, if◌then◌else◌,
}
use decentralized_agentic_re.Prelude.Int.{ℤ}
use decentralized_agentic_re.Prelude.Dict.{Uuid}
use decentralized_agentic_re.Prelude.Exec.{Result, ok, err, value_error}

pub data CaseStatus : Type 0 where
  received : CaseStatus
  classified : CaseStatus
  waiting_for_peer_reviews : CaseStatus
  ready_for_decision : CaseStatus
  decided : CaseStatus
  response_drafted : CaseStatus
  closed : CaseStatus
  escalated : CaseStatus
  failed : CaseStatus

-- `to in _ALLOWED_TRANSITIONS.get(from, frozenset())`, the table read row by row.
unfoldable pub can_transition : CaseStatus → CaseStatus → Bool
can_transition received classified = true
can_transition received ready_for_decision = true
can_transition received escalated = true
can_transition received failed = true
can_transition classified waiting_for_peer_reviews = true
can_transition classified decided = true
can_transition classified escalated = true
can_transition classified failed = true
can_transition waiting_for_peer_reviews ready_for_decision = true
can_transition waiting_for_peer_reviews escalated = true
can_transition waiting_for_peer_reviews failed = true
can_transition ready_for_decision decided = true
can_transition ready_for_decision escalated = true
can_transition ready_for_decision failed = true
can_transition decided response_drafted = true
can_transition decided escalated = true
can_transition decided failed = true
can_transition response_drafted closed = true
can_transition response_drafted escalated = true
can_transition _ _ = false

unfoldable pub assert_transition : CaseStatus → CaseStatus → Result (Unit {0})
assert_transition a b = if not (can_transition a b) then err value_error else ok tt

unfoldable pub is_terminal : CaseStatus → Bool
is_terminal closed = true
is_terminal escalated = true
is_terminal failed = true
is_terminal _ = false

-- `status == CaseStatus.DECIDED`
abbrev pub is_decided : CaseStatus → Bool
is_decided decided = true
is_decided _ = false

pub record Triage : Type 0 where
  pub needs_refund_review : Bool
  pub ambiguous : Bool
  pub matched_signals : List String
  pub rationale : String
  pub issue_type : String
  pub confidence : ℤ

pub data Eligibility : Type 0 where
  eligible : Eligibility
  partial : Eligibility
  ineligible : Eligibility
  indeterminate : Eligibility

pub record BillingFinding : Type 0 where
  pub eligibility : Eligibility
  pub requires_human_review : Bool
  pub confidence : Option ℤ
  pub summary : String
  pub performer_agent_id : String
  pub task_id : Option Uuid

-- The property `BillingFinding.failed`.
unfoldable pub billing_failed : BillingFinding → Bool
billing_failed b = false

pub data Level : Type 0 where
  low : Level
  elevated : Level
  high : Level

pub record RiskFinding : Type 0 where
  pub level : Level
  pub requires_human_review : Bool
  pub score : Option ℤ
  pub summary : String
  pub performer_agent_id : String
  pub task_id : Option Uuid

-- The property `RiskFinding.failed`.
unfoldable pub risk_failed : RiskFinding → Bool
risk_failed r = false

-- The policy knobs; no code reads them.
pub record PolicyContext : Type 0 where
  pub max_auto_refund_amount : ℤ
  pub partial_credit_fraction : ℤ

pub data Review : Type 0 where
  billing : Review
  risk : Review

pub record TimeoutStatus : Type 0 where
  pub any_missing : Bool
  pub missing_reviews : List Review
  pub deadline_exceeded : Bool

pub record ResolutionCase : Type 0 where
  pub case_id : Uuid
  pub ticket_id : String
  pub customer_id : String
  pub correlation_id : Uuid
  pub ticket_amount : ℤ
  pub ticket_currency : String
  pub ticket_reason : String
  pub triage : Option Triage
  pub billing_task_id : Option Uuid
  pub risk_task_id : Option Uuid
  pub pending_tasks : List Uuid
  pub billing_result : Option BillingFinding
  pub risk_result : Option RiskFinding
  pub billing_slot_failed : Bool
  pub risk_slot_failed : Bool
  pub billing_failure_reason : Option String
  pub risk_failure_reason : Option String
  pub billing_result_event_id : Option Uuid
  pub risk_result_event_id : Option Uuid
  pub status : CaseStatus
  pub status_detail : Option String
  pub decided_event_id : Option Uuid
  pub drafted_event_id : Option Uuid
  pub created_at : ℕ
  pub updated_at : ℕ
  pub deadline_at : Option ℕ
  pub version : ℕ

unfoldable pub is_ready_to_decide : ResolutionCase → Bool
is_ready_to_decide c =
    if c.billing_slot_failed || c.risk_slot_failed then true else is_empty c.pending_tasks

-- `task_id and task_id in pending_tasks`
abbrev pub is_pending : Option Uuid → List Uuid → Bool
is_pending none pending = false
is_pending (some t) pending = member t pending

-- `deadline_at is not None and now > deadline_at`
abbrev pub is_past : Option ℕ → ℕ → Bool
is_past none now = false
is_past (some d) now = ltb d now

unfoldable pub build_timeout_status : ResolutionCase → ℕ → TimeoutStatus
build_timeout_status c now =
    let missing =
      (if is_pending c.billing_task_id c.pending_tasks then billing ∷ [] else [])
      ++ (if is_pending c.risk_task_id c.pending_tasks then risk ∷ [] else []) in
    record {
      any_missing = not (is_empty missing);
      missing_reviews = missing;
      deadline_exceeded = is_past c.deadline_at now;
    }
