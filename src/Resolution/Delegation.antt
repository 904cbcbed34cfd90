-- ===== src/Resolution/Delegation.antt =====
-- apps/agents/customer_resolution/a2a_handlers.py, and the request inputs of models.py: the delegation
-- of a case to its peers. What is on the discovery topic at a tick, `uuid5`, and how Python prints a UUID are
-- parameters. The topic of a task request is the endpoint of its target.
pub mod Requests
pub mod Course
use decentralized_agentic_re.Prelude.{
  ℕ, suc, ◌*◌, ◌-◌, String, Bool, true, false, Option, none, some, List, [], ◌∷◌, str_eq,
  if◌then◌else◌,
}
use decentralized_agentic_re.Prelude.Int.{ℤ, pos, negsuc}
use decentralized_agentic_re.Prelude.Dict.{Uuid}
use decentralized_agentic_re.Prelude.Exec.{
  Result, ok, err, value_error, peer_unavailable, pure, raise, lift, ◌>>=◌, ◌>>◌,
}
use decentralized_agentic_re.Contracts.{
  Json, object, num, text, RefundReviewRequestedPayload, validate_reviews,
}
use decentralized_agentic_re.Runtime.Messages.{A2aMessage, A2aPart, PartType, Role, TaskRequest}
use decentralized_agentic_re.Runtime.Discovery.{AgentCard, find_capable}
use decentralized_agentic_re.Resolution.Models.{ResolutionCase}
use decentralized_agentic_re.Resolution.Store.{add_pending_task}
use decentralized_agentic_re.Resolution.World.{
  Env, Envelope, Handler, reads, on_store, assign, publish, task_requested, review_requested,
}
use decentralized_agentic_re.Resolution.Deciding.{refetch}

abbrev pub agent_id : String
agent_id = "customer-resolution-agent"

abbrev pub billing_capability_id : String
billing_capability_id = "analyze_refund_eligibility"

abbrev pub billing_peer_agent_id : String
billing_peer_agent_id = "billing-entitlement-agent"

abbrev pub risk_capability_id : String
risk_capability_id = "assess_fraud_risk"

abbrev pub risk_peer_agent_id : String
risk_peer_agent_id = "risk-fraud-agent"

pub record Network : Type 0 where
  -- What is on the discovery topic, at a tick.
  pub cards : ℕ → List (Option AgentCard)
  pub uuid5 : Uuid → String → Uuid
  pub uuid_text : Uuid → String

pub record RiskAnalysisRequestInput : Type 0 where
  pub case_id : Uuid
  pub ticket_id : String
  pub customer_id : String
  pub requested_refund_amount : ℤ
  pub customer_message_summary : String

pub record BillingAnalysisRequestInput : Type 0 where
  pub case_id : Uuid
  pub ticket_id : String
  pub customer_id : String
  pub requested_refund_amount : ℤ
  pub purchase_reference : String
  pub customer_message_summary : String
  pub policy_context : String

unfoldable pub build_risk_request_input : ResolutionCase → RiskAnalysisRequestInput
build_risk_request_input c = record {
  case_id = c.correlation_id;
  ticket_id = c.ticket_id;
  customer_id = c.customer_id;
  requested_refund_amount = c.ticket_amount;
  customer_message_summary = c.ticket_reason;
}

unfoldable pub build_billing_request_input : ResolutionCase → BillingAnalysisRequestInput
build_billing_request_input c = record {
  case_id = c.correlation_id;
  ticket_id = c.ticket_id;
  customer_id = c.customer_id;
  requested_refund_amount = c.ticket_amount;
  purchase_reference = c.ticket_id;
  customer_message_summary = c.ticket_reason;
  policy_context = "standard";
}

-- An amount in cents as a dynamic number, which holds billionths.
amount : ℤ → Json
amount (pos n) = num (pos (n * 10000000))
amount (negsuc n) = num (negsuc (suc n * 10000000 - 1))

module _ (net : Network) where
  -- `risk_input.model_dump(mode="json")`
  dump_risk : RiskAnalysisRequestInput → Json
  unfolding amount
  dump_risk i = object (
      ("case_id", text (net.uuid_text i.case_id))
      ∷ ("ticket_id", text i.ticket_id)
      ∷ ("customer_id", text i.customer_id)
      ∷ ("requested_refund_amount", amount i.requested_refund_amount)
      ∷ ("customer_message_summary", text i.customer_message_summary)
      ∷ [])

  dump_billing : BillingAnalysisRequestInput → Json
  unfolding amount
  dump_billing i = object (
      ("case_id", text (net.uuid_text i.case_id))
      ∷ ("ticket_id", text i.ticket_id)
      ∷ ("customer_id", text i.customer_id)
      ∷ ("requested_refund_amount", amount i.requested_refund_amount)
      ∷ ("purchase_reference", text i.purchase_reference)
      ∷ ("customer_message_summary", text i.customer_message_summary)
      ∷ ("policy_context", text i.policy_context)
      ∷ [])

-- `A2AMessage(role="user", parts=[A2APart(type="data", data=data)])`
data_message : Json → A2aMessage
data_message data_ = record {
  role = Role.user;
  parts = record { type = PartType.data_; text = none; data_ = some data_; file_uri = none } ∷ [];
  task_id = none;
}

unfoldable pub task_request : Uuid → String → String → Json → TaskRequest
unfolding data_message
task_request task capability target input = record {
  task_id = task;
  capability = capability;
  requester_agent_id = agent_id;
  target_agent_id = target;
  input = data_message input;
}

unfoldable pub has_peer : String → List AgentCard → Bool
has_peer peer [] = false
has_peer peer (a ∷ as_) = if str_eq a.agent_id peer then true else has_peer peer as_

-- `a` if it is not `None`.
unfoldable pub or_minted : Option Uuid → Uuid → Uuid
or_minted none minted = minted
or_minted (some id) minted = id

module _ (env : Env) (net : Network) where
  unfoldable pub validate_peer : String → String → Handler (Unit {0})
  validate_peer capability peer =
      reads (λ n. has_peer peer (find_capable capability (net.cards n))) >>= λ found.
      if found then pure tt else raise peer_unavailable

  unfoldable pub validate_risk_capability : Handler (Unit {0})
  unfolding validate_peer
  validate_risk_capability = validate_peer risk_capability_id risk_peer_agent_id

  unfoldable pub validate_billing_capability : Handler (Unit {0})
  unfolding validate_peer
  validate_billing_capability = validate_peer billing_capability_id billing_peer_agent_id

  -- The stable task ids, which are minted once.
  unfoldable pub with_billing_task : ResolutionCase → ResolutionCase
  with_billing_task c = record c {
    billing_task_id =
        some (or_minted c.billing_task_id (net.uuid5 c.correlation_id billing_capability_id));
  }

  unfoldable pub with_risk_task : ResolutionCase → ResolutionCase
  with_risk_task c = record c {
    risk_task_id = some (or_minted c.risk_task_id (net.uuid5 c.correlation_id risk_capability_id));
  }

  -- The task request of a case, under the task id that it has.
  pub billing_request : ResolutionCase → Uuid → TaskRequest
  unfolding dump_billing
  billing_request c task =
      task_request task billing_capability_id billing_peer_agent_id
        (dump_billing net (build_billing_request_input c))

  pub risk_request : ResolutionCase → Uuid → TaskRequest
  unfolding dump_risk
  risk_request c task =
      task_request task risk_capability_id risk_peer_agent_id
        (dump_risk net (build_risk_request_input c))

  -- The request is sent under the case's task id; one that is `None` fails its validation.
  unfoldable pub ask_risk : ResolutionCase → Uuid → Option Uuid → Handler (Unit {0})
  unfolding risk_request
  ask_risk c event none = raise value_error
  ask_risk c event (some task) =
      publish env (task_requested (risk_request c task)) c.correlation_id event >> pure tt

  unfoldable pub request_risk_analysis : ResolutionCase → Uuid → Handler (Unit {0})
  request_risk_analysis c event =
      validate_risk_capability >> assign c.case_id with_risk_task >> refetch c >>= λ d.
      ask_risk d event d.risk_task_id

  unfoldable pub ask_billing : ResolutionCase → Uuid → Option Uuid → Handler (Unit {0})
  unfolding billing_request
  ask_billing c event none = raise value_error
  ask_billing c event (some task) =
      publish env (task_requested (billing_request c task)) c.correlation_id event >> pure tt

  unfoldable pub request_billing_analysis : ResolutionCase → Uuid → Handler (Unit {0})
  request_billing_analysis c event =
      validate_billing_capability >> assign c.case_id with_billing_task >> refetch c >>= λ d.
      ask_billing d event d.billing_task_id

  -- Both ids are registered as pending. They have been minted, so neither is `None`.
  unfoldable pub register_pending : Uuid → Option Uuid → Option Uuid → Handler (Unit {0})
  register_pending id (some b) (some r) =
      on_store (add_pending_task id b) >> on_store (add_pending_task id r)
  register_pending id _ _ = raise value_error

  unfoldable pub register_tasks : ResolutionCase → Handler (Unit {0})
  register_tasks c =
      assign c.case_id with_billing_task >> assign c.case_id with_risk_task >> refetch c >>= λ d.
      register_pending c.case_id d.billing_task_id d.risk_task_id

  pub review_payload : ResolutionCase → Uuid → Uuid → ℕ → RefundReviewRequestedPayload
  review_payload c b r at = record {
    case_id = c.correlation_id;
    ticket_id = c.ticket_id;
    customer_id = c.customer_id;
    requested_reviews = "billing" ∷ "risk" ∷ [];
    billing_task_id = b;
    risk_task_id = r;
    timeout_seconds = some 30;
    requested_at = at;
  }

  unfoldable pub announce_review :
      ResolutionCase → Uuid → Option Uuid → Option Uuid → Handler (Unit {0})
  unfolding review_payload
  announce_review d event (some b) (some r) = reads env.now >>= λ at.
      lift (validate_reviews (review_payload d b r at)) >>= λ p.
      publish env (review_requested p) d.correlation_id event >> pure tt
  announce_review d event _ _ = pure tt

  -- The announcement that follows both requests.
  unfoldable pub announce : ResolutionCase → Uuid → Handler (Unit {0})
  unfolding announce_review
  announce c event = refetch c >>= λ d. announce_review d event d.billing_task_id d.risk_task_id

  unfoldable pub delegate : ResolutionCase → Uuid → Handler (Unit {0})
  unfolding register_tasks announce
  delegate c event =
      register_tasks c
      >> request_billing_analysis c event
      >> request_risk_analysis c event
      >> announce c event
