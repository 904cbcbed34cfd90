-- ===== src/Resolution/Tests.antt =====
-- Concrete runs of the models of apps/agents/customer_resolution.
use decentralized_agentic_re.Prelude.{
  ℕ, String, suc, ◌+◌, ◌≤◌, ◌≡◌, ◌≢◌, ◌↔◌, refl, true, false, none, some, List, [], ◌∷◌, ◌⊎◌, arith,
  member, ◌++◌, str_eq, if◌then◌else◌,
}
use decentralized_agentic_re.Prelude.Int.{pos, ◌≤ℤ◌}
use decentralized_agentic_re.Prelude.Text.{is_blank, lower, entries, put_entry}
use decentralized_agentic_re.Prelude.Dict.{Uuid, lookup, values}
use decentralized_agentic_re.Prelude.Exec.{ok, err, save_conflict, value_error}
use decentralized_agentic_re.Contracts.{
  SupportTicketCreatedPayload, deny_refund, escalate_human, BillingRefundAnalysisCompletedPayload,
  RiskReviewCompletedPayload, CustomerResponseDraftedPayload, CustomerResponseDecisionPayload,
  validate_draft_payload, validate_escalation_reason,
}
use decentralized_agentic_re.Resolution.Models.{
  ResolutionCase, decided, waiting_for_peer_reviews, response_drafted, ready_for_decision,
  is_terminal, Triage, BillingFinding, RiskFinding, eligible, low,
}
use decentralized_agentic_re.Resolution.Drafter.{
  template, draft_customer_response, draft-eq-template,
}
use decentralized_agentic_re.Resolution.Decision.{
  decide, respond, compute_confidence, requires_human_approval,
}
use decentralized_agentic_re.Resolution.Decision.Confidence.{
  compute_confidence_iff, Reaches, LeavesRoom,
}
use decentralized_agentic_re.Resolution.Decision.Payload.{IsIssued, decide-IsIssued, draft-IsValid}
use decentralized_agentic_re.Resolution.Decision.Table.{decide_never_peer_failure}
use decentralized_agentic_re.Resolution.Store.{
  CaseStore, empty, NewCase, new_case, of_billing, of_risk, attached, duplicate, put, apply_result,
  claim_decision, save, transition, attach, can_transition_to_ready, list_timed_out_cases,
}
use decentralized_agentic_re.Resolution.Store.Operations.{creates, adds, claims, perform_all, saved}
use decentralized_agentic_re.Resolution.Store.Settled.{settled_at}
use decentralized_agentic_re.Resolution.Store.Invariant.{IsWellFormed, perform_all-IsWellFormed}
use decentralized_agentic_re.Resolution.Store.Versions.{
  save_conflicts, perform_all-reached, reached,
}
use decentralized_agentic_re.Resolution.Store.Timeouts.{Among, IsOverdue, list_timed_out_iff}
use decentralized_agentic_re.Resolution.Store.Results.{
  Awaits, apply_twice, apply_results_comm, both_results_ready,
}
use decentralized_agentic_re.Resolution.Store.Claims.{
  Step, Run, start, step, claimed_once, claim_first_wins, claimed_again,
}
use decentralized_agentic_re.Resolution.Normalize.{Coercions}
use decentralized_agentic_re.Runtime.Messages.{TaskResult, failed, handler_error}
use decentralized_agentic_re.Resolution.Classifier.{
  classify, classify_with_llm, fell_back, refund_intent_signals, classify_with_llm-fell_back,
}
use decentralized_agentic_re.Runtime.Discovery.{
  AgentCard, find_capable, discover_agents, declares, latest,
}
use decentralized_agentic_re.Resolution.Delegation.{Network, has_peer, delegate}
use decentralized_agentic_re.Resolution.Delegation.Requests.{
  outline, billing_asked, risk_asked, announced, Registered, Course,
}
use decentralized_agentic_re.Resolution.Delegation.Course.{delegate-Course, delegate_completes}
use decentralized_agentic_re.Resolution.World.{Env, World}
use decentralized_agentic_re.Resolution.Deciding.{apply_decision}
use decentralized_agentic_re.Resolution.Handlers.Delivery.{apply_decision_emits}
use decentralized_agentic_re.Resolution.Handlers.Once.{Owned, decisions}
use decentralized_agentic_re.Resolution.Handlers.Runs.{
  Event, billing_arrives, risk_arrives, task_result_arrives, reaper_wakes, handle_all, decides_once,
  settled_stays_silent,
}

abbrev ticket : NewCase
ticket = record {
  case_id = 1;
  ticket_id = "T-1";
  customer_id = "C-1";
  correlation_id = 7;
  ticket_amount = pos 4999;
  ticket_currency = "USD";
  ticket_reason = "refund please";
  created_at = 100;
}

abbrev triage : Triage
triage = record {
  needs_refund_review = true;
  ambiguous = false;
  matched_signals = [];
  rationale = "";
  issue_type = "refund_request";
  confidence = pos 900000000;
}

-- The case waits for tasks 21 and 22.
abbrev waiting : ResolutionCase
waiting = record (new_case ticket) {
  triage = some triage;
  billing_task_id = some 21;
  risk_task_id = some 22;
  pending_tasks = 21 ∷ 22 ∷ [];
  status = waiting_for_peer_reviews;
  deadline_at = some 200;
}

abbrev one_case : CaseStore
one_case = record empty {
  cases = (1, waiting) ∷ [];
  by_correlation = (7, 1) ∷ [];
  by_task_id = (21, 1) ∷ (22, 1) ∷ [];
}

abbrev billing_ok : BillingFinding
billing_ok = record {
  eligibility = eligible;
  requires_human_review = false;
  confidence = some (pos 900000000);
  summary = "";
  performer_agent_id = "";
  task_id = some 21;
}

abbrev risk_ok : RiskFinding
risk_ok = record {
  level = low;
  requires_human_review = false;
  score = some (pos 100000000);
  summary = "";
  performer_agent_id = "";
  task_id = some 22;
}

abbrev billing_payload : BillingRefundAnalysisCompletedPayload
billing_payload = record {
  ticket_id = "T-1";
  recommendation = "approve_full_refund";
  confidence = pos 900000000;
  evidence = [];
  reasoning_summary = "";
  requires_human_review = false;
  case_id = 1;
  customer_id = "C-1";
  billing_account_id = none;
  subscription_status = "active";
  invoice_status = "paid";
  payment_status = "captured";
  entitlement_status = "active";
  usage_level = "light";
  refund_window_status = "within";
  eligible_refund_amount = pos 4999;
  enriched_reasoning_summary = none;
  evidence_explanation = none;
}

abbrev risk_payload : RiskReviewCompletedPayload
risk_payload = record {
  ticket_id = "T-1";
  recommendation = "low";
  confidence = pos 900000000;
  evidence = [];
  reasoning_summary = "";
  requires_human_review = false;
  enriched_reasoning_summary = none;
  evidence_explanation = none;
}

abbrev env : Env
env = record { now = λ t. 100 + t; uuid4 = λ t. 1000 + t; delivers = λ t. true }

abbrev world : World
world = record { store = one_case; log = []; tick = 0 }

owned : Owned 1 7 one_case.cases
unfolding lookup
owned = (λ j c l. ground arith, (λ q. refl, tt))

-- No dynamic value is a number or has a text.
abbrev coercions : Coercions
coercions = record {
  float_field = λ v. err value_error;
  float_of = λ v. err value_error;
  str_of = λ v. "";
}

-- The billing task has failed.
abbrev failed_result : TaskResult
failed_result = record {
  task_id = 21;
  performer_agent_id = "billing-entitlement-agent";
  status = failed;
  output = none;
  error = some (record { category = handler_error; message = "no facts" });
}

abbrev arrivals : List Event
arrivals =
    billing_arrives (record { event_id = 51; correlation_id = 7 }) (some billing_payload)
    ∷ risk_arrives (record { event_id = 52; correlation_id = 7 }) (some risk_payload)
    ∷ task_result_arrives coercions (record { event_id = 53; correlation_id = 7 })
        (some failed_result)
    ∷ reaper_wakes
    ∷ []

decides_once_example :
    (decisions 7 (handle_all env arrivals world).log ≤ 1)
    × ((decisions 7 (handle_all env arrivals world).log ≡ 0)
        ⊎ (settled_at 1 (handle_all env arrivals world).store ≡ true))
decides_once_example = decides_once 1 7 env arrivals world owned refl

-- The case is claimed, and its decision was never sent.
abbrev claimed_world : World
claimed_world = record world {
  store = record one_case { cases = (1, record waiting { status = decided }) ∷ [] };
}

claimed-Owned : Owned 1 7 claimed_world.store.cases
unfolding lookup
claimed-Owned = (λ j c l. ground arith, (λ q. refl, tt))

settled_stays_silent_example : decisions 7 (handle_all env arrivals claimed_world).log ≡ 0
unfolding lookup is_terminal
settled_stays_silent_example =
    settled_stays_silent 1 7 env arrivals claimed_world claimed-Owned refl refl

decide-IsIssued_example :
    IsIssued 7 "T-1" "C-1" (decide 7 "T-1" "C-1" triage (some billing_ok) none none)
decide-IsIssued_example = decide-IsIssued 7 "T-1" "C-1" triage (some billing_ok) none none

draft : CustomerResponseDraftedPayload
draft = record {
  case_id = 7;
  ticket_id = "T-1";
  customer_id = "C-1";
  decision_event_id = 1000;
  outcome = escalate_human;
  draft_response = template escalate_human;
  requires_human_approval = true;
  drafted_at = 104;
}

draft-IsValid_example : validate_draft_payload draft ≡ ok draft
unfolding draft requires_human_approval
draft-IsValid_example = draft-IsValid draft refl refl

draft-eq-template_example :
    (draft_customer_response deny_refund ≡ ok (template deny_refund))
    × (is_blank (template deny_refund) ≡ false)
draft-eq-template_example = draft-eq-template deny_refund

compute_confidence_iff_example :
    (pos 600000000 ≤ℤ compute_confidence (some triage) (some billing_ok) (some risk_ok)) ↔ (
      (pos 600000000 ≤ℤ triage.confidence)
      × Reaches (pos 600000000) billing_ok.confidence
      × LeavesRoom (pos 600000000) risk_ok.score)
compute_confidence_iff_example =
    compute_confidence_iff (pos 600000000) triage billing_ok risk_ok (omega arith) (omega arith)

-- One claim of the case, which succeeds.
one_claim : Run 1 one_case (claim_decision 1 300 one_case).1 1
unfolding claim_decision is_terminal lookup
one_claim = step true start (Step.claims 300 refl refl) refl

claimed_once_example :
    (1 ≤ 1)
    × ((◌≡◌ {A = ℕ} 1 0)
        ⊎ ((settled_at 1 one_case ≡ false)
            × (settled_at 1 (claim_decision 1 300 one_case).1 ≡ true)))
claimed_once_example = claimed_once one_claim

claim_first_wins_example :
    let s = (claim_decision 1 300 one_case).1 in
    ((claim_decision 1 300 one_case).0 ≡ ok true)
    × (◌≡◌ {A = ℕ} 0 0)
    × (claim_decision 1 400 s ≡ (ok false, s))
unfolding is_terminal lookup
claim_first_wins_example = claim_first_wins 1 300 400 one_case refl start

claimed_again_example :
    ((claim_decision 1 300 one_case).0 ≡ ok true)
    × ((claim_decision 1 500
          (transition 1 response_drafted 400 (claim_decision 1 300 one_case).1).1).0
        ≡ ok true)
unfolding is_terminal lookup
claimed_again_example = claimed_again 1 300 400 500 one_case refl

apply_twice_example :
    let s = (apply_result 1 21 (of_billing billing_ok) 300 one_case).1 in
    apply_result 1 21 (of_risk risk_ok) 400 s ≡ (ok duplicate, s)
unfolding apply_result is_terminal lookup
apply_twice_example =
    apply_twice 1 21 (of_billing billing_ok) (of_risk risk_ok) 300 400 one_case refl

perform_all-IsWellFormed_example :
    IsWellFormed (perform_all (creates ticket ∷ adds 1 21 ∷ claims 1 300 ∷ []) empty)
perform_all-IsWellFormed_example =
    perform_all-IsWellFormed (creates ticket ∷ adds 1 21 ∷ claims 1 300 ∷ [])

save_conflicts_example :
    let first = save waiting (some 0) 300 one_case in
    let later = perform_all (adds 1 23 ∷ claims 1 350 ∷ []) first.1 in
    (first.0 ≡ ok (saved waiting 300 one_case))
    × (save waiting (some 0) 400 later ≡ (err save_conflict, later))
unfolding lookup
save_conflicts_example =
    save_conflicts waiting waiting waiting 300 400 one_case (adds 1 23 ∷ claims 1 350 ∷ []) refl
      refl

perform_all-reached_example :
    reached 1 0 (perform_all (adds 1 23 ∷ claims 1 350 ∷ []) one_case).cases ≡ true
unfolding lookup
perform_all-reached_example = perform_all-reached 1 0 (adds 1 23 ∷ claims 1 350 ∷ []) one_case refl

list_timed_out_iff_example :
    Among waiting (list_timed_out_cases 300 one_case)
    ↔ (Among waiting (values one_case.cases) × IsOverdue 300 waiting)
list_timed_out_iff_example = list_timed_out_iff 300 one_case waiting

both_wait :
    (task : Uuid) → member task waiting.pending_tasks ≡ true → Awaits 1 task waiting one_case
unfolding lookup is_terminal
both_wait task h = record { stored = refl; open_status = refl; pending = h }

different : ◌≢◌ {A = ℕ} 21 22
different e = omega (arith, e)

apply_results_comm_example :
    let first = apply_result 1 21 (of_billing billing_ok) 300 one_case in
    let second = apply_result 1 22 (of_risk risk_ok) 310 first.1 in
    let first' = apply_result 1 22 (of_risk risk_ok) 320 one_case in
    let second' = apply_result 1 21 (of_billing billing_ok) 330 first'.1 in
    (first.0 ≡ ok attached)
    × (second.0 ≡ ok attached)
    × (first'.0 ≡ ok attached)
    × (second'.0 ≡ ok attached)
    × ((d : ResolutionCase) × (second.1 ≡ put 1 (record d { updated_at = 310 }) one_case)
        × (second'.1 ≡ put 1 (record d { updated_at = 330 }) one_case))
apply_results_comm_example =
    apply_results_comm 1 21 22 billing_ok risk_ok 300 310 320 330 waiting one_case
      (both_wait 21 refl) (both_wait 22 refl) different

both_results_ready_example :
    let c = attach 22 (of_risk risk_ok) 400 (attach 21 (of_billing billing_ok) 300 waiting) in
    (c.pending_tasks ≡ [])
    × (c.billing_result ≡ some billing_ok)
    × (c.risk_result ≡ some risk_ok)
    × (c.status ≡ ready_for_decision)
    × (c.version ≡ suc (suc waiting.version))
unfolding can_transition_to_ready
both_results_ready_example =
    both_results_ready 21 22 billing_ok risk_ok 300 400 waiting refl different refl

-- The escalation of a case whose billing finding is absent.
abbrev absent_billing : CustomerResponseDecisionPayload
absent_billing = record {
  case_id = 7;
  ticket_id = "T-1";
  customer_id = "C-1";
  outcome = escalate_human;
  customer_response = template escalate_human;
  escalation_reason = some "missing_analysis";
  billing_summary = none;
  risk_summary = none;
  rationale = "Required analysis result is missing";
}

decides_absent : decide 7 "T-1" "C-1" triage none (some risk_ok) none ≡ ok absent_billing
unfolding decide respond draft_customer_response validate_escalation_reason lower
decides_absent = refl

decide_never_peer_failure_example : absent_billing.escalation_reason ≢ some "peer_failure"
decide_never_peer_failure_example =
    decide_never_peer_failure 7 "T-1" "C-1" triage none (some risk_ok) none absent_billing
      decides_absent

apply_decision_emits_example :
    ((apply_decision env waiting 51 world).0 ≡ ok tt)
    × (decisions waiting.correlation_id (apply_decision env waiting 51 world).1.log
        ≡ suc (decisions waiting.correlation_id world.log))
unfolding lookup is_terminal
apply_decision_emits_example = apply_decision_emits env waiting 51 world (λ t. refl) refl refl

abbrev question : SupportTicketCreatedPayload
question = record {
  ticket_id = "T-2";
  customer_id = "C-1";
  amount = pos 0;
  currency = "USD";
  reason = "I was Charged twice";
  created_at = 100;
}

classify_with_llm-fell_back_example :
    classify_with_llm refund_intent_signals question fell_back
    ≡ classify refund_intent_signals question
classify_with_llm-fell_back_example = classify_with_llm-fell_back refund_intent_signals question

-- A case without tasks, both peers published, and a task id per capability.
abbrev opened : ResolutionCase
opened = new_case ticket

abbrev card_of : String → String → AgentCard
card_of agent capability = record {
  agent_id = agent;
  name = agent;
  description = agent;
  version = "1.0.0";
  endpoint_topic = agent;
  capabilities =
      record { id = capability; name = capability; description = capability; tags = [] } ∷ [];
}

abbrev network : Network
network = record {
  cards = λ t.
      some (card_of "billing-entitlement-agent" "analyze_refund_eligibility")
      ∷ none
      ∷ some (card_of "risk-fraud-agent" "assess_fraud_risk")
      ∷ [];
  uuid5 = λ case_id capability. if str_eq capability "assess_fraud_risk" then 32 else 31;
  uuid_text = λ id. "";
}

abbrev opened_world : World
opened_world = record world {
  store = record empty { cases = (1, opened) ∷ []; by_correlation = (7, 1) ∷ [] };
}

delegate-Course_example :
    Course env network opened 51 opened_world.log (delegate env network opened 51 opened_world)
unfolding lookup
delegate-Course_example = delegate-Course env network opened 51 opened_world refl

delegate_completes_example :
    ((delegate env network opened 51 opened_world).0 ≡ ok tt)
    × Registered env network opened 51 (delegate env network opened 51 opened_world).1.store
    × ((at : ℕ) × (outline (delegate env network opened 51 opened_world).1.log
          ≡ outline opened_world.log
            ++ billing_asked env network opened 51
              ∷ risk_asked env network opened 51
              ∷ announced env network opened 51 at
              ∷ []))
unfolding lookup has_peer find_capable discover_agents declares latest entries put_entry
delegate_completes_example =
    delegate_completes env network opened 51 opened_world refl (λ t. refl) (λ t. refl) (λ t. refl)
