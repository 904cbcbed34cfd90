-- ===== src/Lib.antt =====
-- Verification of the decentralized refund agents: the agents apps/agents/customer_resolution,
-- apps/agents/risk_fraud and apps/agents/billing_entitlement, over the payloads of
-- packages/contracts and the agent runtime, the publisher and the audit of src/agent_foundation.
--
-- A refund ticket becomes a case of the customer-resolution agent, which delegates a billing
-- analysis and a risk review to its peers, collects their results, decides by a fixed table, and
-- publishes the decision and a draft response. A reaper escalates cases whose peers are late. The
-- risk agent rates a customer's signals by the rules FP-001 to FP-009. The billing agent rates a
-- purchase by the rules RP-001 to RP-005. A peer serves its tasks with the agent runtime, which
-- skips what it has served, runs the capability's handler and publishes the result.
--
-- Files and what they model:
-- - Prelude: tests on numbers, lists and sets, signed fixed-point numbers, dicts, texts, and
--   Exec, code that changes a state and may raise.
-- - Contracts: packages/contracts/events/payloads.py.
-- - Resolution/Models: apps/agents/customer_resolution/models.py, the case and its lifecycle.
-- - Resolution/Drafter: response_drafter.py, the templates and the leak guard; Drafter/Structured
--   the structured and the assisted draft.
-- - Resolution/Decision: decision_engine.py, decide and compute_confidence. Decision/Rows holds
--   the table of specs/006-workflow-choreography/contracts/decision-rule.md as a relation, and
--   Decision/Table compares decide with it; Decision/Evidence holds build_evidence.
-- - Resolution/Store: state_store.py, one function per method of InMemoryCaseStateStore; its
--   children are about runs of these methods.
-- - Resolution/World: the store, the log of published envelopes and the clock, with
--   src/agent_foundation/transport/publisher.py and audit/store.py.
-- - Resolution/Deciding: event_handlers.py, _apply_decision and the emission of decision and
--   draft.
-- - Resolution/Classifier: ticket_classifier.py, and the signals of config.py.
-- - Resolution/Delegation: a2a_handlers.py, with the request inputs of models.py; its children are
--   about what a delegation registers and sends.
-- - Resolution/Intake: event_handlers.py, intake_handler.
-- - Resolution/Normalize, Resolution/TaskResults: event_handlers.py, the normalisation of raw
--   results and result_handler.
-- - Resolution/Handlers: event_handlers.py and reaper.py, the two domain result handlers and a
--   round of the reaper. Handlers/Logic has the rules for triples of handlers; Once, Emission,
--   Claiming, Runs and Delivery are about the decisions that handlers publish.
-- - Risk/Signals: apps/agents/risk_fraud/models.py and policy.py.
-- - Risk/Rules, Risk/Evidence, Risk/Scoring: scoring.py, the rules and the score, the evidence,
--   and assess_signals gate by gate.
-- - Billing/Facts, Billing/Entitlement: apps/agents/billing_entitlement/models.py, policy.py and
--   entitlement_checker.py.
-- - Billing/Rules, Billing/Rules/Evaluate: rules_engine.py, evaluate gate by gate. Evaluate/Policy
--   holds the refund policy as arithmetic conditions, with which it compares evaluate.
-- - Runtime/Messages: src/agent_foundation/a2a.py and payloads/task.py, with the validators.
-- - Runtime/Cache: src/agent_foundation/idempotency.py, _LRUCache. Cache/History and
--   Cache/Refinement compare it with the whole history of the ids.
-- - Runtime/Discovery: src/agent_foundation/runtime/agent_card.py and discovery.py, over what is
--   on the discovery topic.
-- - Runtime/Host: the rest of idempotency.py, and what the runtime works on: the tracker, the
--   topics, the processed-events topic, the broker.
-- - Runtime/Service: src/agent_foundation/runtime/runtime.py, the handler registry,
--   _handle_message and the loop of serve. Its children are about what a message does.
-- - Risk/Service, Billing/Service: the service.py of either agent, with the narratives of
--   llm_summary.py, store.py and the lookup of mock_data.py.
-- - Peers: the services' results at the customer-resolution agent.
-- - Resolution/Tests, Risk/Tests, Billing/Tests, Runtime/Tests, Peers/Tests: concrete runs.
--
-- How the code is modelled. A method of the store is an action on the store's state, since its
-- lock makes it one step. Handlers hold the stored case object itself, so an assignment to a field
-- is a change of the store. A handler runs to its end; Store/Claims covers the interleavings of
-- store methods that the await points allow. Numbers are exact: a float is a count of billionths,
-- an amount of a ticket a count of cents, a time a natural number. The weights and thresholds of
-- the rules are tenths, whose sums meet the thresholds exactly where the floats, compared within
-- 1e-9, do. How Python prints a ratio, an amount and a time is a parameter. The clock, uuid4 and
-- the answers of the broker are parameters, read at successive ticks. Validation of an incoming
-- payload is a parameter: a handler is given the payload, or nothing where it is invalid. So are
-- the records of the discovery topic, the answers of the language model, uuid5, the text of an
-- exception, and the conversions of dynamic values to numbers and texts. The idempotency cache
-- keeps as many ids as its maxsize, 10,000 by default, which is a variable of the statements about
-- it. Every loop of the modelled code runs over a list, so no fuel is needed.
--
-- Not modelled: the consumer loop and the Kafka client, the A2A client, the publication of agent
-- cards, the runtime's background tasks, logging and tracing, the language-model runtime and its
-- calls, fixtures, entry points and the demo. They are further parts of the code, or carry no
-- state that the results here speak of.
pub mod Prelude
pub mod Contracts
pub mod Resolution
pub mod Risk
pub mod Billing
pub mod Runtime
pub mod Peers
