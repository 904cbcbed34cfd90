-- ===== src/Resolution/Delegation/Course.antt =====
-- apps/agents/customer_resolution/a2a_handlers.py: a delegation from the registration of the tasks to
-- the announcement.
use mathlib.Core.List.{append-nil}
use decentralized_agentic_re.Prelude.{
  ℕ, ◌≡◌, refl, sym, Bool, true, false, some, List, [], ◌∷◌, ◌++◌, inl, inr,
}
use decentralized_agentic_re.Prelude.Dict.{Uuid, lookup}
use decentralized_agentic_re.Prelude.Exec.{Result, ok, err}
use decentralized_agentic_re.Contracts.{validate_reviews}
use decentralized_agentic_re.Runtime.Discovery.{find_capable}
use decentralized_agentic_re.Resolution.Models.{ResolutionCase}
use decentralized_agentic_re.Resolution.Store.{CaseStore}
use decentralized_agentic_re.Resolution.World.{
  Env, World, Envelope, Payload, task_requested, review_requested,
}
use decentralized_agentic_re.Resolution.Handlers.Logic.{
  Assertion, Outcome, Triple, bind, after, reads_, pure_, weaken,
}
use decentralized_agentic_re.Resolution.Delegation.{
  Network, has_peer, or_minted, ask_billing, ask_risk, register_pending, billing_capability_id,
  billing_peer_agent_id, risk_capability_id, risk_peer_agent_id, validate_billing_capability,
  validate_risk_capability, with_billing_task, with_risk_task, billing_request, risk_request,
  request_billing_analysis, request_risk_analysis, register_tasks, review_payload, announce_review,
  announce, delegate,
}
use decentralized_agentic_re.Resolution.Delegation.Requests.{
  outline, billing_task, risk_task, with_tasks, billing_asked, risk_asked, announced, Registered,
  Course, Stage, At, Partial, Whole, fetched, assigns, refetches, adds, checks, publishes,
}

module _ (env : Env) (net : Network) (c : ResolutionCase) (event : Uuid) where
  module _ (sent_before : List (Uuid × (Uuid × Payload))) where
    module _ (I : Assertion)
        (lost : (t : ℕ) (s : CaseStore) (l : List Envelope)
          → env.delivers t ≡ false
          → Partial env net c event sent_before s l
          → I s l)
        (no_billing : (n : ℕ) (s : CaseStore) (l : List Envelope)
          → has_peer billing_peer_agent_id (find_capable billing_capability_id (net.cards n))
            ≡ false
          → Partial env net c event sent_before s l
          → I s l)
        (no_risk : (n : ℕ) (s : CaseStore) (l : List Envelope)
          → has_peer risk_peer_agent_id (find_capable risk_capability_id (net.cards n)) ≡ false
          → Partial env net c event sent_before s l
          → I s l) where
      registers :
          Triple I
            (Stage env net c event sent_before c [] [])
            (register_tasks env net c)
            (λ u. At env net c event sent_before [])
      unfolding register_tasks register_pending with_billing_task with_risk_task
      registers =
          fetched env net c event sent_before
            (λ d. register_pending env net c.case_id d.billing_task_id d.risk_task_id)
            (with_risk_task env net (with_billing_task env net c))
            (after
              (after (assigns env net c event sent_before (with_billing_task env net))
                (assigns env net c event sent_before (with_risk_task env net)))
              (refetches env net c event sent_before))
            (after (adds env net c event sent_before (billing_task env net c event))
              (adds env net c event sent_before (risk_task env net c event)))

      asks_billing :
          Triple I
            (At env net c event sent_before [])
            (request_billing_analysis env net c event)
            (λ u. At env net c event sent_before (billing_asked env net c event ∷ []))
      unfolding request_billing_analysis validate_billing_capability ask_billing with_billing_task
          or_minted
      asks_billing =
          fetched env net c event sent_before (λ d. ask_billing env net d event d.billing_task_id)
            (with_tasks env net c event)
            (after
              (after
                (checks env net c event sent_before billing_capability_id billing_peer_agent_id
                  (λ n s l h p. no_billing n s l h (inl p)))
                (assigns env net c event sent_before (with_billing_task env net)))
              (refetches env net c event sent_before))
            (after
              (publishes env net c event sent_before
                (task_requested (
                  billing_request env net (with_tasks env net c event)
                    (billing_task env net c event)))
                (λ t s l h p. lost t s l h (inl p)))
              pure_)

      asks_risk :
          Triple I
            (At env net c event sent_before (billing_asked env net c event ∷ []))
            (request_risk_analysis env net c event)
            (λ u.
              At env net c event sent_before
                (billing_asked env net c event ∷ (risk_asked env net c event) ∷ []))
      unfolding request_risk_analysis validate_risk_capability ask_risk with_risk_task or_minted
      asks_risk =
          fetched env net c event sent_before (λ d. ask_risk env net d event d.risk_task_id)
            (with_tasks env net c event)
            (after
              (after
                (checks env net c event sent_before risk_capability_id risk_peer_agent_id
                  (λ n s l h p. no_risk n s l h (inr (inl p))))
                (assigns env net c event sent_before (with_risk_task env net)))
              (refetches env net c event sent_before))
            (after
              (publishes env net c event sent_before
                (task_requested
                  (risk_request env net (with_tasks env net c event) (risk_task env net c event)))
                (λ t s l h p. lost t s l h (inr (inl p))))
              pure_)

      announces :
          Triple I
            (At env net c event sent_before
              (billing_asked env net c event ∷ (risk_asked env net c event) ∷ []))
            (announce env net c event)
            (λ u. Whole env net c event sent_before)
      unfolding announce announce_review validate_reviews review_payload
      announces =
          fetched env net c event sent_before
            (λ d. announce_review env net d event d.billing_task_id d.risk_task_id)
            (with_tasks env net c event) (refetches env net c event sent_before)
            (bind (reads_ env.now) λ at.
              after
                (publishes env net c event sent_before
                  (review_requested (
                    review_payload env net (with_tasks env net c event)
                      (billing_task env net c event) (risk_task env net c event) at))
                  (λ t s l h p. lost t s l h (inr (inr p))))
                (weaken (λ s l h. (at, h)) pure_))

      delegates :
          Triple I
            (Stage env net c event sent_before c [] [])
            (delegate env net c event)
            (λ u. Whole env net c event sent_before)
      unfolding delegate
      delegates = after (after (after registers asks_billing) asks_risk) announces

  registered :
      {o ps : List (Uuid × (Uuid × Payload))} {s : CaseStore} {l : List Envelope}
      → Stage env net c event o
          (with_tasks env net c event)
          (risk_task env net c event ∷ (billing_task env net c event) ∷ [])
          ps
          s
          l
      → Registered env net c event s
  registered p = (p.stored, p.indexed.1.0, p.indexed.0)

  course :
      (before : List Envelope) (r : Result (Unit {0}) × World)
      → Outcome
          (Partial env net c event (outline before))
          (λ u. Whole env net c event (outline before))
          r
      → Course env net c event before r
  course before (ok u, w) (at, p) = (registered p, inl (refl, (at, p.sends)))
  course before (err e, w) (inl p) = (registered p, inr ((λ q. cc), inl p.sends))
  course before (err e, w) (inr (inl p)) = (registered p, inr ((λ q. cc), inr (inl p.sends)))
  course before (err e, w) (inr (inr p)) = (registered p, inr ((λ q. cc), inr (inr p.sends)))

  abbrev None : Assertion
  None s l = ⊥

  completed :
      (before : List Envelope) (r : Result (Unit {0}) × World)
      → Outcome None (λ u. Whole env net c event (outline before)) r
      → (r.0 ≡ ok tt)
        × Registered env net c event r.1.store
        × ((at : ℕ) × (outline r.1.log
              ≡ outline before
                ++ (billing_asked env net c event)
                  ∷ (risk_asked env net c event)
                  ∷ (announced env net c event at)
                  ∷ []))
  completed before (ok u, w) (at, p) = (refl, registered p, (at, p.sends))
  completed before (err e, w) h = absurd h

contrary : {b : Bool} → b ≡ true → ¬ (b ≡ false)
contrary p q = cc

-- However discovery answers and whichever sends the broker refuses, the delegation of a stored case
-- leaves both task ids on the case and in the index, also where it raises. If it returns, the billing
-- request, the risk request and the announcement with both task ids have been sent, in this order and
-- nothing else; if it raises, nothing, the first or the first two of them.
pub delegate-Course :
    (env : Env) (net : Network) (c : ResolutionCase) (event : Uuid) (w : World)
    → lookup c.case_id w.store.cases ≡ some c
    → Course env net c event w.log (delegate env net c event w)
delegate-Course env net c event w e = course env net c event w.log (delegate env net c event w) (
    (delegates env net c event (outline w.log) (Partial env net c event (outline w.log))
        (λ t s l d p. p) (λ n s l d p. p) (λ n s l d p. p)).run
      w (record { stored = e; indexed = tt; sends = sym (append-nil (outline w.log)) }))

-- Where the broker takes every send, and both peers are always found under their capabilities, the
-- delegation of a stored case returns, with the case waiting for both tasks and all three messages sent.
pub delegate_completes :
    (env : Env) (net : Network) (c : ResolutionCase) (event : Uuid) (w : World)
    → lookup c.case_id w.store.cases ≡ some c
    → ((t : ℕ) → env.delivers t ≡ true)
    → ((t : ℕ)
        → has_peer billing_peer_agent_id (find_capable billing_capability_id (net.cards t)) ≡ true)
    → ((t : ℕ) → has_peer risk_peer_agent_id (find_capable risk_capability_id (net.cards t)) ≡ true)
    → ((delegate env net c event w).0 ≡ ok tt)
      × Registered env net c event (delegate env net c event w).1.store
      × ((at : ℕ) × (outline (delegate env net c event w).1.log
            ≡ outline w.log
              ++ billing_asked env net c event
                ∷ risk_asked env net c event
                ∷ announced env net c event at
                ∷ []))
delegate_completes env net c event w e up billing_there risk_there =
    completed env net c event w.log (delegate env net c event w) (
      (delegates env net c event (outline w.log) (None env net c event)
          (λ t s l d p. contrary (up t) d) (λ n s l d p. contrary (billing_there n) d)
          (λ n s l d p. contrary (risk_there n) d)).run
        w (record { stored = e; indexed = tt; sends = sym (append-nil (outline w.log)) }))
