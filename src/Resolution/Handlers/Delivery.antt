-- ===== src/Resolution/Handlers/Delivery.antt =====
-- apps/agents/customer_resolution/event_handlers.py: `_apply_decision` where the broker takes every
-- send.
use mathlib.Core.Path.{subst}
use decentralized_agentic_re.Prelude.{
  ℕ, suc, ◌+◌, ◌≡◌, refl, sym, ap, ◌∙◌, String, Bool, true, false, Option, none, some, List, inl,
  inr, ◌==◌, ==_iff, arith, Option-cases, Bool-cases, if◌then◌else◌,
}
use decentralized_agentic_re.Prelude.Text.{◌<>◌}
use decentralized_agentic_re.Prelude.Dict.{Uuid, lookup, lookup-insert}
use decentralized_agentic_re.Prelude.Exec.{Result, ok, err, pure, lift}
use decentralized_agentic_re.Contracts.{
  CustomerResponseDecisionPayload, CustomerResponseDraftedPayload,
}
use decentralized_agentic_re.Resolution.Models.{
  ResolutionCase, CaseStatus, decided, build_timeout_status,
}
use decentralized_agentic_re.Resolution.Drafter.{template}
use decentralized_agentic_re.Resolution.Decision.Payload.{IsIssued, decide-IsIssued, draft-IsValid}
use decentralized_agentic_re.Resolution.Store.{CaseStore, claim_decision, save, stale, next_version}
use decentralized_agentic_re.Resolution.Store.Settled.{is_open}
use decentralized_agentic_re.Resolution.Store.Claims.{claim_open}
use decentralized_agentic_re.Resolution.Store.Effects.{
  Change, kept, replaced, claim_decision-Change,
}
use decentralized_agentic_re.Resolution.Store.Operations.{saved}
use decentralized_agentic_re.Resolution.World.{
  Env, World, Envelope, Handler, on_store, assign, send, publish, write_audit, resolution_decided,
  response_drafted, envelope_of, audit_of,
}
use decentralized_agentic_re.Resolution.Deciding.{
  outcome_text, refetch, draft_of, follow_up, emit_decision_and_draft, triage_or_default,
  settle_case, decision_of, decide_and_emit, apply_decision,
}
use decentralized_agentic_re.Resolution.Handlers.Logic.{
  Assertion, Outcome, Triple, bind, after, guard, when_, reads_, pure_, weaken, given,
}
use decentralized_agentic_re.Resolution.Handlers.Once.{
  is_decision, decisions, sent, decisions-append, assigned_some, assigned_none,
}
use decentralized_agentic_re.Resolution.Handlers.Emission.{refetch-none, refetch-some}

contrary : {b : Bool} → b ≡ true → ¬ (b ≡ false)
contrary p q = cc

some_same : {c d : ResolutionCase} → some c ≡ some d → c ≡ d
some_same h = cc

not_stale : (o : Option ResolutionCase) → stale o none ≡ false
unfolding stale
not_stale none = refl
not_stale (some c) = refl

save_unconditional :
    (d : ResolutionCase) (at : ℕ) (s : CaseStore) → (save d none at s).0 ≡ ok (saved d at s)
unfolding save next_version
save_unconditional d at s = rw (not_stale (lookup d.case_id s.cases)) refl

module _ (x : Uuid) (env : Env) (up : (t : ℕ) → env.delivers t ≡ true) where
  -- No exception is raised.
  abbrev Never : Assertion
  Never s l = ⊥

  abbrev Count : ℕ → Assertion
  Count n s l = decisions x l ≡ n

  unreached : {A : Type 0} (m : Handler A) {Q : A → Assertion} → Triple Never Never m Q
  unreached m = record { run = λ w b. absurd b }

  send_sure :
      (n m : ℕ) (e : Envelope)
      → m ≡ n + (if is_decision x e then 1 else 0)
      → Triple Never (Count n) (send env e) (λ u. Count m)
  send_sure n m e q = record {
    run = λ w p. subst (Outcome Never (λ u. Count m)) (sym (sent 0 x 0 env e w (up w.tick))) (
        decisions-append 0 x 0 e w.log
        ∙ ap (λ z. z + (if is_decision x e then 1 else 0)) p
        ∙ sym q);
  }

  decision_sure :
      (n : ℕ) (d : CustomerResponseDecisionPayload) (c cause : Uuid)
      → c ≡ x
      → Triple Never (Count n) (publish env (resolution_decided d) c cause) (λ e. Count (suc n))
  unfolding publish
  decision_sure n d c cause q = bind (reads_ env.uuid4) λ i. bind (reads_ env.now) λ a.
      after
        (send_sure n (suc n) (envelope_of (resolution_decided d) c cause i a) (ground (arith, q)))
        (pure_ {a = envelope_of (resolution_decided d) c cause i a})

  draft_sure :
      (n : ℕ) (d : CustomerResponseDraftedPayload) (c cause : Uuid)
      → Triple Never (Count n) (publish env (response_drafted d) c cause) (λ e. Count n)
  unfolding publish
  draft_sure n d c cause = bind (reads_ env.uuid4) λ i. bind (reads_ env.now) λ a.
      after (send_sure n n (envelope_of (response_drafted d) c cause i a) (omega arith))
        (pure_ {a = envelope_of (response_drafted d) c cause i a})

  audit_sure :
      (n : ℕ) (o c : Uuid) (outcome : String) (t : Option Uuid) (r : Option String)
      → Triple Never (Count n) (write_audit env o c outcome t r) (λ u. Count n)
  unfolding write_audit
  audit_sure n o c u t r = bind (reads_ env.now) λ a. bind (reads_ env.uuid4) λ i.
      guard (send_sure n n (envelope_of (audit_of o u t r a) c o i a) (omega arith))
        (λ e. unreached (pure tt))

  assign_sure :
      (n : ℕ) (id : Uuid) (f : ResolutionCase → ResolutionCase)
      → Triple Never (Count n) (assign id f) (λ u. Count n)
  assign_sure n id f = record {
    run = λ w p. elim (Option-cases (lookup id w.store.cases)) [
      | inl e ↦ subst (Outcome Never (λ u. Count n)) (sym (assigned_none 0 x 0 id f w e)) p
      | inr (c, e) ↦ subst (Outcome Never (λ u. Count n)) (sym (assigned_some 0 x 0 id f c w e)) p
    ];
  }

  -- The case under `id`, if there is one, is of the workflow `x`.
  abbrev Of : Uuid → Assertion
  Of id s l = (c : ResolutionCase) → lookup id s.cases ≡ some c → c.correlation_id ≡ x

  refetch_sure :
      (n : ℕ) (c : ResolutionCase)
      → c.correlation_id ≡ x
      → Triple Never
          (λ s l. Count n s l × Of c.case_id s l)
          (refetch c)
          (λ d s l. Count n s l × (d.correlation_id ≡ x))
  refetch_sure n c own = record {
    run = λ w (p, o). elim (Option-cases (lookup c.case_id w.store.cases)) [
      | inl e ↦
          subst (Outcome Never (λ d s l. Count n s l × (d.correlation_id ≡ x)))
            (sym (refetch-none 0 x 0 env c w e)) (p, own)
      | inr (d, e) ↦
          subst (Outcome Never (λ d s l. Count n s l × (d.correlation_id ≡ x)))
            (sym (refetch-some 0 x 0 env c d w e)) (p, o d e)
    ];
  }

  refetch_any : (n : ℕ) (c : ResolutionCase) → Triple Never (Count n) (refetch c) (λ d. Count n)
  refetch_any n c = record {
    run = λ w p. elim (Option-cases (lookup c.case_id w.store.cases)) [
      | inl e ↦ subst (Outcome Never (λ d. Count n)) (sym (refetch-none 0 x 0 env c w e)) p
      | inr (d, e) ↦ subst (Outcome Never (λ d. Count n)) (sym (refetch-some 0 x 0 env c d w e)) p
    ];
  }

  lifted :
      {A : Type 0} (P : Assertion) (F : A → Type 0) (r : Result A) (a : A)
      → r ≡ ok a
      → F a
      → Triple Never P (lift r) (λ b s l. P s l × F b)
  lifted P F r a e f = record {
    run = λ w p. subst (Outcome Never (λ b s l. P s l × F b)) (ap (λ z. (z, w)) (sym e)) (p, f);
  }

  follow_up_sure :
      (n : ℕ) (c : ResolutionCase) (d : CustomerResponseDecisionPayload) (e : Envelope)
      → d.customer_response ≡ template d.outcome
      → Triple Never (Count n) (follow_up env c d e) (λ r. Count n)
  unfolding follow_up draft_of
  follow_up_sure n c d e text =
      bind
        (after
          (guard
            (audit_sure n e.event_id e.correlation_id "completed" none
              (some ("decision: " <> outcome_text d.outcome)))
            (λ r. unreached (pure tt)))
          (reads_ env.now))
        λ at.
          bind
            (lifted (Count n) (λ b. Unit {0}) (draft_of c d e.event_id at) _
              (draft-IsValid _ text refl) tt)
            λ draft.
              weaken (λ s l h. h.0)
                (bind (draft_sure n draft c.correlation_id e.event_id) λ drafted.
                  after
                    (assign_sure n c.case_id
                      (λ y. record y { drafted_event_id = some drafted.event_id }))
                    (pure_ {a = e}))

  emit_sure :
      (n : ℕ) (c : ResolutionCase) (d : CustomerResponseDecisionPayload) (cause : Uuid)
      → c.correlation_id ≡ x
      → d.customer_response ≡ template d.outcome
      → Triple Never (Count n) (emit_decision_and_draft env c d cause) (λ r. Count (suc n))
  unfolding emit_decision_and_draft
  emit_sure n c d cause own text = bind (decision_sure n d c.correlation_id cause own) λ e.
      after (assign_sure (suc n) c.case_id (λ y. record y { decided_event_id = some e.event_id }))
        (follow_up_sure (suc n) c d e text)

  save_sure :
      (n : ℕ) (d : ResolutionCase) (at : ℕ)
      → Triple Never (Count n) (on_store (save d none at)) (λ r. Count n)
  save_sure n d at = record {
    run = λ w p.
        subst
          (λ r. Outcome Never (λ a. Count n) (r, record w { store = (save d none at w.store).1 }))
          (sym (save_unconditional d at w.store)) p;
  }

  settle_sure :
      (n : ℕ) (c : ResolutionCase) (status : CaseStatus)
      → Triple Never (Count n) (settle_case env c status) (λ u. Count n)
  unfolding settle_case
  settle_sure n c status =
      bind (after (assign_sure n c.case_id (λ y. record y { status = status })) (refetch_any n c))
        λ d. bind (reads_ env.now) λ at. after (save_sure n d at) (pure_ {a = tt})

  issued :
      (i : Uuid) (t u : String) (r : Result CustomerResponseDecisionPayload)
      → IsIssued i t u r
      → (p : CustomerResponseDecisionPayload) × (r ≡ ok p)
        × (p.customer_response ≡ template p.outcome)
  issued i t u (ok p) h = (p, refl, h.3)
  issued i t u (err e) h = absurd h

  decided_sure :
      (d : ResolutionCase) (at : ℕ)
      → (p : CustomerResponseDecisionPayload) × (decision_of d at ≡ ok p)
        × (p.customer_response ≡ template p.outcome)
  unfolding decision_of
  decided_sure d at = issued d.correlation_id d.ticket_id d.customer_id (decision_of d at) (
      decide-IsIssued d.correlation_id d.ticket_id d.customer_id (triage_or_default d.triage)
        d.billing_result d.risk_result (some (build_timeout_status d at)))

  decide_and_emit_sure :
      (n : ℕ) (c : ResolutionCase) (cause : Uuid)
      → c.correlation_id ≡ x
      → Triple Never
          (λ s l. Count n s l × Of c.case_id s l)
          (decide_and_emit env c cause)
          (λ u. Count (suc n))
  unfolding decide_and_emit
  decide_and_emit_sure n c cause own = bind (refetch_sure n c own) λ d.
      given {F = d.correlation_id ≡ x} (λ s l h. h.1)
        λ of_x.
          weaken (λ s l h. h.0)
            (bind (reads_ env.now) λ at.
              let (p, e, text) = decided_sure d at in
              bind
                (lifted (Count n) (λ b. b.customer_response ≡ template b.outcome) (decision_of d at)
                  p e text)
                λ decision.
                  given {F = decision.customer_response ≡ template decision.outcome} (λ s l h. h.1)
                    λ text_ok.
                      weaken (λ s l h. h.0)
                        (after (emit_sure n d decision cause of_x text_ok)
                          (settle_sure (suc n) d decided)))

  Of-Change :
      (id : Uuid) {s s' : CaseStore} (l : List Envelope) → Change s s' → Of id s l → Of id s' l
  Of-Change id l (kept e) o = λ c q. o c (rw e at q)
  Of-Change id {s} l (replaced j old new f v e) o = λ c q.
      let q' : (if j == id then some new else lookup id s.cases) ≡ some c =
        rw lookup-insert at (rw e at q) in
      elim (Bool-cases (j == id)) [
        | inl same ↦
            let r : some new ≡ some c = rw same at q' in
            let i : j ≡ id = (==_iff j id).0 same in
            let n : new ≡ c = cc in
            subst (λ z. z.correlation_id ≡ x) n
              (v.same_correlation ∙ o old (subst (λ k. lookup k s.cases ≡ some old) i f))
        | inr other ↦ o c (rw other at q')
      ]

  claim_sure :
      (n : ℕ) (id : Uuid) (at : ℕ)
      → Triple Never
          (λ s l. Count n s l × Of id s l × (is_open (lookup id s.cases) ≡ true))
          (on_store (claim_decision id at))
          (λ won s l. (won ≡ true) × Count n s l × Of id s l)
  claim_sure n id at = record {
    run = λ w (p, o, h).
        subst
          (λ r.
            Outcome Never (λ won s l. (won ≡ true) × Count n s l × Of id s l)
              (r, record w { store = (claim_decision id at w.store).1 }))
          (sym (claim_open id at w.store h))
          (refl, p, Of-Change id w.log (claim_decision-Change w.store id at) o);
  }

  apply_decision_sure :
      (n : ℕ) (c : ResolutionCase) (cause : Uuid)
      → c.correlation_id ≡ x
      → Triple Never
          (λ s l. Count n s l × Of c.case_id s l × (is_open (lookup c.case_id s.cases) ≡ true))
          (apply_decision env c cause)
          (λ u. Count (suc n))
  unfolding apply_decision
  apply_decision_sure n c cause own = bind (reads_ env.now) λ at.
      bind (claim_sure n c.case_id at) λ won.
        when_ won (λ w. weaken (λ s l h. (h.1, h.2)) (decide_and_emit_sure n c cause own))
          (λ lost s l h. absurd (contrary h.0 lost))

  outcome :
      (m : ℕ) (r : Result (Unit {0}) × World)
      → Outcome Never (λ u. Count m) r
      → (r.0 ≡ ok tt) × (decisions x r.1.log ≡ m)
  outcome m (ok a, w) o = (refl, o)
  outcome m (err e, w) o = absurd o

-- Where the broker takes every send, `_apply_decision` of a stored case that is neither decided nor
-- terminal raises no exception and publishes exactly one decision of the case's workflow.
pub apply_decision_emits :
    (env : Env) (c : ResolutionCase) (cause : Uuid) (w : World)
    → ((t : ℕ) → env.delivers t ≡ true)
    → lookup c.case_id w.store.cases ≡ some c
    → is_open (some c) ≡ true
    → ((apply_decision env c cause w).0 ≡ ok tt)
      × (decisions c.correlation_id (apply_decision env c cause w).1.log
          ≡ suc (decisions c.correlation_id w.log))
apply_decision_emits env c cause w up e open_ =
    let x = c.correlation_id in
    outcome x env up (suc (decisions x w.log)) (apply_decision env c cause w) (
      (apply_decision_sure x env up (decisions x w.log) c cause refl).run w (
        refl,
        (λ d q. let s : c ≡ d = some_same (sym e ∙ q) in ap (λ z. z.correlation_id) (sym s)),
        ap is_open e ∙ open_,
      ))
