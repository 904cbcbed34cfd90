-- ===== src/Resolution/Store/Claims.antt =====
-- apps/agents/customer_resolution/state_store.py: `claim_decision` among the interleaved store
-- operations of concurrent handlers.
use decentralized_agentic_re.Prelude.{
  ℕ, suc, ◌+◌, ◌≤◌, ◌≡◌, ◌≢◌, refl, ap, Bool, true, false, Option, some, String, arith, ◌⊎◌, ◌∙◌,
  Option-cases, Bool-cases, inl, inr, ==_refl, ==_iff, if◌then◌else◌,
}
use decentralized_agentic_re.Prelude.Dict.{Uuid, lookup, lookup-insert}
use decentralized_agentic_re.Prelude.Exec.{ok}
use decentralized_agentic_re.Contracts.{
  BillingRefundAnalysisCompletedPayload, RiskReviewCompletedPayload,
}
use decentralized_agentic_re.Resolution.Models.{
  ResolutionCase, CaseStatus, decided, response_drafted, is_terminal, can_transition,
  assert_transition,
}
use decentralized_agentic_re.Resolution.Store.{
  CaseStore, NewCase, Finding, get_or_create, save, transition, add_pending_task, apply_result,
  claim_decision, mark_slot_failed, park_billing_result, park_risk_result, set_deadline, is_settled,
  put,
}
use decentralized_agentic_re.Resolution.Store.Settled.{
  settled_at, settled-insert, moved, claim-settled, apply-settled, create-settled, add-settled,
  mark-settled, deadline-settled, transition-settled, save-settled, is_open, claim_wins,
}

-- One store operation or assignment to a stored case, and whether it is a claim of `k` that succeeded.
-- It is one that keeps a settled case settled: a save or an assignment is told to, and a move goes
-- anywhere but to `response_drafted`.
pub data Step (k : Uuid) (s s' : CaseStore) (won : Bool) : Type 0 where
  creates : (n : NewCase) → s' ≡ (get_or_create n s).1 → won ≡ false → Step k s s' won
  saves :
      (c : ResolutionCase) (expected : Option ℕ) (now : ℕ)
      → (settled_at k s ≡ true → c.case_id ≡ k → is_settled c.status ≡ true)
      → s' ≡ (save c expected now s).1
      → won ≡ false
      → Step k s s' won
  moves :
      (id : Uuid) (to : CaseStatus) (now : ℕ)
      → to ≢ response_drafted
      → s' ≡ (transition id to now s).1
      → won ≡ false
      → Step k s s' won
  assigns :
      (id : Uuid) (c d : ResolutionCase)
      → lookup id s.cases ≡ some c
      → (is_settled c.status ≡ true → is_settled d.status ≡ true)
      → s' ≡ put id d s
      → won ≡ false
      → Step k s s' won
  adds : (id task : Uuid) → s' ≡ (add_pending_task id task s).1 → won ≡ false → Step k s s' won
  applies :
      (id task : Uuid) (f : Finding) (now : ℕ)
      → s' ≡ (apply_result id task f now s).1
      → won ≡ false
      → Step k s s' won
  fails :
      (id task : Uuid) (is_billing : Bool) (reason : String) (now : ℕ)
      → s' ≡ (mark_slot_failed id task is_billing reason now s).1
      → won ≡ false
      → Step k s s' won
  parks_billing :
      (x : Uuid) (p : BillingRefundAnalysisCompletedPayload)
      → s' ≡ (park_billing_result x p s).1
      → won ≡ false
      → Step k s s' won
  parks_risk :
      (x : Uuid) (p : RiskReviewCompletedPayload)
      → s' ≡ (park_risk_result x p s).1
      → won ≡ false
      → Step k s s' won
  dates : (id : Uuid) (at : ℕ) → s' ≡ (set_deadline id at s).1 → won ≡ false → Step k s s' won
  claims :
      (now : ℕ)
      → (claim_decision k now s).0 ≡ ok won
      → s' ≡ (claim_decision k now s).1
      → Step k s s' won
  claims_other :
      (id : Uuid) (now : ℕ)
      → id ≢ k
      → s' ≡ (claim_decision id now s).1
      → won ≡ false
      → Step k s s' won

-- A run of such operations, with the number of claims of `k` that succeeded.
pub data Run (k : Uuid) (s : CaseStore) : CaseStore → ℕ → Type 0 where
  start : Run k s s 0
  step :
      {t u : CaseStore} {n m : ℕ} (won : Bool)
      → Run k s t n
      → Step k t u won
      → m ≡ n + (if won then 1 else 0)
      → Run k s u m

put-settled :
    (k id : Uuid) (c d : ResolutionCase) (s : CaseStore)
    → lookup id s.cases ≡ some c
    → (is_settled c.status ≡ true → is_settled d.status ≡ true)
    → settled_at k s ≡ true
    → settled_at k (put id d s) ≡ true
put-settled k id c d s e keep h = ground (arith, settled-insert k id d s.cases, ==_iff id k)

Step-settled :
    {k : Uuid} {s s' : CaseStore} {won : Bool}
    → Step k s s' won
    → settled_at k s ≡ true
    → settled_at k s' ≡ true
unfolding park_billing_result park_risk_result
Step-settled {k} {s} (creates n e w) h = rw e (create-settled k s h n)
Step-settled {k} {s} (saves c x now keep e w) h = rw e (save-settled k s h c x now (keep h))
Step-settled {k} {s} (moves id to now ne e w) h = rw e (transition-settled k s h id to now ne)
Step-settled {k} {s} (assigns id c d l keep e w) h = rw e (put-settled k id c d s l keep h)
Step-settled {k} {s} (adds id task e w) h = rw e (add-settled k s h id task)
Step-settled {k} {s} (applies id task f now e w) h = rw e (apply-settled k s h id task f now)
Step-settled {k} {s} (fails id task b reason now e w) h =
    rw e (mark-settled k s h id task b reason now)
Step-settled (parks_billing x p e w) h = rw e h
Step-settled (parks_risk x p e w) h = rw e h
Step-settled {k} {s} (dates id at e w) h = rw e (deadline-settled k s h id at)
Step-settled {k} {s} (claims now c e) h = rw e (claim-settled k s h k now)
Step-settled {k} {s} (claims_other id now ne e w) h = rw e (claim-settled k s h id now)

Step-won :
    {k : Uuid} {s s' : CaseStore} {won : Bool}
    → Step k s s' won
    → won ≡ true
    → (settled_at k s ≡ false) × (settled_at k s' ≡ true)
Step-won {k} {s} (claims now c e) t = rw e (claim_wins k now s (c ∙ ap ok t))
Step-won (creates n e w) t = cc
Step-won (saves c x now keep e w) t = cc
Step-won (moves id to now ne e w) t = cc
Step-won (assigns id c d l keep e w) t = cc
Step-won (adds id task e w) t = cc
Step-won (applies id task f now e w) t = cc
Step-won (fails id task b reason now e w) t = cc
Step-won (parks_billing x p e w) t = cc
Step-won (parks_risk x p e w) t = cc
Step-won (dates id at e w) t = cc
Step-won (claims_other id now ne e w) t = cc

Run-settled :
    {k : Uuid} {s s' : CaseStore} {n : ℕ}
    → Run k s s' n
    → settled_at k s ≡ true
    → settled_at k s' ≡ true
Run-settled start h = h
Run-settled (step won run st e) h = Step-settled st (Run-settled run h)

not_positive : (n : ℕ) → ¬ (1 ≤ n) → n ≡ 0
not_positive n h = omega arith

positive : (n : ℕ) → (n ≡ 0) ⊎ (1 ≤ n)
positive n = omega arith

not_both : {b : Bool} → b ≡ true → ¬ (b ≡ false)
not_both p q = cc

claim_adds :
    {n m : ℕ} {before_run before after : Bool}
    → m ≡ n + 1
    → (1 ≤ n → before ≡ true)
    → before ≡ false
    → after ≡ true
    → (before_run ≡ true → before ≡ true)
    → (m ≤ 1) × (1 ≤ m → after ≡ true) × (before_run ≡ true → m ≡ 0)
claim_adds {n} e kept b a run =
    let z : n ≡ 0 = not_positive n (λ h. not_both (kept h) b) in
    (omega arith, λ h. a, λ h. absurd (not_both (run h) b))

claims_bounded :
    {k : Uuid} {s s' : CaseStore} {n : ℕ}
    → Run k s s' n
    → (n ≤ 1) × (1 ≤ n → settled_at k s' ≡ true) × (settled_at k s ≡ true → n ≡ 0)
claims_bounded start = (omega arith, λ h. absurd (omega arith), λ h. refl)
claims_bounded (step true run st e) =
    let (le, kept, none_yet) = claims_bounded run in
    let (before, after) = Step-won st refl in
    claim_adds e kept before after (λ h. Run-settled run h)
claims_bounded (step false run st e) =
    let (le, kept, none_yet) = claims_bounded run in
    (omega arith, λ h. Step-settled st (kept (omega arith)), λ h. let z = none_yet h in omega arith)

-- In any interleaving of store operations and assignments in which no case is moved to
-- `response_drafted`, and no save or assignment takes a settled (decided or terminal) case back,
-- `claim_decision` succeeds at most once for a case. If it has succeeded, the case was open at the start
-- and is settled now.
pub claimed_once :
    {k : Uuid} {s s' : CaseStore} {n : ℕ}
    → Run k s s' n
    → (n ≤ 1) × ((n ≡ 0) ⊎ ((settled_at k s ≡ false) × (settled_at k s' ≡ true)))
claimed_once {k} {s} {n = n} run =
    let (le, kept, none_yet) = claims_bounded run in
    (
      le,
      elim (Bool-cases (settled_at k s)) [
        | inl settled ↦ inl (none_yet settled)
        | inr unsettled ↦ elim (positive n) [ inl z ↦ inl z | inr p ↦ inr (unsettled, kept p) ]
      ],
    )

pub claim_open :
    (k : Uuid) (now : ℕ) (s : CaseStore)
    → is_open (lookup k s.cases) ≡ true
    → (claim_decision k now s).0 ≡ ok true
unfolding claim_decision is_terminal
claim_open k now s h = ground arith

claim_refused :
    (k : Uuid) (now : ℕ) (s : CaseStore)
    → settled_at k s ≡ true
    → claim_decision k now s ≡ (ok false, s)
unfolding claim_decision is_terminal
claim_refused k now s h = ground arith

-- A claim of a stored case that is neither decided nor terminal succeeds. After it, in any
-- interleaving of store operations and assignments in which no case is moved to `response_drafted`, and
-- no save or assignment takes a settled (decided or terminal) case back, no claim of the case
-- succeeds, and one more claim answers `False` and changes nothing.
pub claim_first_wins :
    (k : Uuid) (now later : ℕ) (s : CaseStore) {s' : CaseStore} {n : ℕ}
    → is_open (lookup k s.cases) ≡ true
    → Run k (claim_decision k now s).1 s' n
    → ((claim_decision k now s).0 ≡ ok true)
      × (n ≡ 0)
      × (claim_decision k later s' ≡ (ok false, s'))
claim_first_wins k now later s {s'} h run =
    let won = claim_open k now s h in
    let settled = (claim_wins k now s won).1 in
    (won, (claims_bounded run).2 settled, claim_refused k later s' (Run-settled run settled))

claim_decides :
    (k : Uuid) (now : ℕ) (s : CaseStore)
    → is_open (lookup k s.cases) ≡ true
    → (c : ResolutionCase) × (lookup k (claim_decision k now s).1.cases ≡ some c)
      × (c.status ≡ decided)
unfolding claim_decision is_terminal
claim_decides k now s h = elim (Option-cases (lookup k s.cases)) [
  | inl e ↦ let q : false ≡ true = rw e at h in cc
  | inr (c, e) ↦ (
    record c { status = decided; updated_at = now; version = suc c.version },
    ground (
      arith,
      ==_refl k,
      lookup-insert k k (record c { status = decided; updated_at = now; version = suc c.version })
          s.cases,
    ),
    refl,
  )
]

drafting_opens :
    (k : Uuid) (now : ℕ) (s : CaseStore) (c : ResolutionCase)
    → lookup k s.cases ≡ some c
    → c.status ≡ decided
    → is_open (lookup k (transition k response_drafted now s).1.cases) ≡ true
unfolding transition assert_transition can_transition is_terminal
drafting_opens k now s c e d =
    ground (arith, ==_refl k, lookup-insert k k (moved response_drafted now c) s.cases)

-- After a case is claimed, a move to `response_drafted` opens it to the next claim: a second
-- `claim_decision` of the same case succeeds.
pub claimed_again :
    (k : Uuid) (now drafted later : ℕ) (s : CaseStore)
    → is_open (lookup k s.cases) ≡ true
    → ((claim_decision k now s).0 ≡ ok true)
      × ((claim_decision k later
            (transition k response_drafted drafted (claim_decision k now s).1).1).0
          ≡ ok true)
claimed_again k now drafted later s h =
    let (c, e, d) = claim_decides k now s h in
    (
      claim_open k now s h,
      claim_open k later (transition k response_drafted drafted (claim_decision k now s).1).1
          (drafting_opens k drafted (claim_decision k now s).1 c e d),
    )
