-- ===== src/Resolution/Handlers/Runs.antt =====
-- apps/agents/customer_resolution/event_handlers.py, reaper.py: runs of the result handlers and of
-- the reaper, and the decisions that they publish.
use decentralized_agentic_re.Prelude.{
  ℕ, ◌≤◌, ◌≡◌, true, Option, List, [], ◌∷◌, ◌⊎◌, inl, inr, arith,
}
use decentralized_agentic_re.Prelude.Dict.{Uuid}
use decentralized_agentic_re.Prelude.Exec.{Result, ok, err}
use decentralized_agentic_re.Contracts.{
  BillingRefundAnalysisCompletedPayload, RiskReviewCompletedPayload,
}
use decentralized_agentic_re.Resolution.Store.Settled.{settled_at}
use decentralized_agentic_re.Resolution.World.{Env, World, Handler}
use decentralized_agentic_re.Resolution.Handlers.{
  Incoming, billing_result_handler, risk_result_handler, reap,
}
use decentralized_agentic_re.Resolution.Handlers.Logic.{Outcome}
use decentralized_agentic_re.Resolution.Handlers.Once.{decisions, Owned, Good}
use decentralized_agentic_re.Resolution.Handlers.Claiming.{
  Inv, Kept, none_or_one, billing-Keeps, risk-Keeps, reap-Keeps,
}
use decentralized_agentic_re.Runtime.Messages.{TaskResult}
use decentralized_agentic_re.Resolution.Normalize.{Coercions}
use decentralized_agentic_re.Resolution.TaskResults.{result_handler}
use decentralized_agentic_re.Resolution.TaskResults.Keeps.{result-Keeps}

-- What wakes the agent: a billing result, a risk result, a generic task result of a peer, or a tick of
-- the reaper.
pub data Event : Type 0 where
  billing_arrives : Incoming → Option BillingRefundAnalysisCompletedPayload → Event
  risk_arrives : Incoming → Option RiskReviewCompletedPayload → Event
  task_result_arrives : Coercions → Incoming → Option TaskResult → Event
  reaper_wakes : Event

pub handle : Env → Event → Handler (Unit {0})
handle env (billing_arrives e p) = billing_result_handler env e p
handle env (risk_arrives e p) = risk_result_handler env e p
handle env (task_result_arrives co e r) = result_handler env co e r
handle env reaper_wakes = reap env

-- The world after the events, whether their handlers returned or raised.
pub handle_all : Env → List Event → World → World
handle_all env [] w = w
handle_all env (v ∷ vs) w = handle_all env vs (handle env v w).1

module _ (k x : Uuid) (spent : ℕ) (env : Env) where
  handle-Keeps : (v : Event) → Kept k x spent env (handle env v)
  unfolding handle
  handle-Keeps (billing_arrives e p) = billing-Keeps k x spent env e p
  handle-Keeps (risk_arrives e p) = risk-Keeps k x spent env e p
  handle-Keeps (task_result_arrives co e r) = result-Keeps k x spent env co e r
  handle-Keeps reaper_wakes = reap-Keeps k x spent env

  left :
      {A : Type 0} (r : Result A × World)
      → Outcome (Inv k x spent env) (λ a. Inv k x spent env) r
      → Good k x spent r.1.store r.1.log
  left (ok a, w) g = g
  left (err e, w) g = g

  handle_all-Good :
      (vs : List Event) (w : World)
      → Good k x spent w.store w.log
      → Good k x spent (handle_all env vs w).store (handle_all env vs w).log
  unfolding handle_all
  handle_all-Good [] w g = g
  handle_all-Good (v ∷ vs) w g =
      handle_all-Good vs (handle env v w).1 (left (handle env v w) ((handle-Keeps v).run w g))

-- Each case is stored under its own id, `k` alone has the correlation id `x`, and no decision of `x`
-- is out. Then whatever billing results, risk results, task results and reaper rounds follow, in
-- whatever order and number, and whichever sends the broker refuses, at most one decision of `x` is
-- out at the end; and if one is, the case `k` is decided or terminal.
pub decides_once :
    (k x : Uuid) (env : Env) (vs : List Event) (w : World)
    → Owned k x w.store.cases
    → decisions x w.log ≡ 0
    → (decisions x (handle_all env vs w).log ≤ 1)
      × ((decisions x (handle_all env vs w).log ≡ 0)
          ⊎ (settled_at k (handle_all env vs w).store ≡ true))
decides_once k x env vs w own none_yet =
    let g = handle_all-Good k x 0 env vs w (record {
      owned = own;
      once = omega (arith, none_yet);
      recorded = λ h. absurd (omega (arith, none_yet, h));
    }) in
    (
      omega (arith, g.once),
      elim (none_or_one (decisions x (handle_all env vs w).log)) [
        | inl z ↦ inl z
        | inr p ↦ inr (g.recorded (omega (arith, p)))
      ],
    )

-- Each case is stored under its own id, `k` alone has the correlation id `x`, the case `k` is decided
-- or terminal, and no decision of `x` is out. Then none follows, whatever billing results, risk
-- results, task results and reaper rounds come: a decision whose send failed after the claim is not sent again.
pub settled_stays_silent :
    (k x : Uuid) (env : Env) (vs : List Event) (w : World)
    → Owned k x w.store.cases
    → settled_at k w.store ≡ true
    → decisions x w.log ≡ 0
    → decisions x (handle_all env vs w).log ≡ 0
settled_stays_silent k x env vs w own settled none_yet =
    let g =
      handle_all-Good k x 1 env vs w
        (record { owned = own; once = omega (arith, none_yet); recorded = λ h. settled }) in
    omega (arith, g.once)
