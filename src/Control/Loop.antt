-- ===== src/Control/Loop.antt =====
-- The step loop `run_plan` of crates/argus-daemon/src/control.rs.
-- A fresh token is an argument; of the run's correlation id nothing depends.
use text.Mathlib.Text.{starts_with}
use argus_ai.Prelude.{
  ℕ, ◌+◌, Bool, true, false, not, ◌&&◌, ◌||◌, Option, none, some, List, [], ◌∷◌, ◌++◌, String, ◌==◌,
  eqb, string_eq, length, is_empty, if◌then◌else◌,
}
use argus_ai.Prelude.Int.{ℤ}
use argus_ai.Domain.{
  AutonomyMode, PolicyOutcome, allow, deny, require_approval, completed, denied, executing,
  awaiting_approval,
}
use argus_ai.Domain.Plan.{
  Action, PlanStep, Plan, Execution, ExecutionStatus, execution_completed, execution_failed,
  fnv1a_hex,
}
use argus_ai.Domain.Registry.{CapabilityRegistry}
use argus_ai.Policy.Autopilot.{ResourceAdjustment, Refusal, GovernanceDecision, allowed, refused}
use argus_ai.Policy.Bootstrap.{PolicyDecision}
use argus_ai.Control.Families.{may_execute_without_approval, escalation_bounded}
use argus_ai.Control.Ports.{Ports}
use argus_ai.Control.Effects.{unwrap_or, action_target}
use argus_ai.Control.State.{
  verdict_deny, verdict_requires_approval, outcome_denied, outcome_awaiting_approval, PendingPlan,
  Run, plan_proposed, plan_denied, publish, write, row,
}
use argus_ai.Control.Step.{governed_risk, escalation_permits, request_of, execute_allowed_step}

abbrev pub contains : List ℕ → ℕ → Bool
contains [] i = false
contains (j ∷ js) i = j == i || contains js i

abbrev pub any_prefix : List String → String → Bool
any_prefix [] c = false
any_prefix (prefix ∷ rest) c = starts_with c prefix || any_prefix rest c

-- The policy's stand-in for a consumed grant.
abbrev pub granted_decision : PolicyDecision
granted_decision = record { outcome = allow; policy_id = "plan.approval" }

-- What the loop does after a step: goes on, ends, or pauses for an approval.
pub data StepResult (p : Ports) : Type 0 where
  goes_on ends pauses : Run p → StepResult p

pub data PlanRun (p : Ports) : Type 0 where
  finished : Run p → PlanRun p
  paused : Run p → PendingPlan p.V p.C → PlanRun p

module _ (p : Ports) where
  open p use {V, C, W}

  abbrev pub completed_no_op : ExecutionStatus → V → Bool
  completed_no_op execution_completed evidence = p.is_already_desired evidence
  completed_no_op execution_failed evidence = false

  abbrev pub is_no_op : Execution V → Bool
  is_no_op e = completed_no_op e.status e.evidence

  -- Whether the last execution is a no-op.
  unfoldable pub last_is_no_op : List (Execution V) → Bool
  last_is_no_op [] = false
  last_is_no_op (e ∷ []) = is_no_op e
  last_is_no_op (e ∷ f ∷ es) = last_is_no_op (f ∷ es)

  abbrev pub governed : String → Bool
  governed c = any_prefix p.governed_prefixes c

  abbrev pub refuse : Action V → String → Option Refusal → Run p → Run p
  refuse a policy_id why r =
      write p
        (publish p (record r { denied = r.denied ++ a.capability ∷ [] })
          (plan_denied a.capability why))
        (row p a verdict_deny policy_id outcome_denied)

  abbrev pub await_approval : Action V → String → Run p → Run p
  await_approval a policy_id r =
      write p r (row p a verdict_requires_approval policy_id outcome_awaiting_approval)

  abbrev pub require : Action V → Run p → Run p
  require a r = record r { requires_approval = r.requires_approval ++ a.capability ∷ [] }

  abbrev pub by_terminal : Run p × Bool → StepResult p
  by_terminal (r, true) = ends r
  by_terminal (r, false) = goes_on r

  unfoldable pub plan_context_hash : Plan V C → String
  plan_context_hash plan = fnv1a_hex (p.canonical plan)

  unfoldable pub pause_plan : ℕ → Plan V C → List ℕ → PendingPlan V C
  unfolding plan_context_hash
  pause_plan fresh plan executed = record {
    plan = record plan { status = awaiting_approval };
    token = fresh;
    context_hash = plan_context_hash plan;
    executed = executed;
    dedup_key = none;
  }

module _ (p : Ports) (registry : CapabilityRegistry p.V) (plan : Plan p.V p.C)
    (autonomy : AutonomyMode) (resumed : Bool) where
  open p use {V, C, W}

  -- Gives a reservation up, unless the step was backed by a grant and made none.
  abbrev pub surrender : Bool → Action V → ℤ → Run p → Run p
  surrender grant_backed a now r = if grant_backed then r else record r {
    world = p.refund r.world (governed_risk registry a.capability) plan.blast_radius now;
  }

  unfoldable pub settle : Bool → Action V → ℤ → Run p × Bool → StepResult p
  settle grant_backed a now (r, terminal) =
      by_terminal p
        (if last_is_no_op p r.executions then surrender grant_backed a now r else r, terminal)

  -- Once the budget has room: the autonomy matrix, the escalation decision, the execution.
  unfoldable pub by_authority : ℕ → PlanStep V → PolicyDecision → Bool → ℤ → Run p → StepResult p
  unfolding settle
  by_authority index step decision grant_backed now r =
      let a = step.action in
      if may_execute_without_approval autonomy (governed_risk registry a.capability)
      then (if escalation_bounded autonomy && not (escalation_permits p registry plan autonomy step)
          then pauses
              (await_approval p a decision.policy_id (require p a (surrender grant_backed a now r)))
          else settle grant_backed a now
              (execute_allowed_step p registry plan autonomy index a decision r))
      else goes_on (refuse p a "autonomy.matrix" none (surrender grant_backed a now r))

  unfoldable pub by_budget : ℕ → PlanStep V → PolicyDecision → ℤ → Run p → W × Bool → StepResult p
  unfolding by_authority
  by_budget index step decision now r (w, true) =
      by_authority index step decision false now (record r { world = w })
  by_budget index step decision now r (w, false) = pauses (
      await_approval p step.action "budget.exhausted"
        (require p step.action (record r { world = w })))

  unfoldable pub allow_step : ℕ → PlanStep V → PolicyDecision → Run p → StepResult p
  unfolding by_budget by_authority
  allow_step index step decision r =
      let now = p.clock r.world in
      if resumed || eqb decision.policy_id "plan.approval"
      then by_authority index step decision true now r
      else by_budget index step decision now r
          (p.reserve r.world (governed_risk registry step.action.capability) plan.blast_radius now)

  unfoldable pub by_policy : ℕ → PlanStep V → PolicyDecision → PolicyOutcome → Run p → StepResult p
  unfolding allow_step
  by_policy index step decision deny r = goes_on (refuse p step.action decision.policy_id none r)
  by_policy index step decision require_approval r =
      if resumed
      then by_terminal p
          (execute_allowed_step p registry plan autonomy index step.action granted_decision r)
      else pauses (await_approval p step.action decision.policy_id r)
  by_policy index step decision allow r = allow_step index step decision r

  unfoldable pub policy_step : ℕ → PlanStep V → Run p → StepResult p
  unfolding by_policy
  policy_step index step r =
      let decision = p.evaluate (request_of p registry plan autonomy step) in
      by_policy index step decision decision.outcome r

  unfoldable pub by_governor : ℕ → PlanStep V → Run p → W × GovernanceDecision → StepResult p
  unfolding policy_step
  by_governor index step r (w, allowed subject tier) =
      policy_step index step (record r { world = w })
  by_governor index step r (w, refused why) =
      goes_on (refuse p step.action "governor" (some why) (record r { world = w }))

  -- Of the reason, which is prose, the plan's objective is kept.
  abbrev pub adjustment_of : PlanStep V → ResourceAdjustment
  adjustment_of step = record {
    subject = unwrap_or (action_target p step.action) "";
    capability = step.action.capability;
    reason = plan.objective;
  }

  unfoldable pub run_step : ℕ → PlanStep V → Run p → StepResult p
  unfolding by_governor policy_step
  run_step index step r =
      if resumed && contains r.executed index
      then goes_on r
      else (if governed p step.action.capability
          then by_governor index step r (p.govern r.world (adjustment_of step))
          else policy_step index step r)

  abbrev pub finish : Run p → Run p
  finish r = record r { status = if is_empty r.executions then denied else completed }

  unfoldable pub after_step : ℕ → StepResult p → (Run p → PlanRun p) → PlanRun p
  after_step fresh (goes_on r) others = others r
  after_step fresh (ends r) others = finished r
  after_step fresh (pauses r) others = paused r (pause_plan p fresh plan r.executed)

  unfoldable pub run_from : ℕ → ℕ → List (PlanStep V) → Run p → PlanRun p
  unfolding after_step
  run_from fresh index [] r = finished (finish r)
  run_from fresh index (step ∷ steps) r =
      after_step fresh (run_step index step r) (λ r'. run_from fresh (index + 1) steps r')

module _ (p : Ports) (registry : CapabilityRegistry p.V) where
  open p use {V, C, W}

  abbrev pub start : Plan V C → List ℕ → W → Run p
  start plan executed w = record {
    world = w;
    events = plan_proposed plan.objective (length plan.steps) ∷ [];
    ledger = [];
    executions = [];
    denied = [];
    requires_approval = [];
    status = executing;
    executed = executed;
  }

  -- `run_plan` for a first run and for a resume with the indices executed before the pause.
  unfoldable pub run_plan : Plan V C → AutonomyMode → Option (List ℕ) → ℕ → W → PlanRun p
  unfolding run_from
  run_plan plan autonomy none fresh w =
      run_from p registry plan autonomy false fresh 0 plan.steps (start plan [] w)
  run_plan plan autonomy (some executed) fresh w =
      run_from p registry plan autonomy true fresh 0 plan.steps (start plan executed w)

  unfoldable pub authorize_and_run : Plan V C → AutonomyMode → ℕ → W → PlanRun p
  authorize_and_run plan autonomy fresh w = run_plan plan autonomy none fresh w
