-- ===== src/Control/State.antt =====
-- The state of one plan run of crates/argus-daemon/src/control.rs, with what it publishes and writes
-- to the ledger, and the fail-stop rollback. Durations and identifiers of the rows are left out.
use mathlib.Core.List.{reverse}
use argus_ai.Prelude.{
  ℕ, Bool, true, false, Option, none, some, List, [], ◌∷◌, ◌++◌, String, get_elem?,
}
use argus_ai.Prelude.Results.{Result, ok, err}
use argus_ai.Domain.{PlanStatus, failed, rolling_back, rolled_back, needs_manual, allow}
use argus_ai.Domain.Plan.{Action, PlanStep, Plan, Execution, ExecutionStatus, execution_failed}
use argus_ai.Policy.Autopilot.{Refusal}
use argus_ai.Policy.Bootstrap.{PolicyDecision}
use argus_ai.Control.Ports.{Ports, ActionError}
use argus_ai.Control.Effects.{Validation, execute_action}

-- crates/argus-domain/src/ledger.rs
pub data Verdict : Type 0 where
  verdict_allow verdict_deny verdict_requires_approval : Verdict

pub data RowOutcome : Type 0 where
  outcome_ok outcome_failed outcome_rolled_back outcome_denied outcome_awaiting_approval :
      RowOutcome

-- A paused plan, bound to its single-use token and its context hash.
pub record PendingPlan (V C : Type 0) : Type 0 where
  pub plan : Plan V C
  pub token : ℕ
  pub context_hash : String
  pub executed : List ℕ
  pub dedup_key : Option String

module _ (p : Ports) where
  open p use {V, W}

  pub data Event : Type 0 where
    plan_proposed : String → ℕ → Event
    plan_denied : String → Option Refusal → Event
    action_already_desired : V → Event
    action_executed : V → Event
    action_failed : ActionError → Event
    plan_failed plan_rolling_back plan_rolled_back plan_needs_manual : Event
    action_rolled_back : V → Event
    action_rollback_failed : ActionError → Event
    validated : Validation p → Event

  -- `ActionEventRecord`; the action carries its kind, its target and its arguments.
  pub record Row : Type 0 where
    pub action : Action V
    pub verdict : Verdict
    pub policy_id : Option String
    pub outcome : RowOutcome
    pub already_desired : Bool
    pub validation : Option (Validation p)

  -- The outcome of the run so far with the indices that took effect, and the world behind the ports.
  pub record Run : Type 0 where
    pub world : W
    pub events : List Event
    pub ledger : List Row
    pub executions : List (Execution V)
    pub denied : List String
    pub requires_approval : List String
    pub status : PlanStatus
    pub executed : List ℕ

  abbrev pub publish : Run → Event → Run
  publish r e = record r { events = r.events ++ e ∷ [] }

  abbrev pub row : Action V → Verdict → String → RowOutcome → Row
  row a verdict policy_id outcome = record {
    action = a;
    verdict = verdict;
    policy_id = some policy_id;
    outcome = outcome;
    already_desired = false;
    validation = none;
  }

  abbrev pub write : Run → Row → Run
  write r entry = record r { ledger = r.ledger ++ entry ∷ [] }

  abbrev pub executed_as : Run → Action V → ExecutionStatus → V → Run
  executed_as r a status evidence = record r {
    executions = r.executions ++ record { action = a; status = status; evidence = evidence } ∷ [];
  }

  unfoldable pub record_failure : Run → Action V → ActionError → Run
  record_failure r a e =
      let r1 = executed_as (publish r (action_failed e)) a execution_failed (p.error_evidence e) in
      publish (record r1 { status = failed }) plan_failed

  abbrev pub rollback_decision : PolicyDecision
  rollback_decision = record { outcome = allow; policy_id = "plan.rollback" }

  abbrev pub manual : Run → Run
  manual r = publish (record r { status = needs_manual }) plan_needs_manual

  abbrev pub undone : Run → Action V → W → V → Run
  undone r a w evidence =
      write (publish (record r { world = w }) (action_rolled_back evidence))
        (row a verdict_allow "plan.rollback" outcome_rolled_back)

  abbrev pub not_undone : Run → Action V → W → ActionError → Run
  not_undone r a w e = manual (
      write (publish (record r { world = w }) (action_rollback_failed e))
        (row a verdict_allow "plan.rollback" outcome_failed))

  -- The declared rollback of the step at an index. The code indexes the steps: an index past them
  -- panics there, and counts as a step with no rollback here.
  unfoldable pub rollback_of : List (PlanStep V) → ℕ → Option (Action V)
  rollback_of steps index = of_step (get_elem? steps index)
    where
      of_step : Option (PlanStep V) → Option (Action V)
      of_step none = none
      of_step (some step) = step.rollback

  -- After one rollback: the others, or nothing more.
  unfoldable pub after_rollback :
      Run → Action V → (Run → Run × Bool) → W × Result ActionError V → Run × Bool
  after_rollback r a others (w, ok evidence) = others (undone r a w evidence)
  after_rollback r a others (w, err e) = (not_undone r a w e, false)

  unfoldable pub undo_step : Run → Option (Action V) → (Run → Run × Bool) → Run × Bool
  unfolding after_rollback
  undo_step r none others = (manual r, false)
  undo_step r (some a) others =
      after_rollback r a others (execute_action p r.world a rollback_decision)

  -- The loop over the executed steps, newest first, and whether it went through.
  unfoldable pub roll_back : List (PlanStep V) → List ℕ → Run → Run × Bool
  unfolding undo_step
  roll_back steps [] r = (r, true)
  roll_back steps (index ∷ rest) r =
      undo_step r (rollback_of steps index) (λ r'. roll_back steps rest r')

  unfoldable pub finish_rollback : Run × Bool → Run
  finish_rollback (r, true) = publish (record r { status = rolled_back }) plan_rolled_back
  finish_rollback (r, false) = r

  unfoldable pub rollback_listed : List (PlanStep V) → List ℕ → Run → Run
  unfolding finish_rollback
  rollback_listed steps [] r = r
  rollback_listed steps (index ∷ rest) r = finish_rollback (
      roll_back steps (reverse (index ∷ rest))
        (publish (record r { status = rolling_back }) plan_rolling_back))

  unfoldable pub rollback_executed : List (PlanStep V) → Run → Run
  unfolding rollback_listed
  rollback_executed steps r = rollback_listed steps r.executed r
