-- ===== src/Control/Execute.antt =====
-- What the execution of one allowed step records (crates/argus-daemon/src/control.rs).
use argus_ai.Prelude.{
  ℕ, ◌≡◌, refl, ap, Bool, true, false, Option, none, some, [], ◌∷◌, ◌++◌, String,
}
use argus_ai.Prelude.Results.{Result, ok, err}
use argus_ai.Domain.{AutonomyMode}
use argus_ai.Domain.Plan.{Action, Plan, Execution, execution_completed}
use argus_ai.Domain.Registry.{CapabilityRegistry}
use argus_ai.Policy.Bootstrap.{PolicyDecision}
use argus_ai.Control.Ports.{Ports, ActionError}
use argus_ai.Control.Effects.{Validation, desired_state_holds, execute_action, validate_step}
use argus_ai.Control.State.{
  Run, publish, write, row, verdict_allow, outcome_failed, action_executed, record_failure,
}
use argus_ai.Control.Step.{
  fail_step, publish_validation, by_effect, by_desired, execute_allowed_step,
}
use argus_ai.Control.Rollback.{rollback-executions}

module _ (p : Ports) (registry : CapabilityRegistry p.V) (plan : Plan p.V p.C)
    (autonomy : AutonomyMode) where
  open p use {V, C, W}

  -- Exactly one execution more than the run before, and it is of the action.
  abbrev pub OneMore : Action V → Run p → Run p → Type 0
  OneMore a r r' = (e : Execution V) × (e.action ≡ a) × (r'.executions ≡ r.executions ++ e ∷ [])

  fail_step-OneMore :
      (a : Action V) (policy_id : String) (e : ActionError) (r : Run p)
      → OneMore a r (fail_step p registry plan autonomy a policy_id e r).0
  unfolding fail_step record_failure
  fail_step-OneMore a policy_id e r = (
    _,
    refl,
    (rollback-executions p plan.steps
        (write p (record_failure p r a e) (row p a verdict_allow policy_id outcome_failed))).0,
  )

  validation_executions :
      (r : Run p) (o : Option (Validation p))
      → (publish_validation p registry plan autonomy r o).executions ≡ r.executions
  unfolding publish_validation
  validation_executions r none = refl
  validation_executions r (some v) = refl

  effect-OneMore :
      (index : ℕ) (a : Action V) (policy_id : String) (r : Run p) (x : W × Result ActionError V)
      → OneMore a r (by_effect p registry plan autonomy index a policy_id r x).0
  unfolding by_effect
  effect-OneMore index a policy_id r (w, ok evidence) = (
    record { action = a; status = execution_completed; evidence = evidence },
    refl,
    ap (λ es. es ++ record { action = a; status = execution_completed; evidence = evidence } ∷ [])
        (validation_executions (publish p (record r { world = w }) (action_executed evidence))
          (validate_step p w a)),
  )
  effect-OneMore index a policy_id r (w, err e) =
      fail_step-OneMore a policy_id e (record r { world = w })

  desired-OneMore :
      (index : ℕ) (a : Action V) (decision : PolicyDecision) (r : Run p)
      (x : Result ActionError Bool)
      → OneMore a r (by_desired p registry plan autonomy index a decision r x).0
  unfolding by_desired
  desired-OneMore index a decision r (ok true) = (_, refl, refl)
  desired-OneMore index a decision r (ok false) =
      effect-OneMore index a decision.policy_id r (execute_action p r.world a decision)
  desired-OneMore index a decision r (err e) = fail_step-OneMore a decision.policy_id e r

  pub execute_allowed_step-OneMore :
      (index : ℕ) (a : Action V) (decision : PolicyDecision) (r : Run p)
      → OneMore a r (execute_allowed_step p registry plan autonomy index a decision r).0
  unfolding execute_allowed_step
  execute_allowed_step-OneMore index a decision r =
      desired-OneMore index a decision r (desired_state_holds p r.world a)
