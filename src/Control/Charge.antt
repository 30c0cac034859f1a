-- ===== src/Control/Charge.antt =====
-- What the execution of one step spends of the budget (crates/argus-daemon/src/control.rs).
use argus_ai.Prelude.{
  ℕ, ◌+◌, ◌≡◌, refl, ◌∙◌, sym, ap, subst, Bool, true, false, not, Option, none, some, List, [], ◌∷◌,
  ◌++◌, String, string_eq, to_ℕ, if_elim, arith, suc,
}
use argus_ai.Prelude.Int.{ℤ}
use argus_ai.Prelude.Results.{Result, ok, err}
use argus_ai.Domain.{AutonomyMode}
use argus_ai.Domain.Plan.{Action, Plan, Execution}
use argus_ai.Domain.Registry.{CapabilityRegistry}
use argus_ai.Policy.Bootstrap.{PolicyDecision}
use argus_ai.Control.Ports.{Ports, ActionError}
use argus_ai.Control.Effects.{Validation, desired_state_holds, execute_action, validate_step}
use argus_ai.Control.State.{
  Run, publish, write, row, verdict_allow, outcome_failed, action_executed, record_failure,
}
use argus_ai.Control.Step.{
  fail_step, publish_validation, by_effect, by_desired, governed_risk, execute_allowed_step,
}
use argus_ai.Control.Execute.{OneMore}
use argus_ai.Control.Meter.{Meter, execute_action-Keeps, spent-rollback_executed}
use argus_ai.Control.Admission.{run_of_step, terminal_run}
use argus_ai.Control.Loop.{is_no_op, last_is_no_op, settle}

module _ (p : Ports) where
  -- The executions that are charged: all but the no-ops.
  abbrev pub charged : List (Execution p.V) → ℕ
  charged [] = 0
  charged (e ∷ es) = to_ℕ (not (is_no_op p e)) + charged es

  charged-snoc :
      (es : List (Execution p.V)) (e : Execution p.V)
      → charged (es ++ e ∷ []) ≡ charged es + to_ℕ (not (is_no_op p e))
  charged-snoc [] e = omega arith
  charged-snoc (f ∷ es) e = omega (arith, charged-snoc es e)

  last_is_no_op-snoc :
      (es : List (Execution p.V)) (e : Execution p.V)
      → last_is_no_op p (es ++ e ∷ []) ≡ is_no_op p e
  unfolding last_is_no_op
  last_is_no_op-snoc [] e = refl
  last_is_no_op-snoc (f ∷ []) e = refl
  last_is_no_op-snoc (f ∷ g ∷ es) e = last_is_no_op-snoc (g ∷ es) e

  charged_by :
      (es es' : List (Execution p.V)) (e : Execution p.V) (b : Bool)
      → es' ≡ es ++ e ∷ []
      → last_is_no_op p es' ≡ b
      → charged es' ≡ charged es + to_ℕ (not b)
  charged_by es es' e b q h =
      let n : is_no_op p e ≡ b = sym (last_is_no_op-snoc es e) ∙ sym (ap (last_is_no_op p) q) ∙ h in
      ap charged q ∙ charged-snoc es e ∙ ap (λ c. charged es + to_ℕ (not c)) n

module _ (p : Ports) (meter : Meter p) (registry : CapabilityRegistry p.V) (plan : Plan p.V p.C)
    (autonomy : AutonomyMode) where
  open p use {V, C, W}
  open meter use {spent}

  fail_step_spent :
      (a : Action V) (policy_id : String) (e : ActionError) (r : Run p)
      → spent (fail_step p registry plan autonomy a policy_id e r).0.world ≡ spent r.world
  unfolding fail_step record_failure
  fail_step_spent a policy_id e r =
      spent-rollback_executed p meter plan.steps
        (write p (record_failure p r a e) (row p a verdict_allow policy_id outcome_failed))

  validation_spent :
      (r : Run p) (o : Option (Validation p))
      → spent (publish_validation p registry plan autonomy r o).world ≡ spent r.world
  unfolding publish_validation
  validation_spent r none = refl
  validation_spent r (some v) = refl

  by_effect_spent :
      (index : ℕ) (a : Action V) (policy_id : String) (r : Run p) (x : W × Result ActionError V)
      → spent x.0 ≡ spent r.world
      → spent (by_effect p registry plan autonomy index a policy_id r x).0.world ≡ spent r.world
  unfolding by_effect
  by_effect_spent index a policy_id r (w, ok evidence) h =
      validation_spent (publish p (record r { world = w }) (action_executed evidence))
        (validate_step p w a)
      ∙ h
  by_effect_spent index a policy_id r (w, err e) h =
      fail_step_spent a policy_id e (record r { world = w }) ∙ h

  by_desired_spent :
      (index : ℕ) (a : Action V) (decision : PolicyDecision) (r : Run p)
      (x : Result ActionError Bool)
      → spent (by_desired p registry plan autonomy index a decision r x).0.world ≡ spent r.world
  unfolding by_desired
  by_desired_spent index a decision r (ok true) = refl
  by_desired_spent index a decision r (ok false) =
      by_effect_spent index a decision.policy_id r (execute_action p r.world a decision)
        (execute_action-Keeps p meter r.world a decision)
  by_desired_spent index a decision r (err e) = fail_step_spent a decision.policy_id e r

  pub execute_allowed_step_spent :
      (index : ℕ) (a : Action V) (decision : PolicyDecision) (r : Run p)
      → spent (execute_allowed_step p registry plan autonomy index a decision r).0.world
        ≡ spent r.world
  unfolding execute_allowed_step
  execute_allowed_step_spent index a decision r =
      by_desired_spent index a decision r (desired_state_holds p r.world a)

  -- After a start at which `n` was spent, every charged execution has spent one more.
  abbrev pub Balanced : ℕ → Run p → Type 0
  Balanced n r = spent r.world ≡ n + charged p r.executions

  pub settle-Balanced :
      (n : ℕ) (a : Action V) (now : ℤ) (r : Run p) (x : Run p × Bool)
      → spent r.world ≡ suc (n + charged p r.executions)
      → spent x.0.world ≡ spent r.world
      → OneMore p registry plan autonomy a r x.0
      → Balanced n (run_of_step (settle p registry plan autonomy false false a now x))
  unfolding settle
  settle-Balanced n a now r (r', terminal) h s (e, ea, q) =
      subst (Balanced n) (sym (terminal_run p registry plan autonomy false (_, terminal))) (
        if_elim (Balanced n) (last_is_no_op p r'.executions)
          (λ b.
            let c = charged_by p r.executions r'.executions e true q b in
            let f =
              meter.spent-refund r'.world (governed_risk registry a.capability) plan.blast_radius
                now in
            omega (arith, f, c, s, h))
          (λ b.
            let c = charged_by p r.executions r'.executions e false q b in omega (arith, c, s, h)))
