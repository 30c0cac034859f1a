-- ===== src/Control/Admission.antt =====
-- What a step must pass before the loop of crates/argus-daemon/src/control.rs executes it.
use mathlib.Core.List.{Memᴰ}
use argus_ai.Prelude.{
  ℕ, ◌≡◌, refl, ◌∙◌, ap, ◌⊎◌, inl, inr, Bool, true, false, not, ◌&&◌, ◌||◌, String, eqb, string_eq,
  if_elim,
}
use argus_ai.Prelude.Int.{ℤ}
use argus_ai.Domain.{AutonomyMode, PolicyOutcome, allow, deny, require_approval}
use argus_ai.Domain.Plan.{Action, PlanStep, Plan, Execution}
use argus_ai.Domain.Registry.{CapabilityRegistry}
use argus_ai.Policy.Autopilot.{GovernanceDecision, allowed, refused}
use argus_ai.Policy.Bootstrap.{PolicyDecision}
use argus_ai.Policy.Escalation.{Criticality}
use argus_ai.Control.Families.{may_execute_without_approval, escalation_bounded}
use argus_ai.Control.Ports.{Ports}
use argus_ai.Control.State.{Run}
use argus_ai.Control.Step.{governed_risk, escalation_permits, request_of, execute_allowed_step}
use argus_ai.Control.Execute.{OneMore, execute_allowed_step-OneMore}
use argus_ai.Control.Loop.{
  StepResult, goes_on, ends, pauses, PlanRun, finished, paused, contains, granted_decision,
  last_is_no_op, governed, by_terminal, surrender, settle, by_authority, by_budget, allow_step,
  by_policy, policy_step, by_governor, adjustment_of, run_step,
}

module _ {p : Ports} where
  abbrev pub run_of_step : StepResult p → Run p
  run_of_step (goes_on r) = r
  run_of_step (ends r) = r
  run_of_step (pauses r) = r

  abbrev pub run_of : PlanRun p → Run p
  run_of (finished r) = r
  run_of (paused r pending) = r

module _ (p : Ports) (registry : CapabilityRegistry p.V) (plan : Plan p.V p.C)
    (autonomy : AutonomyMode) (resumed : Bool) where
  open p use {V, C, W}

  -- The policy allows the step, the autonomy matrix lets its risk execute, and at a mode that the
  -- escalation decision bounds this decision permits it.
  abbrev pub Cleared : PlanStep V → Type 0
  Cleared step =
      ((p.evaluate (request_of p registry plan autonomy step)).outcome ≡ allow)
      × (may_execute_without_approval autonomy (governed_risk registry step.action.capability)
          ≡ true)
      × ((escalation_bounded autonomy && not (escalation_permits p registry plan autonomy step))
          ≡ false)

  -- An operator approved the plan, and the policy asks for no more.
  abbrev pub Approved : PlanStep V → Type 0
  Approved step =
      (resumed ≡ true)
      × ((p.evaluate (request_of p registry plan autonomy step)).outcome ≡ require_approval)

  -- The governor admitted the adjustment, where the capability is governed.
  abbrev pub Governed : PlanStep V → Type 0
  Governed step =
      (governed p step.action.capability ≡ false)
      ⊎ ((w w' : W) × (subject : String) × (tier : Criticality) × (p.govern w
              (adjustment_of p registry plan autonomy resumed step)
            ≡ (w', allowed subject tier)))

  abbrev pub Authorized : Execution V → Type 0
  Authorized e =
      (step : PlanStep V) × Memᴰ step plan.steps
      × (e.action ≡ step.action)
      × Governed step
      × (Cleared step ⊎ Approved step)

  -- What one step does to the executions of a run: nothing, or one more of its action.
  abbrev pub Outcome : (PlanStep V → Type 0) → PlanStep V → Run p → StepResult p → Type 0
  Outcome Passed step r s =
      ((run_of_step s).executions ≡ r.executions)
      ⊎ (Passed step × OneMore p registry plan autonomy step.action r (run_of_step s))

  pub terminal_run : (x : Run p × Bool) → run_of_step (by_terminal p x) ≡ x.0
  terminal_run (r, true) = refl
  terminal_run (r, false) = refl

  surrender_executions :
      (grant_backed : Bool) (a : Action V) (now : ℤ) (r : Run p)
      → (surrender p registry plan autonomy resumed grant_backed a now r).executions ≡ r.executions
  surrender_executions true a now r = refl
  surrender_executions false a now r = refl

  settle_executions :
      (grant_backed : Bool) (a : Action V) (now : ℤ) (x : Run p × Bool)
      → (run_of_step (settle p registry plan autonomy resumed grant_backed a now x)).executions
        ≡ x.0.executions
  unfolding settle
  settle_executions grant_backed a now (r, terminal) =
      ap (λ r'. r'.executions) (terminal_run (_, terminal))
      ∙ if_elim (λ (r' : Run p). r'.executions ≡ r.executions) (last_is_no_op p r.executions)
          (λ h. surrender_executions grant_backed a now r) (λ h. refl)

  by_authority-Outcome :
      (index : ℕ) (step : PlanStep V) (decision : PolicyDecision) (grant_backed : Bool) (now : ℤ)
      (r : Run p)
      → (p.evaluate (request_of p registry plan autonomy step)).outcome ≡ allow
      → Outcome Cleared step r
          (by_authority p registry plan autonomy resumed index step decision grant_backed now r)
  unfolding by_authority
  by_authority-Outcome index step decision grant_backed now r e =
      if_elim (Outcome Cleared step r)
        (may_execute_without_approval autonomy (governed_risk registry step.action.capability))
        (λ m.
          if_elim (Outcome Cleared step r)
            (escalation_bounded autonomy && not (escalation_permits p registry plan autonomy step))
            (λ h. inl (surrender_executions grant_backed step.action now r))
            (λ h.
              let (x, a, o) =
                execute_allowed_step-OneMore p registry plan autonomy index step.action decision
                  r in
              inr (
                (e, m, h),
                (
                  x,
                  a,
                  settle_executions grant_backed step.action now
                        (execute_allowed_step p registry plan autonomy index step.action decision r)
                      ∙ o,
                ),
              )))
        (λ m. inl (surrender_executions grant_backed step.action now r))

  widen :
      (A B : PlanStep V → Type 0) (step : PlanStep V) (r : Run p) (s : StepResult p)
      → (A step → B step)
      → Outcome A step r s
      → Outcome B step r s
  widen A B step r s f (inl e) = inl e
  widen A B step r s f (inr (a, o)) = inr (f a, o)

  -- Either way the policy lets a step execute.
  abbrev pub Admitted : PlanStep V → Type 0
  Admitted step = Cleared step ⊎ Approved step

  by_budget-Outcome :
      (index : ℕ) (step : PlanStep V) (decision : PolicyDecision) (now : ℤ) (r : Run p)
      (x : W × Bool)
      → (p.evaluate (request_of p registry plan autonomy step)).outcome ≡ allow
      → Outcome Cleared step r
          (by_budget p registry plan autonomy resumed index step decision now r x)
  unfolding by_budget
  by_budget-Outcome index step decision now r (w, true) e =
      by_authority-Outcome index step decision false now (record r { world = w }) e
  by_budget-Outcome index step decision now r (w, false) e = inl refl

  allow_step-Outcome :
      (index : ℕ) (step : PlanStep V) (decision : PolicyDecision) (r : Run p)
      → (p.evaluate (request_of p registry plan autonomy step)).outcome ≡ allow
      → Outcome Cleared step r (allow_step p registry plan autonomy resumed index step decision r)
  unfolding allow_step
  allow_step-Outcome index step decision r e =
      if_elim (Outcome Cleared step r) (resumed || eqb decision.policy_id "plan.approval")
        (λ h. by_authority-Outcome index step decision true (p.clock r.world) r e)
        (λ h. by_budget-Outcome index step decision (p.clock r.world) r _ e)

  by_policy-Outcome :
      (index : ℕ) (step : PlanStep V) (decision : PolicyDecision) (o : PolicyOutcome) (r : Run p)
      → (p.evaluate (request_of p registry plan autonomy step)).outcome ≡ o
      → Outcome Admitted step r (by_policy p registry plan autonomy resumed index step decision o r)
  unfolding by_policy
  by_policy-Outcome index step decision deny r e = inl refl
  by_policy-Outcome index step decision require_approval r e =
      if_elim (Outcome Admitted step r) resumed
        (λ h.
          let x =
            execute_allowed_step p registry plan autonomy index step.action granted_decision r in
          let (y, a, q) =
            execute_allowed_step-OneMore p registry plan autonomy index step.action granted_decision
              r in
          inr (inr (h, e), (y, a, ap (λ r'. r'.executions) (terminal_run x) ∙ q)))
        (λ h. inl refl)
  by_policy-Outcome index step decision allow r e =
      widen Cleared Admitted step r
        (allow_step p registry plan autonomy resumed index step decision r) inl
        (allow_step-Outcome index step decision r e)

  policy_step-Outcome :
      (index : ℕ) (step : PlanStep V) (r : Run p)
      → Outcome Admitted step r (policy_step p registry plan autonomy resumed index step r)
  unfolding policy_step
  policy_step-Outcome index step r =
      by_policy-Outcome index step (p.evaluate (request_of p registry plan autonomy step)) _ r refl

  -- The governor's answer for the step is one that it gave.
  by_governor-Outcome :
      (index : ℕ) (step : PlanStep V) (r : Run p) (w : W) (x : W × GovernanceDecision)
      → p.govern w (adjustment_of p registry plan autonomy resumed step) ≡ x
      → Outcome
          (λ s. Governed s × Admitted s)
          step
          r
          (by_governor p registry plan autonomy resumed index step r x)
  unfolding by_governor
  by_governor-Outcome index step r w (w', allowed subject tier) e =
      widen Admitted (λ s. Governed s × Admitted s) step (record r { world = w' })
        (policy_step p registry plan autonomy resumed index step (record r { world = w' }))
        (λ a. (inr (w, w', subject, tier, e), a))
        (policy_step-Outcome index step (record r { world = w' }))
  by_governor-Outcome index step r w (w', refused why) e = inl refl

  pub run_step-Outcome :
      (index : ℕ) (step : PlanStep V) (r : Run p)
      → Outcome
          (λ s. Governed s × Admitted s)
          step
          r
          (run_step p registry plan autonomy resumed index step r)
  unfolding run_step
  run_step-Outcome index step r =
      if_elim (Outcome (λ s. Governed s × Admitted s) step r) (resumed && contains r.executed index)
        (λ h. inl refl)
        (λ h.
          if_elim (Outcome (λ s. Governed s × Admitted s) step r)
            (governed p step.action.capability)
            (λ g. by_governor-Outcome index step r r.world _ refl)
            (λ g.
              widen Admitted (λ s. Governed s × Admitted s) step r
                (policy_step p registry plan autonomy resumed index step r) (λ a. (inl g, a))
                (policy_step-Outcome index step r)))
