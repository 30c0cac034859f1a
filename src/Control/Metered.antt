-- ===== src/Control/Metered.antt =====
-- What a plan run of crates/argus-daemon/src/control.rs spends of the budget.
use argus_ai.Prelude.{
  ℕ, ◌+◌, ◌≡◌, ◌∙◌, sym, Bool, true, false, not, ◌&&◌, none, List, [], ◌∷◌, eqb, string_eq, to_ℕ,
  if_elim, arith, suc,
}
use argus_ai.Prelude.Int.{ℤ}
use argus_ai.Domain.{AutonomyMode, PolicyOutcome, allow, deny, require_approval}
use argus_ai.Domain.Plan.{PlanStep, Plan}
use argus_ai.Domain.Registry.{CapabilityRegistry}
use argus_ai.Policy.Autopilot.{GovernanceDecision, allowed, refused}
use argus_ai.Policy.Bootstrap.{PolicyDecision}
use argus_ai.Control.Families.{may_execute_without_approval, escalation_bounded}
use argus_ai.Control.Ports.{Ports}
use argus_ai.Control.State.{Run}
use argus_ai.Control.Step.{governed_risk, escalation_permits, request_of, execute_allowed_step}
use argus_ai.Control.Execute.{execute_allowed_step-OneMore}
use argus_ai.Control.Meter.{Meter}
use argus_ai.Control.Admission.{run_of, run_of_step}
use argus_ai.Control.Loop.{
  StepResult, goes_on, ends, pauses, PlanRun, governed, by_authority, by_budget, allow_step,
  by_policy, policy_step, by_governor, adjustment_of, run_step, after_step, run_from, start,
  run_plan,
}
use argus_ai.Control.Charge.{charged, execute_allowed_step_spent, Balanced, settle-Balanced}

module _ (p : Ports) (meter : Meter p) (registry : CapabilityRegistry p.V) (plan : Plan p.V p.C)
    (autonomy : AutonomyMode) where
  open p use {V, C, W}
  open meter use {spent}

  by_authority-Balanced :
      (n index : ℕ) (step : PlanStep V) (decision : PolicyDecision) (now : ℤ) (r : Run p)
      → spent r.world ≡ suc (n + charged p r.executions)
      → Balanced p meter registry plan autonomy n (
          run_of_step (by_authority p registry plan autonomy false index step decision false now r))
  unfolding by_authority
  by_authority-Balanced n index step decision now r h =
      let refunded : spent
            (p.refund r.world (governed_risk registry step.action.capability) plan.blast_radius now)
          ≡ n + charged p r.executions =
        omega (
          arith,
          h,
          meter.spent-refund r.world (governed_risk registry step.action.capability)
              plan.blast_radius now,
        ) in
      if_elim (λ s. Balanced p meter registry plan autonomy n (run_of_step s))
        (may_execute_without_approval autonomy (governed_risk registry step.action.capability))
        (λ m.
          if_elim (λ s. Balanced p meter registry plan autonomy n (run_of_step s))
            (escalation_bounded autonomy && not (escalation_permits p registry plan autonomy step))
            (λ e. refunded)
            (λ e.
              settle-Balanced p meter registry plan autonomy n step.action now r
                (execute_allowed_step p registry plan autonomy index step.action decision r) h
                (execute_allowed_step_spent p meter registry plan autonomy index step.action
                  decision r)
                (execute_allowed_step-OneMore p registry plan autonomy index step.action decision
                  r)))
        (λ m. refunded)

  by_budget-Balanced :
      (n index : ℕ) (step : PlanStep V) (decision : PolicyDecision) (now : ℤ) (r : Run p)
      (x : W × Bool)
      → spent x.0 ≡ spent r.world + to_ℕ x.1
      → Balanced p meter registry plan autonomy n r
      → Balanced p meter registry plan autonomy n
          (run_of_step (by_budget p registry plan autonomy false index step decision now r x))
  unfolding by_budget
  by_budget-Balanced n index step decision now r (w, true) s h =
      by_authority-Balanced n index step decision now (record r { world = w }) (omega (arith, s, h))
  by_budget-Balanced n index step decision now r (w, false) s h = omega (arith, s, h)

  -- The policy does not stand in for an approval that was consumed.
  abbrev pub NoGrant : Type 0
  NoGrant =
      (step : PlanStep V)
      → eqb (p.evaluate (request_of p registry plan autonomy step)).policy_id "plan.approval"
        ≡ false

  policy_step-Balanced :
      (n index : ℕ) (step : PlanStep V) (r : Run p)
      → NoGrant
      → Balanced p meter registry plan autonomy n r
      → Balanced p meter registry plan autonomy n
          (run_of_step (policy_step p registry plan autonomy false index step r))
  unfolding policy_step by_policy allow_step
  policy_step-Balanced n index step r g h =
      by_outcome (p.evaluate (request_of p registry plan autonomy step)).outcome
    where
      by_outcome :
          (o : PolicyOutcome)
          → Balanced p meter registry plan autonomy n (
              run_of_step (
                by_policy p registry plan autonomy false index step
                  (p.evaluate (request_of p registry plan autonomy step))
                  o
                  r))
      by_outcome deny = h
      by_outcome require_approval = h
      by_outcome allow =
          if_elim (λ s. Balanced p meter registry plan autonomy n (run_of_step s))
            (eqb (p.evaluate (request_of p registry plan autonomy step)).policy_id "plan.approval")
            (λ e. absurd (let c : true ≡ false = sym e ∙ g step in ground arith))
            (λ e.
              by_budget-Balanced n index step _ (p.clock r.world) r _
                (meter.spent-reserve r.world (governed_risk registry step.action.capability)
                  plan.blast_radius (p.clock r.world))
                h)

  by_governor-Balanced :
      (n index : ℕ) (step : PlanStep V) (r : Run p) (x : W × GovernanceDecision)
      → NoGrant
      → spent x.0 ≡ spent r.world
      → Balanced p meter registry plan autonomy n r
      → Balanced p meter registry plan autonomy n
          (run_of_step (by_governor p registry plan autonomy false index step r x))
  unfolding by_governor
  by_governor-Balanced n index step r (w, allowed subject tier) g s h =
      policy_step-Balanced n index step (record r { world = w }) g (s ∙ h)
  by_governor-Balanced n index step r (w, refused why) g s h = s ∙ h

  run_step-Balanced :
      (n index : ℕ) (step : PlanStep V) (r : Run p)
      → NoGrant
      → Balanced p meter registry plan autonomy n r
      → Balanced p meter registry plan autonomy n
          (run_of_step (run_step p registry plan autonomy false index step r))
  unfolding run_step
  run_step-Balanced n index step r g h =
      if_elim (λ s. Balanced p meter registry plan autonomy n (run_of_step s))
        (governed p step.action.capability)
        (λ e.
          by_governor-Balanced n index step r _ g
            (meter.spent-govern r.world (adjustment_of p registry plan autonomy false step)) h)
        (λ e. policy_step-Balanced n index step r g h)

  after-Balanced :
      (n fresh : ℕ) (s : StepResult p) (others : Run p → PlanRun p)
      → ((r : Run p)
          → Balanced p meter registry plan autonomy n r
          → Balanced p meter registry plan autonomy n (run_of (others r)))
      → Balanced p meter registry plan autonomy n (run_of_step s)
      → Balanced p meter registry plan autonomy n
          (run_of (after_step p registry plan autonomy false fresh s others))
  unfolding after_step
  after-Balanced n fresh (goes_on r) others k h = k r h
  after-Balanced n fresh (ends r) others k h = h
  after-Balanced n fresh (pauses r) others k h = h

  run_from-Balanced :
      (n fresh index : ℕ) (steps : List (PlanStep V)) (r : Run p)
      → NoGrant
      → Balanced p meter registry plan autonomy n r
      → Balanced p meter registry plan autonomy n
          (run_of (run_from p registry plan autonomy false fresh index steps r))
  unfolding run_from
  run_from-Balanced n fresh index [] r g h = h
  run_from-Balanced n fresh index (step ∷ steps) r g h =
      after-Balanced n fresh (run_step p registry plan autonomy false index step r)
        (λ r'. run_from p registry plan autonomy false fresh (index + 1) steps r')
        (λ r' h'. run_from-Balanced n fresh (index + 1) steps r' g h')
        (run_step-Balanced n index step r g h)

  -- With a budget gate that counts its reservations, and a policy that never stands in for a consumed
  -- approval: when a first run finishes or pauses, the budget has been charged exactly once for each
  -- execution that the run records, less those that completed with evidence that their desired state
  -- was in place already. Steps that were denied or held back cost nothing.
  pub first_run_charged :
      (fresh : ℕ) (w : W)
      → NoGrant
      → let r = run_of (run_plan p registry plan autonomy none fresh w) in
        spent r.world ≡ spent w + charged p r.executions
  unfolding run_plan
  first_run_charged fresh w g =
      run_from-Balanced (spent w) fresh 0 plan.steps (start p registry plan [] w) g (omega arith)
