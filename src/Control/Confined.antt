-- ===== src/Control/Confined.antt =====
-- What a plan that no operator approved can do, under the policy of crates/argus-policy/src/bootstrap.rs,
-- in the loop of crates/argus-daemon/src/control.rs.
use argus_ai.Prelude.{
  ℕ, ◌≡◌, ◌∙◌, sym, ap, subst, inl, inr, true, false, none, ◌≤◌, All, All-map, arith,
}
use argus_ai.Domain.{AutonomyMode, rank, RiskClass, allow}
use argus_ai.Domain.Plan.{PlanStep, Plan, Execution}
use argus_ai.Domain.Registry
use argus_ai.Domain.Registry.{CapabilityRegistry}
use argus_ai.Policy.Bootstrap.{
  AuthorizationRequest, BootstrapPolicyEvaluator, locally_permitted, evaluate,
}
use argus_ai.Control.Families.{may_execute_without_approval, is_up_to_controlled}
use argus_ai.Control.Ports.{Ports, RequestDetails}
use argus_ai.Control.Step.{governed_risk, request_of, approval_flag}
use argus_ai.Control.Admission.{run_of, Cleared, Authorized}
use argus_ai.Control.Authorized.{executions-Authorized}
use argus_ai.Control.Loop.{run_plan}

-- The matrix lets nothing above a controlled risk execute, and nothing below L3.
matrix_bounds :
    (autonomy : AutonomyMode) (risk : RiskClass)
    → may_execute_without_approval autonomy risk ≡ true
    → (is_up_to_controlled risk ≡ true) × (3 ≤ rank autonomy)
unfolding may_execute_without_approval rank
matrix_bounds autonomy risk h = (ground arith, ground arith)

-- The bootstrap policy allows what it permits, where no approval is required.
allowed_permitted :
    {R : Type 0} (policy : BootstrapPolicyEvaluator) (request : AuthorizationRequest R)
    → (evaluate policy request).outcome ≡ allow
    → (locally_permitted policy request.capability ≡ true) × (request.requires_approval ≡ false)
unfolding evaluate
allowed_permitted policy request h = (ground arith, ground arith)

module _ (p : Ports) (registry : CapabilityRegistry p.V) (plan : Plan p.V p.C)
    (autonomy : AutonomyMode) (policy : BootstrapPolicyEvaluator) where
  open p use {V, C, W}

  abbrev pub Confined : Execution V → Type 0
  Confined e =
      (locally_permitted policy e.action.capability ≡ true)
      × (approval_flag (Registry.get registry e.action.capability) ≡ false)
      × (is_up_to_controlled (governed_risk registry e.action.capability) ≡ true)
      × (3 ≤ rank autonomy)

  Cleared-Confined :
      (e : Execution V) (step : PlanStep V)
      → ((r : AuthorizationRequest (RequestDetails V)) → p.evaluate r ≡ evaluate policy r)
      → e.action ≡ step.action
      → Cleared p registry plan autonomy false step
      → Confined e
  unfolding request_of
  Cleared-Confined e step agrees q (o, m, _) =
      let request = request_of p registry plan autonomy step in
      let (permitted, free) =
        allowed_permitted policy request (sym (ap (λ d. d.outcome) (agrees request)) ∙ o) in
      let (low, level) = matrix_bounds autonomy (governed_risk registry step.action.capability) m in
      let c = ap (λ a. a.capability) (sym q) in
      (
        subst (λ n. locally_permitted policy n ≡ true) c permitted,
        subst (λ n. approval_flag (Registry.get registry n) ≡ false) c free,
        subst (λ n. is_up_to_controlled (governed_risk registry n) ≡ true) c low,
        level,
      )

  Authorized-Confined :
      ((r : AuthorizationRequest (RequestDetails V)) → p.evaluate r ≡ evaluate policy r)
      → (e : Execution V) → Authorized p registry plan autonomy false e
      → Confined e
  Authorized-Confined agrees e (step, _, q, _, inl cleared) =
      Cleared-Confined e step agrees q cleared
  Authorized-Confined agrees e (step, _, q, _, inr (resumed, _)) = absurd (ground arith)

  -- Under a bootstrap policy, every execution that a first run records, whether it finishes or pauses,
  -- is of a capability that the policy permits locally and that is registered as needing no approval;
  -- its risk is at most controlled, and the autonomy level at least L3. Rollbacks, which are part of
  -- the plan's authorization, are not among the executions.
  pub first_run-Confined :
      (fresh : ℕ) (w : W)
      → ((r : AuthorizationRequest (RequestDetails V)) → p.evaluate r ≡ evaluate policy r)
      → All Confined (run_of (run_plan p registry plan autonomy none fresh w)).executions
  first_run-Confined fresh w agrees =
      All-map (Authorized p registry plan autonomy false) Confined
        (run_of (run_plan p registry plan autonomy none fresh w)).executions
        (Authorized-Confined agrees) (executions-Authorized p registry plan autonomy none fresh w)
