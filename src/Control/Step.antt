-- ===== src/Control/Step.antt =====
-- One step of a plan (crates/argus-daemon/src/control.rs): the risk and the request that it is
-- governed by, the escalation decision on it, and its execution once it is allowed.
use argus_ai.Prelude.{
  ℕ, Bool, true, false, not, ◌||◌, Option, none, some, [], ◌∷◌, ◌++◌, String, eqb, string_eq,
  if◌then◌else◌,
}
use argus_ai.Prelude.Results.{Result, ok, err}
use argus_ai.Domain.{AutonomyMode, RiskClass, read, BlastRadius, allow}
use argus_ai.Domain.Plan.{Action, PlanStep, Plan, execution_completed}
use argus_ai.Domain.Registry
use argus_ai.Domain.Registry.{CapabilityDescriptor, CapabilityRegistry}
use argus_ai.Policy.Escalation.{
  Escalation, auto_fix, adequate, standard, production, decide_escalation,
}
use argus_ai.Policy.Bootstrap.{AuthorizationRequest, PolicyDecision}
use argus_ai.Control.Families.{is_mcp_capability, risk_for}
use argus_ai.Control.Ports.{Ports, RequestDetails, ActionError}
use argus_ai.Control.Effects.{
  Validation, validation_passed, validation_failed, validation_read_failed, execute_action,
  desired_state_holds, validate_step,
}
use argus_ai.Control.State.{
  verdict_allow, outcome_ok, outcome_failed, Run, action_already_desired, action_executed,
  validated, publish, write, row, executed_as, record_failure, rollback_executed,
}

abbrev is_auto_fix : Escalation → Bool
is_auto_fix auto_fix = true
is_auto_fix _ = false

abbrev is_read : RiskClass → Bool
is_read read = true
is_read _ = false

-- The risk and scope that a registered descriptor with a scope declares, or those of the plan.
abbrev declared_scope :
    Option BlastRadius → RiskClass → RiskClass × BlastRadius → RiskClass × BlastRadius
declared_scope none risk default = default
declared_scope (some scope) risk default = (risk, scope)

module _ {V : Type 0} where
  abbrev descriptor_risk : Option (CapabilityDescriptor V) → RiskClass → RiskClass
  descriptor_risk none risk = risk
  descriptor_risk (some d) risk = d.risk_class

  unfoldable pub governed_risk : CapabilityRegistry V → String → RiskClass
  governed_risk registry c =
      if is_mcp_capability c
      then descriptor_risk (Registry.get registry c) (risk_for c)
      else risk_for c

  -- An unregistered capability requires an approval.
  abbrev pub approval_flag : Option (CapabilityDescriptor V) → Bool
  approval_flag none = true
  approval_flag (some d) = d.requires_approval

  -- Whether the step's rollback is another capability than its action.
  abbrev undoes : Option (Action V) → String → Bool
  undoes none c = false
  undoes (some r) c = not (eqb r.capability c)

  abbrev declared :
      Option (CapabilityDescriptor V) → RiskClass × BlastRadius → RiskClass × BlastRadius
  declared none default = default
  declared (some d) default = declared_scope d.blast_radius d.risk_class default

module _ (p : Ports) (registry : CapabilityRegistry p.V) (plan : Plan p.V p.C)
    (autonomy : AutonomyMode) where
  open p use {V, C, W}

  unfoldable pub escalation_permits : PlanStep V → Bool
  escalation_permits step =
      let c = step.action.capability in
      let risk = governed_risk registry c in
      let (risk', scope) = declared (Registry.get registry c) (risk, plan.blast_radius) in
      is_auto_fix (
        decide_escalation p.f32 (record {
          evidence_quality = adequate;
          confidence = p.to_f32 plan.confidence;
          reversible = undoes step.rollback c || is_read risk;
          blast_radius = scope;
          risk = risk';
          criticality = standard;
          environment = production;
          historical_success = none;
          autonomy = autonomy;
          policy = allow;
        }))

  unfoldable pub request_of : PlanStep V → AuthorizationRequest (RequestDetails V)
  request_of step = record {
    capability = step.action.capability;
    rest = record {
      resource = step.action.resource;
      arguments = step.action.arguments;
      risk_class = governed_risk registry step.action.capability;
      blast_radius = plan.blast_radius;
    };
    requires_approval = approval_flag (Registry.get registry step.action.capability);
  }

  -- The desired-state check, then the effect; the run, and whether it reached a terminal status.
  unfoldable pub fail_step : Action V → String → ActionError → Run p → Run p × Bool
  fail_step a policy_id e r =
      let r1 = write p (record_failure p r a e) (row p a verdict_allow policy_id outcome_failed) in
      (rollback_executed p plan.steps r1, true)

  unfoldable pub publish_validation : Run p → Option (Validation p) → Run p
  publish_validation r none = r
  publish_validation r (some v) = publish p r (validated v)

  -- What goes on the ledger row: a failed read is published, and leaves the row without one.
  abbrev pub reported : Option (Validation p) → Option (Validation p)
  reported none = none
  reported (some (validation_passed target observed desired)) =
      some (validation_passed target observed desired)
  reported (some (validation_failed target observed desired)) =
      some (validation_failed target observed desired)
  reported (some (validation_read_failed target e)) = none

  unfoldable pub by_effect : ℕ → Action V → String → Run p → W × Result ActionError V → Run p × Bool
  unfolding fail_step publish_validation
  by_effect index a policy_id r (w, ok evidence) =
      let r1 = publish p (record r { world = w }) (action_executed evidence) in
      let validation = validate_step p w a in
      let r2 =
        write p (publish_validation r1 validation)
          (record (row p a verdict_allow policy_id outcome_ok) {
            validation = reported validation;
          }) in
      let r3 = executed_as p r2 a execution_completed evidence in
      (record r3 { executed = r3.executed ++ index ∷ [] }, false)
  by_effect index a policy_id r (w, err e) = fail_step a policy_id e (record r { world = w })

  unfoldable pub by_desired :
      ℕ → Action V → PolicyDecision → Run p → Result ActionError Bool → Run p × Bool
  unfolding by_effect fail_step
  by_desired index a decision r (ok true) =
      let r1 = publish p r (action_already_desired p.already_desired) in
      let r2 =
        write p r1 (record (row p a verdict_allow decision.policy_id outcome_ok) {
          already_desired = true;
        }) in
      (executed_as p r2 a execution_completed p.already_desired, false)
  by_desired index a decision r (ok false) =
      by_effect index a decision.policy_id r (execute_action p r.world a decision)
  by_desired index a decision r (err e) = fail_step a decision.policy_id e r

  unfoldable pub execute_allowed_step : ℕ → Action V → PolicyDecision → Run p → Run p × Bool
  unfolding by_desired
  execute_allowed_step index a decision r =
      by_desired index a decision r (desired_state_holds p r.world a)
