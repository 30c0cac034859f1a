-- ===== src/Tests/Control.antt =====
-- Runs of plans of crates/argus-daemon/src/control.rs on a concrete host.
use argus_ai.Prelude.{
  ℕ, ◌+◌, ◌≡◌, refl, false, none, [], ◌∷◌, String, All, eqb, string_eq, nat_eq, if_elim,
}
use argus_ai.Prelude.Int.{pos}
use argus_ai.Domain.{l3_assisted, l4_autonomous}
use argus_ai.Domain.Plan.{Plan, fnv1a_hex}
use argus_ai.Domain.Registry
use argus_ai.Domain.Registry.{
  CapabilityDescriptor, CapabilityRegistry, reversible, landlock, is_satisfied_by, missing_from,
  includes, contains, ungranted, register, unregister_server, with_prefix, remove_each,
  with_sandbox, server_prefix,
}
use argus_ai.Policy.Bootstrap
use argus_ai.Policy.Bootstrap.{
  AuthorizationRequest, PolicyDecision, with_local_remediation, locally_permitted,
}
use argus_ai.Control.State.{Run, PendingPlan, rollback_executed}
use argus_ai.Control.Rollback.{IsRolledBack, rollback_executed-Trail}
use argus_ai.Control.Resume.{no_grant, resume_refused, resume_and_run}
use argus_ai.Control.Resumption.{is_panic, resume_finishes, resume_once}
use argus_ai.Policy.Approval
use argus_ai.Policy.Approval.{ApprovalStore, granted}
use argus_ai.Control.Charge.{charged}
use argus_ai.Control.Admission.{run_of, Authorized}
use argus_ai.Control.Confined.{Confined, first_run-Confined}
use argus_ai.Control.Authorized.{executions-Authorized}
use argus_ai.Control.Loop.{
  run_plan, start, pause_plan, plan_context_hash, after_step, run_step, policy_step, by_policy,
  allow_step, by_budget, by_authority, settle, last_is_no_op,
}
use argus_ai.Control.Step.{
  execute_allowed_step, by_desired, by_effect, publish_validation, request_of, governed_risk,
}
use argus_ai.Control.Effects.{
  validate_step, desired_state_holds, observe_target, execute_action, execute_service,
  service_answer, action_target,
}
use argus_ai.Control.Families.{
  risk_for, is_mcp_capability, is_service_action, is_kubernetes_action, desired_state,
  may_execute_without_approval, escalation_bounded,
}
use argus_ai.Prelude.Assoc
use argus_ai.Control.Metered.{NoGrant, first_run_charged}
use argus_ai.Tests.Host.{Value, one_unit, meter, services, stop_step, plan_of, running}

-- The bootstrap policy never stands in for a consumed approval.
bootstrap_grants_nothing : (plan : Plan Value ℕ) → NoGrant one_unit meter services plan l3_assisted
unfolding Bootstrap.evaluate
bootstrap_grants_nothing plan step =
    let request = request_of one_unit services plan l3_assisted step in
    if_elim (λ (d : PolicyDecision). eqb d.policy_id "plan.approval" ≡ false)
      (locally_permitted with_local_remediation request.capability)
      (λ h.
        if_elim (λ (d : PolicyDecision). eqb d.policy_id "plan.approval" ≡ false)
          request.requires_approval (λ a. refl) (λ a. refl))
      (λ h. refl)

-- The unit is stopped once; the second stop finds it stopped and costs nothing.
stop_twice :
    ((run_of (
      run_plan one_unit services
        (plan_of (stop_step ∷ stop_step ∷ []))
        l3_assisted
        none
        7
        running)).world.reserved)
    ≡ 1
unfolding run_plan after_step run_step policy_step by_policy allow_step by_budget by_authority
    settle last_is_no_op execute_allowed_step by_desired by_effect publish_validation validate_step
    desired_state_holds observe_target execute_action execute_service service_answer
    Bootstrap.evaluate with_local_remediation locally_permitted request_of governed_risk risk_for
    is_mcp_capability is_service_action is_kubernetes_action desired_state action_target
    may_execute_without_approval escalation_bounded Registry.get Assoc.get
stop_twice = refl

first_run_charged_example :
    let r = run_of (
      run_plan one_unit services
        (plan_of (stop_step ∷ stop_step ∷ []))
        l3_assisted
        none
        7
        running) in
    r.world.reserved ≡ 0 + charged one_unit r.executions
first_run_charged_example =
    first_run_charged one_unit meter services (plan_of (stop_step ∷ stop_step ∷ [])) l3_assisted 7
      running (bootstrap_grants_nothing (plan_of (stop_step ∷ stop_step ∷ [])))

executions-Authorized_example :
    All
      (Authorized one_unit services (plan_of (stop_step ∷ [])) l4_autonomous false)
      (run_of (
        run_plan one_unit services
          (plan_of (stop_step ∷ []))
          l4_autonomous
          none
          7
          running)).executions
executions-Authorized_example =
    executions-Authorized one_unit services (plan_of (stop_step ∷ [])) l4_autonomous none 7 running

-- A plan that the escalation decision does not trust: it waits for an operator at L4.
abbrev doubtful : Plan Value ℕ
doubtful = record (plan_of (stop_step ∷ [])) { confidence = 50 }

abbrev grant_of : String → ApprovalStore
grant_of hash =
    (
      7,
      record {
        approval_id = 1;
        token = 7;
        context_hash = hash;
        granted_by = "operator";
        granted_at = pos 100;
        expires_at = pos 200;
        state = granted;
      },
    )
    ∷ []

abbrev doubtful_pending : PendingPlan Value ℕ
doubtful_pending = pause_plan one_unit 7 doubtful []

abbrev doubtful_hash : String
doubtful_hash = plan_context_hash one_unit doubtful

resume_once_example :
    let s =
      (resume_and_run one_unit services doubtful_pending l3_assisted
        (grant_of doubtful_hash)
        (pos 150)
        8
        running).0 in
    resume_and_run one_unit services doubtful_pending l3_assisted s (pos 160) 9 running
    ≡ (s, resume_refused no_grant)
unfolding Approval.consume Approval.authorizes Assoc.get plan_context_hash fnv1a_hex pause_plan
resume_once_example =
    resume_once one_unit services doubtful_pending l3_assisted (grant_of doubtful_hash) (pos 150)
      (pos 160) 8 9 running running refl

resume_finishes_example :
    is_panic one_unit
      (resume_and_run one_unit services doubtful_pending l3_assisted
        (grant_of doubtful_hash)
        (pos 150)
        8
        running).1
    ≡ false
unfolding escalation_bounded
resume_finishes_example =
    resume_finishes one_unit services doubtful_pending l3_assisted (grant_of doubtful_hash)
      (pos 150) 8 running refl

-- A run in which one step took effect.
abbrev after_stop : Run one_unit
after_stop = record (start one_unit services doubtful [] running) { executed = 0 ∷ [] }

rollback_executed-Trail_example :
    IsRolledBack one_unit
      (stop_step ∷ [])
      (0 ∷ [])
      after_stop
      (rollback_executed one_unit (stop_step ∷ []) after_stop)
rollback_executed-Trail_example =
    rollback_executed-Trail one_unit (stop_step ∷ []) after_stop 0 [] refl

first_run-Confined_example :
    All
      (Confined one_unit services (plan_of (stop_step ∷ [])) l4_autonomous with_local_remediation)
      (run_of (
        run_plan one_unit services
          (plan_of (stop_step ∷ []))
          l4_autonomous
          none
          7
          running)).executions
first_run-Confined_example =
    first_run-Confined one_unit services (plan_of (stop_step ∷ [])) l4_autonomous
      with_local_remediation 7 running (λ r. refl)
