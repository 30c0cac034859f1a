-- ===== src/Control/Effects.antt =====
-- One action across the boundary of its family, and the live reads before and after it
-- (crates/argus-daemon/src/control.rs).
use Prim.Native.String.{◌++◌ as str_append}
use argus_ai.Prelude.{
  Bool, true, false, Option, none, some, [], ◌∷◌, String, eqb, string_eq, if◌then◌else◌,
}
use argus_ai.Prelude.Results.{Result, ok, err}
use argus_ai.Domain.{PolicyOutcome, allow, deny, require_approval}
use argus_ai.Domain.Plan.{Action}
use argus_ai.Policy.Bootstrap.{PolicyDecision}
use argus_ai.Control.Families.{
  is_one_of, is_service_action, is_kubernetes_action, remediation_handles, desired_state,
}
use argus_ai.Control.Ports.{
  Ports, ActionError, missing_argument, unsupported, not_authorized, no_live_read, port_failed,
  AuthorizedAction,
}

abbrev pub same_bool : Bool → Bool → Bool
same_bool true b = b
same_bool false true = false
same_bool false false = true

abbrev pub unwrap_or : Option String → String → String
unwrap_or none d = d
unwrap_or (some s) d = s

abbrev first_of : Option String → Option String → Option String
first_of none o = o
first_of (some s) o = some s

-- An error of a port, as the text that the loop keeps of it.
abbrev port_result {ℓ} : {A : Type ℓ} → Result String A → Result ActionError A
port_result (ok a) = ok a
port_result (err e) = err (port_failed e)

module _ (p : Ports) where
  open p use {V, W, str_arg}

  k8s_subject : V → Option String → Option String
  k8s_subject v none = none
  k8s_subject v (some name) =
      some (str_append (str_append (unwrap_or (str_arg v "namespace") "default") "/") name)

  unfoldable pub action_target : Action V → Option String
  unfolding k8s_subject
  action_target a =
      if is_kubernetes_action a.capability
      then k8s_subject a.arguments (str_arg a.arguments "name")
      else first_of (str_arg a.arguments "path")
          (first_of (str_arg a.arguments "container") (str_arg a.arguments "unit"))

  -- The controller's answer, with the evidence of the action in place of its unit.
  unfoldable pub service_answer :
      String → String → W × Result String (Unit {0}) → W × Result ActionError V
  service_answer unit c (w, ok tt) = (w, ok (p.service_evidence unit c))
  service_answer unit c (w, err e) = (w, err (port_failed e))

  unfoldable pub execute_service : W → String → Option String → W × Result ActionError V
  unfolding service_answer
  execute_service w c none = (w, err (missing_argument "unit"))
  execute_service w c (some unit) =
      if eqb "host.service.restart" c
      then service_answer unit c (p.service_restart w unit)
      else if eqb "host.service.stop" c
      then service_answer unit c (p.service_stop w unit)
      else if eqb "host.service.start" c
      then service_answer unit c (p.service_start w unit)
      else (w, err (unsupported c))

  -- `AuthorizedAction::new`: only an allowed action crosses the executor boundary.
  unfoldable pub authorized : Action V → PolicyDecision → Result ActionError (AuthorizedAction V)
  authorized a decision = by_outcome decision.outcome
    where
      by_outcome : PolicyOutcome → Result ActionError (AuthorizedAction V)
      by_outcome allow = ok (record { request = a; decision = decision })
      by_outcome deny = err (not_authorized deny)
      by_outcome require_approval = err (not_authorized require_approval)

  unfoldable pub cross :
      (W → AuthorizedAction V → W × Result String V)
      → W
      → Result ActionError (AuthorizedAction V)
      → W × Result ActionError V
  cross port w (err e) = (w, err e)
  cross port w (ok a) = let (w', r) = port w a in (w', port_result r)

  unfoldable pub execute_action : W → Action V → PolicyDecision → W × Result ActionError V
  unfolding execute_service cross authorized
  execute_action w a decision =
      if is_service_action a.capability
      then execute_service w a.capability (str_arg a.arguments "unit")
      else if is_kubernetes_action a.capability
      then cross p.kubernetes_execute w (authorized a decision)
      else if remediation_handles a.capability
      then cross p.remediation_execute w (authorized a decision)
      else (w, err (unsupported a.capability))

  -- A live read of the subject that an argument names.
  read_of : String → Option String → (String → Result String Bool) → Result ActionError Bool
  read_of key none read = err (missing_argument key)
  read_of key (some subject) read = port_result (read subject)

  unfoldable pub observe_target : W → Action V → Result ActionError Bool
  unfolding read_of
  observe_target w a =
      let c = a.capability in
      let namespace = unwrap_or (str_arg a.arguments "namespace") "default" in
      let name = str_arg a.arguments "name" in
      if is_service_action c
      then read_of "unit" (str_arg a.arguments "unit") (p.is_active w)
      else if eqb "container.restart" c
      then read_of "container" (str_arg a.arguments "container") (p.is_running w)
      else if is_one_of ("host.cgroup.freeze" ∷ "host.cgroup.thaw" ∷ []) c
      then read_of "path" (str_arg a.arguments "path") (p.is_frozen w)
      else if is_one_of ("k8s.pod.restart" ∷ "k8s.pod.delete" ∷ []) c
      then read_of "name" name (p.pod_running w namespace)
      else if is_one_of ("k8s.deployment.restart" ∷ "k8s.deployment.rollback" ∷ []) c
      then read_of "name" name (p.deployment_available w namespace)
      else if is_one_of ("k8s.node.cordon" ∷ "k8s.node.uncordon" ∷ []) c
      then read_of "name" name (p.node_schedulable w)
      else err (no_live_read c)

  holds : Option Bool → Result ActionError Bool → Result ActionError Bool
  holds none read = ok false
  holds (some desired) (ok observed) = ok (same_bool observed desired)
  holds (some desired) (err e) = err e

  unfoldable pub desired_state_holds : W → Action V → Result ActionError Bool
  unfolding holds
  desired_state_holds w a = holds (desired_state a.capability) (observe_target w a)

  -- The outcome of a validation, as its event carries it with the plan's context hash.
  pub data Validation : Type 0 where
    validation_passed validation_failed : String → Bool → Bool → Validation
    validation_read_failed : String → ActionError → Validation

  validated : String → Bool → Result ActionError Bool → Validation
  validated target desired (err e) = validation_read_failed target e
  validated target desired (ok observed) =
      if same_bool desired observed
      then validation_passed target observed desired
      else validation_failed target observed desired

  validate_target : Option Bool → Option String → Result ActionError Bool → Option Validation
  unfolding validated
  validate_target none target read = none
  validate_target (some desired) none read = none
  validate_target (some desired) (some target) read = some (validated target desired read)

  -- What `validate_step` publishes, if anything.
  unfoldable pub validate_step : W → Action V → Option Validation
  unfolding validate_target
  validate_step w a =
      validate_target (desired_state a.capability) (action_target a) (observe_target w a)
