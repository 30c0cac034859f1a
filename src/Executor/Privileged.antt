-- ===== src/Executor/Privileged.antt =====
-- The executor of environment-changing service capabilities and the composite that routes an action,
-- crates/argus-executor/src/privileged.rs, with the guardrails that crates/argus-daemon/src/runtime.rs
-- wires for services.
pub mod Reversal
pub mod Routing
pub mod OwnUnit
use argus_ai.Prelude.{
  Bool, true, false, Option, none, some, List, [], ◌∷◌, String, eqb, string_eq, if◌then◌else◌,
}
use argus_ai.Prelude.Results.{Result, ok, err}
use argus_ai.Control.Families.{remediation_handles, is_kubernetes_action}
use argus_ai.Executor.Guardrail
use argus_ai.Executor.Guardrail.{
  GuardrailRegistry, CharTests, register, never_target_argusd, valid_service_unit,
}
use argus_ai.Executor.Host.{
  ReversalStatus, not_attempted, reversed, reversal_failed, not_possible, ExecutionError,
  unsupported, failed, failed_after_effect, ExecutionResult, Host, Outcome, Executor,
}
use argus_ai.Executor.Remediation.Execute.{bind, required, not_blank, guarded}

pub data ServiceOp : Type 0 where
  restart stop start : ServiceOp

-- `ServiceOp::of`
unfoldable pub operation_of : String → Option ServiceOp
operation_of capability =
    if eqb "host.service.restart" capability
    then some restart
    else if eqb "host.service.stop" capability
    then some stop
    else if eqb "host.service.start" capability
    then some start
    else none

unfoldable pub verb : ServiceOp → String
verb restart = "restart"
verb stop = "stop"
verb start = "start"

unfoldable pub inverse : ServiceOp → Option ServiceOp
inverse stop = some start
inverse start = some stop
inverse restart = none

-- `reversal` as the evidence spells it.
unfoldable pub reversal_text : ReversalStatus → String
reversal_text not_attempted = "not_attempted"
reversal_text reversed = "reversed"
reversal_text reversal_failed = "reversal_failed"
reversal_text not_possible = "not_possible"

abbrev pub is_some {ℓ} : {A : Type ℓ} → Option A → Bool
is_some none = false
is_some (some a) = true

-- `PrivilegedExecutor::handles`
unfoldable pub handles : String → Bool
handles capability = is_some (operation_of capability)

-- `service_guardrails` of the daemon, for its own unit name.
unfoldable pub service_guardrails : (String → String) → CharTests → String → GuardrailRegistry
service_guardrails trim tests daemon_unit =
    let r = register Guardrail.new "host.service.restart" (never_target_argusd trim daemon_unit) in
    let r = register r "host.service.restart" (valid_service_unit tests) in
    let r = register r "host.service.stop" (never_target_argusd trim daemon_unit) in
    let r = register r "host.service.stop" (valid_service_unit tests) in
    let r = register r "host.service.start" (never_target_argusd trim daemon_unit) in
    register r "host.service.start" (valid_service_unit tests)

module _ (h : Host) where
  open h use {V, W}

  abbrev pub apply : ServiceOp → W → String → W × Result String (Unit {0})
  apply restart w unit = h.service_restart w unit
  apply stop w unit = h.service_stop w unit
  apply start w unit = h.service_start w unit

  abbrev pub reversal_of : W × Result String (Unit {0}) → W × ReversalStatus
  reversal_of (w, ok done) = (w, reversed)
  reversal_of (w, err e) = (w, reversal_failed)

  unfoldable pub attempt_reversal : ServiceOp → W → String → W × ReversalStatus
  attempt_reversal operation w unit = elim (inverse operation) [
    | none ↦ (w, not_possible)
    | some undo ↦ reversal_of (apply undo w unit)
  ]

  -- What follows the operation's answer.
  unfoldable pub conclude :
      String → ServiceOp → String → h.W → W × Result String (Unit {0}) → Outcome h
  conclude capability operation unit w (w', ok done) = (
    w',
    ok (record {
      capability = capability;
      evidence = h.object (
          ("unit", h.text unit)
          ∷ ("operation", h.text (verb operation))
          ∷ ("reversal", h.text (reversal_text not_attempted))
          ∷ []);
      started_at = h.clock w;
      finished_at = h.clock w';
    }),
  )
  conclude capability operation unit w (w', err reason) =
      let (w'', reversal) = attempt_reversal operation w' unit in
      (w'', err (failed_after_effect reason reversal))

  unfoldable pub execute : GuardrailRegistry → Executor h
  execute guardrails w action =
      let capability = action.request.capability in
      elim (operation_of capability) [
        | none ↦ (w, err (unsupported capability))
        | some operation ↦
            required h w (bind (h.str_arg action.request.arguments "unit") (not_blank h))
              "no service unit"
              (λ unit.
                guarded h w guardrails capability unit
                  (conclude capability operation unit w (apply operation w unit)))
      ]

  -- The executors that an action is routed to; the last two are there if the daemon wires them.
  pub record CompositeExecutor : Type 0 where
    pub read_only : Executor h
    pub environment_changing : Executor h
    pub remediation : Option (Executor h)
    pub kubernetes : Option (Executor h)

  unfoldable pub dispatch_optional : Option (Executor h) → Executor h
  dispatch_optional none w action = (w, err (unsupported action.request.capability))
  dispatch_optional (some executor) w action = executor w action

  unfoldable pub execute_composite : CompositeExecutor → Executor h
  execute_composite c w action =
      let capability = action.request.capability in
      if handles capability
      then c.environment_changing w action
      else if remediation_handles capability
      then dispatch_optional c.remediation w action
      else if is_kubernetes_action capability
      then dispatch_optional c.kubernetes w action
      else c.read_only w action
