-- ===== src/Sentinel.antt =====
-- The sentinel of crates/argus-daemon/src/sentinel.rs: the safe mode of a health snapshot, the
-- environment's health, the surfaced view and the escalation. The view's two optional maps are
-- supplied values of a type `M` that the sentinel only passes on; `f32` is an interface.
pub mod Degradation
use argus_ai.Prelude.{
  ℕ, ◌*◌, ◌++◌, Bool, true, false, not, ◌&&◌, ◌||◌, Option, none, some, List, [], ◌∷◌, String, map,
  length, ltb, if◌then◌else◌, u32,
}
use argus_ai.Prelude.Int.{ℤ}
use argus_ai.Domain.{AutonomyMode, Severity, info, warning, error, PolicyOutcome, require_approval}
use argus_ai.Policy.Escalation.{
  Float32, Environment, Escalation, auto_fix, EscalationInput, decide_escalation,
}

-- crates/argus-observability/src/selfobs.rs
pub data SafeMode : Type 0 where
  normal stale_inputs execution_suspended : SafeMode

pub record SelfHealth : Type 0 where
  pub uptime_seconds : ℕ
  pub sensors_degraded : ℕ
  pub events_lagging : ℕ
  pub provider_degraded : ℕ
  pub executor_errors : ℕ
  pub failed_validations : ℕ
  pub policy_denials : ℕ
  pub autonomous_actions : ℕ
  pub autonomous_successes : ℕ
  pub remediation_attempts : ℕ
  pub remediation_successes : ℕ
  pub false_positives : ℕ
  pub peak_backlog : ℕ
  pub backlog : ℕ
  pub event_lag_ms : Option ℕ

-- The lag is a duration in milliseconds.
pub record DegradationThresholds : Type 0 where
  pub max_event_lag : ℕ
  pub max_executor_errors : ℕ
  pub max_failed_validations : ℕ

abbrev pub default_thresholds : DegradationThresholds
default_thresholds = record {
  max_event_lag = 300 * 1000;
  max_executor_errors = 5;
  max_failed_validations = 3;
}

abbrev is_some_and : Option ℕ → (ℕ → Bool) → Bool
is_some_and none p = false
is_some_and (some n) p = p n

unfoldable pub safe_mode_from : SelfHealth → DegradationThresholds → SafeMode
safe_mode_from health thresholds =
    if ltb thresholds.max_executor_errors health.executor_errors
      || ltb thresholds.max_failed_validations health.failed_validations
    then execution_suspended
    else (if is_some_and health.event_lag_ms (λ lag. ltb thresholds.max_event_lag lag)
        then stale_inputs
        else normal)

pub data EnvironmentHealth : Type 0 where
  healthy degraded critical : EnvironmentHealth

pub record PressureSignal : Type 0 where
  pub subject : String
  pub severity : Severity

-- crates/argus-risk: of a risk the sentinel reads its subject and its severity.
abbrev pub Risk : Type 0
Risk = PressureSignal

pub record SentinelView (M : Type 0) : Type 0 where
  pub environment_health : EnvironmentHealth
  pub safe_mode : SafeMode
  pub provider_ready : Bool
  pub open_incidents : ℕ
  pub active_risks : ℕ
  pub pending_approvals : ℕ
  pub predictions : List String
  pub recent_actions : ℕ
  pub pressure : List PressureSignal
  pub generated_at : ℤ
  pub autonomy : Option M
  pub runbooks : Option M

pub record SentinelInputs (M F : Type 0) : Type 0 where
  pub autonomy : AutonomyMode
  pub environment : Environment
  pub provider_ready : Bool
  pub open_incidents : ℕ
  pub risks : List Risk
  pub predictions : List String
  pub pending_approvals : ℕ
  pub recent_actions : ℕ
  pub self_health : SelfHealth
  pub situation : Option (EscalationInput F)
  pub autonomy_view : Option M
  pub runbooks_view : Option M
  pub pressure : List PressureSignal

pub record SentinelDecision (M : Type 0) : Type 0 where
  pub view : SentinelView M
  pub escalation : Option Escalation

abbrev pub is_auto_fix : Option Escalation → Bool
is_auto_fix (some auto_fix) = true
is_auto_fix _ = false

unfoldable pub requests_autofix : {M : Type 0} → SentinelDecision M → Bool
requests_autofix d = is_auto_fix d.escalation

abbrev pub is_error : Severity → Bool
is_error error = true
is_error _ = false

abbrev pub is_warning : Severity → Bool
is_warning warning = true
is_warning _ = false

abbrev pub is_normal : SafeMode → Bool
is_normal normal = true
is_normal _ = false

abbrev pub is_suspended : SafeMode → Bool
is_suspended execution_suspended = true
is_suspended _ = false

unfoldable pub any_severity : (Severity → Bool) → List Risk → Bool
any_severity test [] = false
any_severity test (r ∷ rs) = test r.severity || any_severity test rs

unfoldable pub environment_health_of : SafeMode → Bool → ℕ → List Risk → EnvironmentHealth
environment_health_of safe_mode provider_ready open_incidents risks =
    if is_suspended safe_mode || (ltb 0 open_incidents && any_severity is_error risks)
    then critical
    else (if not provider_ready
          || not (is_normal safe_mode)
          || ltb 0 open_incidents
          || any_severity is_warning risks
        then degraded
        else healthy)

module _ (f32 : Float32) where
  open f32 use {F}

  -- In a safe mode the situation is bounded to require an approval.
  unfoldable pub bounded_escalation : SafeMode → EscalationInput F → Escalation
  bounded_escalation safe_mode situation =
      decide_escalation f32
        (if is_normal safe_mode then situation else record situation { policy = require_approval })

  abbrev pub escalations : SafeMode → Option (EscalationInput F) → Option Escalation
  escalations safe_mode none = none
  escalations safe_mode (some situation) = some (bounded_escalation safe_mode situation)

  unfoldable pub sentinel_evaluate : {M : Type 0} → SentinelInputs M F → ℤ → SentinelDecision M
  sentinel_evaluate inputs now =
      let safe_mode = safe_mode_from inputs.self_health default_thresholds in
      record {
        view = record {
          environment_health =
              environment_health_of safe_mode inputs.provider_ready inputs.open_incidents
                inputs.risks;
          safe_mode = safe_mode;
          provider_ready = inputs.provider_ready;
          open_incidents = inputs.open_incidents;
          active_risks = u32 (length inputs.risks);
          pending_approvals = inputs.pending_approvals;
          predictions = inputs.predictions;
          recent_actions = inputs.recent_actions;
          pressure = inputs.risks ++ inputs.pressure;
          generated_at = now;
          autonomy = inputs.autonomy_view;
          runbooks = inputs.runbooks_view;
        };
        escalation = escalations safe_mode inputs.situation;
      }
