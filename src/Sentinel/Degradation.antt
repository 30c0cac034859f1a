-- ===== src/Sentinel/Degradation.antt =====
-- A degraded runtime never fixes anything by itself (crates/argus-daemon/src/sentinel.rs).
use argus_ai.Prelude.{ℕ, ◌<◌, refl, ◌≡◌, ◌↔◌, ◌≤◌, true, Option, some, none, arith}
use argus_ai.Prelude.Int.{ℤ}
use argus_ai.Policy.Escalation.{Float32, EscalationInput, auto_fix}
use argus_ai.Policy.Escalation.Safety.{IsFixable, auto_fix_iff, policy_final}
use argus_ai.Sentinel.{
  SafeMode, normal, SelfHealth, DegradationThresholds, default_thresholds, safe_mode_from,
  SentinelInputs, requests_autofix, is_auto_fix, escalations, bounded_escalation, sentinel_evaluate,
  environment_health_of, critical,
}

-- The age of the last processed event, where there is one, is under the threshold.
abbrev pub IsFresh : Option ℕ → ℕ → Type 0
IsFresh none limit = Unit
IsFresh (some lag) limit = lag ≤ limit

pub record IsWithin (health : SelfHealth) (t : DegradationThresholds) : Type 0 where
  pub executor : health.executor_errors ≤ t.max_executor_errors
  pub validation : health.failed_validations ≤ t.max_failed_validations
  pub fresh : IsFresh health.event_lag_ms t.max_event_lag

-- The safe mode is normal exactly when no counter and no event lag passes its threshold.
pub safe_mode_normal_iff :
    (health : SelfHealth) (t : DegradationThresholds)
    → (safe_mode_from health t ≡ normal) ↔ IsWithin health t
unfolding safe_mode_from
safe_mode_normal_iff health t = ground arith

module _ (f32 : Float32) where
  open f32 use {F}

  abbrev pub SituationIsFixable : Option (EscalationInput F) → Type 0
  SituationIsFixable none = ⊥
  SituationIsFixable (some s) = IsFixable f32 s

  bounded_auto_fix :
      (m : SafeMode) (s : EscalationInput F)
      → (bounded_escalation f32 m s ≡ auto_fix) ↔ ((m ≡ normal) × IsFixable f32 s)
  unfolding bounded_escalation
  bounded_auto_fix normal s =
      (λ h. (refl, (auto_fix_iff f32 s).0 h), λ h. (auto_fix_iff f32 s).1 h.1)
  bounded_auto_fix m s =
      (λ h. ground (arith, (policy_final f32 s).1), λ h. absurd (ground (arith, h.0)))

  requests_iff :
      (m : SafeMode) (o : Option (EscalationInput F))
      → (is_auto_fix (escalations f32 m o) ≡ true) ↔ ((m ≡ normal) × SituationIsFixable o)
  requests_iff m none = ground arith
  requests_iff m (some s) = ground (arith, bounded_auto_fix m s)

  -- An evaluation requests an automatic fix exactly when every counter and the event lag of its
  -- health snapshot are within the default thresholds, and it has a situation that the escalation
  -- decision fixes by itself when it stands alone.
  pub requests_autofix_iff :
      {M : Type 0} (inputs : SentinelInputs M F) (now : ℤ)
      → (requests_autofix (sentinel_evaluate f32 inputs now) ≡ true)
        ↔ (IsWithin inputs.self_health default_thresholds × SituationIsFixable inputs.situation)
  unfolding requests_autofix sentinel_evaluate
  requests_autofix_iff inputs now = ground (
    arith,
    requests_iff (safe_mode_from inputs.self_health default_thresholds) inputs.situation,
    safe_mode_normal_iff inputs.self_health default_thresholds,
  )

  -- A runtime whose execution is suspended is reported as critical.
  pub suspended_critical :
      {M : Type 0} (inputs : SentinelInputs M F) (now : ℤ)
      → default_thresholds.max_executor_errors < inputs.self_health.executor_errors
      → (sentinel_evaluate f32 inputs now).view.environment_health ≡ critical
  unfolding sentinel_evaluate safe_mode_from environment_health_of
  suspended_critical inputs now h = ground arith
