-- ===== src/Tests/Governor.antt =====
-- Concrete runs of the escalation decision and the autopilot governor of crates/argus-policy, and of
-- the sentinel of crates/argus-daemon.
use argus_ai.Prelude.{
  ◌+◌, List, ◌∷◌, length, ℕ, ◌≤◌, ◌<◌, ◌≡◌, refl, ◌↔◌, true, none, some, [], leb, arith, nat_eq,
  string_eq,
}
use argus_ai.Prelude.Int.{pos, ◌-ℤ◌}
use argus_ai.Domain.{low_risk, host, allow, l3_assisted}
use argus_ai.Policy.Escalation.{
  Float32, EscalationInput, auto_fix, adequate, staging, standard, decide_escalation, safe_to_fix,
  confidence_threshold,
}
use argus_ai.Policy.Escalation.Safety.{IsFixable, auto_fix_iff}
use argus_ai.Policy.Autopilot.{
  AutopilotGovernor, is_allowed, by_class, cooling, expire, record_grant, decide, classification,
}
use argus_ai.Policy.Autopilot.Limits.{recent, Rested, IsAdjustable, decide_allowed_iff}
use argus_ai.Policy.Autopilot.Trace
use argus_ai.Policy.Autopilot.Trace.{Spaced}
use argus_ai.Policy.Autopilot.InFlight
use argus_ai.Policy.Autopilot.InFlight.{decided, recorded, alone}
use argus_ai.Policy.Autopilot.InFlight.Bound.{in_flight_bounded}
use argus_ai.Policy.Autopilot.InFlight.Spacing.{run-alone-Spaced}
use argus_ai.Policy.Autopilot.Cooldown.{two_subjects, request, interleaved, cooldown_forgotten}
use argus_ai.Sentinel.{
  SentinelInputs, SelfHealth, default_thresholds, requests_autofix, sentinel_evaluate,
}
use argus_ai.Sentinel.Degradation.{IsWithin, SituationIsFixable, requests_autofix_iff}

leb_trans : (a b c : ℕ) → leb b a ≡ true → leb c b ≡ true → leb c a ≡ true
leb_trans a b c h k = ground arith

-- Confidences in hundredths.
abbrev percent : Float32
percent = record { F = ℕ; ge = λ a b. leb b a; hundredths = λ n. n; ge_trans = leb_trans }

abbrev restart_situation : EscalationInput ℕ
restart_situation = record {
  evidence_quality = adequate;
  confidence = 80;
  reversible = true;
  blast_radius = host;
  risk = low_risk;
  criticality = standard;
  environment = staging;
  historical_success = some 90;
  autonomy = l3_assisted;
  policy = allow;
}

situation_fixed : decide_escalation percent restart_situation ≡ auto_fix
unfolding decide_escalation safe_to_fix confidence_threshold
situation_fixed = refl

auto_fix_iff_example :
    (decide_escalation percent restart_situation ≡ auto_fix) ↔ IsFixable percent restart_situation
auto_fix_iff_example = auto_fix_iff percent restart_situation

abbrev governor : AutopilotGovernor
governor = two_subjects 2 100 50

decide_allowed_iff_example :
    (is_allowed (decide governor (request "a" 0).adjustment (pos 10)).1 ≡ true) ↔ (
      IsAdjustable (classification governor "a")
      × Rested [] "a" (pos 10) (pos 50)
      × (recent [] (pos 10) (pos 100) < 2))
decide_allowed_iff_example =
    decide_allowed_iff governor (request "a" 0).adjustment (pos 0) (pos 10) tt

-- Two calls overlap: `a` and `b` both decide before either records.
abbrev overlapping : List InFlight.Event
overlapping =
    decided (request "a" 0).adjustment (some standard) (pos 10)
    ∷ decided (request "b" 0).adjustment (some standard) (pos 10)
    ∷ recorded 0 (pos 11)
    ∷ recorded 0 (pos 12)
    ∷ []

in_flight_bounded_example :
    let s = InFlight.run (alone governor) overlapping in
    recent s.log (pos 20) (pos 100) + length s.in_flight ≤ 2 + 1
unfolding InFlight.step InFlight.pluck record_grant is_allowed by_class cooling expire ◌-ℤ◌
in_flight_bounded_example =
    in_flight_bounded governor 1 overlapping (pos 20) refl (omega arith) (omega arith)

run-alone-Spaced_example : Spaced (pos 50) (InFlight.run (alone governor) overlapping).log
unfolding InFlight.step is_allowed by_class cooling expire ◌-ℤ◌
run-alone-Spaced_example =
    run-alone-Spaced governor (pos 0) overlapping refl (omega arith) (omega arith)
      (tt, (((refl, refl), tt), (tt, (tt, tt))))

cooldown_forgotten_example :
    ¬ Spaced (pos 7200) (Trace.run (Trace.start (two_subjects 10 3600 7200)) (interleaved 3600)).log
cooldown_forgotten_example = cooldown_forgotten 10 3600 7200 (omega arith) (omega arith)

abbrev quiet : SelfHealth
quiet = record {
  uptime_seconds = 60;
  sensors_degraded = 0;
  events_lagging = 0;
  provider_degraded = 0;
  executor_errors = 1;
  failed_validations = 0;
  policy_denials = 0;
  autonomous_actions = 0;
  autonomous_successes = 0;
  remediation_attempts = 0;
  remediation_successes = 0;
  false_positives = 0;
  peak_backlog = 0;
  backlog = 0;
  event_lag_ms = some 20;
}

abbrev inputs : SentinelInputs ℕ ℕ
inputs = record {
  autonomy = l3_assisted;
  environment = staging;
  provider_ready = true;
  open_incidents = 0;
  risks = [];
  predictions = [];
  pending_approvals = 0;
  recent_actions = 0;
  self_health = quiet;
  situation = some restart_situation;
  autonomy_view = none;
  runbooks_view = none;
  pressure = [];
}

requests_autofix_iff_example :
    (requests_autofix (sentinel_evaluate percent inputs (pos 0)) ≡ true)
    ↔ (IsWithin quiet default_thresholds × SituationIsFixable percent (some restart_situation))
requests_autofix_iff_example = requests_autofix_iff percent inputs (pos 0)
