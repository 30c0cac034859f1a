-- ===== src/Policy/Autopilot/Cooldown.antt =====
-- A cooldown longer than the window is not kept (crates/argus-policy/src/autopilot.rs).
use argus_ai.Prelude.{ℕ, ◌≤◌, ◌<◌, List, [], ◌∷◌, arith, string_eq, String}
use argus_ai.Prelude.Int.{pos, ◌-ℤ◌}
use argus_ai.Prelude.Assoc
use argus_ai.Policy.Escalation.{standard}
use argus_ai.Policy.Autopilot.{
  AutopilotGovernor, cooling, expire, decide, evaluate, record_grant, is_allowed,
}
use argus_ai.Policy.Autopilot.Trace.{start, Request, step, run, Spaced}

abbrev pub two_subjects : ℕ → ℕ → ℕ → AutopilotGovernor
two_subjects budget window cooldown = record {
  criticality = ("a", standard) ∷ ("b", standard) ∷ [];
  limits = record {
    budget_per_window = budget;
    window = pos window;
    cooldown_per_subject = pos cooldown;
  };
  granted = [];
}

abbrev pub request : String → ℕ → Request
request subject at = record {
  adjustment = record { subject = subject; capability = "host.cgroup.freeze"; reason = "" };
  now = pos at;
  later = pos at;
}

-- The subject `a`, then `b` once the window has passed, then `a` again at once.
abbrev pub interleaved : ℕ → List Request
interleaved window = request "a" 0 ∷ request "b" window ∷ request "a" window ∷ []

-- For every budget of at least two and every cooldown longer than the window, a governor with two
-- adjustable subjects has a history, of the first subject, then of the other once the window has
-- passed, then of the first again at once, that does not keep the cooldown between two grants of
-- one subject.
pub cooldown_forgotten :
    (budget window cooldown : ℕ)
    → 2 ≤ budget
    → window < cooldown
    → ¬ Spaced
        (pos cooldown)
        (run (start (two_subjects budget window cooldown)) (interleaved window)).log
unfolding run step evaluate decide record_grant is_allowed cooling expire Assoc.get Spaced ◌-ℤ◌
cooldown_forgotten budget window cooldown b h = ground arith
