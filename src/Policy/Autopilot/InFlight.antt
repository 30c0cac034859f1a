-- ===== src/Policy/Autopilot/InFlight.antt =====
-- Evaluations of many callers on one shared governor (crates/argus-policy/src/autopilot.rs):
-- `evaluate` locks the grants once to decide and once more to record, and reads the classification
-- under a lock of its own, so that the parts of several calls interleave.
pub mod Bound
pub mod Overlap
pub mod Spacing
use argus_ai.Prelude.{
  ℕ, zero, suc, ◌+◌, ◌≤◌, ◌≡◌, refl, sym, ap, ◌∙◌, to_ℕ, true, false, Option, none, some, List, [],
  ◌∷◌, String, length, arith, inl, inr, ◌⊎◌, if◌then◌else◌, string_eq, eqb_iff,
}
use argus_ai.Prelude.Int.{ℤ, ◌-ℤ◌, ◌≤ℤ◌, ltb_ℤ}
use argus_ai.Policy.Escalation.{Criticality}
use argus_ai.Policy.Autopilot.{
  AutopilotGovernor, ResourceAdjustment, GovernanceDecision, Grant, cooling, expire, by_class,
  rate_limited, classify, record_grant, is_allowed,
}
use argus_ai.Policy.Autopilot.Limits.{recent}
use argus_ai.Policy.Autopilot.Trace.{
  Spaced, recent-expire, recent-append, recent_cons, recent-le-length, cooling_later,
}

-- The governor, the calls that were allowed and have not recorded yet, and every grant so far,
-- newest first.
pub record Shared : Type 0 where
  pub governor : AutopilotGovernor
  pub in_flight : List ResourceAdjustment
  pub log : List Grant

-- What one caller does under one lock: an operator classifies, a call decides, with the class that
-- it read before, or one of the calls in flight records.
pub data Event : Type 0 where
  classified : String → Criticality → Event
  decided : ResourceAdjustment → Option Criticality → ℤ → Event
  recorded : ℕ → ℤ → Event

behind : {A : Type 0} → A → Option (A × List A) → Option (A × List A)
behind x none = none
behind x (some (y, ys)) = some (y, x ∷ ys)

-- The element at a position, and the others.
unfoldable pub pluck : {A : Type 0} → List A → ℕ → Option (A × List A)
unfolding behind
pluck [] n = none
pluck (x ∷ xs) zero = some (x, xs)
pluck (x ∷ xs) (suc n) = behind x (pluck xs n)

after_decision : Shared → ResourceAdjustment → AutopilotGovernor × GovernanceDecision → Shared
after_decision s a (g, decision) = record s {
  governor = g;
  in_flight = if is_allowed decision then a ∷ s.in_flight else s.in_flight;
}

after_record : Shared → ℤ → Option (ResourceAdjustment × List ResourceAdjustment) → Shared
after_record s at none = s
after_record s at (some (a, others)) = record {
  governor = record_grant s.governor a at;
  in_flight = others;
  log = (at, a.subject) ∷ s.log;
}

unfoldable pub step : Shared → Event → Shared
unfolding after_decision after_record by_class
step s (classified subject tier) = record s { governor = classify s.governor subject tier }
step s (decided a class now) = after_decision s a (by_class s.governor a class now)
step s (recorded i at) = after_record s at (pluck s.in_flight i)

unfoldable pub run : Shared → List Event → Shared
run s [] = s
run s (e ∷ es) = run (step s e) es

abbrev pub alone : AutopilotGovernor → Shared
alone g = record { governor = g; in_flight = []; log = [] }

-- What a decision leaves of the grants: all of them, or those inside the window, with room for one
-- more where it allows.
pub by_class_cases :
    (g : AutopilotGovernor) (a : ResourceAdjustment) (class : Option Criticality) (now : ℤ)
    → let r = by_class g a class now in
      let kept = expire g.granted now g.limits.window in
      (r.0.limits ≡ g.limits)
      × (((r.0.granted ≡ g.granted) × (is_allowed r.1 ≡ false))
          ⊎ ((r.0.granted ≡ kept) × (is_allowed r.1 ≡ false))
          ⊎ ((r.0.granted ≡ kept)
              × (is_allowed r.1 ≡ true)
              × (length kept + 1 ≤ g.limits.budget_per_window)
              × (cooling g.granted a.subject now g.limits.cooldown_per_subject ≡ false)))
unfolding by_class is_allowed
by_class_cases g a class now = ground arith
