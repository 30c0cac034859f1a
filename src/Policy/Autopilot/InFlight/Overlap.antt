-- ===== src/Policy/Autopilot/InFlight/Overlap.antt =====
-- Overlapping evaluations of one subject (crates/argus-policy/src/autopilot.rs).
use argus_ai.Prelude.{Option, List, [], ◌∷◌, string_eq}
use argus_ai.Prelude.Int.{ℤ}
use argus_ai.Policy.Escalation.{Criticality}
use argus_ai.Policy.Autopilot.{ResourceAdjustment}
use argus_ai.Policy.Autopilot.InFlight.{Event, decided, recorded}

abbrev pub overlapped : ResourceAdjustment → Option Criticality → ℤ → ℤ → ℤ → ℤ → List Event
overlapped a class now now' at at' =
    decided a class now ∷ decided a class now' ∷ recorded 0 at ∷ recorded 0 at' ∷ []
