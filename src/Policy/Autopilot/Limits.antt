-- ===== src/Policy/Autopilot/Limits.antt =====
-- What the governor of crates/argus-policy/src/autopilot.rs permits: deny by default, the spacing
-- per subject and the budget per rolling window.
use argus_ai.Prelude.{
  ℕ, ◌+◌, ◌<◌, ◌≡◌, refl, ◌↔◌, ◌⊎◌, true, false, Option, none, some, List, [], ◌∷◌, String, arith,
  length, eqb, eqb_iff, string_eq, to_ℕ,
}
use argus_ai.Prelude.Int.{ℤ, ◌-ℤ◌, ◌≤ℤ◌, ltb_ℤ, -ℤ_parts}
use argus_ai.Policy.Escalation.{Criticality, is_guarded}
use argus_ai.Policy.Autopilot.{
  AutopilotGovernor, ResourceAdjustment, Grant, cooling, expire, classification, decide, is_allowed,
}

-- The grants younger than the window at an instant.
unfoldable pub recent : List Grant → ℤ → ℤ → ℕ
recent [] now window = 0
recent ((at, s) ∷ gs) now window = to_ℕ (ltb_ℤ (now -ℤ at) window) + recent gs now window

-- The grants stand in the order of their instants, none before the bound.
abbrev pub Ordered : ℤ → List Grant → Type 0
Ordered from [] = Unit
Ordered from ((at, s) ∷ gs) = (from ≤ℤ at) × Ordered at gs

-- A grant younger than the window at an instant: all later grants are too.
recent_all :
    (at now window : ℤ) (gs : List Grant)
    → Ordered at gs
    → ltb_ℤ (now -ℤ at) window ≡ true
    → recent gs now window ≡ length gs
unfolding recent
recent_all at now window [] o h = refl
recent_all at now window ((at', s) ∷ gs) o h =
    ground (arith, -ℤ_parts now at, -ℤ_parts now at', recent_all at' now window gs o.1)

-- In an ordered history the loop leaves exactly the grants younger than the window.
length-expire :
    (from now window : ℤ) (gs : List Grant)
    → Ordered from gs
    → length (expire gs now window) ≡ recent gs now window
unfolding expire recent
length-expire from now window [] o = refl
length-expire from now window ((at, s) ∷ gs) o =
    ground (arith, length-expire at now window gs o.1, recent_all at now window gs o.1)

-- Every grant of the subject is at least the spacing old.
abbrev pub Rested : List Grant → String → ℤ → ℤ → Type 0
Rested [] subject now spacing = Unit
Rested ((at, s) ∷ gs) subject now spacing =
    ((eqb s subject ≡ false) ⊎ (spacing ≤ℤ now -ℤ at)) × Rested gs subject now spacing

pub cooling_iff :
    (gs : List Grant) (subject : String) (now spacing : ℤ)
    → (cooling gs subject now spacing ≡ false) ↔ Rested gs subject now spacing
unfolding cooling
cooling_iff [] subject now spacing = ground arith
cooling_iff ((at, s) ∷ gs) subject now spacing =
    ground (arith, eqb_iff s subject, cooling_iff gs subject now spacing)

-- The operator classified the subject, and not as protected or critical.
abbrev pub IsAdjustable : Option Criticality → Type 0
IsAdjustable none = ⊥
IsAdjustable (some tier) = is_guarded tier ≡ false

-- With its grants in order, the governor allows an adjustment exactly when the subject is
-- adjustable, each of its grants is at least the cooldown old, and the grants of all subjects
-- younger than the window are fewer than the budget.
pub decide_allowed_iff :
    (g : AutopilotGovernor) (adjustment : ResourceAdjustment) (from now : ℤ)
    → Ordered from g.granted
    → (is_allowed (decide g adjustment now).1 ≡ true) ↔ (
        IsAdjustable (classification g adjustment.subject)
        × Rested g.granted adjustment.subject now g.limits.cooldown_per_subject
        × (recent g.granted now g.limits.window < g.limits.budget_per_window))
unfolding decide is_allowed classification
decide_allowed_iff g adjustment from now o = ground (
  arith,
  cooling_iff g.granted adjustment.subject now g.limits.cooldown_per_subject,
  length-expire from now g.limits.window g.granted o,
)
