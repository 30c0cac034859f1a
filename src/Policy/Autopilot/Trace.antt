-- ===== src/Policy/Autopilot/Trace.antt =====
-- The evaluations of crates/argus-policy/src/autopilot.rs, one after another, with all the grants
-- that they ever made, though the governor itself forgets grants that left its window.
use argus_ai.Prelude.{
  ◌+◌, ◌≤◌, ◌≡◌, refl, false, List, [], ◌∷◌, ◌++◌, String, arith, length, eqb, string_eq, to_ℕ,
  if◌then◌else◌, ◌&&◌, ◌||◌,
}
use argus_ai.Prelude.Int.{ℤ, ◌-ℤ◌, ◌≤ℤ◌, ltb_ℤ, -ℤ_parts}
use argus_ai.Policy.Autopilot.{
  AutopilotGovernor, ResourceAdjustment, Grant, cooling, expire, evaluate, is_allowed,
}
use argus_ai.Policy.Autopilot.Limits.{recent}

pub recent-expire :
    (now t window : ℤ) (gs : List Grant)
    → now ≤ℤ t
    → recent (expire gs now window) t window ≡ recent gs t window
unfolding recent expire
recent-expire now t window [] h = refl
recent-expire now t window ((at, s) ∷ gs) h =
    ground (arith, -ℤ_parts now at, -ℤ_parts t at, recent-expire now t window gs h)

pub cooling-expire :
    (subject : String) (now t window spacing : ℤ) (gs : List Grant)
    → now ≤ℤ t
    → spacing ≤ℤ window
    → cooling (expire gs now window) subject t spacing ≡ cooling gs subject t spacing
unfolding cooling expire
cooling-expire subject now t window spacing [] h k = refl
cooling-expire subject now t window spacing ((at, s) ∷ gs) h k =
    ground
      (arith, -ℤ_parts now at, -ℤ_parts t at, cooling-expire subject now t window spacing gs h k)

pub recent_cons :
    (at t window : ℤ) (s : String) (gs : List Grant)
    → recent ((at, s) ∷ gs) t window ≡ to_ℕ (ltb_ℤ (t -ℤ at) window) + recent gs t window
unfolding recent
recent_cons at t window s gs = refl

pub recent-append :
    (at t window : ℤ) (s : String) (gs : List Grant)
    → recent (gs ++ (at, s) ∷ []) t window ≡ recent ((at, s) ∷ gs) t window
unfolding recent
recent-append at t window s [] = refl
recent-append at t window s ((at', s') ∷ gs) = ground (arith, recent-append at t window s gs)

pub cooling-append :
    (subject : String) (at t spacing : ℤ) (s : String) (gs : List Grant)
    → cooling (gs ++ (at, s) ∷ []) subject t spacing ≡ cooling ((at, s) ∷ gs) subject t spacing
unfolding cooling
cooling-append subject at t spacing s [] = refl
cooling-append subject at t spacing s ((at', s') ∷ gs) =
    ground (arith, cooling-append subject at t spacing s gs)

pub recent-le-length : (t window : ℤ) (gs : List Grant) → recent gs t window ≤ length gs
unfolding recent
recent-le-length t window [] = omega arith
recent-le-length t window ((at, s) ∷ gs) = ground (arith, recent-le-length t window gs)

pub cooling_later :
    (subject : String) (now t spacing : ℤ) (gs : List Grant)
    → now ≤ℤ t
    → cooling gs subject now spacing ≡ false
    → cooling gs subject t spacing ≡ false
unfolding cooling
cooling_later subject now t spacing [] h c = refl
cooling_later subject now t spacing ((at, s) ∷ gs) h c =
    ground (arith, -ℤ_parts now at, -ℤ_parts t at, cooling_later subject now t spacing gs h)

-- A governor with all the grants that it ever made, newest first.
pub record Trace : Type 0 where
  pub governor : AutopilotGovernor
  pub log : List Grant

abbrev pub start : AutopilotGovernor → Trace
start g = record { governor = g; log = [] }

-- One evaluation: the clock reading of the decision, that of the record, and the adjustment.
pub record Request : Type 0 where
  pub adjustment : ResourceAdjustment
  pub now : ℤ
  pub later : ℤ

unfoldable pub step : Trace → Request → Trace
step tr r =
    let (g, decision) = evaluate tr.governor r.adjustment r.now r.later in
    record {
      governor = g;
      log = if is_allowed decision then (r.later, r.adjustment.subject) ∷ tr.log else tr.log;
    }

unfoldable pub run : Trace → List Request → Trace
run tr [] = tr
run tr (r ∷ rs) = run (step tr r) rs

-- Two grants of one subject are at least the spacing apart.
unfoldable pub Spaced : ℤ → List Grant → Type 0
Spaced spacing [] = Unit
Spaced spacing ((at, s) ∷ older) = (cooling older s at spacing ≡ false) × Spaced spacing older

pub cooling_cons :
    (subject : String) (at t spacing : ℤ) (s : String) (gs : List Grant)
    → cooling ((at, s) ∷ gs) subject t spacing
      ≡ ((eqb s subject && ltb_ℤ (t -ℤ at) spacing) || cooling gs subject t spacing)
unfolding cooling
cooling_cons subject at t spacing s gs = refl
