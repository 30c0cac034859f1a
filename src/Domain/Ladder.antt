-- ===== src/Domain/Ladder.antt =====
-- The promotion ladder of crates/argus-domain/src/autonomy.rs: demotion, promotion and the cap.
use Prim.Native.Nat.{min}
use argus_ai.Prelude.{◌<◌, ◌≡◌, ◌⊎◌, some, arith}
use argus_ai.Domain.{
  AutonomyMode, l0_observe, l1_explain, l2_recommend, l3_assisted, l4_autonomous, l5_adaptive, rank,
  lower_of, next_rung, demote_rung,
}

pub rank-lower_of : (a b : AutonomyMode) → rank (lower_of a b) ≡ min (rank a) (rank b)
unfolding lower_of
rank-lower_of a b = ground arith

-- A demotion loses at least one level unless the level is the lowest.
pub rank-demote_rung : (m : AutonomyMode) → (m ≡ l0_observe) ⊎ (rank (demote_rung m) < rank m)
unfolding rank demote_rung
rank-demote_rung m = ground arith

pub rank-next_rung : (m : AutonomyMode) {n : AutonomyMode} → next_rung m ≡ some n → rank m < rank n
unfolding rank next_rung
rank-next_rung m h = ground arith

-- The rungs that can be earned: L1 is a label, and L5 is granted by the operator only.
abbrev pub IsRung : AutonomyMode → Type 0
IsRung l1_explain = ⊥
IsRung l5_adaptive = ⊥
IsRung _ = Unit

pub demote_rung-IsRung : (m : AutonomyMode) → IsRung (demote_rung m)
unfolding demote_rung
demote_rung-IsRung l0_observe = tt
demote_rung-IsRung l1_explain = tt
demote_rung-IsRung l2_recommend = tt
demote_rung-IsRung l3_assisted = tt
demote_rung-IsRung l4_autonomous = tt
demote_rung-IsRung l5_adaptive = tt

pub next_rung-IsRung : (m : AutonomyMode) {n : AutonomyMode} → next_rung m ≡ some n → IsRung n
unfolding next_rung
next_rung-IsRung m h = ground arith
