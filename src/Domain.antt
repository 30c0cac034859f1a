-- ===== src/Domain.antt =====
-- The vocabulary of crates/argus-domain that the components share: the graduated autonomy levels
-- (src/reasoning.rs, src/autonomy.rs), the classes of risk and scope (src/capability.rs,
-- src/authorization.rs) and the outcome of a policy evaluation (src/authorization.rs).
pub mod Ladder
pub mod Plan
pub mod Registry
pub mod Surface
use argus_ai.Prelude.{ℕ, ◌+◌, ◌≡◌, Bool, true, false, Option, none, some, leb, if◌then◌else◌}
use argus_ai.Prelude.Int.{ℤ}

pub data AutonomyMode : Type 0 where
  l0_observe l1_explain l2_recommend l3_assisted l4_autonomous l5_adaptive : AutonomyMode

pub data PlanStatus : Type 0 where
  proposed approved denied superseded executing completed failed : PlanStatus
  rolling_back rolled_back needs_manual awaiting_approval : PlanStatus

pub data RiskClass : Type 0 where
  read low_risk controlled high_risk destructive : RiskClass

pub data BlastRadius : Type 0 where
  nowhere host environment fleet : BlastRadius

pub data PolicyOutcome : Type 0 where
  allow deny require_approval : PolicyOutcome

pub data Severity : Type 0 where
  info warning error : Severity

-- The derived equality tests that the code makes.
abbrev pub is_low_risk : RiskClass → Bool
is_low_risk low_risk = true
is_low_risk _ = false

abbrev pub is_controlled : RiskClass → Bool
is_controlled controlled = true
is_controlled _ = false

abbrev pub is_host : BlastRadius → Bool
is_host host = true
is_host _ = false

unfoldable pub is_validation_failure : PlanStatus → Bool
is_validation_failure rolled_back = true
is_validation_failure needs_manual = true
is_validation_failure _ = false

unfoldable pub rank : AutonomyMode → ℕ
rank l0_observe = 0
rank l1_explain = 1
rank l2_recommend = 2
rank l3_assisted = 3
rank l4_autonomous = 4
rank l5_adaptive = 5

unfoldable pub lower_of : AutonomyMode → AutonomyMode → AutonomyMode
unfolding rank
lower_of self other = if leb (rank self) (rank other) then self else other

unfoldable pub next_rung : AutonomyMode → Option AutonomyMode
next_rung l0_observe = some l2_recommend
next_rung l1_explain = some l2_recommend
next_rung l2_recommend = some l3_assisted
next_rung l3_assisted = some l4_autonomous
next_rung l4_autonomous = none
next_rung l5_adaptive = none

unfoldable pub demote_rung : AutonomyMode → AutonomyMode
demote_rung l3_assisted = l2_recommend
demote_rung l4_autonomous = l3_assisted
demote_rung l5_adaptive = l3_assisted
demote_rung _ = l0_observe

pub data AssimilationPhase : Type 0 where
  mapping shadow earned : AssimilationPhase

-- A window is its anchor index, an `i64`, and the units consumed, a `u32`.
abbrev pub Window : Type 0
Window = Option (ℤ × ℕ)

pub record BudgetWindows : Type 0 where
  pub low_risk_hour : Window
  pub controlled_day : Window
  pub host_scope_day : Window

abbrev pub no_windows : BudgetWindows
no_windows = record { low_risk_hour = none; controlled_day = none; host_scope_day = none }
