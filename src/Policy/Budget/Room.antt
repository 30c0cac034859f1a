-- ===== src/Policy/Budget/Room.antt =====
-- When a reservation is granted, what it consumes, and what a refund gives back
-- (crates/argus-policy/src/budget.rs).
use argus_ai.Prelude.{
  ℕ, ◌+◌, ◌≤◌, ◌<◌, ◌≡◌, ◌↔◌, ◌⊎◌, Bool, true, false, arith, u32_max, eqb_iff, ◌-◌,
}
use argus_ai.Prelude.Int.{ℤ, int_eq}
use argus_ai.Domain.{
  RiskClass, BlastRadius, is_low_risk, is_controlled, is_host, Window, BudgetWindows,
}
use argus_ai.Policy.Budget.{BudgetLimits, hour_index, day_index, rolled, roll, reserve, refund}

-- The units of the current hour and day that are used in each window.
pub record Used : Type 0 where
  pub low : ℕ
  pub controlled : ℕ
  pub host : ℕ

abbrev pub used_at : BudgetWindows → ℤ → Used
used_at w now = record {
  low = rolled w.low_risk_hour (hour_index now);
  controlled = rolled w.controlled_day (day_index now);
  host = rolled w.host_scope_day (day_index now);
}

-- Every window that the risk and the scope apply to is below its limit.
pub record HasRoom (w : BudgetWindows) (l : BudgetLimits) (risk : RiskClass) (scope : BlastRadius)
    (now : ℤ) : Type 0 where
  pub low : (is_low_risk risk ≡ false) ⊎ ((used_at w now).low < l.low_risk_per_hour)
  pub controlled :
      (is_controlled risk ≡ false) ⊎ ((used_at w now).controlled < l.controlled_per_day)
  pub host : (is_host scope ≡ false) ⊎ ((used_at w now).host < l.host_scope_per_day)

-- The limits are `u32` values.
pub record IsU32 (l : BudgetLimits) : Type 0 where
  pub low : l.low_risk_per_hour ≤ u32_max
  pub controlled : l.controlled_per_day ≤ u32_max
  pub host : l.host_scope_per_day ≤ u32_max

rolled-roll : (w : Window) (a : ℤ) → rolled (roll w a) a ≡ rolled w a
unfolding rolled roll
rolled-roll w a = ground (arith, eqb_iff a a)

-- A reservation is granted exactly when each window that applies to the risk class or the scope
-- has used less than its limit in the current hour or day.
pub reserve_iff :
    (w : BudgetWindows) (l : BudgetLimits) (risk : RiskClass) (scope : BlastRadius) (now : ℤ)
    → ((reserve w l risk scope now).1 ≡ true) ↔ HasRoom w l risk scope now
unfolding reserve
reserve_iff w l risk scope now = ground arith

-- A refused reservation consumes nothing: each window holds for that instant what it held before,
-- rolled over or not.
pub reserve_refused :
    (w : BudgetWindows) (l : BudgetLimits) (risk : RiskClass) (scope : BlastRadius) (now : ℤ)
    → (reserve w l risk scope now).1 ≡ false
    → used_at (reserve w l risk scope now).0 now ≡ used_at w now
unfolding reserve
reserve_refused w l risk scope now h = ground (
  arith,
  rolled-roll w.low_risk_hour (hour_index now),
  rolled-roll w.controlled_day (day_index now),
  rolled-roll w.host_scope_day (day_index now),
)

abbrev pub units : Bool → ℕ
units true = 1
units false = 0

-- What a granted reservation leaves: one unit more in each applicable window.
pub reserve_granted :
    (w : BudgetWindows) (l : BudgetLimits) (risk : RiskClass) (scope : BlastRadius) (now : ℤ)
    → IsU32 l
    → (reserve w l risk scope now).1 ≡ true
    → used_at (reserve w l risk scope now).0 now ≡ record {
      low = (used_at w now).low + units (is_low_risk risk);
      controlled = (used_at w now).controlled + units (is_controlled risk);
      host = (used_at w now).host + units (is_host scope);
    }
unfolding reserve
reserve_granted w l risk scope now u h = ground (
  arith,
  eqb_iff (hour_index now) (hour_index now),
  eqb_iff (day_index now) (day_index now),
  rolled-roll w.low_risk_hour (hour_index now),
  rolled-roll w.controlled_day (day_index now),
  rolled-roll w.host_scope_day (day_index now),
)

pub used_at-refund :
    (w : BudgetWindows) (risk : RiskClass) (scope : BlastRadius) (now : ℤ)
    → used_at (refund w risk scope now) now ≡ record {
      low = (used_at w now).low - units (is_low_risk risk);
      controlled = (used_at w now).controlled - units (is_controlled risk);
      host = (used_at w now).host - units (is_host scope);
    }
unfolding refund rolled
used_at-refund w risk scope now =
    ground
      (arith, eqb_iff (hour_index now) (hour_index now), eqb_iff (day_index now) (day_index now))

-- Under limits that are u32 values, a refund at the same instant undoes a granted reservation:
-- each window then holds for that instant what it held before.
pub refund-reserve :
    (w : BudgetWindows) (l : BudgetLimits) (risk : RiskClass) (scope : BlastRadius) (now : ℤ)
    → IsU32 l
    → (reserve w l risk scope now).1 ≡ true
    → used_at (refund (reserve w l risk scope now).0 risk scope now) now ≡ used_at w now
refund-reserve w l risk scope now u h = ground (
  arith,
  used_at-refund (reserve w l risk scope now).0 risk scope now,
  reserve_granted w l risk scope now u h,
)
