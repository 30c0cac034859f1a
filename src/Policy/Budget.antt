-- ===== src/Policy/Budget.antt =====
-- The blast-radius budget of crates/argus-policy/src/budget.rs. An instant enters as the seconds
-- that chrono's `timestamp` returns; `&mut BudgetWindows` is a value passed in and returned.
pub mod Room
pub mod History
use argus_ai.Prelude.{
  ℕ, ◌+◌, ◌-◌, Bool, true, false, Option, none, some, List, [], ◌∷◌, String, max, leb, eqb, u32,
  saturating_sub, if◌then◌else◌,
}
use argus_ai.Prelude.Int.{ℤ, div_euclid, int_eq}
use argus_ai.Domain.{
  RiskClass, BlastRadius, is_low_risk, is_controlled, is_host, Window, BudgetWindows,
}

pub record BudgetLimits : Type 0 where
  pub low_risk_per_hour : ℕ
  pub controlled_per_day : ℕ
  pub host_scope_per_day : ℕ

abbrev pub default_limits : BudgetLimits
default_limits = record { low_risk_per_hour = 20; controlled_per_day = 5; host_scope_per_day = 3 }

abbrev unwrap_or : Option ℕ → ℕ → ℕ
unwrap_or none d = d
unwrap_or (some n) d = n

-- The limits read from the three optional keys, each clamped to at least one.
unfoldable pub deserialize : Option ℕ → Option ℕ → Option ℕ → BudgetLimits
deserialize low controlled host = record {
  low_risk_per_hour = max (unwrap_or low 20) 1;
  controlled_per_day = max (unwrap_or controlled 5) 1;
  host_scope_per_day = max (unwrap_or host 3) 1;
}

unfoldable pub hour_index : ℤ → ℤ
hour_index now = div_euclid now 3600

unfoldable pub day_index : ℤ → ℤ
day_index now = div_euclid now 86400

unfoldable pub rolled : Window → ℤ → ℕ
rolled none anchor = 0
rolled (some (window_anchor, used)) anchor = if eqb window_anchor anchor then used else 0

-- The window after rollover to the current anchor.
unfoldable pub roll : Window → ℤ → Window
roll window anchor = some (anchor, rolled window anchor)

unfoldable pub bump : Window → ℤ → Bool → Window
unfolding rolled
bump window anchor applies =
    if applies then some (anchor, u32 (rolled window anchor + 1)) else window

-- The three checks in their order, each after the rollover of its window, then the consumption.
check_low : BudgetWindows → BudgetLimits → RiskClass → ℤ → BudgetWindows × Bool
unfolding rolled roll
check_low w limits risk hour =
    if is_low_risk risk
    then (
      record w { low_risk_hour = roll w.low_risk_hour hour },
      leb limits.low_risk_per_hour (rolled w.low_risk_hour hour),
    )
    else (w, false)

check_controlled : BudgetWindows → BudgetLimits → RiskClass → ℤ → BudgetWindows × Bool
unfolding rolled roll
check_controlled w limits risk day =
    if is_controlled risk
    then (
      record w { controlled_day = roll w.controlled_day day },
      leb limits.controlled_per_day (rolled w.controlled_day day),
    )
    else (w, false)

check_host : BudgetWindows → BudgetLimits → BlastRadius → ℤ → BudgetWindows × Bool
unfolding rolled roll
check_host w limits scope day =
    if is_host scope
    then (
      record w { host_scope_day = roll w.host_scope_day day },
      leb limits.host_scope_per_day (rolled w.host_scope_day day),
    )
    else (w, false)

consume : BudgetWindows → RiskClass → BlastRadius → ℤ → ℤ → BudgetWindows
unfolding bump
consume w risk scope hour day = record {
  low_risk_hour = bump w.low_risk_hour hour (is_low_risk risk);
  controlled_day = bump w.controlled_day day (is_controlled risk);
  host_scope_day = bump w.host_scope_day day (is_host scope);
}

unfoldable pub reserve :
    BudgetWindows → BudgetLimits → RiskClass → BlastRadius → ℤ → BudgetWindows × Bool
unfolding check_low check_controlled check_host consume
reserve w limits risk scope now =
    let hour = hour_index now in
    let day = day_index now in
    let (w1, full1) = check_low w limits risk hour in
    if full1
    then (w1, false)
    else (let (w2, full2) = check_controlled w1 limits risk day in
        if full2
        then (w2, false)
        else (let (w3, full3) = check_host w2 limits scope day in
            if full3 then (w3, false) else (consume w3 risk scope hour day, true)))

surrender : Window → ℤ → Bool → Window
unfolding rolled
surrender window anchor applies =
    if applies then some (anchor, saturating_sub (rolled window anchor) 1) else window

unfoldable pub refund : BudgetWindows → RiskClass → BlastRadius → ℤ → BudgetWindows
unfolding surrender
refund w risk scope now = record {
  low_risk_hour = surrender w.low_risk_hour (hour_index now) (is_low_risk risk);
  controlled_day = surrender w.controlled_day (day_index now) (is_controlled risk);
  host_scope_day = surrender w.host_scope_day (day_index now) (is_host scope);
}

-- Remaining units and limit of each window, under its configuration key.
unfoldable pub remaining : BudgetWindows → BudgetLimits → ℤ → List (String × ℕ × ℕ)
unfolding rolled
remaining w limits now =
    (
      "low_risk_per_hour",
      left limits.low_risk_per_hour w.low_risk_hour (hour_index now),
      limits.low_risk_per_hour,
    )
    ∷ (
      "controlled_per_day",
      left limits.controlled_per_day w.controlled_day (day_index now),
      limits.controlled_per_day,
    )
    ∷ (
      "host_scope_per_day",
      left limits.host_scope_per_day w.host_scope_day (day_index now),
      limits.host_scope_per_day,
    )
    ∷ []
  where
    left : ℕ → Window → ℤ → ℕ
    left limit window anchor = saturating_sub limit (rolled window anchor)
