-- ===== src/Policy/Budget/History.antt =====
-- What a history of reservations and refunds can consume (crates/argus-policy/src/budget.rs).
use argus_ai.Prelude.{
  ℕ, ◌+◌, ◌≤◌, ◌≡◌, sym, subst, true, List, [], ◌∷◌, All, arith, if◌then◌else◌, Bool-cases, inl,
  inr,
}
use argus_ai.Prelude.Int.{ℤ}
use argus_ai.Domain.{RiskClass, BlastRadius, is_low_risk, is_host, BudgetWindows}
use argus_ai.Policy.Budget.{BudgetLimits, hour_index, day_index, rolled, reserve, refund}
use argus_ai.Policy.Budget.Room.{
  used_at, HasRoom, IsU32, units, reserve_iff, reserve_refused, reserve_granted, used_at-refund,
}

-- One call of the gate: a reservation or a refund, with its risk, scope and instant.
pub data Call : Type 0 where
  reserves refunds : RiskClass → BlastRadius → ℤ → Call

abbrev pub instant : Call → ℤ
instant (reserves risk scope now) = now
instant (refunds risk scope now) = now

-- The windows after a call, and whether a reservation was granted or a refund made.
pub record Tally : Type 0 where
  pub windows : BudgetWindows
  pub granted_low : ℕ
  pub refunded_low : ℕ
  pub granted_host : ℕ
  pub refunded_host : ℕ

abbrev pub start : BudgetWindows → Tally
start w = record {
  windows = w;
  granted_low = 0;
  refunded_low = 0;
  granted_host = 0;
  refunded_host = 0;
}

unfoldable pub call : BudgetLimits → Tally → Call → Tally
call l t (reserves risk scope now) =
    let (w, granted) = reserve t.windows l risk scope now in
    record t {
      windows = w;
      granted_low = t.granted_low + (if granted then units (is_low_risk risk) else 0);
      granted_host = t.granted_host + (if granted then units (is_host scope) else 0);
    }
call l t (refunds risk scope now) = record t {
  windows = refund t.windows risk scope now;
  refunded_low = t.refunded_low + units (is_low_risk risk);
  refunded_host = t.refunded_host + units (is_host scope);
}

unfoldable pub run : BudgetLimits → Tally → List Call → Tally
run l t [] = t
run l t (c ∷ cs) = run l (call l t c) cs

-- Net consumption of the hour `h` stays under the limit.
record LowInv (l : BudgetLimits) (h : ℤ) (t : Tally) : Type 0 where
  bounded : rolled t.windows.low_risk_hour h ≤ l.low_risk_per_hour
  counted : t.granted_low ≤ rolled t.windows.low_risk_hour h + t.refunded_low

record HostInv (l : BudgetLimits) (d : ℤ) (t : Tally) : Type 0 where
  bounded : rolled t.windows.host_scope_day d ≤ l.host_scope_per_day
  counted : t.granted_host ≤ rolled t.windows.host_scope_day d + t.refunded_host

reserve_used :
    (w : BudgetWindows) (l : BudgetLimits) (risk : RiskClass) (scope : BlastRadius) (now : ℤ)
    → IsU32 l
    → let used = used_at (reserve w l risk scope now).0 now in
      let granted = (reserve w l risk scope now).1 in
      (used.low ≡ (used_at w now).low + (if granted then units (is_low_risk risk) else 0))
      × (used.host ≡ (used_at w now).host + (if granted then units (is_host scope) else 0))
reserve_used w l risk scope now u = elim (Bool-cases (reserve w l risk scope now).1) [
  | inl yes' ↦ ground (arith, reserve_granted w l risk scope now u yes')
  | inr no' ↦ ground (arith, reserve_refused w l risk scope now no')
]

reserve_room :
    (w : BudgetWindows) (l : BudgetLimits) (risk : RiskClass) (scope : BlastRadius) (now : ℤ)
    → (reserve w l risk scope now).1 ≡ true
    → HasRoom w l risk scope now
reserve_room w l risk scope now h = (reserve_iff w l risk scope now).0 h

call-LowInv :
    (l : BudgetLimits) (t : Tally) (c : Call)
    → IsU32 l
    → LowInv l (hour_index (instant c)) t
    → LowInv l (hour_index (instant c)) (call l t c)
unfolding call
call-LowInv l t (reserves risk scope now) u v =
    ground
      (arith, reserve_used t.windows l risk scope now u, reserve_room t.windows l risk scope now)
call-LowInv l t (refunds risk scope now) u v =
    ground (arith, used_at-refund t.windows risk scope now)

call-HostInv :
    (l : BudgetLimits) (t : Tally) (c : Call)
    → IsU32 l
    → HostInv l (day_index (instant c)) t
    → HostInv l (day_index (instant c)) (call l t c)
unfolding call
call-HostInv l t (reserves risk scope now) u v =
    ground
      (arith, reserve_used t.windows l risk scope now u, reserve_room t.windows l risk scope now)
call-HostInv l t (refunds risk scope now) u v =
    ground (arith, used_at-refund t.windows risk scope now)

run-LowInv :
    (l : BudgetLimits) (h : ℤ) (t : Tally) (cs : List Call)
    → IsU32 l
    → All (λ c. hour_index (instant c) ≡ h) cs
    → LowInv l h t
    → LowInv l h (run l t cs)
unfolding run
run-LowInv l h t [] u same v = v
run-LowInv l h t (c ∷ cs) u same v = run-LowInv l h (call l t c) cs u same.1 (
    subst (λ k. LowInv l k (call l t c)) same.0
      (call-LowInv l t c u (subst (λ k. LowInv l k t) (sym same.0) v)))

run-HostInv :
    (l : BudgetLimits) (d : ℤ) (t : Tally) (cs : List Call)
    → IsU32 l
    → All (λ c. day_index (instant c) ≡ d) cs
    → HostInv l d t
    → HostInv l d (run l t cs)
unfolding run
run-HostInv l d t [] u same v = v
run-HostInv l d t (c ∷ cs) u same v = run-HostInv l d (call l t c) cs u same.1 (
    subst (λ k. HostInv l k (call l t c)) same.0
      (call-HostInv l t c u (subst (λ k. HostInv l k t) (sym same.0) v)))

-- In any history of reservations and refunds within one hour, under limits that are u32 values and
-- from windows whose use of the hour is within the limit, the low-risk reservations granted exceed
-- those refunded by at most the hourly limit.
pub low_risk_bounded :
    (l : BudgetLimits) (h : ℤ) (w : BudgetWindows) (cs : List Call)
    → IsU32 l
    → rolled w.low_risk_hour h ≤ l.low_risk_per_hour
    → All (λ c. hour_index (instant c) ≡ h) cs
    → let t = run l (start w) cs in t.granted_low ≤ l.low_risk_per_hour + t.refunded_low
low_risk_bounded l h w cs u within same =
    omega (
      arith,
      run-LowInv l h (start w) cs u same (record { bounded = within; counted = omega arith }),
    )

-- In any history of reservations and refunds within one day, under limits that are u32 values and
-- from windows whose host-scope use of the day is within the limit, the host-scope reservations
-- granted, of whatever risk class, exceed those refunded by at most the daily limit.
pub host_scope_bounded :
    (l : BudgetLimits) (d : ℤ) (w : BudgetWindows) (cs : List Call)
    → IsU32 l
    → rolled w.host_scope_day d ≤ l.host_scope_per_day
    → All (λ c. day_index (instant c) ≡ d) cs
    → let t = run l (start w) cs in t.granted_host ≤ l.host_scope_per_day + t.refunded_host
host_scope_bounded l d w cs u within same = omega (
  arith,
  run-HostInv l d (start w) cs u same (record { bounded = within; counted = omega arith }),
)
