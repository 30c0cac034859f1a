-- ===== src/Autonomy/Manager.antt =====
-- The methods of the manager of crates/argus-daemon/src/autonomy.rs that change its state.
use argus_ai.Prelude.{ℕ, Bool, ◌==◌, u32_saturating_add, if◌then◌else◌}
use argus_ai.Prelude.Int.{ℤ}
use argus_ai.Domain.{rank, demote_rung, RiskClass, BlastRadius}
use argus_ai.Policy.Budget.{BudgetLimits}
use argus_ai.Policy.Budget
use argus_ai.Autonomy.{CycleSignals, AutonomyManager, persist, lock, unlock}
use argus_ai.Autonomy.Cycle.{transition, restart_rung, demotable, cycle}

unfoldable pub on_cycle : AutonomyManager → CycleSignals → ℤ → Bool → AutonomyManager
unfolding persist
on_cycle m signals now stored_ok =
    let (l, changed) = cycle (lock m) m.config signals now in
    if changed then persist (unlock m l) stored_ok else unlock m l

unfoldable pub on_validation_failed : AutonomyManager → ℤ → Bool → AutonomyManager
unfolding transition persist rank
on_validation_failed m now stored_ok =
    if demotable m.state.earned
    then persist
        (unlock m
          (restart_rung (transition (lock m) (demote_rung m.state.earned) "failed_validation" now)))
        stored_ok
    else m

unfoldable pub record_validated_executions : AutonomyManager → ℕ → ℤ → Bool → AutonomyManager
unfolding persist
record_validated_executions m count now stored_ok =
    if count == 0
    then m
    else persist
        (record m {
          state = record (m.state) {
            validated_actions_since_rung =
                u32_saturating_add m.state.validated_actions_since_rung count;
            updated_at = now;
          };
        })
        stored_ok

-- The budget gate of the manager. The clock enters twice: as the instant of the state's stamp and as
-- the seconds that the windows are anchored by.
unfoldable pub reserve :
    AutonomyManager → RiskClass → BlastRadius → ℤ → ℤ → Bool → AutonomyManager × Bool
unfolding persist
reserve m risk scope now seconds stored_ok =
    let (w, reserved) = Budget.reserve m.state.budget m.config.budgets risk scope seconds in
    (
      if reserved
          then persist (record m { state = record (m.state) { budget = w; updated_at = now } })
              stored_ok
          else record m { state = record (m.state) { budget = w } },
      reserved,
    )

unfoldable pub refund : AutonomyManager → RiskClass → BlastRadius → ℤ → ℤ → Bool → AutonomyManager
unfolding persist
refund m risk scope now seconds stored_ok =
    persist
      (record m {
        state = record (m.state) {
          budget = Budget.refund m.state.budget risk scope seconds;
          updated_at = now;
        };
      })
      stored_ok
