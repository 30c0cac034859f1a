-- ===== src/Tests/Autonomy.antt =====
-- Concrete runs of the assimilation state machine of crates/argus-daemon/src/autonomy.rs.
use argus_ai.Prelude.{◌≤◌, ◌≡◌, refl, true, false, some, List, [], ◌∷◌, arith}
use argus_ai.Prelude.Int.{pos}
use argus_ai.Domain.{
  AutonomyMode, l0_observe, l2_recommend, l3_assisted, l4_autonomous, rank, earned, shadow,
  no_windows, low_risk, host, demote_rung,
}
use argus_ai.Policy.Budget.{default_limits}
use argus_ai.Autonomy.{
  AutonomyState, AutonomyConfig, AutonomyManager, CycleSignals, clean, fresh, found, absent, load,
  persist, lock, unlock,
}
use argus_ai.Autonomy.Manager.{on_cycle}
use argus_ai.Autonomy.Cycle
use argus_ai.Autonomy.Authority.{Earns, on_cycle_authority}
use argus_ai.Autonomy.History.{
  Shape, WithoutWork, run, cycles, fails, reserves, run_fresh-Shape, idle_stays_low,
}
use argus_ai.Autonomy.Persistence.{on_cycle_stored, load-on_cycle}

abbrev config : AutonomyConfig
config = record { shadow_min_cycles = 1; rung_clean_cycles = 1; budgets = default_limits }

abbrev good : CycleSignals
good = record {
  ceiling = l4_autonomous;
  provider_ready = true;
  cloud_paired = true;
  safe_mode_active = false;
  open_critical_incidents = 0;
  live_environment = true;
  failed_validation = false;
}

abbrev bad : CycleSignals
bad = record good { provider_ready = false }

abbrev at_l2 : AutonomyState
at_l2 = record {
  environment_id = 5;
  phase = earned;
  earned = l2_recommend;
  shadow_clean_cycles = 0;
  rung_clean_cycles = 3;
  validated_actions_since_rung = 2;
  budget = no_windows;
  updated_at = pos 0;
}

abbrev manager : AutonomyManager
manager = record {
  environment_id = 5;
  config = config;
  state = at_l2;
  repository = some at_l2;
  trail = [];
}

abbrev newborn : AutonomyManager
newborn = record manager { state = fresh 5 (pos 0) }

-- A clean cycle promotes to L3.
promoted : (on_cycle manager good (pos 10) true).state.earned ≡ l3_assisted
unfolding on_cycle Cycle.cycle Cycle.revoke Cycle.earn Cycle.transition clean rank
    argus_ai.Domain.next_rung
promoted = refl

on_cycle_authority_example :
    (clean good ≡ true) × Earns config good at_l2 (on_cycle manager good (pos 10) true).state.earned
unfolding on_cycle Cycle.cycle Cycle.revoke Cycle.earn Cycle.transition clean rank
    argus_ai.Domain.next_rung
on_cycle_authority_example = on_cycle_authority manager good (pos 10) true (omega arith)

abbrev idle_calls : List argus_ai.Autonomy.History.Call
idle_calls = cycles good (pos 1) true ∷ cycles good (pos 2) true ∷ cycles good (pos 3) false ∷ []

run_fresh-Shape_example : Shape (run newborn idle_calls).state
run_fresh-Shape_example = run_fresh-Shape newborn 5 (pos 0) idle_calls refl

idle_stays_low_example : rank (run newborn idle_calls).state.earned ≤ rank l2_recommend
idle_stays_low_example = idle_stays_low newborn 5 (pos 0) idle_calls refl (tt, (tt, (tt, tt)))

load-on_cycle_example :
    (load 5 config (found (on_cycle manager good (pos 10) true).state) (pos 20) true).state
    ≡ (on_cycle manager good (pos 10) true).state
load-on_cycle_example =
    load-on_cycle manager good (pos 10) (pos 20) true refl refl
      (on_cycle manager good (pos 10) true).state (on_cycle_stored manager good (pos 10) refl)

not_ours : (st : AutonomyState) → found at_l2 ≡ found st → ¬ (st.environment_id ≡ 6)
not_ours st e h = ground arith
