-- ===== src/Autonomy.antt =====
-- The assimilation state machine of crates/argus-daemon/src/autonomy.rs over the persisted state of
-- crates/argus-domain/src/autonomy.rs. The async mutex makes each method one step, which reads the
-- clock once (`now`); whether the repository stored the state is the argument `stored_ok`. The
-- ledger traces and events of the rung changes are the list `trail`, newest first.
pub mod Cycle
pub mod Manager
pub mod Authority
pub mod Persistence
pub mod History
use argus_ai.Prelude.{
  ℕ, ◌+◌, Bool, true, false, not, ◌&&◌, ◌||◌, Option, none, some, List, [], ◌∷◌, String, ltb, leb,
  ◌==◌, u32_saturating_add, if◌then◌else◌,
}
use argus_ai.Prelude.Int.{ℤ}
use argus_ai.Domain.{
  AutonomyMode, l0_observe, l1_explain, l2_recommend, l3_assisted, l4_autonomous, l5_adaptive, rank,
  lower_of, next_rung, demote_rung, AssimilationPhase, mapping, shadow, earned, BudgetWindows,
  no_windows, RiskClass, BlastRadius,
}
use argus_ai.Policy.Budget.{BudgetLimits}
use argus_ai.Policy.Budget

pub record AutonomyState : Type 0 where
  pub environment_id : ℕ
  pub phase : AssimilationPhase
  pub earned : AutonomyMode
  pub shadow_clean_cycles : ℕ
  pub rung_clean_cycles : ℕ
  pub validated_actions_since_rung : ℕ
  pub budget : BudgetWindows
  pub updated_at : ℤ

unfoldable pub fresh : ℕ → ℤ → AutonomyState
fresh environment_id now = record {
  environment_id = environment_id;
  phase = mapping;
  earned = l0_observe;
  shadow_clean_cycles = 0;
  rung_clean_cycles = 0;
  validated_actions_since_rung = 0;
  budget = no_windows;
  updated_at = now;
}

pub record CycleSignals : Type 0 where
  pub ceiling : AutonomyMode
  pub provider_ready : Bool
  pub cloud_paired : Bool
  pub safe_mode_active : Bool
  pub open_critical_incidents : ℕ
  pub live_environment : Bool
  pub failed_validation : Bool

unfoldable pub clean : CycleSignals → Bool
clean s =
    s.provider_ready
    && s.cloud_paired
    && not s.safe_mode_active
    && s.open_critical_incidents == 0
    && not s.failed_validation

-- crates/argus-daemon/src/config.rs
pub record AutonomyConfig : Type 0 where
  pub shadow_min_cycles : ℕ
  pub rung_clean_cycles : ℕ
  pub budgets : BudgetLimits

pub record RungChange : Type 0 where
  pub from : AutonomyMode
  pub to : AutonomyMode
  pub reason : String
  pub promoted : Bool

pub record AutonomyManager : Type 0 where
  pub environment_id : ℕ
  pub config : AutonomyConfig
  pub state : AutonomyState
  pub repository : Option AutonomyState
  pub trail : List RungChange

-- What the repository answers: a state or none, or an error.
pub data StoreRead : Type 0 where
  found : AutonomyState → StoreRead
  absent unreadable : StoreRead

unfoldable pub persist : AutonomyManager → Bool → AutonomyManager
persist m stored_ok = if stored_ok then record m { repository = some m.state } else m

manager : ℕ → AutonomyConfig → Option AutonomyState → AutonomyState → AutonomyManager
manager environment_id config repository state = record {
  environment_id = environment_id;
  config = config;
  state = state;
  repository = repository;
  trail = [];
}

unfoldable pub load : ℕ → AutonomyConfig → StoreRead → ℤ → Bool → AutonomyManager
unfolding fresh persist manager
load environment_id config (found persisted) now stored_ok =
    if persisted.environment_id == environment_id
    then manager environment_id config (some persisted) persisted
    else persist (manager environment_id config (some persisted) (fresh environment_id now))
        stored_ok
load environment_id config absent now stored_ok =
    persist (manager environment_id config none (fresh environment_id now)) stored_ok
load environment_id config unreadable now stored_ok =
    persist (manager environment_id config none (fresh environment_id now)) stored_ok

unfoldable pub effective : AutonomyManager → AutonomyMode → AutonomyMode
effective m ceiling = lower_of ceiling m.state.earned

-- The locked state with the rung changes recorded so far.
pub record Locked : Type 0 where
  pub state : AutonomyState
  pub trail : List RungChange

abbrev pub unlock : AutonomyManager → Locked → AutonomyManager
unlock m l = record m { state = l.state; trail = l.trail }

abbrev pub lock : AutonomyManager → Locked
lock m = record { state = m.state; trail = m.trail }
