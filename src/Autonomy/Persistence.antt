-- ===== src/Autonomy/Persistence.antt =====
-- The repository keeps up with the machine of crates/argus-daemon/src/autonomy.rs.
use argus_ai.Prelude.{ℕ, ◌≡◌, refl, Bool, true, false, some, arith}
use argus_ai.Prelude.Int.{ℤ}
use argus_ai.Domain.{mapping, shadow, earned, AssimilationPhase}
use argus_ai.Autonomy.{
  AutonomyState, AutonomyConfig, AutonomyManager, CycleSignals, Locked, StoreRead, found, absent,
  unreadable, fresh, load, lock,
}
use argus_ai.Autonomy.Cycle.{revoke, earn, restart, cycle}
use argus_ai.Autonomy.Manager.{on_cycle}
use argus_ai.Autonomy.History.{on_cycle_keeps}

-- A cycle that reports no change changes nothing.
cycle_unchanged :
    (l : Locked) (c : AutonomyConfig) (s : CycleSignals) (now : ℤ)
    → (cycle l c s now).1 ≡ false
    → (cycle l c s now).0.state ≡ l.state
unfolding cycle revoke earn restart
cycle_unchanged l c s now h = ground arith

-- Where the repository holds the state and stores what it is given, it holds the state after a
-- brain cycle too, also where the cycle decides not to write.
pub on_cycle_stored :
    (m : AutonomyManager) (s : CycleSignals) (now : ℤ)
    → m.repository ≡ some m.state
    → (on_cycle m s now true).repository ≡ some (on_cycle m s now true).state
unfolding on_cycle
on_cycle_stored m s now h = ground (arith, cycle_unchanged (lock m) m.config s now)

revoke_environment :
    (e : ℕ) (l : Locked) (s : CycleSignals) (now : ℤ)
    → l.state.environment_id ≡ e
    → (revoke l s now).0.state.environment_id ≡ e
unfolding revoke
revoke_environment e l s now h = ground arith

restart_environment :
    (e : ℕ) (l : Locked) → l.state.environment_id ≡ e → (restart l).0.state.environment_id ≡ e
unfolding restart
restart_environment e l h = h

earn_environment :
    (e : ℕ) (p : AssimilationPhase) (l : Locked) (c : AutonomyConfig) (s : CycleSignals) (now : ℤ)
    → l.state.phase ≡ p
    → l.state.environment_id ≡ e
    → (earn p l c s now).0.state.environment_id ≡ e
unfolding earn
earn_environment e mapping l c s now q h = ground arith
earn_environment e shadow l c s now q h = ground arith
earn_environment e earned l c s now q h = ground arith

on_cycle_environment :
    (m : AutonomyManager) (s : CycleSignals) (now : ℤ) (stored_ok : Bool)
    → (on_cycle m s now stored_ok).state.environment_id ≡ m.state.environment_id
on_cycle_environment m s now stored_ok =
    let e = m.state.environment_id in
    on_cycle_keeps (λ st. st.environment_id ≡ e) (revoke_environment e) (restart_environment e)
      (earn_environment e) m s now stored_ok refl

-- Where the repository holds the state of this environment and stores what it is given, a restart
-- after a brain cycle that reads back what was stored resumes with the very state that the cycle
-- left: phase, rung, counters and windows.
pub load-on_cycle :
    (m : AutonomyManager) (s : CycleSignals) (now later : ℤ) (stored_ok : Bool)
    → m.repository ≡ some m.state
    → m.state.environment_id ≡ m.environment_id
    → (st : AutonomyState) → (on_cycle m s now true).repository ≡ some st
    → (load m.environment_id m.config (found st) later stored_ok).state
      ≡ (on_cycle m s now true).state
unfolding load
load-on_cycle m s now later stored_ok h env st read =
    ground (arith, on_cycle_stored m s now h, on_cycle_environment m s now true)

-- A state of another environment, no state, or an unreadable store makes the machine start over,
-- in the mapping phase at L0 with empty counters and windows.
pub load_fail_closed :
    (env : ℕ) (c : AutonomyConfig) (r : StoreRead) (now : ℤ) (stored_ok : Bool)
    → ((st : AutonomyState) → r ≡ found st → ¬ (st.environment_id ≡ env))
    → (load env c r now stored_ok).state ≡ fresh env now
unfolding load
load_fail_closed env c (found st) now ok h = ground (arith, h st refl)
load_fail_closed env c absent now ok h = ground arith
load_fail_closed env c unreadable now ok h = ground arith
