-- ===== src/Autonomy/Cycle.antt =====
-- What one brain cycle does to the locked state of crates/argus-daemon/src/autonomy.rs: the body of
-- `on_cycle`, and the rung transition that it shares with the other methods.
use argus_ai.Prelude.{
  Bool, true, false, not, ◌&&◌, ◌||◌, Option, none, some, ◌∷◌, String, ltb, leb, ◌==◌,
  u32_saturating_add, if◌then◌else◌,
}
use argus_ai.Prelude.Int.{ℤ}
use argus_ai.Domain.{
  AutonomyMode, l0_observe, l1_explain, l2_recommend, l3_assisted, l4_autonomous, l5_adaptive, rank,
  next_rung, demote_rung, AssimilationPhase, mapping, shadow, earned,
}
use argus_ai.Autonomy.{CycleSignals, clean, AutonomyConfig, Locked}

abbrev pub same_mode : AutonomyMode → AutonomyMode → Bool
same_mode l0_observe l0_observe = true
same_mode l1_explain l1_explain = true
same_mode l2_recommend l2_recommend = true
same_mode l3_assisted l3_assisted = true
same_mode l4_autonomous l4_autonomous = true
same_mode l5_adaptive l5_adaptive = true
same_mode _ _ = false

unfoldable pub transition : Locked → AutonomyMode → String → ℤ → Locked
transition l to reason now =
    let from = l.state.earned in
    if same_mode from to then l else record {
      state = record (l.state) { earned = to; validated_actions_since_rung = 0; updated_at = now };
      trail =
          record { from = from; to = to; reason = reason; promoted = ltb (rank from) (rank to) }
          ∷ l.trail;
    }

abbrev pub restart_rung : Locked → Locked
restart_rung l = record l { state = record (l.state) { rung_clean_cycles = 0 } }

abbrev pub demotable : AutonomyMode → Bool
demotable m = ltb (rank l0_observe) (rank m)

-- Revocation: the locked state after it, and whether it changed.
unfoldable pub revoke : Locked → CycleSignals → ℤ → Locked × Bool
unfolding transition rank
revoke l signals now =
    if signals.safe_mode_active && demotable l.state.earned
    then (restart_rung (transition l l0_observe "safe_mode" now), true)
    else (if not signals.provider_ready && demotable l.state.earned
        then (
          restart_rung (transition l (demote_rung l.state.earned) "provider_degraded" now),
          true,
        )
        else (l, false))

earn_shadow : Locked → AutonomyConfig → ℤ → Locked
unfolding transition
earn_shadow l config now =
    let cycles = u32_saturating_add l.state.shadow_clean_cycles 1 in
    if leb config.shadow_min_cycles cycles
    then transition
        (record l {
          state = record (l.state) {
            phase = earned;
            shadow_clean_cycles = 0;
            rung_clean_cycles = 0;
          };
        })
        l2_recommend "shadow_window" now
    else record l { state = record (l.state) { shadow_clean_cycles = cycles } }

promote : Locked → AutonomyConfig → CycleSignals → Option AutonomyMode → ℤ → Locked
unfolding transition rank
promote l config signals none now = l
promote l config signals (some next) now =
    if leb config.rung_clean_cycles l.state.rung_clean_cycles
      && (leb 1 l.state.validated_actions_since_rung || not (ltb (rank l2_recommend) (rank next)))
      && leb (rank next) (rank signals.ceiling)
    then transition (restart_rung l) next "clean_cycles" now
    else l

earn_rung : Locked → AutonomyConfig → CycleSignals → ℤ → Locked
unfolding promote
earn_rung l config signals now =
    let l' : Locked = record l {
      state = record (l.state) {
        rung_clean_cycles = u32_saturating_add l.state.rung_clean_cycles 1;
      };
    } in
    promote l' config signals (next_rung l.state.earned) now

-- The `match` on the phase of a clean cycle, with whether the state changed.
unfoldable pub earn : AssimilationPhase → Locked → AutonomyConfig → CycleSignals → ℤ → Locked × Bool
unfolding earn_shadow earn_rung
earn mapping l config signals now =
    if signals.live_environment
    then (
      record l {
        state = record (l.state) { phase = shadow; shadow_clean_cycles = 0; updated_at = now };
      },
      true,
    )
    else (l, false)
earn shadow l config signals now = (earn_shadow l config now, true)
earn earned l config signals now = (earn_rung l config signals now, true)

-- An unclean cycle restarts both counters.
unfoldable pub restart : Locked → Locked × Bool
restart l = (
  record l { state = record (l.state) { shadow_clean_cycles = 0; rung_clean_cycles = 0 } },
  not (l.state.shadow_clean_cycles == 0) || not (l.state.rung_clean_cycles == 0),
)

unfoldable pub cycle : Locked → AutonomyConfig → CycleSignals → ℤ → Locked × Bool
cycle l config signals now =
    let (l1, revoked) = revoke l signals now in
    let (l2, changed) =
      if clean signals then earn l1.state.phase l1 config signals now else restart l1 in
    (l2, revoked || changed)
