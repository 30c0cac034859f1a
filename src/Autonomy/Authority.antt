-- ===== src/Autonomy/Authority.antt =====
-- When a brain cycle raises and lowers the earned rung (crates/argus-daemon/src/autonomy.rs).
use argus_ai.Prelude.{
  ◌+◌, ◌≤◌, ◌<◌, ◌≡◌, refl, ◌⊎◌, inl, inr, Bool, true, false, some, arith, min, Bool-cases, String,
  ap, if◌then◌else◌,
}
use argus_ai.Prelude.Int.{ℤ}
use argus_ai.Domain.{
  AutonomyMode, l0_observe, l2_recommend, rank, next_rung, demote_rung, mapping, shadow, earned,
  AssimilationPhase,
}
use argus_ai.Domain.Ladder.{rank-lower_of, rank-demote_rung}
use argus_ai.Autonomy.{
  AutonomyState, AutonomyConfig, AutonomyManager, CycleSignals, Locked, clean, effective, lock,
}
use argus_ai.Autonomy.Cycle.{transition, revoke, earn, restart, cycle, same_mode}
use argus_ai.Autonomy.Manager.{on_cycle}

-- The level acted at is the lower of the ceiling and the earned rung.
pub effective_capped :
    (m : AutonomyManager) (ceiling : AutonomyMode)
    → rank (effective m ceiling) ≡ min (rank ceiling) (rank m.state.earned)
unfolding effective
effective_capped m ceiling = rank-lower_of ceiling m.state.earned

-- What a promotion to a rung rests on: the shadow window's cycles, for the first trust rung, or the
-- rung's cycles under the ceiling and, above that rung, validated work.
pub record ByShadow (c : AutonomyConfig) (st : AutonomyState) (to : AutonomyMode) : Type 0 where
  pub phase : st.phase ≡ shadow
  pub first : to ≡ l2_recommend
  pub cycles : c.shadow_min_cycles ≤ st.shadow_clean_cycles + 1

pub record ByRung (c : AutonomyConfig) (s : CycleSignals) (st : AutonomyState) (to : AutonomyMode)
    : Type 0 where
  pub phase : st.phase ≡ earned
  pub next : next_rung st.earned ≡ some to
  pub cycles : c.rung_clean_cycles ≤ st.rung_clean_cycles + 1
  pub validated : (rank to ≤ rank l2_recommend) ⊎ (1 ≤ st.validated_actions_since_rung)
  pub capped : rank to ≤ rank s.ceiling

abbrev pub Earns : AutonomyConfig → CycleSignals → AutonomyState → AutonomyMode → Type 0
Earns c s st to = ByShadow c st to ⊎ ByRung c s st to

pub same_mode_eq : (a b : AutonomyMode) → same_mode a b ≡ true → a ≡ b
same_mode_eq a b h = ground arith

pub earned_transition :
    (l : Locked) (to : AutonomyMode) (reason : String) (now : ℤ)
    → (transition l to reason now).state.earned ≡ to
unfolding transition
earned_transition l to reason now = ground (arith, same_mode_eq l.state.earned to)

revoke_le :
    (l : Locked) (s : CycleSignals) (now : ℤ)
    → rank (revoke l s now).0.state.earned ≤ rank l.state.earned
unfolding revoke
revoke_le l s now = ground (arith, rank-demote_rung l.state.earned)

-- A clean cycle revokes nothing.
pub revoke-clean :
    (l : Locked) (s : CycleSignals) (now : ℤ) → clean s ≡ true → (revoke l s now).0 ≡ l
unfolding revoke clean
revoke-clean l s now h = ground arith

earn_authority :
    (p : AssimilationPhase) (l : Locked) (c : AutonomyConfig) (s : CycleSignals) (now : ℤ)
    → l.state.phase ≡ p
    → rank l.state.earned < rank (earn p l c s now).0.state.earned
    → Earns c s l.state (earn p l c s now).0.state.earned
unfolding earn
earn_authority mapping l c s now e h = absurd (ground arith)
earn_authority shadow l c s now e h = inl (ground arith)
earn_authority earned l c s now e h = inr (ground (arith, same_mode_eq l.state.earned))

pub on_cycle_state :
    (m : AutonomyManager) (s : CycleSignals) (now : ℤ) (stored_ok : Bool)
    → (on_cycle m s now stored_ok).state ≡ (cycle (lock m) m.config s now).0.state
unfolding on_cycle
on_cycle_state m s now stored_ok = ground arith

pub restart_earned : (l : Locked) → (restart l).0.state.earned ≡ l.state.earned
unfolding restart
restart_earned l = refl

-- A clean cycle only earns; an unclean one revokes and restarts the counters.
pub cycle-clean :
    (l : Locked) (c : AutonomyConfig) (s : CycleSignals) (now : ℤ)
    → clean s ≡ true
    → (cycle l c s now).0 ≡ (earn l.state.phase l c s now).0
unfolding cycle
cycle-clean l c s now h = rw h (rw (revoke-clean l s now h))

pub cycle_unclean :
    (l : Locked) (c : AutonomyConfig) (s : CycleSignals) (now : ℤ)
    → clean s ≡ false
    → (cycle l c s now).0 ≡ (restart (revoke l s now).0).0
unfolding cycle
cycle_unclean l c s now h = rw h

cycle_authority :
    (l : Locked) (c : AutonomyConfig) (s : CycleSignals) (now : ℤ)
    → rank l.state.earned < rank (cycle l c s now).0.state.earned
    → (clean s ≡ true) × Earns c s l.state (cycle l c s now).0.state.earned
cycle_authority l c s now h = elim (Bool-cases (clean s)) [
  | inl good ↦ (
    good,
    rw (cycle-clean l c s now good)
        (earn_authority l.state.phase l c s now refl (rw (cycle-clean l c s now good) at h)),
  )
  | inr bad ↦ absurd (
      omega (
        arith,
        ap (λ k. rank k.state.earned) (cycle_unclean l c s now bad),
        ap rank (restart_earned (revoke l s now).0),
        revoke_le l s now,
      ))
]

unclean_effect :
    (l : Locked) (s : CycleSignals) (now : ℤ)
    → let st = (restart (revoke l s now).0).0.state in
      (st.shadow_clean_cycles ≡ 0)
      × (st.rung_clean_cycles ≡ 0)
      × (st.phase ≡ l.state.phase)
      × (st.earned ≡ (
          if s.safe_mode_active
          then l0_observe
          else if s.provider_ready
          then l.state.earned
          else demote_rung l.state.earned))
unfolding restart revoke demote_rung
unclean_effect l s now = ground (arith, same_mode_eq l.state.earned)

-- A brain cycle raises the earned rung only when its signals are clean and the new rung is earned:
-- by the cycles of the shadow window, to the first trust rung, or by the cycles of the current rung
-- to the next one, under the ceiling, with validated work if that is above the first trust rung.
pub on_cycle_authority :
    (m : AutonomyManager) (s : CycleSignals) (now : ℤ) (stored_ok : Bool)
    → rank m.state.earned < rank (on_cycle m s now stored_ok).state.earned
    → (clean s ≡ true) × Earns m.config s m.state (on_cycle m s now stored_ok).state.earned
on_cycle_authority m s now stored_ok h =
    rw (on_cycle_state m s now stored_ok)
      (cycle_authority (lock m) m.config s now (rw (on_cycle_state m s now stored_ok) at h))

-- An unclean cycle restarts both counters and keeps the phase; a safe mode leaves the level at L0,
-- otherwise a provider that is not ready takes it down by one rung, and it stays if one is ready.
pub on_cycle_unclean :
    (m : AutonomyManager) (s : CycleSignals) (now : ℤ) (stored_ok : Bool)
    → clean s ≡ false
    → let st = (on_cycle m s now stored_ok).state in
      (st.shadow_clean_cycles ≡ 0)
      × (st.rung_clean_cycles ≡ 0)
      × (st.phase ≡ m.state.phase)
      × (st.earned ≡ (
          if s.safe_mode_active
          then l0_observe
          else if s.provider_ready
          then m.state.earned
          else demote_rung m.state.earned))
on_cycle_unclean m s now stored_ok h =
    rw (on_cycle_state m s now stored_ok, cycle_unclean (lock m) m.config s now h)
      (unclean_effect (lock m) s now)
