-- ===== src/Autonomy/History.antt =====
-- What holds of the machine of crates/argus-daemon/src/autonomy.rs after any history of its calls.
use argus_ai.Prelude.{ℕ, ◌≤◌, ◌≡◌, refl, ◌⊎◌, inl, inr, Bool, List, [], ◌∷◌, All, arith, Bool-cases}
use argus_ai.Prelude.Int.{ℤ}
use argus_ai.Domain.{
  l0_observe, l2_recommend, rank, next_rung, mapping, shadow, earned, AssimilationPhase, RiskClass,
  BlastRadius,
}
use argus_ai.Domain.Ladder.{IsRung, demote_rung-IsRung, rank-demote_rung}
use argus_ai.Autonomy.{
  AutonomyState, AutonomyConfig, AutonomyManager, CycleSignals, Locked, clean, fresh, lock,
}
use argus_ai.Autonomy.Cycle.{revoke, earn, restart}
use argus_ai.Autonomy.Manager.{
  on_cycle, on_validation_failed, record_validated_executions, reserve, refund,
}
use argus_ai.Autonomy.Authority.{on_cycle_state, cycle-clean, cycle_unclean, same_mode_eq}

-- One call of the manager.
pub data Call : Type 0 where
  cycles : CycleSignals → ℤ → Bool → Call
  fails : ℤ → Bool → Call
  validates : ℕ → ℤ → Bool → Call
  reserves refunds : RiskClass → BlastRadius → ℤ → ℤ → Bool → Call

unfoldable pub step : AutonomyManager → Call → AutonomyManager
step m (cycles signals now stored_ok) = on_cycle m signals now stored_ok
step m (fails now stored_ok) = on_validation_failed m now stored_ok
step m (validates count now stored_ok) = record_validated_executions m count now stored_ok
step m (reserves risk scope now seconds stored_ok) = (reserve m risk scope now seconds stored_ok).0
step m (refunds risk scope now seconds stored_ok) = refund m risk scope now seconds stored_ok

unfoldable pub run : AutonomyManager → List Call → AutonomyManager
run m [] = m
run m (c ∷ cs) = run (step m c) cs

-- The earned level is a rung of the ladder, and before the earned phase it is L0.
pub record Shape (st : AutonomyState) : Type 0 where
  pub rung : IsRung st.earned
  pub before : (st.phase ≡ earned) ⊎ (st.earned ≡ l0_observe)

-- The machine has done no validated work, and stands at L2 at most.
record Idle (st : AutonomyState) : Type 0 where
  unvalidated : st.validated_actions_since_rung ≡ 0
  low : rank st.earned ≤ 2

revoke-Shape :
    (l : Locked) (s : CycleSignals) (now : ℤ) → Shape l.state → Shape (revoke l s now).0.state
unfolding revoke rank
revoke-Shape l s now v =
    ground (arith, demote_rung-IsRung l.state.earned, same_mode_eq l.state.earned)

restart-Shape : (l : Locked) → Shape l.state → Shape (restart l).0.state
unfolding restart
restart-Shape l v = record { rung = v.rung; before = v.before }

earn-Shape :
    (p : AssimilationPhase) (l : Locked) (c : AutonomyConfig) (s : CycleSignals) (now : ℤ)
    → l.state.phase ≡ p
    → Shape l.state
    → Shape (earn p l c s now).0.state
unfolding earn
earn-Shape mapping l c s now e v = ground arith
earn-Shape shadow l c s now e v = ground arith
earn-Shape earned l c s now e v =
    unfold next_rung rank in ground (arith, same_mode_eq l.state.earned)

revoke-Idle :
    (l : Locked) (s : CycleSignals) (now : ℤ) → Idle l.state → Idle (revoke l s now).0.state
unfolding revoke rank
revoke-Idle l s now v = ground (arith, rank-demote_rung l.state.earned)

earn-Idle :
    (p : AssimilationPhase) (l : Locked) (c : AutonomyConfig) (s : CycleSignals) (now : ℤ)
    → Idle l.state
    → Idle (earn p l c s now).0.state
unfolding earn
earn-Idle mapping l c s now v = ground arith
earn-Idle shadow l c s now v = unfold rank in ground arith
earn-Idle earned l c s now v = ground arith

-- Both properties hold after a cycle if the two parts of the cycle keep them.
module _ (P : AutonomyState → Type 0)
    (revoked : (l : Locked) (s : CycleSignals) (now : ℤ) → P l.state → P (revoke l s now).0.state)
    (restarted : (l : Locked) → P l.state → P (restart l).0.state)
    (earns : (p : AssimilationPhase) (l : Locked) (c : AutonomyConfig) (s : CycleSignals) (now : ℤ)
      → l.state.phase ≡ p
      → P l.state
      → P (earn p l c s now).0.state) where
  pub on_cycle_keeps :
      (m : AutonomyManager) (s : CycleSignals) (now : ℤ) (stored_ok : Bool)
      → P m.state
      → P (on_cycle m s now stored_ok).state
  on_cycle_keeps m s now stored_ok v = elim (Bool-cases (clean s)) [
    | inl good ↦
        rw (on_cycle_state m s now stored_ok, cycle-clean (lock m) m.config s now good)
          (earns m.state.phase (lock m) m.config s now refl v)
    | inr bad ↦
        rw (on_cycle_state m s now stored_ok, cycle_unclean (lock m) m.config s now bad)
          (restarted (revoke (lock m) s now).0 (revoked (lock m) s now v))
  ]

step-Shape : (m : AutonomyManager) (c : Call) → Shape m.state → Shape (step m c).state
unfolding step
step-Shape m (cycles s now ok) v =
    on_cycle_keeps Shape revoke-Shape restart-Shape earn-Shape m s now ok v
step-Shape m (fails now ok) v =
    unfold on_validation_failed in
    ground (arith, demote_rung-IsRung m.state.earned, same_mode_eq m.state.earned)
step-Shape m (validates count now ok) v = unfold record_validated_executions in ground arith
step-Shape m (reserves risk scope now seconds ok) v = unfold reserve in ground arith
step-Shape m (refunds risk scope now seconds ok) v = unfold refund in ground arith

run-Shape : (m : AutonomyManager) (cs : List Call) → Shape m.state → Shape (run m cs).state
unfolding run
run-Shape m [] v = v
run-Shape m (c ∷ cs) v = run-Shape (step m c) cs (step-Shape m c v)

-- No call in the history reports validated work.
abbrev pub WithoutWork : Call → Type 0
WithoutWork (validates count now ok) = count ≡ 0
WithoutWork c = Unit

step-Idle : (m : AutonomyManager) (c : Call) → WithoutWork c → Idle m.state → Idle (step m c).state
unfolding step
step-Idle m (cycles s now ok) w v =
    on_cycle_keeps Idle revoke-Idle
      (λ l i. unfold restart in record { unvalidated = i.unvalidated; low = i.low })
      (λ p l c s' t e i. earn-Idle p l c s' t i) m s now ok v
step-Idle m (fails now ok) w v =
    unfold on_validation_failed in ground (arith, rank-demote_rung m.state.earned)
step-Idle m (validates count now ok) w v = unfold record_validated_executions in ground arith
step-Idle m (reserves risk scope now seconds ok) w v = unfold reserve in ground arith
step-Idle m (refunds risk scope now seconds ok) w v = unfold refund in ground arith

run-Idle :
    (m : AutonomyManager) (cs : List Call)
    → All WithoutWork cs
    → Idle m.state
    → Idle (run m cs).state
unfolding run
run-Idle m [] w v = v
run-Idle m (c ∷ cs) w v = run-Idle (step m c) cs w.1 (step-Idle m c w.0 v)

-- From a fresh state, after any history of calls, the earned level is one of the rungs L0, L2, L3
-- and L4, never the labelling level L1 or the learning level L5, and it is L0 before the earned
-- phase.
pub run_fresh-Shape :
    (m : AutonomyManager) (env : ℕ) (t : ℤ) (cs : List Call)
    → m.state ≡ fresh env t
    → Shape (run m cs).state
run_fresh-Shape m env t cs e =
    run-Shape m cs (rw e (unfold fresh in record { rung = tt; before = inr refl }))

-- Time alone promotes nothing: from a fresh state, no history of calls that reports no validated
-- work, however long and clean, goes above L2.
pub idle_stays_low :
    (m : AutonomyManager) (env : ℕ) (t : ℤ) (cs : List Call)
    → m.state ≡ fresh env t
    → All WithoutWork cs
    → rank (run m cs).state.earned ≤ rank l2_recommend
unfolding rank
idle_stays_low m env t cs e w =
    (run-Idle m cs w
      (rw e (unfold fresh rank in record { unvalidated = refl; low = omega arith }))).low
