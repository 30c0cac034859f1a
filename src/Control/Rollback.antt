-- ===== src/Control/Rollback.antt =====
-- The fail-stop rollback of crates/argus-daemon/src/control.rs: what it keeps, and what it undoes.
use mathlib.Core.List.{reverse, append-nil, append_assoc}
use argus_ai.Prelude.{
  ℕ, ◌≡◌, refl, ◌∙◌, sym, Bool, true, false, Option, none, some, List, [], ◌∷◌, ◌++◌, subst, arith,
}
use argus_ai.Prelude.Results.{Result, ok, err}
use argus_ai.Domain.{PlanStatus, rolling_back, rolled_back, needs_manual}
use argus_ai.Domain.Plan.{Action, PlanStep}
use argus_ai.Control.Ports.{Ports, ActionError}
use argus_ai.Control.Effects.{execute_action}
use argus_ai.Control.State.{
  Run, Row, plan_rolling_back, plan_rolled_back, publish, row, verdict_allow, outcome_rolled_back,
  outcome_failed, rollback_decision, manual, undone, not_undone, rollback_of, after_rollback,
  undo_step, roll_back, finish_rollback, rollback_listed, rollback_executed,
}

module _ (p : Ports) where
  open p use {V, W}

  -- A predicate that the three ways to go on keep holds after the loop.
  module _ {ℓ} (P : Run p → Type ℓ) (on_manual : (r : Run p) → P r → P (manual p r))
      (on_undone : (r : Run p) (a : Action V) (w : W) (evidence : V)
        → execute_action p r.world a (rollback_decision p) ≡ (w, ok evidence)
        → P r
        → P (undone p r a w evidence))
      (on_not_undone : (r : Run p) (a : Action V) (w : W) (e : ActionError)
        → execute_action p r.world a (rollback_decision p) ≡ (w, err e)
        → P r
        → P (not_undone p r a w e)) where
    after_keeps :
        (r : Run p) (a : Action V) (others : Run p → Run p × Bool) (x : W × Result ActionError V)
        → execute_action p r.world a (rollback_decision p) ≡ x
        → ((r' : Run p) → P r' → P (others r').0)
        → P r
        → P (after_rollback p r a others x).0
    unfolding after_rollback
    after_keeps r a others (w, ok evidence) e k v =
        k (undone p r a w evidence) (on_undone r a w evidence e v)
    after_keeps r a others (w, err c) e k v = on_not_undone r a w c e v

    undo_keeps :
        (r : Run p) (o : Option (Action V)) (others : Run p → Run p × Bool)
        → ((r' : Run p) → P r' → P (others r').0)
        → P r
        → P (undo_step p r o others).0
    unfolding undo_step
    undo_keeps r none others k v = on_manual r v
    undo_keeps r (some a) others k v =
        after_keeps r a others (execute_action p r.world a (rollback_decision p)) refl k v

    roll_back_keeps :
        (steps : List (PlanStep V)) (indices : List ℕ) (r : Run p)
        → P r
        → P (roll_back p steps indices r).0
    unfolding roll_back
    roll_back_keeps steps [] r v = v
    roll_back_keeps steps (i ∷ rest) r v =
        undo_keeps r (rollback_of p steps i) (λ r'. roll_back p steps rest r')
          (λ r' v'. roll_back_keeps steps rest r' v') v

    finish_keeps :
        ((r : Run p) → P r → P (publish p (record r { status = rolled_back }) plan_rolled_back))
        → (x : Run p × Bool) → P x.0
        → P (finish_rollback p x)
    unfolding finish_rollback
    finish_keeps f (r, true) v = f r v
    finish_keeps f (r, false) v = v

    pub rollback_keeps :
        ((r : Run p) → P r → P (publish p (record r { status = rolled_back }) plan_rolled_back))
        → ((r : Run p) → P r → P (publish p (record r { status = rolling_back }) plan_rolling_back))
        → (steps : List (PlanStep V)) (r : Run p) → P r
        → P (rollback_executed p steps r)
    unfolding rollback_executed rollback_listed
    rollback_keeps f g steps r v = listed r.executed
      where
        listed : (indices : List ℕ) → P (rollback_listed p steps indices r)
        listed [] = v
        listed (i ∷ rest) =
            finish_keeps f
              (roll_back p steps (reverse (i ∷ rest))
                (publish p (record r { status = rolling_back }) plan_rolling_back))
              (roll_back_keeps steps (reverse (i ∷ rest))
                (publish p (record r { status = rolling_back }) plan_rolling_back) (g r v))

  -- The rollback changes neither the executions nor the indices that took effect.
  pub rollback-executions :
      (steps : List (PlanStep V)) (r : Run p)
      → ((rollback_executed p steps r).executions ≡ r.executions)
        × ((rollback_executed p steps r).executed ≡ r.executed)
  rollback-executions steps r =
      rollback_keeps (λ r'. (r'.executions ≡ r.executions) × (r'.executed ≡ r.executed)) (λ r' v. v)
        (λ r' a w e q v. v) (λ r' a w e q v. v) (λ r' v. v) (λ r' v. v) steps r (refl, refl)

-- What a rollback of some indices does from one world to another: the rows that it writes, and
-- whether it goes through. It executes the rollback of an index in the world that the one before
-- left, and goes on exactly where the execution succeeds.
pub data Trail (p : Ports) (steps : List (PlanStep p.V))
    : List ℕ → p.W → List (Row p) → p.W → Bool → Type 0 where
  all_undone : {w : p.W} → Trail p steps [] w [] w true
  no_rollback :
      {i : ℕ} {rest : List ℕ} {w : p.W}
      → rollback_of p steps i ≡ none
      → Trail p steps (i ∷ rest) w [] w false
  rollback_fails :
      {i : ℕ} {rest : List ℕ} {a : Action p.V} {w w' : p.W} {e : ActionError}
      → rollback_of p steps i ≡ some a
      → execute_action p w a (rollback_decision p) ≡ (w', err e)
      → Trail p steps
          (i ∷ rest)
          w
          (row p a verdict_allow "plan.rollback" outcome_failed ∷ [])
          w'
          false
  undone_first :
      {i : ℕ} {rest : List ℕ} {a : Action p.V} {w w' w'' : p.W} {evidence : p.V}
      {rows : List (Row p)} {through : Bool}
      → rollback_of p steps i ≡ some a
      → execute_action p w a (rollback_decision p) ≡ (w', ok evidence)
      → Trail p steps rest w' rows w'' through
      → Trail p steps
          (i ∷ rest)
          w
          (row p a verdict_allow "plan.rollback" outcome_rolled_back ∷ rows)
          w''
          through

abbrev pub end_status : Bool → PlanStatus
end_status true = rolled_back
end_status false = needs_manual

module _ (p : Ports) (steps : List (PlanStep p.V)) where
  open p use {V, W}

  -- What holds from a run to the run that its rollback leaves.
  abbrev Audited : List ℕ → Run p → Run p × Bool → Type 0
  Audited indices r (r', through) =
      (rows : List (Row p)) × Trail p steps indices r.world rows r'.world through
      × (r'.ledger ≡ r.ledger ++ rows)
      × (through ≡ false → r'.status ≡ needs_manual)

  after_trail :
      (r : Run p) (i : ℕ) (rest : List ℕ) (a : Action V) (others : Run p → Run p × Bool)
      (x : W × Result ActionError V)
      → rollback_of p steps i ≡ some a
      → execute_action p r.world a (rollback_decision p) ≡ x
      → ((r' : Run p) → Audited rest r' (others r'))
      → Audited (i ∷ rest) r (after_rollback p r a others x)
  unfolding after_rollback
  after_trail r i rest a others (w, ok evidence) e x k =
      let (rows, t, l, s) = k (undone p r a w evidence) in
      (
        row p a verdict_allow "plan.rollback" outcome_rolled_back ∷ rows,
        undone_first e x t,
        l ∙ append_assoc r.ledger _ rows,
        s,
      )
  after_trail r i rest a others (w, err c) e x k = (
    row p a verdict_allow "plan.rollback" outcome_failed ∷ [],
    rollback_fails e x,
    refl,
    λ e'. refl,
  )

  undo_trail :
      (r : Run p) (i : ℕ) (rest : List ℕ) (o : Option (Action V)) (others : Run p → Run p × Bool)
      → rollback_of p steps i ≡ o
      → ((r' : Run p) → Audited rest r' (others r'))
      → Audited (i ∷ rest) r (undo_step p r o others)
  unfolding undo_step
  undo_trail r i rest none others e k = ([], no_rollback e, sym (append-nil r.ledger), λ e'. refl)
  undo_trail r i rest (some a) others e k =
      after_trail r i rest a others (execute_action p r.world a (rollback_decision p)) e refl k

  roll_back-Trail : (indices : List ℕ) (r : Run p) → Audited indices r (roll_back p steps indices r)
  unfolding roll_back
  roll_back-Trail [] r = ([], all_undone, sym (append-nil r.ledger), λ e. absurd (ground arith))
  roll_back-Trail (i ∷ rest) r =
      undo_trail r i rest (rollback_of p steps i) (λ r'. roll_back p steps rest r') refl
        (λ r'. roll_back-Trail rest r')

  -- What a rollback of some indices leaves, against the run that it started from.
  abbrev pub IsRolledBack : List ℕ → Run p → Run p → Type 0
  IsRolledBack indices r r' =
      (rows : List (Row p)) × (through : Bool) × Trail p steps indices r.world rows r'.world through
      × (r'.ledger ≡ r.ledger ++ rows)
      × (r'.status ≡ end_status through)

  finish-Trail :
      (indices : List ℕ) (r : Run p) (x : Run p × Bool)
      → Audited indices r x
      → IsRolledBack indices r (finish_rollback p x)
  unfolding finish_rollback
  finish-Trail indices r (r', true) (rows, t, l, s) = (rows, true, t, l, refl)
  finish-Trail indices r (r', false) (rows, t, l, s) = (rows, false, t, l, s refl)

  -- The rollback of a failed run in which some steps took effect undoes these steps newest first,
  -- each in the world that the one before left: it goes on exactly while executing a rollback
  -- succeeds, and stops at the first step that declares no rollback or whose rollback, executed,
  -- fails. It writes one ledger row for each that it executes, `rolled_back` where it succeeded and
  -- `failed` where it failed, and executes nothing else. The plan ends rolled back when all were
  -- undone, and otherwise waits for an operator.
  pub rollback_executed-Trail :
      (r : Run p) (i : ℕ) (rest : List ℕ)
      → r.executed ≡ i ∷ rest
      → IsRolledBack (reverse (i ∷ rest)) r (rollback_executed p steps r)
  unfolding rollback_executed rollback_listed
  rollback_executed-Trail r i rest e =
      subst (λ is. IsRolledBack (reverse (i ∷ rest)) r (rollback_listed p steps is r)) (sym e)
        (finish-Trail (reverse (i ∷ rest))
          (publish p (record r { status = rolling_back }) plan_rolling_back)
          (roll_back p steps (reverse (i ∷ rest))
            (publish p (record r { status = rolling_back }) plan_rolling_back))
          (roll_back-Trail (reverse (i ∷ rest))
            (publish p (record r { status = rolling_back }) plan_rolling_back)))
