-- ===== src/Control/Authorized.antt =====
-- Every execution of a plan run of crates/argus-daemon/src/control.rs is of an authorized step.
use mathlib.Core.List.{Memᴰ}
use argus_ai.Prelude.{
  ℕ, ◌+◌, refl, sym, subst, inl, inr, Bool, true, false, Option, none, some, List, [], ◌∷◌, All,
  All-append,
}
use argus_ai.Domain.{AutonomyMode}
use argus_ai.Domain.Plan.{PlanStep, Plan}
use argus_ai.Domain.Registry.{CapabilityRegistry}
use argus_ai.Control.Ports.{Ports}
use argus_ai.Control.State.{Run}
use argus_ai.Control.Admission.{
  run_of, run_of_step, Governed, Admitted, Authorized, Outcome, run_step-Outcome,
}
use argus_ai.Control.Loop.{
  StepResult, goes_on, ends, pauses, PlanRun, after_step, run_step, run_from, start, run_plan,
}

abbrev pub is_resumed : Option (List ℕ) → Bool
is_resumed none = false
is_resumed (some executed) = true

module _ (p : Ports) (registry : CapabilityRegistry p.V) (plan : Plan p.V p.C)
    (autonomy : AutonomyMode) (resumed : Bool) where
  open p use {V, C, W}

  abbrev AllAuthorized : Run p → Type 0
  AllAuthorized r = All (Authorized p registry plan autonomy resumed) r.executions

  Outcome-authorized :
      (step : PlanStep V) (r : Run p) (s : StepResult p)
      → Memᴰ step plan.steps
      → Outcome p registry plan autonomy resumed
          (λ t.
            Governed p registry plan autonomy resumed t
            × Admitted p registry plan autonomy resumed t)
          step
          r
          s
      → AllAuthorized r
      → AllAuthorized (run_of_step s)
  Outcome-authorized step r s m (inl e) h =
      subst (All (Authorized p registry plan autonomy resumed)) (sym e) h
  Outcome-authorized step r s m (inr ((g, a), (x, ex, q))) h =
      subst (All (Authorized p registry plan autonomy resumed)) (sym q) (
        All-append (Authorized p registry plan autonomy resumed) r.executions (x ∷ []) h
          ((step, m, ex, g, a), tt))

  after_authorized :
      (fresh : ℕ) (s : StepResult p) (others : Run p → PlanRun p)
      → ((r : Run p) → AllAuthorized r → AllAuthorized (run_of (others r)))
      → AllAuthorized (run_of_step s)
      → AllAuthorized (run_of (after_step p registry plan autonomy resumed fresh s others))
  unfolding after_step
  after_authorized fresh (goes_on r) others k h = k r h
  after_authorized fresh (ends r) others k h = h
  after_authorized fresh (pauses r) others k h = h

  pub run_from_authorized :
      (fresh index : ℕ) (steps : List (PlanStep V)) (r : Run p)
      → ((step : PlanStep V) → Memᴰ step steps → Memᴰ step plan.steps)
      → AllAuthorized r
      → AllAuthorized (run_of (run_from p registry plan autonomy resumed fresh index steps r))
  unfolding run_from
  run_from_authorized fresh index [] r m h = h
  run_from_authorized fresh index (step ∷ steps) r m h =
      after_authorized fresh (run_step p registry plan autonomy resumed index step r)
        (λ r'. run_from p registry plan autonomy resumed fresh (index + 1) steps r')
        (λ r' h'. run_from_authorized fresh (index + 1) steps r' (λ s i. m s (Memᴰ.tail i)) h')
        (Outcome-authorized step r (run_step p registry plan autonomy resumed index step r)
          (m step (Memᴰ.head refl)) (run_step-Outcome p registry plan autonomy resumed index step r)
          h)

-- Whether a plan runs for the first time or is resumed, finishes or pauses, every execution that the
-- run records is of a step of the plan that the governor admitted where its capability is governed,
-- and that the policy allows, the autonomy matrix lets execute and, where escalation bounds the mode,
-- the escalation decision permits; or the run is a resume and the policy asked for the operator's
-- approval of the step.
pub executions-Authorized :
    (p : Ports) (registry : CapabilityRegistry p.V) (plan : Plan p.V p.C) (autonomy : AutonomyMode)
    (pause : Option (List ℕ)) (fresh : ℕ) (w : p.W)
    → All
        (Authorized p registry plan autonomy (is_resumed pause))
        (run_of (run_plan p registry plan autonomy pause fresh w)).executions
unfolding run_plan
executions-Authorized p registry plan autonomy none fresh w =
    run_from_authorized p registry plan autonomy false fresh 0 plan.steps
      (start p registry plan [] w) (λ s i. i) tt
executions-Authorized p registry plan autonomy (some executed) fresh w =
    run_from_authorized p registry plan autonomy true fresh 0 plan.steps
      (start p registry plan executed w) (λ s i. i) tt
