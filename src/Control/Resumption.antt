-- ===== src/Control/Resumption.antt =====
-- What a resume of crates/argus-daemon/src/control.rs does: its grant, and whether it can pause again.
use argus_ai.Prelude.{
  ℕ, ◌+◌, ◌≡◌, refl, ◌∙◌, sym, ap, subst, Bool, true, false, not, ◌&&◌, Option, none, some, List,
  [], ◌∷◌, string_eq, nat_eq, eqb_iff, if_elim, if◌then◌else◌, arith,
}
use argus_ai.Prelude.Int.{ℤ}
use argus_ai.Domain.{AutonomyMode, PolicyOutcome, allow, deny, require_approval}
use argus_ai.Domain.Plan.{PlanStep, Plan}
use argus_ai.Domain.Registry.{CapabilityRegistry}
use argus_ai.Policy.Approval
use argus_ai.Policy.Approval.{ApprovalStore, ExecutionApproval}
use argus_ai.Policy.Approval.SingleUse.{consume_once, consume_refused}
use argus_ai.Policy.Autopilot.{GovernanceDecision, allowed, refused}
use argus_ai.Policy.Bootstrap.{PolicyDecision}
use argus_ai.Control.Families.{may_execute_without_approval, escalation_bounded}
use argus_ai.Control.Ports.{Ports}
use argus_ai.Control.State.{PendingPlan, Run}
use argus_ai.Control.Step.{governed_risk, escalation_permits, request_of}
use argus_ai.Control.Loop.{
  StepResult, goes_on, ends, pauses, PlanRun, finished, paused, contains, governed, by_terminal,
  settle, by_authority, allow_step, by_policy, policy_step, by_governor, run_step, after_step,
  run_from, start, run_plan,
}
use argus_ai.Control.Resume.{
  ResumeOutcome, resume_refused, resume_panics, no_grant, resumed_run, refusal, by_grant,
  resume_and_run,
}

module _ (p : Ports) where
  abbrev step_pauses : StepResult p → Bool
  step_pauses (pauses r) = true
  step_pauses _ = false

  abbrev pub is_paused : PlanRun p → Bool
  is_paused (paused r pending) = true
  is_paused (finished r) = false

  abbrev pub is_panic : ResumeOutcome p → Bool
  is_panic (resume_panics r) = true
  is_panic _ = false

  terminal_goes_on : (x : Run p × Bool) → step_pauses (by_terminal p x) ≡ false
  terminal_goes_on (r, true) = refl
  terminal_goes_on (r, false) = refl

  pub resumed_run-is_panic :
      (registry : CapabilityRegistry p.V) (x : PlanRun p)
      → is_panic (resumed_run p registry x) ≡ is_paused x
  unfolding resumed_run
  resumed_run-is_panic registry (finished r) = refl
  resumed_run-is_panic registry (paused r pending) = refl

module _ (p : Ports) (registry : CapabilityRegistry p.V) (plan : Plan p.V p.C)
    (autonomy : AutonomyMode) (unbounded : escalation_bounded autonomy ≡ false) where
  open p use {V, C, W}

  abbrev GoesOn : StepResult p → Type 0
  GoesOn s = step_pauses p s ≡ false

  allow_step-GoesOn :
      (index : ℕ) (step : PlanStep V) (decision : PolicyDecision) (r : Run p)
      → GoesOn (allow_step p registry plan autonomy true index step decision r)
  unfolding allow_step by_authority settle
  allow_step-GoesOn index step decision r =
      if_elim GoesOn
        (may_execute_without_approval autonomy (governed_risk registry step.action.capability))
        (λ m.
          if_elim GoesOn
            (escalation_bounded autonomy && not (escalation_permits p registry plan autonomy step))
            (λ e. absurd (ground arith)) (λ e. terminal_goes_on p _))
        (λ m. refl)

  policy_step-GoesOn :
      (index : ℕ) (step : PlanStep V) (r : Run p)
      → GoesOn (policy_step p registry plan autonomy true index step r)
  unfolding policy_step by_policy
  policy_step-GoesOn index step r =
      by_outcome (p.evaluate (request_of p registry plan autonomy step)).outcome
    where
      by_outcome :
          (o : PolicyOutcome)
          → GoesOn (
              by_policy p registry plan autonomy true index step
                (p.evaluate (request_of p registry plan autonomy step))
                o
                r)
      by_outcome deny = refl
      by_outcome require_approval = terminal_goes_on p _
      by_outcome allow = allow_step-GoesOn index step _ r

  by_governor-GoesOn :
      (index : ℕ) (step : PlanStep V) (r : Run p) (x : W × GovernanceDecision)
      → GoesOn (by_governor p registry plan autonomy true index step r x)
  unfolding by_governor
  by_governor-GoesOn index step r (w, allowed subject tier) =
      policy_step-GoesOn index step (record r { world = w })
  by_governor-GoesOn index step r (w, refused why) = refl

  run_step-GoesOn :
      (index : ℕ) (step : PlanStep V) (r : Run p)
      → GoesOn (run_step p registry plan autonomy true index step r)
  unfolding run_step
  run_step-GoesOn index step r =
      if_elim GoesOn (contains r.executed index) (λ h. refl)
        (λ h.
          if_elim GoesOn (governed p step.action.capability)
            (λ g. by_governor-GoesOn index step r _) (λ g. policy_step-GoesOn index step r))

  after_finishes :
      (fresh : ℕ) (s : StepResult p) (others : Run p → PlanRun p)
      → GoesOn s
      → ((r : Run p) → is_paused p (others r) ≡ false)
      → is_paused p (after_step p registry plan autonomy true fresh s others) ≡ false
  unfolding after_step
  after_finishes fresh (goes_on r) others g k = k r
  after_finishes fresh (ends r) others g k = refl
  after_finishes fresh (pauses r) others g k = absurd (ground arith)

  pub resumed_run_finishes :
      (fresh index : ℕ) (steps : List (PlanStep V)) (r : Run p)
      → is_paused p (run_from p registry plan autonomy true fresh index steps r) ≡ false
  unfolding run_from
  resumed_run_finishes fresh index [] r = refl
  resumed_run_finishes fresh index (step ∷ steps) r =
      after_finishes fresh (run_step p registry plan autonomy true index step r) _
        (run_step-GoesOn index step r) (λ r'. resumed_run_finishes fresh (index + 1) steps r')

module _ (p : Ports) (registry : CapabilityRegistry p.V) (pending : PendingPlan p.V p.C)
    (autonomy : AutonomyMode) where
  open p use {V, C, W}

  grant_is_panic :
      (fresh : ℕ) (w : W) (s : ApprovalStore) (g : Option ExecutionApproval)
      → is_paused p (run_plan p registry pending.plan autonomy (some pending.executed) fresh w)
        ≡ false
      → is_panic p (by_grant p registry pending autonomy fresh w s g).1 ≡ false
  unfolding by_grant
  grant_is_panic fresh w s none h = refl
  grant_is_panic fresh w s (some g) h = resumed_run-is_panic p registry _ ∙ h

  granted_store :
      (fresh : ℕ) (w : W) (s : ApprovalStore) (g : Option ExecutionApproval)
      → (by_grant p registry pending autonomy fresh w s g).0 ≡ s
  unfolding by_grant
  granted_store fresh w s none = refl
  granted_store fresh w s (some g) = refl

  -- A token that was just consumed has no grant.
  resume_spent :
      (s : ApprovalStore) (later : ℤ) (fresh : ℕ) (w : W)
      → Approval.consume s pending.token pending.context_hash later ≡ (s, none)
      → Approval.get s pending.token ≡ none
      → resume_and_run p registry pending autonomy s later fresh w ≡ (s, resume_refused no_grant)
  unfolding resume_and_run by_grant refusal
  resume_spent s later fresh w e g =
      ap (λ x. by_grant p registry pending autonomy fresh w x.0 x.1) e
      ∙ ap (λ o. (s, resume_refused (refusal p registry o pending.context_hash))) g

  -- At a mode that the escalation decision does not bound, a resume is either refused or finishes: it
  -- never reaches the panic that stands for a second pause.
  pub resume_finishes :
      (approvals : ApprovalStore) (now : ℤ) (fresh : ℕ) (w : W)
      → escalation_bounded autonomy ≡ false
      → is_panic p (resume_and_run p registry pending autonomy approvals now fresh w).1 ≡ false
  unfolding resume_and_run run_plan
  resume_finishes approvals now fresh w u = grant_is_panic fresh w _ _ (
      resumed_run_finishes p registry pending.plan autonomy u fresh 0 pending.plan.steps
        (start p registry pending.plan pending.executed w))

  -- A resume consumes the grant that it runs under: whatever the run did, a later resume of the same
  -- pending plan is refused for want of a grant, and leaves the approvals alone.
  pub resume_once :
      (approvals : ApprovalStore) (now later : ℤ) (fresh fresh' : ℕ) (w w' : W)
      {a : ExecutionApproval}
      → (Approval.consume approvals pending.token pending.context_hash now).1 ≡ some a
      → let s = (resume_and_run p registry pending autonomy approvals now fresh w).0 in
        resume_and_run p registry pending autonomy s later fresh' w' ≡ (s, resume_refused no_grant)
  unfolding resume_and_run
  resume_once approvals now later fresh fresh' w w' h =
      let token = pending.token in
      let hash = pending.context_hash in
      let store = (Approval.consume approvals token hash now).0 in
      let (_, _, again, left) = consume_once approvals token token hash hash now later h in
      subst
        (λ s.
          resume_and_run p registry pending autonomy s later fresh' w'
          ≡ (s, resume_refused no_grant))
        (sym (granted_store fresh w store (Approval.consume approvals token hash now).1))
        (resume_spent store later fresh' w' again (
          left
          ∙ ap (λ b. if b then none else Approval.get approvals token)
              ((eqb_iff token token).1 refl)))

  -- A resume with no grant that authorizes it is refused and leaves the approvals alone: as stale where
  -- the grant stored for its token is for another context, and otherwise for want of a grant.
  pub resume_ungranted :
      (approvals : ApprovalStore) (now : ℤ) (fresh : ℕ) (w : W)
      → (Approval.consume approvals pending.token pending.context_hash now).1 ≡ none
      → resume_and_run p registry pending autonomy approvals now fresh w ≡ (
        approvals,
        resume_refused
            (refusal p registry (Approval.get approvals pending.token) pending.context_hash),
      )
  unfolding resume_and_run by_grant
  resume_ungranted approvals now fresh w h =
      ap (by_grant p registry pending autonomy fresh w _) h
      ∙ ap
          (λ s. (
            s,
            resume_refused (refusal p registry (Approval.get s pending.token) pending.context_hash),
          ))
          (consume_refused approvals pending.token pending.context_hash now h).0
