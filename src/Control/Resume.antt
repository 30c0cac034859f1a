-- ===== src/Control/Resume.antt =====
-- The resume of a paused plan, `resume_and_run_with_ports` of crates/argus-daemon/src/control.rs.
use argus_ai.Prelude.{ℕ, Option, none, some, String, eqb, string_eq, if◌then◌else◌}
use argus_ai.Prelude.Int.{ℤ}
use argus_ai.Domain.{AutonomyMode}
use argus_ai.Domain.Registry.{CapabilityRegistry}
use argus_ai.Policy.Approval
use argus_ai.Policy.Approval.{ApprovalStore, ExecutionApproval}
use argus_ai.Control.Ports.{Ports}
use argus_ai.Control.State.{PendingPlan, Run}
use argus_ai.Control.Loop.{PlanRun, finished, paused, run_plan}

pub data ResumeRefusal : Type 0 where
  stale no_grant : ResumeRefusal

-- The third is the code's `unreachable!`, a panic.
pub data ResumeOutcome (p : Ports) : Type 0 where
  resume_finished : Run p → ResumeOutcome p
  resume_refused : ResumeRefusal → ResumeOutcome p
  resume_panics : Run p → ResumeOutcome p

module _ (p : Ports) (registry : CapabilityRegistry p.V) where
  open p use {V, C, W}

  unfoldable pub resumed_run : PlanRun p → ResumeOutcome p
  resumed_run (finished r) = resume_finished r
  resumed_run (paused r pending) = resume_panics r

  -- The stored grant has another hash.
  unfoldable pub refusal : Option ExecutionApproval → String → ResumeRefusal
  refusal none hash = no_grant
  refusal (some approval) hash = if eqb approval.context_hash hash then no_grant else stale

  unfoldable pub by_grant :
      PendingPlan V C
      → AutonomyMode
      → ℕ
      → W
      → ApprovalStore
      → Option ExecutionApproval
      → ApprovalStore × ResumeOutcome p
  unfolding resumed_run refusal
  by_grant pending autonomy fresh w approvals (some grant) = (
    approvals,
    resumed_run (run_plan p registry pending.plan autonomy (some pending.executed) fresh w),
  )
  by_grant pending autonomy fresh w approvals none = (
    approvals,
    resume_refused (refusal (Approval.get approvals pending.token) pending.context_hash),
  )

  unfoldable pub resume_and_run :
      PendingPlan V C → AutonomyMode → ApprovalStore → ℤ → ℕ → W → ApprovalStore × ResumeOutcome p
  unfolding by_grant
  resume_and_run pending autonomy approvals now fresh w =
      let (approvals', grant) = Approval.consume approvals pending.token pending.context_hash now in
      by_grant pending autonomy fresh w approvals' grant
