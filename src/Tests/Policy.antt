-- ===== src/Tests/Policy.antt =====
-- Concrete runs of the budgets and approvals of crates/argus-policy.
use argus_ai.Policy.Bootstrap.{
  AuthorizationRequest, with_local_remediation, locally_permitted, evaluate,
}
use argus_ai.Domain.{allow}
use argus_ai.Prelude.{ℕ, ◌+◌, ◌≤◌, ◌≡◌, refl, false, List, [], ◌∷◌, arith, nat_eq, string_eq}
use argus_ai.Prelude.Int.{pos}
use argus_ai.Domain.{low_risk, host, no_windows, allow}
use argus_ai.Policy.Budget
use argus_ai.Policy.Budget.{
  default_limits, hour_index, day_index, rolled, roll, bump, reserve, refund,
}
use argus_ai.Policy.Budget.History.{
  reserves, refunds, start, run, low_risk_bounded, host_scope_bounded,
}
use argus_ai.Policy.Approval
use argus_ai.Policy.Approval.{
  ApprovalStore, ExecutionApproval, granted, get, consume, authorizes, is_authorized, revoke,
}
use argus_ai.Policy.Approval.SingleUse
use argus_ai.Policy.Approval.SingleUse.{
  executions, total_grants, grants_for_a_while, consumes, executions_bounded, consume_once,
  consume_refused,
}

abbrev tool_request : AuthorizationRequest ℕ
tool_request = record { capability = "mcp.files.read"; rest = 0; requires_approval = false }

-- The local loop allows it.
tool_allowed : (evaluate with_local_remediation tool_request).outcome ≡ allow
unfolding evaluate with_local_remediation locally_permitted
tool_allowed = refl

abbrev calls : List argus_ai.Policy.Budget.History.Call
calls =
    reserves low_risk host (pos 7300)
    ∷ refunds low_risk host (pos 7400)
    ∷ reserves low_risk host (pos 7500)
    ∷ []

low_risk_bounded_example :
    let t = run default_limits (start no_windows) calls in t.granted_low ≤ 20 + t.refunded_low
unfolding hour_index rolled
low_risk_bounded_example =
    low_risk_bounded default_limits (pos 2) no_windows calls
      (record { low = omega arith; controlled = omega arith; host = omega arith }) (omega arith)
      (refl, (refl, (refl, tt)))

abbrev approval : ExecutionApproval
approval = record {
  approval_id = 1;
  token = 7;
  context_hash = "h";
  granted_by = "operator";
  granted_at = pos 100;
  expires_at = pos 200;
  state = granted;
}

abbrev store : ApprovalStore
store = (7, approval) ∷ []

abbrev approvals : List argus_ai.Policy.Approval.SingleUse.Call
approvals =
    grants_for_a_while 1 7 "h" "operator" (pos 100) (pos 60)
    ∷ consumes 7 "h" (pos 120)
    ∷ consumes 7 "h" (pos 121)
    ∷ []

executions_bounded_example : executions 7 [] approvals ≤ total_grants 7 approvals
executions_bounded_example = executions_bounded 7 approvals
