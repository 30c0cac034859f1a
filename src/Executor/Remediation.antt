-- ===== src/Executor/Remediation.antt =====
-- The typed remediation capabilities of crates/argus-executor/src/remediation.rs: the executor over
-- its controllers, and the guardrails that are wired for it. The controllers' own code is system calls.
pub mod Execute
pub mod Steps
pub mod Confined
pub mod Protected
use text.Mathlib.Text.{starts_with}
use argus_ai.Prelude.{
  ℕ, ◌*◌, min, max, Bool, true, false, not, ◌||◌, Option, none, some, List, [], ◌∷◌, ◌++◌, String,
  eqb, string_eq, is_empty, if◌then◌else◌,
}
use Prim.Native.String.{◌++◌ as str_append}
use argus_ai.Prelude.Int.{ℤ, pos, pos_part, ◌-ℤ◌, int_eq}
use argus_ai.Prelude.Results.{Result, ok, err}
use argus_ai.Prelude.Codes.{codes, split, codes_eq}
use argus_ai.Control.Ports.{AuthorizedAction}
use argus_ai.Executor.Guardrail
use argus_ai.Executor.Guardrail.{
  Guardrail, GuardrailRegistry, GuardrailViolation, other_reason, is_among, pid_above_one, register,
}
use argus_ai.Executor.Host.{
  ProcessSignal, term, kill, stop, cont, RemediationError, unavailable, operation_failed,
  error_text, ExecutionError, unsupported, failed, guardrail_violation, ExecutionResult, is_i32,
  Host, Outcome, Executor, McpToolController,
}

-- `ProcessSignal::parse` and `ProcessSignal::name`
unfoldable pub parse : String → Option ProcessSignal
parse value =
    if eqb {A = String} "term" value
    then some term
    else if eqb {A = String} "kill" value
    then some kill
    else if eqb {A = String} "stop" value
    then some stop
    else if eqb {A = String} "cont" value
    then some cont
    else none

unfoldable pub name : ProcessSignal → String
name term = "term"
name kill = "kill"
name stop = "stop"
name cont = "cont"

-- A part of a path that leaves its directory, or names nothing.
abbrev pub is_traversal : List ℕ → Bool
is_traversal part = is_empty part || eqb part (codes "..")

abbrev pub any_traversal : List (List ℕ) → Bool
any_traversal [] = false
any_traversal (p ∷ ps) = is_traversal p || any_traversal ps

unfoldable pub validate_cgroup_path : String → Result RemediationError (Unit {0})
validate_cgroup_path path =
    if eqb {A = String} path ""
    then err (operation_failed "cgroup path is empty")
    else if starts_with path "/"
    then err (operation_failed "cgroup path must be relative to the mount root")
    else if any_traversal (split 47 (codes path))
    then err (operation_failed "an empty or '..' component")
    else ok tt

unfoldable pub never_target : List String → Guardrail
never_target protected target =
    if is_among protected target then err (other_reason target) else ok tt

unfoldable pub never_signal_self : Host → Guardrail
never_signal_self h target = elim (h.parse_i32 target) [
  | none ↦ err (other_reason target)
  | some pid ↦ if eqb pid h.own_pid then err (other_reason target) else ok tt
]

-- `PidAboveOne`
unfoldable pub guards_init : Host → Guardrail
guards_init h target = elim (h.parse_i32 target) [
  | none ↦ err (other_reason target)
  | some pid ↦ pid_above_one pid
]

unfoldable pub valid_cgroup_path : Guardrail
valid_cgroup_path target = elim (validate_cgroup_path target) [
  | ok valid ↦ ok tt
  | err e ↦ err (other_reason (error_text e))
]

unfoldable pub remediation_guardrails : Host → List String → List String → GuardrailRegistry
remediation_guardrails h containers cgroups =
    let r = register Guardrail.new "host.process.signal" (never_signal_self h) in
    let r = register r "host.process.signal" (guards_init h) in
    let r = register r "container.restart" (never_target containers) in
    let r = register r "host.cgroup.freeze" valid_cgroup_path in
    let r = register r "host.cgroup.freeze" (never_target cgroups) in
    let r = register r "host.cgroup.thaw" valid_cgroup_path in
    register r "host.cgroup.thaw" (never_target cgroups)

-- The executor, whose other controllers are those of the host.
pub record RemediationExecutor (h : Host) : Type 0 where
  pub mcp : McpToolController h
  pub journal_keep_days : ℕ
  pub guardrails : GuardrailRegistry

unfoldable pub no_mcp_tools : (h : Host) → McpToolController h
no_mcp_tools h w capability arguments = (w, err (unavailable "no MCP runtime is wired"))

unfoldable pub new : (h : Host) → ℕ → GuardrailRegistry → RemediationExecutor h
unfolding no_mcp_tools
new h keep_days guardrails = record {
  mcp = no_mcp_tools h;
  journal_keep_days = max 1 (min keep_days 365);
  guardrails = guardrails;
}

unfoldable pub with_mcp_controller :
    {h : Host} → RemediationExecutor h → McpToolController h → RemediationExecutor h
with_mcp_controller r mcp = record r { mcp = mcp }
