-- ===== src/Executor/Host.antt =====
-- What the executors of crates/argus-executor are given: the controllers of the host and the
-- conversions of serde_json and of the standard library. The world behind the controllers is a type
-- `W`: a controller that acts answers with the world after it. Instants are in microseconds.
use Prim.Native.String.{◌++◌ as str_append}
use argus_ai.Prelude.{ℕ, ◌≡◌, Bool, true, ◌&&◌, Option, some, List, String}
use argus_ai.Prelude.Int.{ℤ, pos, negsuc, leb_ℤ}
use argus_ai.Prelude.Results.{Result}
use argus_ai.Domain.{PolicyOutcome}
use argus_ai.Control.Ports.{AuthorizedAction}
use argus_ai.Executor.Guardrail.{GuardrailViolation}

pub data ProcessSignal : Type 0 where
  term kill stop cont : ProcessSignal

pub data RemediationError : Type 0 where
  unavailable operation_failed : String → RemediationError

-- The error's message.
unfoldable pub error_text : RemediationError → String
error_text (unavailable s) = str_append "remediation target is unavailable: " s
error_text (operation_failed s) = str_append "remediation operation failed: " s

pub data ReversalStatus : Type 0 where
  not_attempted reversed reversal_failed not_possible : ReversalStatus

pub data ExecutionError : Type 0 where
  not_authorized : PolicyOutcome → ExecutionError
  unsupported failed : String → ExecutionError
  guardrail_violation : GuardrailViolation → ExecutionError
  failed_after_effect : String → ReversalStatus → ExecutionError

pub record ExecutionResult (V : Type 0) : Type 0 where
  pub capability : String
  pub evidence : V
  pub started_at : ℤ
  pub finished_at : ℤ

-- Whether a value is in the range of an `i32`.
abbrev pub is_i32 : ℤ → Bool
is_i32 n = leb_ℤ (negsuc 2147483647) n && leb_ℤ n (pos 2147483647)

pub record Host : Type 1 where
  pub V : Type 0
  pub W : Type 0
  -- `value.get(key).and_then(Value::as_i64)`, `value.get(key).and_then(Value::as_str)`
  pub int_arg : V → String → Option ℤ
  pub str_arg : V → String → Option String
  -- `json!` on an object, a number, a text, a Boolean value and an absent value
  pub object : List (String × V) → V
  pub number : ℤ → V
  pub text : String → V
  pub boolean : Bool → V
  pub null : V
  pub trim : String → String
  -- `pid.to_string()`, and `target.parse::<i32>()`
  pub pid_text : ℤ → String
  pub parse_i32 : String → Option ℤ
  pub parse_i32-pid_text : (pid : ℤ) → is_i32 pid ≡ true → parse_i32 (pid_text pid) ≡ some pid
  -- `std::process::id() as i32`, and `Utc::now()`
  pub own_pid : ℤ
  pub clock : W → ℤ
  -- the controllers
  pub signal : W → ℤ → ProcessSignal → W × Result RemediationError (Unit {0})
  pub restart_container : W → String → W × Result RemediationError (Unit {0})
  pub set_freeze : W → String → Bool → W × Result RemediationError (Unit {0})
  pub reclaim_page_cache : W → W × Result RemediationError (Unit {0})
  pub vacuum : W → ℕ → W × Result RemediationError (Unit {0})
  pub service_restart : W → String → W × Result String (Unit {0})
  pub service_stop : W → String → W × Result String (Unit {0})
  pub service_start : W → String → W × Result String (Unit {0})

-- What an executor leaves: the world, and its answer.
abbrev pub Outcome : Host → Type 0
Outcome h = h.W × Result ExecutionError (ExecutionResult h.V)

-- `Executor::execute`, and `McpToolController::call`
abbrev pub Executor : Host → Type 0
Executor h = h.W → AuthorizedAction h.V → Outcome h

abbrev pub McpToolController : Host → Type 0
McpToolController h = h.W → String → h.V → h.W × Result RemediationError h.V
