-- ===== src/Executor/Guardrail.antt =====
-- The guardrails of crates/argus-executor/src/guardrail.rs: predicates on a target that is resolved
-- again right before an effect. The whitespace that `trim` takes off a text and the tests on its
-- characters are parameters; a reason is a text whose wording is left out.
pub mod Checked
use Prim.Native.String.{◌++◌ as str_append}
use text.Mathlib.Text.{starts_with}
use argus_ai.Prelude.{
  Bool, true, false, not, ◌&&◌, ◌||◌, Option, none, some, List, [], ◌∷◌, ◌++◌, String, eqb,
  string_eq, if◌then◌else◌,
}
use argus_ai.Prelude.Int.{ℤ, pos, ltb_ℤ}
use argus_ai.Prelude.Results.{Result, ok, err}
use argus_ai.Prelude.Assoc

pub data Reason : Type 0 where
  own_unit invalid_unit not_allowed_target : String → Reason
  low_pid : ℤ → Reason
  other_reason : String → Reason

pub record GuardrailViolation : Type 0 where
  pub capability : String
  pub reason : Reason

-- `Guardrail::check`
abbrev pub Guardrail : Type 0
Guardrail = String → Result Reason (Unit {0})

abbrev pub GuardrailRegistry : Type 0
GuardrailRegistry = List (String × List Guardrail)

abbrev pub new : GuardrailRegistry
new = []

abbrev pub or_empty : Option (List Guardrail) → List Guardrail
or_empty none = []
or_empty (some gs) = gs

unfoldable pub register : GuardrailRegistry → String → Guardrail → GuardrailRegistry
register r capability g = Assoc.insert capability (or_empty (Assoc.get capability r) ++ g ∷ []) r

-- The loop over the predicates, up to the first refusal.
unfoldable pub check_all : String → List Guardrail → String → Result GuardrailViolation (Unit {0})
check_all capability [] target = ok tt
check_all capability (g ∷ gs) target = elim (g target) [
  | ok accepted ↦ check_all capability gs target
  | err reason ↦ err (record { capability = capability; reason = reason })
]

unfoldable pub check : GuardrailRegistry → String → String → Result GuardrailViolation (Unit {0})
unfolding check_all
check r capability target = check_all capability (or_empty (Assoc.get capability r)) target

-- `NeverTargetArgusd`, on a daemon's unit name.
unfoldable pub never_target_argusd : (String → String) → String → Guardrail
never_target_argusd trim own target =
    let unit = trim target in
    if eqb unit own || eqb unit (str_append own ".service") then err (own_unit unit) else ok tt

-- The tests of `is_valid_unit_name` that the library has no function for.
pub record CharTests : Type 0 where
  pub contains : String → String → Bool
  pub has_control : String → Bool
  pub has_whitespace : String → Bool

unfoldable pub is_valid_unit_name : CharTests → String → Bool
is_valid_unit_name t unit =
    not (eqb unit "")
    && not (eqb unit "..")
    && not (starts_with unit "-")
    && not (t.contains unit "/")
    && not (t.contains unit "\\")
    && not (t.has_control unit)
    && not (t.has_whitespace unit)

unfoldable pub valid_service_unit : CharTests → Guardrail
valid_service_unit t target =
    if is_valid_unit_name t target then ok tt else err (invalid_unit target)

abbrev pub is_among : List String → String → Bool
is_among [] target = false
is_among (a ∷ rest) target = eqb a target || is_among rest target

-- `AllowedTargets`
unfoldable pub allowed_targets : List String → Guardrail
allowed_targets allowed target =
    if is_among allowed target then ok tt else err (not_allowed_target target)

unfoldable pub pid_above_one : ℤ → Result Reason (Unit {0})
pid_above_one pid = if ltb_ℤ (pos 1) pid then ok tt else err (low_pid pid)
