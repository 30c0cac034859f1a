-- ===== src/Domain/Plan.antt =====
-- Plans and their executions (crates/argus-domain/src/reasoning.rs). A JSON value is of a type `V`,
-- an `f64` of a type `C`; a resource id is its text.
use Prim.Native.Nat.{bit_xor}
use Prim.Native.String.{◌++◌ as str_append}
use argus_ai.Prelude.{
  ℕ, zero, suc, ◌/◌, ◌%◌, Option, none, some, List, [], ◌∷◌, String, get_elem?, wrapping_mul64,
}
use argus_ai.Domain.{BlastRadius, PlanStatus}

pub record Action (V : Type 0) : Type 0 where
  pub capability : String
  pub resource : Option String
  pub arguments : V

pub record PlanStep (V : Type 0) : Type 0 where
  pub action : Action V
  pub rollback : Option (Action V)

pub record Plan (V C : Type 0) : Type 0 where
  pub objective : String
  pub steps : List (PlanStep V)
  pub preconditions : List String
  pub expected_outcomes : List String
  pub blast_radius : BlastRadius
  pub confidence : C
  pub status : PlanStatus
  pub runbook : Option String

pub data ExecutionStatus : Type 0 where
  execution_completed execution_failed : ExecutionStatus

pub record Execution (V : Type 0) : Type 0 where
  pub action : Action V
  pub status : ExecutionStatus
  pub evidence : V

-- The 64-bit FNV-1a digest of a text, given by its bytes.
unfoldable pub fnv1a : List ℕ → ℕ → ℕ
fnv1a [] hash = hash
fnv1a (byte ∷ bytes) hash = fnv1a bytes (wrapping_mul64 (bit_xor hash byte) 1099511628211)

abbrev hex_digits : List String
hex_digits =
    "0" ∷ "1" ∷ "2" ∷ "3" ∷ "4" ∷ "5" ∷ "6" ∷ "7" ∷ "8" ∷ "9" ∷ "a" ∷ "b" ∷ "c" ∷ "d" ∷ "e" ∷ "f"
    ∷ []

abbrev or_empty : Option String → String
or_empty none = ""
or_empty (some s) = s

-- `{hash:016x}`: so many hexadecimal digits, with leading zeros.
unfoldable pub hex : ℕ → ℕ → String
hex zero n = ""
hex (suc k) n = str_append (hex k (n / 16)) (or_empty (get_elem? hex_digits (n % 16)))

unfoldable pub fnv1a_hex : List ℕ → String
unfolding fnv1a hex
fnv1a_hex bytes = hex 16 (fnv1a bytes 14695981039346656037)
