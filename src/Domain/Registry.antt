-- ===== src/Domain/Registry.antt =====
-- The capability registry (crates/argus-domain/src/registry.rs) over the descriptors of
-- crates/argus-domain/src/capability.rs. A schema is a JSON value, of a type `V`; a version is its text.
-- The ordered map is an association list, whose order no operation here depends on.
use text.Mathlib.Text.{starts_with}
use Prim.Native.String.{◌++◌ as str_append}
use argus_ai.Prelude.{
  ℕ, Bool, true, false, ◌&&◌, Option, none, some, List, [], ◌∷◌, String, eqb, string_eq, is_empty,
  if◌then◌else◌, ◌||◌,
}
use argus_ai.Prelude.Results.{Result, ok, err}
use argus_ai.Prelude.Assoc
use argus_ai.Domain.{RiskClass, BlastRadius, host}

pub data Reversibility : Type 0 where
  irreversible reversible partially_reversible : Reversibility

pub data OsPrivilege : Type 0 where
  linux_capability : String → OsPrivilege
  namespace : String → OsPrivilege
  seccomp : String → OsPrivilege
  landlock : OsPrivilege

abbrev pub same_privilege : OsPrivilege → OsPrivilege → Bool
same_privilege (linux_capability a) (linux_capability b) = eqb a b
same_privilege (namespace a) (namespace b) = eqb a b
same_privilege (seccomp a) (seccomp b) = eqb a b
same_privilege landlock landlock = true
same_privilege _ _ = false

-- `PrivilegeDeclaration`
abbrev pub Privileges : Type 0
Privileges = List OsPrivilege

unfoldable pub includes : Privileges → OsPrivilege → Bool
includes [] p = false
includes (q ∷ qs) p = same_privilege q p || includes qs p

unfoldable pub missing_from : Privileges → Privileges → Privileges
unfolding includes
missing_from [] granted = []
missing_from (p ∷ ps) granted =
    let rest = missing_from ps granted in if includes granted p then rest else p ∷ rest

unfoldable pub is_satisfied_by : Privileges → Privileges → Bool
is_satisfied_by ps granted = is_empty (missing_from ps granted)

pub record CapabilityDescriptor (V : Type 0) : Type 0 where
  pub id : String
  pub provider : String
  pub operation : String
  pub risk_class : RiskClass
  pub version : String
  pub input_schema : V
  pub output_schema : V
  pub reversibility : Reversibility
  pub blast_radius : Option BlastRadius
  pub requires_approval : Bool
  pub timeout_seconds : Option ℕ
  pub privileged : Bool
  pub privileges : Privileges

pub record CapabilityRegistry (V : Type 0) : Type 0 where
  pub descriptors : List (String × CapabilityDescriptor V)
  pub sandbox : Option Privileges

-- The errors of crates/argus-domain/src/error.rs that a registration raises.
pub data DomainError : Type 0 where
  duplicate_capability undeclared_privileges : String → DomainError
  ungranted_privileges : String → Privileges → DomainError

abbrev pub blast_radius_or : Option BlastRadius → BlastRadius → BlastRadius
blast_radius_or none scope = scope
blast_radius_or (some declared) scope = declared

abbrev pub server_prefix : String → String
server_prefix server = str_append (str_append "mcp." server) "."

module _ {V : Type 0} where
  unfoldable pub new : CapabilityRegistry V
  new = record { descriptors = []; sandbox = none }

  unfoldable pub with_sandbox : Privileges → CapabilityRegistry V
  with_sandbox sandbox = record { descriptors = []; sandbox = some sandbox }

  unfoldable pub effective_blast_radius : CapabilityDescriptor V → BlastRadius
  effective_blast_radius d = blast_radius_or d.blast_radius host

  unfoldable pub get : CapabilityRegistry V → String → Option (CapabilityDescriptor V)
  get r id = Assoc.get id r.descriptors

  abbrev pub is_registered : Option (CapabilityDescriptor V) → Bool
  is_registered none = false
  is_registered (some d) = true

  unfoldable pub contains : CapabilityRegistry V → String → Bool
  contains r id = is_registered (Assoc.get id r.descriptors)

  -- The privileges that the sandbox, if one is modelled, does not grant.
  unfoldable pub ungranted : Option Privileges → CapabilityDescriptor V → Privileges
  ungranted none d = []
  ungranted (some sandbox) d = missing_from d.privileges sandbox

  -- The registry after the call, and the error, if any.
  unfoldable pub register :
      CapabilityRegistry V
      → CapabilityDescriptor V
      → CapabilityRegistry V × Result DomainError (Unit {0})
  unfolding contains ungranted
  register r d =
      if contains r d.id
      then (r, err (duplicate_capability d.id))
      else if d.privileged && is_empty d.privileges
      then (r, err (undeclared_privileges d.id))
      else if is_empty (ungranted r.sandbox d)
      then (record r { descriptors = Assoc.insert d.id d r.descriptors }, ok tt)
      else (r, err (ungranted_privileges d.id (ungranted r.sandbox d)))

  -- The registered ids with the prefix, and the descriptors without them.
  unfoldable pub with_prefix : String → List (String × CapabilityDescriptor V) → List String
  with_prefix prefix [] = []
  with_prefix prefix ((id, d) ∷ m) =
      let rest = with_prefix prefix m in if starts_with id prefix then id ∷ rest else rest

  unfoldable pub remove_each :
      List String → List (String × CapabilityDescriptor V) → List (String × CapabilityDescriptor V)
  remove_each [] m = m
  remove_each (id ∷ ids) m = remove_each ids (Assoc.remove id m)

  unfoldable pub unregister_server :
      CapabilityRegistry V → String → CapabilityRegistry V × List String
  unregister_server r server =
      let removed = with_prefix (server_prefix server) r.descriptors in
      (record r { descriptors = remove_each removed r.descriptors }, removed)
