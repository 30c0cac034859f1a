-- ===== src/Policy/Bootstrap.antt =====
-- The bootstrap policy of crates/argus-policy/src/bootstrap.rs, with the capability names of
-- crates/argus-domain/src/id.rs. A set of capabilities is a list without repetitions. Of a request
-- the policy reads the capability and whether it requires an approval, and of a decision the model
-- keeps the outcome and the policy's id.
pub mod Channel
use text.Mathlib.Text.{starts_with}
use argus_ai.Prelude.{
  Bool, true, false, ◌||◌, List, [], ◌∷◌, ◌++◌, String, eqb, string_eq, if◌then◌else◌,
}
use argus_ai.Domain.{PolicyOutcome, allow, deny, require_approval}

-- The request's risk class, scope, principal, resource, arguments and context, which the policy
-- never reads, are a value of a type `R`.
pub record AuthorizationRequest (R : Type 0) : Type 0 where
  pub capability : String
  pub rest : R
  pub requires_approval : Bool

pub record PolicyDecision : Type 0 where
  pub outcome : PolicyOutcome
  pub policy_id : String

pub record BootstrapPolicyEvaluator : Type 0 where
  pub allowed : List String
  pub allowed_prefixes : List String

abbrev pub contains : List String → String → Bool
contains [] c = false
contains (a ∷ rest) c = eqb a c || contains rest c

abbrev pub insert_all : List String → List String → List String
insert_all [] set = set
insert_all (id ∷ ids) set =
    let set' = if contains set id then set else set ++ id ∷ [] in insert_all ids set'

abbrev pub channel_capabilities : List String
channel_capabilities =
    "host.status.read" ∷ "argus.health.read" ∷ "argus.config.read" ∷ "argus.plugins.list"
    ∷ "host.service.restart" ∷ "host.service.stop" ∷ "host.service.start" ∷ []

unfoldable pub new : BootstrapPolicyEvaluator
new = record { allowed = channel_capabilities; allowed_prefixes = [] }

abbrev pub remediation_capabilities : List String
remediation_capabilities =
    "host.process.signal" ∷ "container.restart" ∷ "host.cgroup.freeze" ∷ "host.cgroup.thaw"
    ∷ "host.memory.reclaim" ∷ "host.journal.vacuum" ∷ "k8s.cluster.read" ∷ "k8s.node.read"
    ∷ "k8s.pod.read" ∷ "k8s.deployment.read" ∷ "k8s.pod.restart" ∷ "k8s.deployment.restart"
    ∷ "k8s.deployment.rollback" ∷ "k8s.workload.scale" ∷ "k8s.node.cordon" ∷ "k8s.node.uncordon"
    ∷ "k8s.job.cleanup" ∷ []

unfoldable pub with_local_remediation : BootstrapPolicyEvaluator
unfolding new
with_local_remediation = record {
  allowed = insert_all remediation_capabilities new.allowed;
  allowed_prefixes = new.allowed_prefixes ++ "mcp." ∷ [];
}

abbrev pub any_prefix : List String → String → Bool
any_prefix [] c = false
any_prefix (p ∷ ps) c = starts_with c p || any_prefix ps c

unfoldable pub locally_permitted : BootstrapPolicyEvaluator → String → Bool
locally_permitted e capability =
    contains e.allowed capability || any_prefix e.allowed_prefixes capability

unfoldable pub evaluate :
    {R : Type 0} → BootstrapPolicyEvaluator → AuthorizationRequest R → PolicyDecision
unfolding locally_permitted
evaluate e request =
    if locally_permitted e request.capability
    then (if request.requires_approval
        then record { outcome = require_approval; policy_id = "bootstrap.approval-required" }
        else record { outcome = allow; policy_id = "bootstrap.read-only" })
    else record { outcome = deny; policy_id = "bootstrap.read-only" }
