-- ===== src/Executor/Cluster.antt =====
-- The Kubernetes capabilities of crates/argus-executor/src/cluster.rs: the executor over the cluster's
-- controller, and the guardrails that are wired for it.
pub mod Execute
pub mod Names
pub mod Confined
use Prim.Native.String.{◌++◌ as str_append}
use argus_ai.Prelude.{
  ℕ, Bool, true, false, not, ◌&&◌, ◌||◌, Option, none, some, List, [], ◌∷◌, String, eqb, string_eq,
  nat_eq, is_empty, length, leb, ltb, if◌then◌else◌,
}
use argus_ai.Prelude.Int.{ℤ, pos, leb_ℤ}
use argus_ai.Prelude.Results.{Result, ok, err}
use argus_ai.Prelude.Codes.{codes, split, codes_eq}
use argus_ai.Control.Ports.{AuthorizedAction}
use argus_ai.Executor.Guardrail
use argus_ai.Executor.Guardrail.{Guardrail, GuardrailRegistry, register, other_reason}
use argus_ai.Executor.Host.{RemediationError, unsupported, failed, Host, Outcome, Executor}
use argus_ai.Executor.Remediation.Execute.{required, guarded, answer, with_evidence}

-- `ClusterController`; a read leaves the world alone.
pub record Cluster (h : Host) : Type 0 where
  pub restart_pod : h.W → String → String → h.W × Result RemediationError (Unit {0})
  pub delete_pod : h.W → String → String → h.W × Result RemediationError (Unit {0})
  pub restart_deployment : h.W → String → String → h.W × Result RemediationError (Unit {0})
  pub rollback_deployment :
      h.W → String → String → Option ℤ → h.W × Result RemediationError (Unit {0})
  pub scale_workload : h.W → String → String → ℤ → h.W × Result RemediationError (Unit {0})
  pub set_node_schedulable : h.W → String → Bool → h.W × Result RemediationError (Unit {0})
  pub cleanup_job : h.W → String → String → h.W × Result RemediationError (Unit {0})
  pub read : h.W → String → Option String → Option String → Result RemediationError h.V

-- The namespace of a target: its first part.
abbrev pub first_part : List (List ℕ) → List ℕ
first_part [] = []
first_part (p ∷ ps) = p

abbrev pub is_listed : List String → List ℕ → Bool
is_listed [] part = false
is_listed (p ∷ ps) part = eqb (codes p) part || is_listed ps part

unfoldable pub protected_namespaces : List String → Guardrail
protected_namespaces protected target =
    if is_listed protected (first_part (split 47 (codes target)))
    then err (other_reason target)
    else ok tt

-- A lower-case letter, a digit, a dash or a dot.
abbrev pub is_name_char : ℕ → Bool
is_name_char c = (leb 97 c && leb c 122) || (leb 48 c && leb c 57) || eqb c 45 || eqb c 46

abbrev pub all_name_chars : List ℕ → Bool
all_name_chars [] = true
all_name_chars (c ∷ s) = is_name_char c && all_name_chars s

abbrev pub is_separator : ℕ → Bool
is_separator c = eqb c 45 || eqb c 46

abbrev pub starts_separated : List ℕ → Bool
starts_separated [] = false
starts_separated (c ∷ s) = is_separator c

abbrev pub ends_separated : List ℕ → Bool
ends_separated [] = false
ends_separated (c ∷ []) = is_separator c
ends_separated (c ∷ d ∷ s) = ends_separated (d ∷ s)

abbrev pub is_valid_part : List ℕ → Bool
is_valid_part part =
    not (is_empty part || ltb 253 (length part))
    && all_name_chars part
    && not (starts_separated part || ends_separated part)

abbrev pub all_valid_parts : List (List ℕ) → Bool
all_valid_parts [] = true
all_valid_parts (p ∷ ps) = is_valid_part p && all_valid_parts ps

unfoldable pub valid_k8s_name : Guardrail
valid_k8s_name target =
    if all_valid_parts (split 47 (codes target)) then ok tt else err (other_reason target)

unfoldable pub kubernetes_guardrails : List String → GuardrailRegistry
kubernetes_guardrails protected =
    let r = register Guardrail.new "k8s.pod.restart" (protected_namespaces protected) in
    let r = register r "k8s.pod.delete" (protected_namespaces protected) in
    let r = register r "k8s.pod.restart" valid_k8s_name in
    let r = register r "k8s.pod.delete" valid_k8s_name in
    let r = register r "k8s.deployment.restart" valid_k8s_name in
    let r = register r "k8s.deployment.rollback" valid_k8s_name in
    let r = register r "k8s.workload.scale" valid_k8s_name in
    register r "k8s.job.cleanup" valid_k8s_name

-- `MaxReplicas::check_replicas`
unfoldable pub check_replicas : ℤ → ℤ → Bool
check_replicas max replicas = leb_ℤ (pos 0) replicas && leb_ℤ replicas max

unfoldable pub read_resource : String → String
read_resource c =
    if eqb "k8s.cluster.read" c
    then "cluster"
    else if eqb "k8s.node.read" c
    then "nodes"
    else if eqb "k8s.pod.read" c
    then "pods"
    else if eqb "k8s.deployment.read" c
    then "deployments"
    else "unknown"
