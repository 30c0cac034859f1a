-- ===== src/Executor/Cluster/Execute.antt =====
-- What the executor of crates/argus-executor/src/cluster.rs does with an authorized action.
use Prim.Native.String.{◌++◌ as str_append}
use argus_ai.Prelude.{
  ◌||◌, Option, none, some, List, [], ◌∷◌, String, eqb, string_eq, if◌then◌else◌,
}
use argus_ai.Prelude.Int.{ℤ}
use argus_ai.Prelude.Results.{Result, ok, err}
use argus_ai.Control.Ports.{AuthorizedAction}
use argus_ai.Executor.Guardrail.{GuardrailRegistry}
use argus_ai.Executor.Host.{RemediationError, unsupported, Host, Outcome, Executor}
use argus_ai.Executor.Remediation.Execute.{required, guarded, answer, with_evidence}
use argus_ai.Executor.Cluster.{Cluster, check_replicas, read_resource}

-- `format!("{namespace}/{name}")`
abbrev pub target_of : String → String → String
target_of namespace name = str_append namespace (str_append "/" name)

pub record KubernetesExecutor (h : Host) : Type 0 where
  pub cluster : Cluster h
  pub guardrails : GuardrailRegistry
  pub max_replicas : ℤ

abbrev pub or_default : Option String → String
or_default none = "default"
or_default (some namespace) = namespace

module _ (h : Host) (k : KubernetesExecutor h) where
  open h use {V, W}

  -- The closure `effect`, on a controller's answer.
  abbrev pub effect :
      W → String → List (String × V) → W × Result RemediationError (Unit {0}) → Outcome h
  effect w capability evidence (w', done) =
      answer h capability (h.clock w) w' (with_evidence h (h.object evidence) done)

  abbrev pub named : String → String → List (String × V) → List (String × V)
  named namespace name rest = ("namespace", h.text namespace) ∷ ("name", h.text name) ∷ rest

  abbrev pub revision_value : Option ℤ → V
  revision_value none = h.null
  revision_value (some n) = h.number n

  -- The arm of an action on one object of a namespace: the guardrails, then one call.
  unfoldable pub on_object :
      W
      → String
      → String
      → String
      → List (String × V)
      → W × Result RemediationError (Unit {0})
      → Outcome h
  on_object w capability namespace name rest call =
      guarded h w k.guardrails capability (target_of namespace name)
        (effect w capability (named namespace name rest) call)

  unfoldable pub scale : W → AuthorizedAction V → String → String → String → Outcome h
  scale w action capability namespace name =
      guarded h w k.guardrails capability (target_of namespace name) (
        required h w (h.int_arg action.request.arguments "replicas") "no numeric 'replicas'"
          (λ replicas.
            required h w (if check_replicas k.max_replicas replicas then some replicas else none)
              "outside the quota"
              (λ replicas.
                effect w capability (named namespace name (("replicas", h.number replicas) ∷ []))
                  (k.cluster.scale_workload w namespace name replicas))))

  unfoldable pub set_schedulable : W → String → String → Outcome h
  set_schedulable w capability name =
      let schedulable = eqb "k8s.node.uncordon" capability in
      guarded h w k.guardrails capability name (
        effect w capability (("name", h.text name) ∷ ("schedulable", h.boolean schedulable) ∷ [])
          (k.cluster.set_node_schedulable w name schedulable))

  abbrev pub read_answer : String → Result RemediationError V → Result RemediationError V
  read_answer resource (ok payload) =
      ok (h.object (("resource", h.text resource) ∷ ("result", payload) ∷ []))
  read_answer resource (err e) = err e

  unfoldable pub read : W → AuthorizedAction V → String → String → String → Outcome h
  read w action capability namespace name =
      let resource = read_resource capability in
      guarded h w k.guardrails capability (target_of namespace name) (
        answer h capability (h.clock w) w (
          read_answer resource (
            k.cluster.read w resource (some namespace)
              (h.str_arg action.request.arguments "name"))))

  abbrev pub operation : String → List (String × V)
  operation s = ("operation", h.text s) ∷ []

  unfoldable pub dispatch : W → AuthorizedAction V → String → String → String → Outcome h
  dispatch w action capability namespace name =
      if eqb "k8s.pod.restart" capability
      then on_object w capability namespace name (operation "restart")
          (k.cluster.restart_pod w namespace name)
      else if eqb "k8s.pod.delete" capability
      then on_object w capability namespace name (operation "delete")
          (k.cluster.delete_pod w namespace name)
      else if eqb "k8s.deployment.restart" capability
      then on_object w capability namespace name (operation "rollout-restart")
          (k.cluster.restart_deployment w namespace name)
      else if eqb "k8s.deployment.rollback" capability
      then (let revision = h.int_arg action.request.arguments "revision" in
          on_object w capability namespace name
            (("operation", h.text "rollback") ∷ ("revision", revision_value revision) ∷ [])
            (k.cluster.rollback_deployment w namespace name revision))
      else if eqb "k8s.workload.scale" capability
      then scale w action capability namespace name
      else if eqb "k8s.node.cordon" capability || eqb "k8s.node.uncordon" capability
      then set_schedulable w capability name
      else if eqb "k8s.job.cleanup" capability
      then on_object w capability namespace name (operation "cleanup")
          (k.cluster.cleanup_job w namespace name)
      else if eqb "k8s.cluster.read" capability
          || eqb "k8s.node.read" capability
          || eqb "k8s.pod.read" capability
          || eqb "k8s.deployment.read" capability
      then read w action capability namespace name
      else (w, err (unsupported capability))

  -- `namespace_name`, then the arm of the capability.
  unfoldable pub execute : Executor h
  execute w action =
      let namespace = or_default (h.str_arg action.request.arguments "namespace") in
      required h w (h.str_arg action.request.arguments "name") "the request does not name a 'name'"
        (dispatch w action action.request.capability namespace)
