-- ===== src/Tests/Cluster.antt =====
-- The Kubernetes executor of crates/argus-executor on a concrete cluster.
use argus_ai.Prelude.{◌≡◌, refl, inl, inr, List, [], ◌∷◌, String}
use argus_ai.Prelude.Int.{pos, negsuc}
use argus_ai.Prelude.Results.{ok}
use argus_ai.Prelude.Assoc
use argus_ai.Prelude.Codes.{split}
use argus_ai.Control.Ports.{AuthorizedAction}
use argus_ai.Executor.Guardrail.{register, check, check_all}
use argus_ai.Executor.Remediation.Execute.{required, guarded, answer}
use argus_ai.Executor.Cluster.{
  Cluster, kubernetes_guardrails, protected_namespaces, valid_k8s_name, check_replicas,
}
use argus_ai.Executor.Cluster.Execute.{execute, dispatch, on_object, scale, set_schedulable}
use argus_ai.Executor.Cluster.Confined.{Touched, wired_executor, execute-Within}
use argus_ai.Tests.Remediation.{Value, logging, action}

abbrev small : Cluster logging
small = record {
  restart_pod = λ w namespace name. ("restart" ∷ w, ok tt);
  delete_pod = λ w namespace name. ("delete" ∷ w, ok tt);
  restart_deployment = λ w namespace name. ("rollout" ∷ w, ok tt);
  rollback_deployment = λ w namespace name revision. ("rollback" ∷ w, ok tt);
  scale_workload = λ w namespace name replicas. ("scale" ∷ w, ok tt);
  set_node_schedulable = λ w name schedulable. (name ∷ w, ok tt);
  cleanup_job = λ w namespace name. ("cleanup" ∷ w, ok tt);
  read = λ w resource namespace name. ok [];
}

abbrev scale_to_two : AuthorizedAction Value
scale_to_two = action "k8s.workload.scale" (("name", inr "web") ∷ ("replicas", inl (pos 2)) ∷ [])

execute-Within_example :
    Touched logging small
      ("kube-system" ∷ [])
      (pos 3)
      []
      (execute logging
        (wired_executor logging small ("kube-system" ∷ []) (pos 3))
        []
        scale_to_two).0
execute-Within_example = execute-Within logging small ("kube-system" ∷ []) (pos 3) [] scale_to_two

-- What the cluster is asked to do.
abbrev asked : AuthorizedAction Value → List String
asked a = (execute logging (wired_executor logging small ("kube-system" ∷ []) (pos 3)) [] a).0

abbrev scale_to : Value → AuthorizedAction Value
scale_to arguments = action "k8s.workload.scale" (("name", inr "web") ∷ arguments)

scaled_within :
    (asked scale_to_two ≡ "scale" ∷ [])
    × (asked (scale_to (("replicas", inl (pos 4)) ∷ [])) ≡ [])
    × (asked (scale_to (("replicas", inl (negsuc 0)) ∷ [])) ≡ [])
unfolding execute dispatch scale kubernetes_guardrails register check check_all valid_k8s_name
    check_replicas split Assoc.get Assoc.insert required guarded answer
scaled_within = (refl, refl, refl)

-- A pod of a protected namespace is left alone; the name of a node is checked by nothing.
node_unchecked :
    (asked (action "k8s.pod.delete" (("namespace", inr "kube-system") ∷ ("name", inr "dns") ∷ []))
      ≡ [])
    × (asked (action "k8s.node.cordon" (("name", inr "No such/node") ∷ [])) ≡ "No such/node" ∷ [])
unfolding execute dispatch on_object set_schedulable kubernetes_guardrails register check check_all
    valid_k8s_name protected_namespaces split Assoc.get Assoc.insert required guarded answer
node_unchecked = (refl, refl)
