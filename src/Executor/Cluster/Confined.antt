-- ===== src/Executor/Cluster/Confined.antt =====
-- What the guardrails that crates/argus-executor/src/cluster.rs wires, and its quota, keep its executor
-- from.
use argus_ai.Prelude.{
  ◌≡◌, refl, sym, ap, subst, ◌∙◌, ◌⊎◌, inl, inr, Bool, true, false, ◌||◌, Option, none, some, List,
  [], ◌∷◌, String, eqb, eqb_iff, string_eq, All, if_elim, arith, if◌then◌else◌,
}
use argus_ai.Prelude.Int.{ℤ, pos, ◌≤ℤ◌}
use argus_ai.Prelude.Results.{Result, ok, err}
use argus_ai.Control.Ports.{AuthorizedAction}
use argus_ai.Executor.Guardrail.{Guardrail, check}
use argus_ai.Executor.Guardrail
use argus_ai.Executor.Guardrail.Checked.{registered, register_all, check-accepts}
use argus_ai.Executor.Host.{
  Host, Outcome, RemediationError, ExecutionError, unsupported, guardrail_violation,
}
use argus_ai.Executor.Remediation.Execute.{answer, guarded}
use argus_ai.Executor.Remediation.Steps.{answer_world, required_elim, guarded_elim}
use argus_ai.Executor.Cluster.{
  Cluster, kubernetes_guardrails, protected_namespaces, valid_k8s_name, is_listed, first_part,
  check_replicas,
}
use argus_ai.Executor.Cluster.Execute.{
  KubernetesExecutor, target_of, on_object, scale, set_schedulable, read, dispatch, execute,
}
use argus_ai.Executor.Cluster.Names.{IsName, parts_of, valid_k8s_name_lem, protected_namespaces_lem}

-- One call of the controller that may change the cluster.
pub data ClusterEffect : Type 0 where
  restarts_pod deletes_pod restarts_deployment cleans_job : String → String → ClusterEffect
  rolls_back : String → String → Option ℤ → ClusterEffect
  scales : String → String → ℤ → ClusterEffect
  schedules : String → Bool → ClusterEffect

module _ (h : Host) (cluster : Cluster h) (protected : List String) (max : ℤ) where
  open h use {V, W}

  abbrev pub perform : W → ClusterEffect → W
  perform w (restarts_pod namespace name) = (cluster.restart_pod w namespace name).0
  perform w (deletes_pod namespace name) = (cluster.delete_pod w namespace name).0
  perform w (restarts_deployment namespace name) = (cluster.restart_deployment w namespace name).0
  perform w (cleans_job namespace name) = (cluster.cleanup_job w namespace name).0
  perform w (rolls_back namespace name revision) =
      (cluster.rollback_deployment w namespace name revision).0
  perform w (scales namespace name replicas) = (cluster.scale_workload w namespace name replicas).0
  perform w (schedules name schedulable) = (cluster.set_node_schedulable w name schedulable).0

  abbrev pub Named : String → String → Type 0
  Named namespace name = All IsName (parts_of namespace name)

  abbrev pub Unprotected : String → String → Type 0
  Unprotected namespace name = is_listed protected (first_part (parts_of namespace name)) ≡ false

  abbrev pub Spares : ClusterEffect → Type 0
  Spares (restarts_pod namespace name) = Unprotected namespace name × Named namespace name
  Spares (deletes_pod namespace name) = Unprotected namespace name × Named namespace name
  Spares (restarts_deployment namespace name) = Named namespace name
  Spares (cleans_job namespace name) = Named namespace name
  Spares (rolls_back namespace name revision) = Named namespace name
  Spares (scales namespace name replicas) =
      Named namespace name × (pos 0 ≤ℤ replicas) × (replicas ≤ℤ max)
  Spares (schedules name schedulable) = Unit

  abbrev wiring : List (String × Guardrail)
  wiring =
      ("k8s.pod.restart", protected_namespaces protected)
      ∷ ("k8s.pod.delete", protected_namespaces protected)
      ∷ ("k8s.pod.restart", valid_k8s_name)
      ∷ ("k8s.pod.delete", valid_k8s_name)
      ∷ ("k8s.deployment.restart", valid_k8s_name)
      ∷ ("k8s.deployment.rollback", valid_k8s_name)
      ∷ ("k8s.workload.scale", valid_k8s_name)
      ∷ ("k8s.job.cleanup", valid_k8s_name)
      ∷ []

  wired : kubernetes_guardrails protected ≡ register_all Guardrail.new wiring
  unfolding kubernetes_guardrails register_all
  wired = refl

  -- The predicates of a capability hold of the target that its guardrails pass.
  passed :
      (c capability target : String)
      → capability ≡ c
      → check (kubernetes_guardrails protected) capability target ≡ ok tt
      → All (λ g. g target ≡ ok tt) (registered wiring c)
  passed c capability target q e = check-accepts wiring c target (
      ap (λ r. check r c target) (sym wired)
      ∙ subst (λ x. check (kubernetes_guardrails protected) x target ≡ ok tt) q e)

  -- The executor as it is wired.
  abbrev pub wired_executor : KubernetesExecutor h
  wired_executor = record {
    cluster = cluster;
    guardrails = kubernetes_guardrails protected;
    max_replicas = max;
  }

  abbrev pub Touched : W → W → Type 0
  Touched w w' = (w' ≡ w) ⊎ ((e : ClusterEffect) × (w' ≡ perform w e) × Spares e)

  unfoldable Leaves : W → Outcome h → Type 0
  Leaves w o = Touched w o.0

  untouched : (w : W) (e : ExecutionError) → Leaves w (w, err e)
  unfolding Leaves
  untouched w e = inl refl

  acts :
      (w w' : W) (e : ClusterEffect) (c : String) (s : ℤ) (x : Result RemediationError V)
      → w' ≡ perform w e
      → Spares e
      → Leaves w (answer h c s w' x)
  unfolding Leaves
  acts w w' e c s x p k = inr (e, answer_world h c s w' x ∙ p, k)

  -- An arm under the guardrails.
  checked :
      (w : W) (c capability target : String) (k : Outcome h)
      → capability ≡ c
      → (All (λ g. g target ≡ ok tt) (registered wiring c) → Leaves w k)
      → Leaves w (guarded h w (kubernetes_guardrails protected) capability target k)
  checked w c capability target k q f =
      guarded_elim h (Leaves w) w (kubernetes_guardrails protected) capability target k
        (λ v. untouched w (guardrail_violation v)) (λ e. f (passed c capability target q e))

  quota :
      (replicas r : ℤ)
      → (if check_replicas max replicas then some replicas else none) ≡ some r
      → (pos 0 ≤ℤ r) × (r ≤ℤ max)
  unfolding check_replicas
  quota replicas r e = (ground arith, ground arith)

  scale-Leaves :
      (w : W) (a : AuthorizedAction V) (capability namespace name : String)
      → capability ≡ "k8s.workload.scale"
      → Leaves w (scale h wired_executor w a capability namespace name)
  unfolding scale
  scale-Leaves w a capability namespace name q =
      checked w "k8s.workload.scale" capability _ _ q λ gs.
        required_elim h (Leaves w) w _ _ _ (untouched w _) λ replicas _.
          required_elim h (Leaves w) w _ _ _ (untouched w _) λ r e.
            acts w _ (scales namespace name r) _ _ _ refl
              (valid_k8s_name_lem _ gs.0, (quota replicas r e).0, (quota replicas r e).1)

  set_schedulable-Leaves :
      (w : W) (capability name : String)
      → Leaves w (set_schedulable h wired_executor w capability name)
  unfolding set_schedulable
  set_schedulable-Leaves w capability name =
      guarded_elim h (Leaves w) w _ _ _ _ (λ v. untouched w (guardrail_violation v))
        λ _. acts w _ (schedules name (eqb "k8s.node.uncordon" capability)) _ _ _ refl tt

  reads : (w : W) (c : String) (s : ℤ) (x : Result RemediationError V) → Leaves w (answer h c s w x)
  unfolding Leaves
  reads w c s x = inl (answer_world h c s w x)

  read-Leaves :
      (w : W) (a : AuthorizedAction V) (capability namespace name : String)
      → Leaves w (read h wired_executor w a capability namespace name)
  unfolding read
  read-Leaves w a capability namespace name =
      guarded_elim h (Leaves w) w _ _ _ _ (λ v. untouched w (guardrail_violation v))
        λ _. reads w _ _ _

  object-Leaves :
      (w : W) (c capability namespace name : String) (rest : List (String × V))
      (call : W × Result RemediationError (Unit {0})) (e : ClusterEffect)
      → capability ≡ c
      → call.0 ≡ perform w e
      → (All (λ g. g (target_of namespace name) ≡ ok tt) (registered wiring c) → Spares e)
      → Leaves w (on_object h wired_executor w capability namespace name rest call)
  unfolding on_object
  object-Leaves w c capability namespace name rest call e q p f =
      checked w c capability (target_of namespace name) _ q λ gs. acts w call.0 e _ _ _ p (f gs)

  dispatch-Leaves :
      (w : W) (a : AuthorizedAction V) (c namespace name : String)
      → Leaves w (dispatch h wired_executor w a c namespace name)
  unfolding dispatch
  dispatch-Leaves w a c namespace name =
      let is = λ (k : String) (q : eqb k c ≡ true). sym ((eqb_iff k c).0 q) in
      if_elim (Leaves w) (eqb "k8s.pod.restart" c)
        (λ q.
          object-Leaves w "k8s.pod.restart" c namespace name _ _ (restarts_pod namespace name)
            (is _ q) refl
            λ gs. (protected_namespaces_lem protected _ gs.0, valid_k8s_name_lem _ gs.1.0))
        λ _.
          if_elim (Leaves w) (eqb "k8s.pod.delete" c)
            (λ q.
              object-Leaves w "k8s.pod.delete" c namespace name _ _ (deletes_pod namespace name)
                (is _ q) refl
                λ gs. (protected_namespaces_lem protected _ gs.0, valid_k8s_name_lem _ gs.1.0))
            λ _.
              if_elim (Leaves w) (eqb "k8s.deployment.restart" c)
                (λ q.
                  object-Leaves w "k8s.deployment.restart" c namespace name _ _
                    (restarts_deployment namespace name) (is _ q) refl
                    λ gs. valid_k8s_name_lem _ gs.0)
                λ _.
                  if_elim (Leaves w) (eqb "k8s.deployment.rollback" c)
                    (λ q.
                      object-Leaves w "k8s.deployment.rollback" c namespace name _ _
                        (rolls_back namespace name (h.int_arg a.request.arguments "revision"))
                        (is _ q) refl λ gs. valid_k8s_name_lem _ gs.0)
                    λ _.
                      if_elim (Leaves w) (eqb "k8s.workload.scale" c)
                        (λ q. scale-Leaves w a c namespace name (is _ q))
                        λ _.
                          if_elim (Leaves w) (eqb "k8s.node.cordon" c || eqb "k8s.node.uncordon" c)
                            (λ _. set_schedulable-Leaves w c name)
                            λ _.
                              if_elim (Leaves w) (eqb "k8s.job.cleanup" c)
                                (λ q.
                                  object-Leaves w "k8s.job.cleanup" c namespace name _ _
                                    (cleans_job namespace name) (is _ q) refl
                                    λ gs. valid_k8s_name_lem _ gs.0)
                                λ _.
                                  if_elim (Leaves w)
                                    (eqb "k8s.cluster.read" c
                                      || eqb "k8s.node.read" c
                                      || eqb "k8s.pod.read" c
                                      || eqb "k8s.deployment.read" c)
                                    (λ _. read-Leaves w a c namespace name)
                                    λ _. untouched w (unsupported c)

  execute-Leaves : (w : W) (a : AuthorizedAction V) → Leaves w (execute h wired_executor w a)
  unfolding execute
  execute-Leaves w a =
      required_elim h (Leaves w) w _ _ _ (untouched w _)
        λ name _. dispatch-Leaves w a a.request.capability _ name

  -- With the guardrails that are wired, whatever the protected namespaces and the quota are: executing
  -- an action leaves the cluster as it was, or as one call of its controller leaves it. A pod is
  -- restarted or deleted only where the first part of its target is no protected namespace; every part of
  -- the target of a call on an object of a namespace is a well-formed name of at most 253 characters; a
  -- workload is scaled only to a number of replicas from 0 to the quota. Nothing is said of the name of
  -- a node that is cordoned or uncordoned.
  pub execute-Within : (w : W) (a : AuthorizedAction V) → Touched w (execute h wired_executor w a).0
  unfolding Leaves
  execute-Within w a = execute-Leaves w a
