-- ===== src/Executor/Privileged/Routing.antt =====
-- The routing of crates/argus-executor/src/privileged.rs over the families of capabilities.
use argus_ai.Prelude.{
  ◌+◌, ◌≤◌, ◌≡◌, refl, sym, subst, ◌∙◌, inl, inr, true, false, Bool-cases, to_ℕ, String, eqb,
  eqb_iff, string_eq, List, [], ◌∷◌, All, none, ◌||◌, arith,
}
use argus_ai.Control.Families.{
  is_one_of, is_mcp_capability, remediation_handles, is_kubernetes_action,
}
use argus_ai.Executor.Privileged.{
  handles, operation_of, CompositeExecutor, execute_composite, dispatch_optional,
}
use argus_ai.Prelude.Results.{err}
use argus_ai.Control.Ports.{AuthorizedAction}
use argus_ai.Executor.Host.{Host, unsupported}

-- What holds of every name in a list holds of a name that the list has.
is_one_of_elim {ℓ} :
    (P : String → Type ℓ) (names : List String) (c : String)
    → is_one_of names c ≡ true
    → All P names
    → P c
is_one_of_elim P [] c h p = absurd (ground arith)
is_one_of_elim P (n ∷ names) c h (p, ps) = elim (Bool-cases (eqb n c)) [
  | inl q ↦ subst P ((eqb_iff n c).0 q) p
  | inr q ↦ is_one_of_elim P names c (ground arith) ps
]

abbrev service_names : List String
service_names = "host.service.restart" ∷ "host.service.stop" ∷ "host.service.start" ∷ []

abbrev kubernetes_names : List String
kubernetes_names =
    "k8s.pod.restart" ∷ "k8s.pod.delete" ∷ "k8s.deployment.restart" ∷ "k8s.deployment.rollback"
    ∷ "k8s.workload.scale" ∷ "k8s.node.cordon" ∷ "k8s.node.uncordon" ∷ "k8s.job.cleanup"
    ∷ "k8s.cluster.read" ∷ "k8s.node.read" ∷ "k8s.pod.read" ∷ "k8s.deployment.read" ∷ []

handles_lem : (c : String) → handles c ≡ is_one_of service_names c
unfolding handles operation_of
handles_lem c = ground arith

service_names_apart :
    (c : String)
    → handles c ≡ true
    → (remediation_handles c ≡ false) × (is_kubernetes_action c ≡ false)
unfolding remediation_handles is_kubernetes_action is_mcp_capability
service_names_apart c h =
    is_one_of_elim (λ n. (remediation_handles n ≡ false) × (is_kubernetes_action n ≡ false))
      service_names c (sym (handles_lem c) ∙ h) ((refl, refl), ((refl, refl), ((refl, refl), tt)))

kubernetes_names_apart :
    (c : String) → is_kubernetes_action c ≡ true → remediation_handles c ≡ false
unfolding remediation_handles is_kubernetes_action is_mcp_capability
kubernetes_names_apart c h =
    is_one_of_elim (λ n. remediation_handles n ≡ false) kubernetes_names c h
      (
        refl,
        (refl, (refl, (refl, (refl, (refl, (refl, (refl, (refl, (refl, (refl, (refl, tt))))))))))),
      )

-- No two of the three families have a capability in common, so that the order in which the composite
-- asks them does not matter.
pub families_disjoint :
    (c : String)
    → to_ℕ (handles c) + to_ℕ (remediation_handles c) + to_ℕ (is_kubernetes_action c) ≤ 1
families_disjoint c = elim (Bool-cases (handles c)) [
  | inl q ↦ let (r, k) = service_names_apart c q in ground arith
  | inr q ↦ elim (Bool-cases (is_kubernetes_action c)) [
    | inl k ↦ let r = kubernetes_names_apart c k in ground arith
    | inr k ↦ ground arith
  ]
]

module _ (h : Host) where
  open h use {V, W}

  -- A composite without the remediation and the Kubernetes executor refuses every capability of
  -- theirs and leaves the world as it was: none falls through to the read-only executor.
  pub unwired_refused :
      (c : CompositeExecutor h) (w : W) (a : AuthorizedAction V)
      → c.remediation ≡ none
      → c.kubernetes ≡ none
      → (remediation_handles a.request.capability || is_kubernetes_action a.request.capability)
        ≡ true
      → execute_composite h c w a ≡ (w, err (unsupported a.request.capability))
  unfolding execute_composite dispatch_optional
  unwired_refused c w a r k e = elim (Bool-cases (handles a.request.capability)) [
    | inl q ↦ let (x, y) = service_names_apart a.request.capability q in absurd (ground arith)
    | inr q ↦ ground (arith, r, k)
  ]
