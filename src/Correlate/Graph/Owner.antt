-- ===== src/Correlate/Graph/Owner.antt =====
-- The search for an owner of a kind, `nearest_owner_of_kind` of crates/argus-correlate/src/graph.rs.
pub mod Visit
pub mod Found
use argus_ai.Prelude.{
  ℕ, zero, suc, Bool, true, false, not, ◌&&◌, Option, none, some, List, [], ◌∷◌, String, eqb,
  nat_eq, length, if◌then◌else◌,
}
use argus_ai.Correlate.Graph.{
  NodeKind, environment, host, kernel, process, cgroup, namespace, device, filesystem, network,
  service, container, workload, endpoint, dependency, application, k8s_cluster, k8s_node,
  k8s_namespace, k8s_deployment, k8s_replica_set, k8s_pod, cloud_resource, observation, situation,
  incident, evidence, plan, action, execution, agent, plugin, Edge, Graph, kind_of, to_owners,
  listed, leaves,
}

-- The place of a kind among the constructors, which tells them apart.
abbrev pub rank : NodeKind → ℕ
rank environment = 0
rank host = 1
rank kernel = 2
rank process = 3
rank cgroup = 4
rank namespace = 5
rank device = 6
rank filesystem = 7
rank network = 8
rank service = 9
rank container = 10
rank workload = 11
rank endpoint = 12
rank dependency = 13
rank application = 14
rank k8s_cluster = 15
rank k8s_node = 16
rank k8s_namespace = 17
rank k8s_deployment = 18
rank k8s_replica_set = 19
rank k8s_pod = 20
rank cloud_resource = 21
rank observation = 22
rank situation = 23
rank incident = 24
rank evidence = 25
rank plan = 26
rank action = 27
rank execution = 28
rank agent = 29
rank plugin = 30

abbrev pub is_some_kind : Option NodeKind → NodeKind → Bool
is_some_kind none kind = false
is_some_kind (some k) kind = eqb (rank k) (rank kind)

unfoldable pub is_of_kind : Graph → String → NodeKind → Bool
is_of_kind g id kind = is_some_kind (kind_of g id) kind

-- The loop over the edges: an owner of the kind, or the visited set and the stack after it.
pub data Scan : Type 0 where
  hit : String → Scan
  miss : List String → List String → Scan

unfoldable pub scan : Graph → NodeKind → String → List Edge → List String → List String → Scan
scan g kind current [] visited frontier = miss visited frontier
scan g kind current (e ∷ es) visited frontier =
    let fresh = leaves to_owners current e && not (listed visited e.to) in
    let rest =
      scan g kind current es (if fresh then e.to ∷ visited else visited)
        (if fresh then e.to ∷ frontier else frontier) in
    if fresh && is_of_kind g e.to kind then hit e.to else rest

unfoldable pub after_scan :
    Scan → (List String → List String → Option (Option String)) → Option (Option String)
after_scan (hit owner) others = some (some owner)
after_scan (miss visited frontier) others = others visited frontier

-- The loop over the stack, in so many rounds; none where they run out.
unfoldable pub owner_loop :
    ℕ → Graph → NodeKind → List String → List String → Option (Option String)
unfolding scan after_scan
owner_loop fuel g kind visited [] = some none
owner_loop zero g kind visited (current ∷ frontier) = none
owner_loop (suc fuel) g kind visited (current ∷ frontier) =
    after_scan (scan g kind current g.edges visited frontier)
      (λ visited' frontier'. owner_loop fuel g kind visited' frontier')

unfoldable pub nearest_owner_of_kind : Graph → String → NodeKind → Option (Option String)
unfolding owner_loop
nearest_owner_of_kind g id kind = owner_loop (suc (length g.edges)) g kind [] (id ∷ [])
