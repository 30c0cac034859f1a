-- ===== src/Tests/Graph.antt =====
-- A graph of crates/argus-correlate with a cycle and with two ways to one resource.
use argus_ai.Prelude.{◌≡◌, refl, some, [], ◌∷◌}
use argus_ai.Prelude.Assoc
use argus_ai.Correlate.Graph
use argus_ai.Correlate.Graph.{
  Graph, depends_on, runs_on, belongs_to, managed_by, service, process, container, k8s_pod,
  application, add_node, add_edge, to_owners, to_dependents, to_dependencies, owners, dependents,
  dependencies, search, sorted, sort, sort_in, traverse, visit, pushed,
}
use argus_ai.Correlate.Graph.Owner.{nearest_owner_of_kind, owner_loop, scan, after_scan, is_of_kind}
use argus_ai.Correlate.Graph.Correct.{Finds, traversals_find}

-- The shop and the cart depend on the database, the shop on the cart, and the database on the shop.
abbrev shop : Graph
shop = record {
  nodes = ("db", service) ∷ ("cart", service) ∷ ("shop", service) ∷ [];
  edges =
      record { from = "shop"; to = "db"; kind = depends_on }
      ∷ record { from = "cart"; to = "db"; kind = depends_on }
      ∷ record { from = "shop"; to = "cart"; kind = depends_on }
      ∷ record { from = "db"; to = "shop"; kind = depends_on }
      ∷ [];
}

-- A resource that two others lead to before it is visited is listed twice.
shop_twice : dependents shop "db" ≡ some ("cart" ∷ "shop" ∷ "shop" ∷ [])
unfolding dependents search sorted sort sort_in traverse visit pushed Graph.is_dependency
shop_twice = refl

traversals_find_example :
    Finds to_owners shop "db" (owners shop "db")
    × Finds to_dependents shop "db" (dependents shop "db")
    × Finds to_dependencies shop "db" (dependencies shop "db")
traversals_find_example = traversals_find shop "db"

-- A process in a container of a pod, which an application owns.
abbrev fleet : Graph
fleet = record {
  nodes =
      ("process", process)
      ∷ ("container", container)
      ∷ ("pod", k8s_pod)
      ∷ ("app", application)
      ∷ [];
  edges =
      record { from = "process"; to = "container"; kind = runs_on }
      ∷ record { from = "container"; to = "pod"; kind = belongs_to }
      ∷ record { from = "pod"; to = "app"; kind = managed_by }
      ∷ [];
}

process_owned : nearest_owner_of_kind fleet "process" application ≡ some (some "app")
unfolding nearest_owner_of_kind owner_loop scan after_scan is_of_kind Graph.kind_of
    Graph.is_ownership Assoc.get
process_owned = refl
