-- ===== src/Correlate/Graph.antt =====
-- The graph of crates/argus-correlate/src/graph.rs with its traversals, over the kinds of
-- crates/argus-domain/src/graph.rs. A resource is its id. A stack is a list with its top first.
pub mod Reach
pub mod Loop
pub mod Correct
pub mod Owner
use Prim.Native.Nat.{Ordering}
use Prim.Native.String.{compare}
use mathlib.Core.List.{reverse}
use argus_ai.Prelude.{
  ℕ, zero, suc, Bool, true, false, not, ◌&&◌, ◌||◌, Option, none, some, List, [], ◌∷◌, ◌++◌, String,
  eqb, string_eq, length, if◌then◌else◌,
}
use argus_ai.Prelude.Assoc

pub data NodeKind : Type 0 where
  environment host kernel process cgroup namespace device filesystem network service : NodeKind
  container workload endpoint dependency application k8s_cluster k8s_node k8s_namespace : NodeKind
  k8s_deployment k8s_replica_set k8s_pod cloud_resource observation situation incident : NodeKind
  evidence plan action execution agent plugin : NodeKind

pub data RelationshipKind : Type 0 where
  belongs_to runs_on depends_on provides calls contains owns managed_by exposes : RelationshipKind
  connected_to caused_by affected_by deployed_by derived_from : RelationshipKind

unfoldable pub is_ownership : RelationshipKind → Bool
is_ownership runs_on = true
is_ownership belongs_to = true
is_ownership managed_by = true
is_ownership deployed_by = true
is_ownership _ = false

unfoldable pub is_dependency : RelationshipKind → Bool
is_dependency depends_on = true
is_dependency _ = false

pub record Edge : Type 0 where
  pub from : String
  pub to : String
  pub kind : RelationshipKind

pub record Graph : Type 0 where
  pub nodes : List (String × NodeKind)
  pub edges : List Edge

abbrev pub new : Graph
new = record { nodes = []; edges = [] }

unfoldable pub add_node : Graph → String → NodeKind → Graph
add_node g id kind = record g { nodes = Assoc.insert id kind g.nodes }

unfoldable pub add_edge : Graph → String → String → RelationshipKind → Graph
add_edge g from to kind = record g {
  edges = g.edges ++ record { from = from; to = to; kind = kind } ∷ [];
}

unfoldable pub kind_of : Graph → String → Option NodeKind
kind_of g id = Assoc.get id g.nodes

-- Which edges a traversal follows, and from which end to which.
pub record Direction : Type 0 where
  pub follows : RelationshipKind → Bool
  pub source : Edge → String
  pub target : Edge → String

abbrev pub to_owners : Direction
to_owners = record { follows = is_ownership; source = λ e. e.from; target = λ e. e.to }

abbrev pub to_dependencies : Direction
to_dependencies = record { follows = is_dependency; source = λ e. e.from; target = λ e. e.to }

abbrev pub to_dependents : Direction
to_dependents = record { follows = is_dependency; source = λ e. e.to; target = λ e. e.from }

abbrev pub listed : List String → String → Bool
listed [] x = false
listed (y ∷ ys) x = eqb y x || listed ys x

module _ (d : Direction) where
  abbrev pub leaves : String → Edge → Bool
  leaves current e = eqb (d.source e) current && d.follows e.kind

  -- What the loop over the edges pushes while a resource is visited, in order.
  unfoldable pub pushed : List Edge → String → List String → List String
  pushed [] current visited = []
  pushed (e ∷ es) current visited =
      let rest = pushed es current visited in
      if leaves current e && not (listed visited (d.target e)) then d.target e ∷ rest else rest

  -- One resource off the stack: the visited set after it, and what it pushes.
  unfoldable pub visit : List Edge → String → List String → List String × List String
  unfolding pushed
  visit edges current visited =
      if listed visited current
      then (visited, [])
      else (current ∷ visited, pushed edges current (current ∷ visited))

  -- The loop over the stack, in so many rounds; none where they run out.
  unfoldable pub traverse :
      ℕ → List Edge → List String → List String → List String → Option (List String)
  unfolding visit
  traverse fuel edges visited [] result = some result
  traverse zero edges visited (current ∷ stack) result = none
  traverse (suc fuel) edges visited (current ∷ stack) result =
      let (visited', news) = visit edges current visited in
      traverse fuel edges visited' (reverse news ++ stack) (result ++ news)

abbrev pub is_after : Ordering → Bool
is_after Ordering.gt = true
is_after _ = false

-- `sort_by` on the texts, which is stable.
unfoldable pub sort_in : String → List String → List String
sort_in x [] = x ∷ []
sort_in x (y ∷ ys) = if is_after (compare x y) then y ∷ sort_in x ys else x ∷ y ∷ ys

unfoldable pub sort : List String → List String
unfolding sort_in
sort [] = []
sort (x ∷ xs) = sort_in x (sort xs)

unfoldable pub sorted : Option (List String) → Option (List String)
unfolding sort
sorted none = none
sorted (some result) = some (sort result)

-- A round for the start, and one for each edge, which can push one resource.
unfoldable pub search : Direction → Graph → String → Option (List String)
unfolding traverse sorted
search d g id = sorted (traverse d (suc (length g.edges)) g.edges [] (id ∷ []) [])

unfoldable pub owners : Graph → String → Option (List String)
owners g id = search to_owners g id

unfoldable pub dependents : Graph → String → Option (List String)
dependents g id = search to_dependents g id

unfoldable pub dependencies : Graph → String → Option (List String)
dependencies g id = search to_dependencies g id
