-- ===== src/Correlate/Graph/Correct.antt =====
-- The traversals of crates/argus-correlate/src/graph.rs end, and find what is reachable.
use argus_ai.Prelude.{
  suc, ◌≡◌, ◌∙◌, sym, ap, inl, inr, ◌↔◌, ◌≢◌, true, false, Option, some, List, [], ◌∷◌, String, eqb,
  string_eq, eqb_iff, Bool-cases, length, arith,
}
use argus_ai.Correlate.Graph.{
  Graph, Direction, listed, to_owners, to_dependents, to_dependencies, sort, sorted, search, owners,
  dependents, dependencies,
}
use argus_ai.Correlate.Graph.Reach.{Reach, listed-sort, unspent_le}
use argus_ai.Correlate.Graph.Loop.{start-Invariant, traverse_answers}

-- The answer to a search: it is there, and lists exactly what is reachable, less the start itself.
abbrev pub Finds : Direction → Graph → String → Option (List String) → Type 0
Finds d g id o =
    (found : List String) × (o ≡ some found)
    × ((y : String) → (listed found y ≡ true) ↔ (Reach d g.edges id y × (id ≢ y)))

module _ (g : Graph) (id : String) where
  search-Finds : (d : Direction) → Finds d g id (search d g id)
  unfolding search sorted
  search-Finds d =
      let (r, e, (sound, complete)) =
        traverse_answers d g.edges id (suc (length g.edges)) [] (id ∷ []) []
          (omega (arith, unspent_le d g.edges [])) (start-Invariant d g.edges id) in
      (
        sort r,
        ap sorted e,
        λ y. (
          λ h.
              let (reached, other) = sound y (sym (listed-sort r y) ∙ h) in
              (
                reached,
                λ q. let clash : true ≡ false = sym ((eqb_iff id y).1 q) ∙ other in ground arith,
              ),
          λ h. listed-sort r y ∙ elim (Bool-cases (eqb id y)) [
            | inl q ↦ absurd (h.1 ((eqb_iff id y).0 q))
            | inr q ↦ let k = complete y h.0 in ground arith
          ],
        ),
      )

  -- On every graph, cycles and parallel edges included, the three traversals end within one round for
  -- each edge and one for the start. `owners` lists exactly the resources that ownership edges lead
  -- to, `dependents` those that come to the start by dependency edges, and `dependencies` those that
  -- dependency edges lead to, in any number of steps; the start itself is never listed.
  pub traversals_find :
      Finds to_owners g id (owners g id)
      × Finds to_dependents g id (dependents g id)
      × Finds to_dependencies g id (dependencies g id)
  unfolding owners dependents dependencies
  traversals_find =
      (search-Finds to_owners, search-Finds to_dependents, search-Finds to_dependencies)
