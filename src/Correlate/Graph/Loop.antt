-- ===== src/Correlate/Graph/Loop.antt =====
-- The loop over the stack in the traversals of crates/argus-correlate/src/graph.rs.
use mathlib.Core.List.{Memᴰ, reverse, append-nil}
use argus_ai.Prelude.{
  ℕ, zero, suc, ◌+◌, ◌≤◌, ◌≡◌, refl, ◌∙◌, sym, ap, subst, inl, inr, Bool, true, false, ◌||◌, Option,
  some, List, [], ◌∷◌, ◌++◌, String, eqb, string_eq, eqb_iff, length, length-append, Bool-cases,
  arith, if◌then◌else◌,
}
use argus_ai.Correlate.Graph.{Edge, Direction, listed, leaves, pushed, visit, traverse}
use argus_ai.Correlate.Graph.Reach.{
  Reach, here, step, listed-append, listed-reverse, length-reverse, pushed_from, pushed_all,
  unspent, unspent-pushed,
}

-- What every round keeps of the visited set, the stack and the result.
pub record Invariant (d : Direction) (edges : List Edge) (id : String)
    (visited stack result : List String) : Type 0 where
  pub found : (y : String) → listed result y ≡ true → Reach d edges id y × (eqb id y ≡ false)
  pub stacked : (y : String) → listed stack y ≡ true → (listed result y || eqb id y) ≡ true
  pub visited_found : (y : String) → listed visited y ≡ true → (listed result y || eqb id y) ≡ true
  pub is_closed :
      (u : String) (e : Edge)
      → Memᴰ e edges
      → leaves d u e ≡ true
      → listed visited u ≡ true
      → (listed visited (d.target e) || listed stack (d.target e)) ≡ true
  pub has_start : (listed visited id || listed stack id) ≡ true
  pub start_first : (y : String) → listed stack y ≡ true → (listed visited id || eqb id y) ≡ true

module _ (d : Direction) (edges : List Edge) (id : String) where
  pub start-Invariant : Invariant d edges id [] (id ∷ []) []
  start-Invariant = record {
    found = λ y h. absurd (ground arith);
    stacked = λ y h. ground arith;
    visited_found = λ y h. absurd (ground arith);
    is_closed = λ u e m l h. absurd (ground arith);
    has_start = ground (arith, eqb_iff id id);
    start_first = λ y h. ground arith;
  }

  reach_top :
      (c : String) (result : List String)
      → ((y : String) → listed result y ≡ true → Reach d edges id y × (eqb id y ≡ false))
      → (listed result c || eqb id c) ≡ true
      → Reach d edges id c
  reach_top c result f h = elim (Bool-cases (eqb id c)) [
    | inl q ↦ subst (Reach d edges id) ((eqb_iff id c).0 q) here
    | inr q ↦ (f c (ground arith)).0
  ]

  -- A round whose resource was visited already.
  skip-Invariant :
      (visited stack result : List String) (c : String)
      → listed visited c ≡ true
      → Invariant d edges id visited (c ∷ stack) result
      → Invariant d edges id visited stack result
  skip-Invariant visited stack result c h i = record {
    found = i.found;
    stacked = λ y k. i.stacked y (ground arith);
    visited_found = i.visited_found;
    is_closed =
        λ u e m l v. let k = i.is_closed u e m l v in ground (arith, eqb_iff c (d.target e));
    has_start = let k = i.has_start in ground (arith, eqb_iff c id);
    start_first = λ y k. i.start_first y (ground arith);
  }

  -- A round that visits a resource.
  visit-Invariant :
      (visited stack result : List String) (c : String)
      → Invariant d edges id visited (c ∷ stack) result
      → let news = pushed d edges c (c ∷ visited) in
        Invariant d edges id (c ∷ visited) (reverse news ++ stack) (result ++ news)
  visit-Invariant visited stack result c i = record {
    found = λ y h. elim (Bool-cases (listed result y)) [
      | inl q ↦ i.found y q
      | inr q ↦
          let (e, m, l, v, t) =
            pushed_from d edges c (c ∷ visited) y (ground (arith, listed-append result news y)) in
          (
            subst (Reach d edges id) t (step (reach_top c result i.found (i.stacked c top)) m l),
            unlike_start y v,
          )
    ];
    stacked = λ y h. ground (arith, listed-append result news y, on_stack y, i.stacked y);
    visited_found =
        λ y h. ground (arith, listed-append result news y, i.visited_found y, i.stacked y);
    is_closed = λ u e m l h. elim (Bool-cases (eqb c u)) [
      | inl q ↦
          let k =
            pushed_all d edges c (c ∷ visited) e m
              (subst (λ x. leaves d x e ≡ true) (sym ((eqb_iff c u).0 q)) l) in
          ground (arith, on_stack (d.target e))
      | inr q ↦ let k = i.is_closed u e m l (ground arith) in ground (arith, on_stack (d.target e))
    ];
    has_start = ground (arith, start_visited);
    start_first = λ y h. ground (arith, start_visited);
  }
    where
      news : List String
      news = pushed d edges c (c ∷ visited)

      top : listed (c ∷ stack) c ≡ true
      top = ground (arith, eqb_iff c c)

      start_visited : listed (c ∷ visited) id ≡ true
      start_visited = let k = i.start_first c top in ground (arith, eqb_iff id c, eqb_iff c id)

      unlike_start : (y : String) → listed (c ∷ visited) y ≡ false → eqb id y ≡ false
      unlike_start y v = elim (Bool-cases (eqb id y)) [
        | inl q ↦ absurd (
            let same = ap (listed (c ∷ visited)) ((eqb_iff id y).0 q) in
            let clash : true ≡ false = sym start_visited ∙ same ∙ v in ground arith)
        | inr q ↦ q
      ]

      on_stack : (y : String) → listed (reverse news ++ stack) y ≡ (listed news y || listed stack y)
      on_stack y =
          listed-append (reverse news) stack y
          ∙ ap (λ b. b || listed stack y) (listed-reverse news y)

  -- What holds of the result of a traversal.
  abbrev pub Answer : List String → Type 0
  Answer result =
      ((y : String) → listed result y ≡ true → Reach d edges id y × (eqb id y ≡ false))
      × ((y : String) → Reach d edges id y → (listed result y || eqb id y) ≡ true)

  closed_visited :
      (visited result : List String)
      → Invariant d edges id visited [] result
      → (y : String) → Reach d edges id y
      → listed visited y ≡ true
  closed_visited visited result i y here = let k = i.has_start in ground arith
  closed_visited visited result i y (step {u} {e} r m l) =
      let k = i.is_closed u e m l (closed_visited visited result i u r) in ground arith

  visit_spends :
      (visited stack : List String) (c : String) (fuel : ℕ)
      → listed visited c ≡ false
      → suc (length stack) + unspent d edges visited ≤ suc fuel
      → length (reverse (pushed d edges c (c ∷ visited)) ++ stack) + unspent d edges (c ∷ visited)
        ≤ fuel
  visit_spends visited stack c fuel v h =
      let news = pushed d edges c (c ∷ visited) in
      omega (
        arith,
        length-append (reverse news) stack,
        length-reverse news,
        unspent-pushed d edges c visited (c ∷ visited) v,
      )

  -- With a round for each resource on the stack and for each edge left to follow, the traversal ends.
  pub traverse_answers :
      (fuel : ℕ) (visited stack result : List String)
      → length stack + unspent d edges visited ≤ fuel
      → Invariant d edges id visited stack result
      → (r : List String) × (traverse d fuel edges visited stack result ≡ some r) × Answer r
  unfolding traverse visit
  traverse_answers fuel visited [] result h i =
      (result, refl, (i.found, λ y r. i.visited_found y (closed_visited visited result i y r)))
  traverse_answers zero visited (c ∷ stack) result h i = absurd (omega arith)
  traverse_answers (suc fuel) visited (c ∷ stack) result h i =
      by_visit (listed visited c) refl
        (λ visited' stack' result' h' i'. traverse_answers fuel visited' stack' result' h' i')
    where
      Later : Type 0
      Later =
          (visited' stack' result' : List String)
          → length stack' + unspent d edges visited' ≤ fuel
          → Invariant d edges id visited' stack' result'
          → (r : List String) × (traverse d fuel edges visited' stack' result' ≡ some r) × Answer r

      after : List String × List String → Option (List String)
      after (visited', news) =
          traverse d fuel edges visited' (reverse news ++ stack) (result ++ news)

      by_visit :
          (b : Bool)
          → listed visited c ≡ b
          → Later
          → (r : List String) × (after
                (if b then (visited, []) else (c ∷ visited, pushed d edges c (c ∷ visited)))
              ≡ some r)
            × Answer r
      by_visit true v later = later visited stack (result ++ []) (omega (arith, h)) (
          subst (Invariant d edges id visited stack) (sym (append-nil result))
            (skip-Invariant visited stack result c v i))
      by_visit false v later =
          later (c ∷ visited) (reverse (pushed d edges c (c ∷ visited)) ++ stack)
            (result ++ pushed d edges c (c ∷ visited)) (visit_spends visited stack c fuel v h)
            (visit-Invariant visited stack result c i)
