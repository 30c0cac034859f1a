-- ===== src/Correlate/Graph/Reach.antt =====
-- What a traversal of crates/argus-correlate/src/graph.rs looks for, and what one round of it pushes.
use mathlib.Core.List.{Memᴰ, reverse, reverse_aux}
use argus_ai.Prelude.{
  ℕ, ◌+◌, ◌≤◌, ◌≡◌, refl, ◌∙◌, sym, ap, subst, inl, inr, Bool, true, false, not, ◌&&◌, ◌||◌, List,
  [], ◌∷◌, ◌++◌, String, eqb, string_eq, eqb_iff, length, to_ℕ, Bool-cases, if◌then◌else◌, arith,
}
use argus_ai.Correlate.Graph.{Edge, Direction, listed, leaves, pushed, sort_in, sort}

-- The resources that a traversal in a direction can come to from one resource.
pub data Reach (d : Direction) (edges : List Edge) (id : String) : String → Type 0 where
  here : Reach d edges id id
  step :
      {u : String} {e : Edge}
      → Reach d edges id u
      → Memᴰ e edges
      → leaves d u e ≡ true
      → Reach d edges id (d.target e)

pub listed-append :
    (xs ys : List String) (x : String) → listed (xs ++ ys) x ≡ (listed xs x || listed ys x)
listed-append [] ys x = refl
listed-append (y ∷ xs) ys x = ground (arith, listed-append xs ys x)

listed-reverse_aux :
    (xs ys : List String) (x : String) → listed (reverse_aux xs ys) x ≡ (listed xs x || listed ys x)
listed-reverse_aux [] ys x = refl
listed-reverse_aux (y ∷ xs) ys x = ground (arith, listed-reverse_aux xs (y ∷ ys) x)

pub listed-reverse : (xs : List String) (x : String) → listed (reverse xs) x ≡ listed xs x
listed-reverse xs x = ground (arith, listed-reverse_aux xs [] x)

length-reverse_aux : (xs ys : List String) → length (reverse_aux xs ys) ≡ length xs + length ys
length-reverse_aux [] ys = omega arith
length-reverse_aux (x ∷ xs) ys = omega (arith, length-reverse_aux xs (x ∷ ys))

pub length-reverse : (xs : List String) → length (reverse xs) ≡ length xs
length-reverse xs = omega (arith, length-reverse_aux xs [])

listed-sort_in :
    (x : String) (ys : List String) (z : String)
    → listed (sort_in x ys) z ≡ (eqb x z || listed ys z)
unfolding sort_in
listed-sort_in x [] z = refl
listed-sort_in x (y ∷ ys) z = ground (arith, listed-sort_in x ys z)

pub listed-sort : (xs : List String) (z : String) → listed (sort xs) z ≡ listed xs z
unfolding sort
listed-sort [] z = refl
listed-sort (x ∷ xs) z = ground (arith, listed-sort_in x (sort xs) z, listed-sort xs z)

module _ (d : Direction) where
  -- What a visit pushes is the target of an edge that leaves the resource, and was not visited.
  pub pushed_from :
      (es : List Edge) (c : String) (visited : List String) (y : String)
      → listed (pushed d es c visited) y ≡ true
      → (e : Edge) × Memᴰ e es
        × (leaves d c e ≡ true)
        × (listed visited y ≡ false)
        × (d.target e ≡ y)
  unfolding pushed
  pushed_from [] c visited y h = absurd (ground arith)
  pushed_from (e ∷ es) c visited y h =
      split (leaves d c e && not (listed visited (d.target e))) refl h
        (λ k. let (f, m, l, v, q) = pushed_from es c visited y k in (f, Memᴰ.tail m, l, v, q))
    where
      Found : Type 0
      Found =
          (f : Edge) × Memᴰ f (e ∷ es)
          × (leaves d c f ≡ true)
          × (listed visited y ≡ false)
          × (d.target f ≡ y)

      split :
          (b : Bool)
          → (leaves d c e && not (listed visited (d.target e))) ≡ b
          → listed (if b then d.target e ∷ pushed d es c visited else pushed d es c visited) y
            ≡ true
          → (listed (pushed d es c visited) y ≡ true → Found)
          → Found
      split false g k later = later k
      split true g k later = elim (Bool-cases (eqb (d.target e) y)) [
        | inl q ↦
            let same : d.target e ≡ y = (eqb_iff (d.target e) y).0 q in
            let fresh : listed visited (d.target e) ≡ false = ground arith in
            (e, Memᴰ.head refl, ground arith, sym (ap (listed visited) same) ∙ fresh, same)
        | inr q ↦ later (ground arith)
      ]

  -- Every edge that leaves the resource leads to a visited one or to one that is pushed.
  pub pushed_all :
      (es : List Edge) (c : String) (visited : List String) (e : Edge)
      → Memᴰ e es
      → leaves d c e ≡ true
      → (listed visited (d.target e) || listed (pushed d es c visited) (d.target e)) ≡ true
  unfolding pushed
  pushed_all [] c visited e m h = elim m [ ]
  pushed_all (f ∷ es) c visited e (Memᴰ.head q) h =
      subst
        (λ g.
          (listed visited (d.target g) || listed (pushed d (f ∷ es) c visited) (d.target g)) ≡ true)
        (sym q) (here_pushed (subst (λ g. leaves d c g ≡ true) q h))
    where
      here_pushed :
          leaves d c f ≡ true
          → (listed visited (d.target f) || listed (pushed d (f ∷ es) c visited) (d.target f))
            ≡ true
      here_pushed l = ground (arith, eqb_iff (d.target f) (d.target f))
  pushed_all (f ∷ es) c visited e (Memᴰ.tail m) h = ground (arith, pushed_all es c visited e m h)

  -- The edges that a visit of their source may still follow.
  unfoldable pub unspent : List Edge → List String → ℕ
  unspent [] visited = 0
  unspent (e ∷ es) visited =
      to_ℕ (d.follows e.kind && not (listed visited (d.source e))) + unspent es visited

  pub unspent-pushed :
      (es : List Edge) (c : String) (visited seen : List String)
      → listed visited c ≡ false
      → length (pushed d es c seen) + unspent es (c ∷ visited) ≤ unspent es visited
  unfolding unspent pushed
  unspent-pushed [] c visited seen h = omega arith
  unspent-pushed (e ∷ es) c visited seen h = elim (Bool-cases (eqb (d.source e) c)) [
    | inl q ↦
        let same : d.source e ≡ c = (eqb_iff (d.source e) c).0 q in
        let fresh : listed visited (d.source e) ≡ false = ap (listed visited) same ∙ h in
        ground (arith, unspent-pushed es c visited seen h, eqb_iff c (d.source e))
    | inr q ↦ ground (arith, unspent-pushed es c visited seen h)
  ]

  pub unspent_le : (es : List Edge) (visited : List String) → unspent es visited ≤ length es
  unfolding unspent
  unspent_le [] visited = omega arith
  unspent_le (e ∷ es) visited = ground (arith, unspent_le es visited)
