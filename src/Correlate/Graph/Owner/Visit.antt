-- ===== src/Correlate/Graph/Owner/Visit.antt =====
-- The edges of one resource, in the search of crates/argus-correlate/src/graph.rs for an owner.
use mathlib.Core.List.{Memᴰ}
use mathlib.Core.List.Memᴰ
use argus_ai.Prelude.{
  ℕ, suc, ◌+◌, ◌≤◌, ◌≡◌, refl, ◌∙◌, sym, ap, subst, Bool, true, false, not, ◌&&◌, ◌||◌, List, [],
  ◌∷◌, String, eqb, string_eq, eqb_iff, length, to_ℕ, Bool-cases, inl, inr, if◌then◌else◌, arith,
}
use argus_ai.Correlate.Graph.{NodeKind, Edge, Graph, to_owners, listed, leaves}
use argus_ai.Correlate.Graph.Reach.{Reach, step}
use argus_ai.Correlate.Graph.Owner.{is_of_kind, Scan, hit, miss, scan}

module _ (g : Graph) (id : String) (kind : NodeKind) where
  abbrev pub Owned : String → Type 0
  Owned y = Reach to_owners g.edges id y

  -- The edges to owners that were not visited.
  unfoldable pub unseen : List Edge → List String → ℕ
  unseen [] visited = 0
  unseen (e ∷ es) visited = to_ℕ (not (listed visited e.to)) + unseen es visited

  pub unseen_le : (es : List Edge) (visited : List String) → unseen es visited ≤ length es
  unfolding unseen
  unseen_le [] visited = omega arith
  unseen_le (e ∷ es) visited = ground (arith, unseen_le es visited)

  unseen_mono :
      (es : List Edge) (t : String) (visited : List String)
      → unseen es (t ∷ visited) ≤ unseen es visited
  unfolding unseen
  unseen_mono [] t visited = omega arith
  unseen_mono (e ∷ es) t visited = ground (arith, unseen_mono es t visited)

  -- A visit takes one edge at least off the unseen ones.
  unseen_visit :
      (es : List Edge) (e : Edge) (visited : List String)
      → Memᴰ e es
      → listed visited e.to ≡ false
      → suc (unseen es (e.to ∷ visited)) ≤ unseen es visited
  unfolding unseen
  unseen_visit [] e visited m h = elim m [ ]
  unseen_visit (f ∷ es) e visited (Memᴰ.head q) h =
      let same : e.to ≡ f.to = ap (λ x. x.to) q in
      let old : listed visited f.to ≡ false = sym (ap (listed visited) same) ∙ h in
      ground (arith, unseen_mono es e.to visited, eqb_iff e.to f.to)
  unseen_visit (f ∷ es) e visited (Memᴰ.tail m) h = ground (arith, unseen_visit es e visited m h)

  -- What holds while the edges of one resource are looked at, and between two (with none spared).
  pub record Inv (spared : String → Bool) (visited frontier : List String) : Type 0 where
    pub owned : (y : String) → (listed frontier y || listed visited y) ≡ true → Owned y
    pub unlike : (y : String) → listed visited y ≡ true → is_of_kind g y kind ≡ false
    pub is_closed :
        (u : String) (e : Edge)
        → Memᴰ e g.edges
        → leaves to_owners u e ≡ true
        → (eqb id u || listed visited u) ≡ true
        → (listed visited e.to || (listed frontier u || spared u)) ≡ true

  -- What a scan of some edges of a resource leaves.
  abbrev pub Scanned : String → List Edge → List String → List String → Scan → Type 0
  Scanned c es visited frontier (hit t) = Owned t × (is_of_kind g t kind ≡ true)
  Scanned c es visited frontier (miss visited' frontier') =
      Inv (λ u. eqb c u) visited' frontier'
      × ((y : String) → listed visited y ≡ true → listed visited' y ≡ true)
      × ((e : Edge) → Memᴰ e es → leaves to_owners c e ≡ true → listed visited' e.to ≡ true)
      × (length frontier' + unseen g.edges visited' ≤ length frontier + unseen g.edges visited)

  push-Inv :
      (c : String) (e : Edge) (visited frontier : List String)
      → Memᴰ e g.edges
      → leaves to_owners c e ≡ true
      → is_of_kind g e.to kind ≡ false
      → Owned c
      → Inv (λ u. eqb c u) visited frontier
      → Inv (λ u. eqb c u) (e.to ∷ visited) (e.to ∷ frontier)
  push-Inv c e visited frontier m l k o i = record {
    owned = λ y h. elim (Bool-cases (eqb e.to y)) [
      | inl q ↦ subst Owned ((eqb_iff e.to y).0 q) (step o m l)
      | inr q ↦ i.owned y (ground arith)
    ];
    unlike = λ y h. elim (Bool-cases (eqb e.to y)) [
      | inl q ↦ sym (ap (λ x. is_of_kind g x kind) ((eqb_iff e.to y).0 q)) ∙ k
      | inr q ↦ i.unlike y (ground arith)
    ];
    is_closed = λ u f n j h. elim (Bool-cases (eqb e.to u)) [
      | inl q ↦ ground arith
      | inr q ↦ let x = i.is_closed u f n j (ground arith) in ground arith
    ];
  }

  -- One edge more in front of those that were looked at.
  widen :
      (c : String) (e : Edge) (es : List Edge) (visited frontier visited' frontier' : List String)
      (s : Scan)
      → ((y : String) → listed visited y ≡ true → listed visited' y ≡ true)
      → (leaves to_owners c e ≡ true → listed visited' e.to ≡ true)
      → length frontier' + unseen g.edges visited' ≤ length frontier + unseen g.edges visited
      → Scanned c es visited' frontier' s
      → Scanned c (e ∷ es) visited frontier s
  widen c e es visited frontier visited' frontier' (hit t) sub l n x = x
  widen c e es visited frontier visited' frontier' (miss v f) sub l n (i, s, a, k) = (
    i,
    λ y h. s y (sub y h),
    λ d m j. elim (Memᴰ.cases_cons m) [
      | inl q ↦ s d.to (
          subst (λ x. listed visited' x.to ≡ true) (sym q)
            (l (subst (λ x. leaves to_owners c x ≡ true) q j)))
      | inr r ↦ a d r j
    ],
    omega (arith, n, k),
  )

  pub scan-Scanned :
      (c : String) (es : List Edge) (visited frontier : List String)
      → ((e : Edge) → Memᴰ e es → Memᴰ e g.edges)
      → Owned c
      → Inv (λ u. eqb c u) visited frontier
      → Scanned c es visited frontier (scan g kind c es visited frontier)
  unfolding scan
  scan-Scanned c [] visited frontier m o i = (i, λ y h. h, λ e n l. elim n [ ], omega arith)
  scan-Scanned c (e ∷ es) visited frontier m o i =
      split (leaves to_owners c e && not (listed visited e.to)) refl (is_of_kind g e.to kind) refl
        (λ v f j. scan-Scanned c es v f (λ d n. m d (Memᴰ.tail n)) o j)
    where
      Later : Type 0
      Later = (v f : List String) → Inv (λ u. eqb c u) v f → Scanned c es v f (scan g kind c es v f)

      split :
          (b : Bool)
          → (leaves to_owners c e && not (listed visited e.to)) ≡ b
          → (k : Bool) → is_of_kind g e.to kind ≡ k
          → Later
          → Scanned c (e ∷ es) visited frontier (
              if b && k
              then hit e.to
              else scan g kind c es
                  (if b then e.to ∷ visited else visited)
                  (if b then e.to ∷ frontier else frontier))
      split true h true k later = (step o (m e (Memᴰ.head refl)) (ground arith), k)
      split true h false k later =
          widen c e es visited frontier (e.to ∷ visited) (e.to ∷ frontier) _ (λ y j. ground arith)
            (λ l. ground (arith, eqb_iff e.to e.to))
            (let n : listed visited e.to ≡ false = ground arith in
              omega (arith, unseen_visit g.edges e visited (m e (Memᴰ.head refl)) n))
            (later (e.to ∷ visited) (e.to ∷ frontier)
              (push-Inv c e visited frontier (m e (Memᴰ.head refl)) (ground arith) k o i))
      split false h k j later =
          widen c e es visited frontier visited frontier _ (λ y x. x) (λ l. ground arith)
            (omega arith) (later visited frontier i)
