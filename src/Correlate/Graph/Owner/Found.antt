-- ===== src/Correlate/Graph/Owner/Found.antt =====
-- The search of crates/argus-correlate/src/graph.rs for an owner of a kind ends, and finds one if any.
use mathlib.Core.List.{Memᴰ}
use argus_ai.Prelude.{
  ℕ, zero, suc, ◌+◌, ◌≤◌, ◌≡◌, refl, sym, subst, ◌≢◌, true, false, ◌||◌, Option, none, some, List,
  [], ◌∷◌, String, eqb, string_eq, eqb_iff, length, Bool-cases, inl, inr, arith,
}
use argus_ai.Correlate.Graph.{NodeKind, Edge, Graph, to_owners, listed, leaves}
use argus_ai.Correlate.Graph.Reach.{here, step}
use argus_ai.Correlate.Graph.Owner.{
  is_of_kind, Scan, hit, miss, scan, after_scan, owner_loop, nearest_owner_of_kind,
}
use argus_ai.Correlate.Graph.Owner.Visit.{unseen, unseen_le, Owned, Inv, Scanned, scan-Scanned}

module _ (g : Graph) (id : String) (kind : NodeKind) where
  -- Of a resource off the stack, all edges but its own are looked after.
  spare :
      (c : String) (visited frontier : List String)
      → Inv g id kind (λ u. false) visited (c ∷ frontier)
      → Inv g id kind (λ u. eqb c u) visited frontier
  spare c visited frontier i = record {
    owned = λ y h. i.owned y (ground arith);
    unlike = i.unlike;
    is_closed = λ u e m l h. let x = i.is_closed u e m l h in ground arith;
  }

  unspare :
      (c : String) (visited frontier : List String)
      → Inv g id kind (λ u. eqb c u) visited frontier
      → ((e : Edge) → Memᴰ e g.edges → leaves to_owners c e ≡ true → listed visited e.to ≡ true)
      → Inv g id kind (λ u. false) visited frontier
  unspare c visited frontier i a = record {
    owned = i.owned;
    unlike = i.unlike;
    is_closed = λ u e m l h. elim (Bool-cases (eqb c u)) [
      | inl q ↦
          let x = a e m (subst (λ v. leaves to_owners v e ≡ true) (sym ((eqb_iff c u).0 q)) l) in
          ground arith
      | inr q ↦ let x = i.is_closed u e m l h in ground arith
    ];
  }

  closed_visited :
      (visited : List String)
      → Inv g id kind (λ u. false) visited []
      → (y : String) → Owned g id kind y
      → (eqb id y || listed visited y) ≡ true
  closed_visited visited i y here = ground (arith, eqb_iff id id)
  closed_visited visited i y (step {u} {e} r m l) =
      let x = i.is_closed u e m l (closed_visited visited i u r) in ground arith

  -- An owner of the kind, or none where no other resource that is reached has the kind.
  abbrev pub Settled : Option String → Type 0
  Settled (some t) = Owned g id kind t × (is_of_kind g t kind ≡ true)
  Settled none = (y : String) → Owned g id kind y → id ≢ y → is_of_kind g y kind ≡ false

  abbrev Ends : Option (Option String) → Type 0
  Ends o = (owner : Option String) × (o ≡ some owner) × Settled owner

  after-Ends :
      (c : String) (visited frontier : List String) (s : Scan)
      (others : List String → List String → Option (Option String))
      → Scanned g id kind c g.edges visited frontier s
      → ((v f : List String)
          → length f + unseen g id kind g.edges v
            ≤ length frontier + unseen g id kind g.edges visited
          → Inv g id kind (λ u. false) v f
          → Ends (others v f))
      → Ends (after_scan s others)
  unfolding after_scan
  after-Ends c visited frontier (hit t) others x k = (some t, refl, x)
  after-Ends c visited frontier (miss v f) others (i, s, a, n) k = k v f n (unspare c v f i a)

  loop-Ends :
      (fuel : ℕ) (visited frontier : List String)
      → length frontier + unseen g id kind g.edges visited ≤ fuel
      → Inv g id kind (λ u. false) visited frontier
      → Ends (owner_loop fuel g kind visited frontier)
  unfolding owner_loop
  loop-Ends fuel visited [] h i = (
    none,
    refl,
    λ y o n. elim (Bool-cases (eqb id y)) [
      | inl q ↦ absurd (n ((eqb_iff id y).0 q))
      | inr q ↦ i.unlike y (let x = closed_visited visited i y o in ground arith)
    ],
  )
  loop-Ends zero visited (c ∷ frontier) h i = absurd (omega arith)
  loop-Ends (suc fuel) visited (c ∷ frontier) h i =
      after-Ends c visited frontier (scan g kind c g.edges visited frontier) _
        (scan-Scanned g id kind c g.edges visited frontier (λ e m. m)
          (i.owned c (ground (arith, eqb_iff c c))) (spare c visited frontier i))
        (λ v f n j. loop-Ends fuel v f (omega (arith, n, h)) j)

  -- The search ends within one round for each edge and one for the start, on every graph. An owner
  -- that it returns is reached by ownership edges and has the kind; where it returns none, no other
  -- resource that ownership edges lead to, in any number of steps, has the kind.
  pub nearest_owner-Settled :
      (owner : Option String) × (nearest_owner_of_kind g id kind ≡ some owner) × Settled owner
  unfolding nearest_owner_of_kind
  nearest_owner-Settled =
      loop-Ends (suc (length g.edges)) [] (id ∷ []) (omega (arith, unseen_le g id kind g.edges []))
        (record {
          owned = λ y h. subst (Owned g id kind) ((eqb_iff id y).0 (ground arith)) here;
          unlike = λ y h. absurd (ground arith);
          is_closed = λ u e m l h. ground arith;
        })
