-- ===== src/State/Rows/Keyed.antt =====
-- Rows under a key, in the vectors of crates/argus-state/src/memory.rs: what a write and a retention
-- leave under every key.
use argus_ai.Prelude.{
  ◌≡◌, refl, sym, ap, ◌∙◌, Bool, true, false, not, Bool-cases, inl, inr, Option, none, some, List,
  [], ◌∷◌, ◌++◌, Eq, eqb, eqb_iff, All, All-append, All-map, if_elim, arith, if◌then◌else◌,
}
use argus_ai.State.Rows.{
  retain, any, find, push_new, replace, with_key, Distinct, All-retain, retain-Satisfies,
}

module _ {ℓ} {A : Type ℓ} where
  -- Of two finds one after the other, the first that finds.
  abbrev pub or_else : Option A → Option A → Option A
  or_else none o = o
  or_else (some a) o = some a

  find-append :
      (p : A → Bool) (xs ys : List A) → find p (xs ++ ys) ≡ or_else (find p xs) (find p ys)
  find-append p [] ys = refl
  find-append p (x ∷ xs) ys = elim (Bool-cases (p x)) [
    | inl q ↦ ground (arith, q)
    | inr q ↦ ground (arith, q, find-append p xs ys)
  ]

  -- The row, if it passes.
  abbrev pub filtered : (A → Bool) → Option A → Option A
  filtered p none = none
  filtered p (some x) = if p x then some x else none

  pub find-none : (p : A → Bool) (xs : List A) → All (λ x. p x ≡ false) xs → find p xs ≡ none
  find-none p [] h = refl
  find-none p (x ∷ xs) (h, hs) = ground (arith, h, find-none p xs hs)

  any-find : (p : A → Bool) (xs : List A) → any p xs ≡ true → (y : A) × (find p xs ≡ some y)
  any-find p [] h = absurd (ground arith)
  any-find p (x ∷ xs) h = elim (Bool-cases (p x)) [
    | inl q ↦ (x, ground (arith, q))
    | inr q ↦ let (y, e) = any-find p xs (ground (arith, q)) in (y, ground (arith, q, e))
  ]

  find-retain-not : (p : A → Bool) (xs : List A) → find p (retain (λ x. not (p x)) xs) ≡ none
  find-retain-not p [] = refl
  find-retain-not p (x ∷ xs) = elim (Bool-cases (p x)) [
    | inl q ↦ ground (arith, q, find-retain-not p xs)
    | inr q ↦ ground (arith, q, find-retain-not p xs)
  ]

  -- A retention that keeps every row that matches does not change what is found.
  find-retain_all :
      (q p : A → Bool) (xs : List A)
      → ((x : A) → q x ≡ true → p x ≡ true)
      → find q (retain p xs) ≡ find q xs
  find-retain_all q p [] h = refl
  find-retain_all q p (x ∷ xs) h = elim (Bool-cases (q x)) [
    | inl e ↦ let k = h x e in ground (arith, e, k)
    | inr e ↦ elim (Bool-cases (p x)) [
      | inl f ↦ ground (arith, e, f, find-retain_all q p xs h)
      | inr f ↦ ground (arith, e, f, find-retain_all q p xs h)
    ]
  ]

  any-All : (p : A → Bool) (xs : List A) → any p xs ≡ false → All (λ x. p x ≡ false) xs
  any-All p [] h = tt
  any-All p (x ∷ xs) h = (ground arith, any-All p xs (ground arith))

module _ {κ} {K : Type κ} ⦃e : Eq K⦄ where
  pub eqb_sym : (a b : K) → eqb a b ≡ false → eqb b a ≡ false
  eqb_sym a b h = elim (Bool-cases (eqb b a)) [
    | inl q ↦
        let clash : true ≡ false = sym ((eqb_iff a b).1 (sym ((eqb_iff b a).0 q))) ∙ h in
        absurd (ground arith)
    | inr q ↦ q
  ]

  eqb_refl : (a : K) → eqb a a ≡ true
  eqb_refl a = (eqb_iff a a).1 refl

module _ {ℓ κ} {A : Type ℓ} {K : Type κ} ⦃e : Eq K⦄ (key : A → K) where
  Distinct-snoc :
      (x : A) (xs : List A)
      → All (λ y. eqb (key y) (key x) ≡ false) xs
      → Distinct key xs
      → Distinct key (xs ++ x ∷ [])
  Distinct-snoc x [] h d = (tt, tt)
  Distinct-snoc x (y ∷ ys) (h, hs) (d, ds) =
      (All-append _ ys (x ∷ []) d (eqb_sym (key y) (key x) h, tt), Distinct-snoc x ys hs ds)

  pub Distinct-retain : (p : A → Bool) (xs : List A) → Distinct key xs → Distinct key (retain p xs)
  Distinct-retain p [] d = tt
  Distinct-retain p (x ∷ xs) (d, ds) =
      if_elim (Distinct key) (p x) (λ _. (All-retain _ p xs d, Distinct-retain p xs ds))
        (λ _. Distinct-retain p xs ds)

  pub Distinct-push_new : (x : A) (xs : List A) → Distinct key xs → Distinct key (push_new key x xs)
  Distinct-push_new x xs d =
      if_elim (Distinct key) (any (λ y. eqb (key y) (key x)) xs) (λ _. d)
        (λ q. Distinct-snoc x xs (any-All _ xs q) d)

  pub Distinct-replace : (x : A) (xs : List A) → Distinct key xs → Distinct key (replace key x xs)
  Distinct-replace x xs d =
      Distinct-snoc x (retain (λ y. not (eqb (key y) (key x))) xs)
        (All-map _ _ (retain (λ y. not (eqb (key y) (key x))) xs) (λ y h. ground arith)
          (retain-Satisfies (λ y. not (eqb (key y) (key x))) xs))
        (Distinct-retain _ xs d)

  -- The first write under a key stays, whatever is written later.
  pub with_key-push_new :
      (k : K) (x : A) (xs : List A)
      → with_key key k (push_new key x xs)
        ≡ or_else (with_key key k xs) (if eqb (key x) k then some x else none)
  with_key-push_new k x xs = elim (Bool-cases (any (λ y. eqb (key y) (key x)) xs)) [
    | inl q ↦
        ap (λ b. with_key key k (if b then xs else xs ++ x ∷ [])) q
        ∙ elim (Bool-cases (eqb (key x) k)) [
          | inl f ↦
              let (y, found) = any-find (λ y. eqb (key y) (key x)) xs q in
              let same = sym (ap (λ j. with_key key j xs) ((eqb_iff (key x) k).0 f)) ∙ found in
              same ∙ sym (ap (λ o. or_else o (if eqb (key x) k then some x else none)) same)
          | inr f ↦ or_else-none (with_key key k xs) (eqb (key x) k) f
        ]
    | inr q ↦
        ap (λ b. with_key key k (if b then xs else xs ++ x ∷ [])) q
        ∙ find-append (λ y. eqb (key y) k) xs (x ∷ [])
  ]
    where
      or_else-none :
          (o : Option A) (b : Bool) → b ≡ false → o ≡ or_else o (if b then some x else none)
      or_else-none none b f = ground arith
      or_else-none (some y) b f = refl

  -- The last write under a key stays, and the rows under other keys with it.
  pub with_key-replace :
      (k : K) (x : A) (xs : List A)
      → with_key key k (replace key x xs) ≡ (if eqb (key x) k then some x else with_key key k xs)
  with_key-replace k x xs =
      find-append (λ y. eqb (key y) k) (retain (λ y. not (eqb (key y) (key x))) xs) (x ∷ [])
      ∙ elim (Bool-cases (eqb (key x) k)) [
        | inl q ↦
            let gone =
              ap (λ j. find (λ y. eqb (key y) j) (retain (λ y. not (eqb (key y) (key x))) xs))
                (sym ((eqb_iff (key x) k).0 q))
              ∙ find-retain-not (λ y. eqb (key y) (key x)) xs in
            ground (arith, gone, q)
        | inr q ↦
            let kept =
              find-retain_all (λ y. eqb (key y) k) (λ y. not (eqb (key y) (key x))) xs
                (λ y h. apart y h q) in
            ap (λ o. or_else o (if eqb (key x) k then some x else none)) kept
            ∙ ap (λ b. or_else (with_key key k xs) (if b then some x else none)) q
            ∙ or_else-none (with_key key k xs)
            ∙ sym (ap (λ b. if b then some x else with_key key k xs) q)
      ]
    where
      apart :
          (y : A) → eqb (key y) k ≡ true → eqb (key x) k ≡ false → not (eqb (key y) (key x)) ≡ true
      apart y h q =
          ap (λ j. not (eqb j (key x))) ((eqb_iff (key y) k).0 h) ∙ ap not (eqb_sym (key x) k q)

      or_else-none : (o : Option A) → or_else o none ≡ o
      or_else-none none = refl
      or_else-none (some y) = refl

  -- A retention filters what is found, since no other row has the key.
  pub with_key-retain :
      (k : K) (p : A → Bool) (xs : List A)
      → Distinct key xs
      → with_key key k (retain p xs) ≡ filtered p (with_key key k xs)
  with_key-retain k p [] d = refl
  with_key-retain k p (x ∷ xs) (d, ds) = elim (Bool-cases (eqb (key x) k)) [
    | inl q ↦ elim (Bool-cases (p x)) [
      | inl f ↦ ground (arith, q, f)
      | inr f ↦
          let others =
            All-map _ (λ y. eqb (key y) k ≡ false) xs
              (λ y h. sym (ap (λ j. eqb (key y) j) ((eqb_iff (key x) k).0 q)) ∙ h) d in
          let gone = find-none (λ y. eqb (key y) k) (retain p xs) (All-retain _ p xs others) in
          ground (arith, q, f, gone)
    ]
    | inr q ↦ elim (Bool-cases (p x)) [
      | inl f ↦ ground (arith, q, f, with_key-retain k p xs ds)
      | inr f ↦ ground (arith, q, f, with_key-retain k p xs ds)
    ]
  ]
