-- ===== src/State/Rows.antt =====
-- The operations on a vector of rows that crates/argus-state/src/memory.rs is made of.
pub mod Keyed
use mathlib.Core.List.{Perm}
use mathlib.Core.List.Perm
use argus_ai.Prelude.{
  ℕ, zero, suc, take, if_elim, All-map, ◌≡◌, Bool, true, false, not, ◌||◌, Bool-cases, inl, inr,
  Option, none, some, List, [], ◌∷◌, ◌++◌, Eq, eqb, All, arith, if◌then◌else◌,
}
use argus_ai.Prelude.Int.{ℤ, ltb_ℤ, ◌≤ℤ◌}

ltb_ℤ→≤ : (a b : ℤ) → ltb_ℤ a b ≡ true → a ≤ℤ b
ltb_ℤ→≤ a b h = ground arith

not-ltb_ℤ→≤ : (a b : ℤ) → ltb_ℤ a b ≡ false → b ≤ℤ a
not-ltb_ℤ→≤ a b h = ground arith

module _ {ℓ} {A : Type ℓ} where
  -- `Vec::retain`, and `iter().filter(…)`
  abbrev pub retain : (A → Bool) → List A → List A
  retain p [] = []
  retain p (x ∷ xs) = let rest = retain p xs in if p x then x ∷ rest else rest

  abbrev pub any : (A → Bool) → List A → Bool
  any p [] = false
  any p (x ∷ xs) = p x || any p xs

  abbrev pub find : (A → Bool) → List A → Option A
  find p [] = none
  find p (x ∷ xs) = let rest = find p xs in if p x then some x else rest

  -- `sort_by_key` on the reversed instant, which is stable.
  abbrev pub newest_in : (A → ℤ) → A → List A → List A
  newest_in at x [] = x ∷ []
  newest_in at x (y ∷ ys) =
      let rest = newest_in at x ys in if ltb_ℤ (at x) (at y) then y ∷ rest else x ∷ y ∷ ys

  abbrev pub newest_first : (A → ℤ) → List A → List A
  newest_first at [] = []
  newest_first at (x ∷ xs) = newest_in at x (newest_first at xs)

  pub All-retain {κ} :
      (P : A → Type κ) (p : A → Bool) (xs : List A) → All P xs → All P (retain p xs)
  All-retain P p [] h = tt
  All-retain P p (x ∷ xs) (h, hs) = elim (Bool-cases (p x)) [
    | inl q ↦ ground (arith, q, h, All-retain P p xs hs)
    | inr q ↦ ground (arith, q, All-retain P p xs hs)
  ]

  pub retain-Satisfies : (p : A → Bool) (xs : List A) → All (λ x. p x ≡ true) (retain p xs)
  retain-Satisfies p [] = tt
  retain-Satisfies p (x ∷ xs) = elim (Bool-cases (p x)) [
    | inl q ↦ ground (arith, q, retain-Satisfies p xs)
    | inr q ↦ ground (arith, q, retain-Satisfies p xs)
  ]

  pub take-All {κ} : (P : A → Type κ) (n : ℕ) (xs : List A) → All P xs → All P (take n xs)
  take-All P zero xs h = tt
  take-All P (suc n) [] h = tt
  take-All P (suc n) (x ∷ xs) (h, hs) = (h, take-All P n xs hs)

  -- No row is older than a later one.
  abbrev pub IsNewestFirst : (A → ℤ) → List A → Type 0
  IsNewestFirst at [] = Unit
  IsNewestFirst at (x ∷ xs) = All (λ y. at y ≤ℤ at x) xs × IsNewestFirst at xs

  newest_in-Perm : (at : A → ℤ) (x : A) (xs : List A) → Perm (newest_in at x xs) (x ∷ xs)
  newest_in-Perm at x [] = Perm.refl (x ∷ [])
  newest_in-Perm at x (y ∷ ys) =
      if_elim (λ l. Perm l (x ∷ y ∷ ys)) (ltb_ℤ (at x) (at y))
        (λ _. Perm.trans (Perm.cons y (newest_in-Perm at x ys)) (Perm.swap x y ys))
        (λ _. Perm.refl (x ∷ y ∷ ys))

  pub newest_first-Perm : (at : A → ℤ) (xs : List A) → Perm (newest_first at xs) xs
  newest_first-Perm at [] = Perm.refl []
  newest_first-Perm at (x ∷ xs) =
      Perm.trans (newest_in-Perm at x (newest_first at xs)) (Perm.cons x (newest_first-Perm at xs))

  newest_in-All :
      (P : A → Type 0) (at : A → ℤ) (x : A) (xs : List A)
      → P x
      → All P xs
      → All P (newest_in at x xs)
  newest_in-All P at x [] p h = (p, tt)
  newest_in-All P at x (y ∷ ys) p (q, h) =
      if_elim (All P) (ltb_ℤ (at x) (at y)) (λ _. (q, newest_in-All P at x ys p h))
        (λ _. (p, (q, h)))

  older_than :
      (at : A → ℤ) (x y : A) (ys : List A)
      → at y ≤ℤ at x
      → All (λ z. at z ≤ℤ at y) ys
      → All (λ z. at z ≤ℤ at x) ys
  older_than at x y ys h = All-map _ _ ys λ z k. omega (arith, h, k)

  newest_in-IsNewestFirst :
      (at : A → ℤ) (x : A) (xs : List A)
      → IsNewestFirst at xs
      → IsNewestFirst at (newest_in at x xs)
  newest_in-IsNewestFirst at x [] h = (tt, tt)
  newest_in-IsNewestFirst at x (y ∷ ys) (h, hs) =
      if_elim (IsNewestFirst at) (ltb_ℤ (at x) (at y))
        (λ q.
          (newest_in-All _ at x ys (ltb_ℤ→≤ (at x) (at y) q) h, newest_in-IsNewestFirst at x ys hs))
        (λ q. let k = not-ltb_ℤ→≤ (at x) (at y) q in ((k, older_than at x y ys k h), (h, hs)))

  pub newest_first-IsNewestFirst :
      (at : A → ℤ) (xs : List A) → IsNewestFirst at (newest_first at xs)
  newest_first-IsNewestFirst at [] = tt
  newest_first-IsNewestFirst at (x ∷ xs) =
      newest_in-IsNewestFirst at x (newest_first at xs) (newest_first-IsNewestFirst at xs)

  pub take-IsNewestFirst :
      (at : A → ℤ) (n : ℕ) (xs : List A) → IsNewestFirst at xs → IsNewestFirst at (take n xs)
  take-IsNewestFirst at zero xs h = tt
  take-IsNewestFirst at (suc n) [] h = tt
  take-IsNewestFirst at (suc n) (x ∷ xs) (h, hs) =
      (take-All _ n xs h, take-IsNewestFirst at n xs hs)

-- Rows under a key.
module _ {ℓ κ} {A : Type ℓ} {K : Type κ} ⦃e : Eq K⦄ (key : A → K) where
  -- Appends a row unless one with its key is there: the first write stays.
  abbrev pub push_new : A → List A → List A
  push_new x xs = if any (λ y. eqb (key y) (key x)) xs then xs else xs ++ x ∷ []

  -- Takes the rows with the key away and appends the row: the last write stays.
  abbrev pub replace : A → List A → List A
  replace x xs = retain (λ y. not (eqb (key y) (key x))) xs ++ x ∷ []

  abbrev pub with_key : K → List A → Option A
  with_key k xs = find (λ y. eqb (key y) k) xs

  -- No two rows have the same key.
  abbrev pub Distinct : List A → Type 0
  Distinct [] = Unit
  Distinct (x ∷ xs) = All (λ y. eqb (key y) (key x) ≡ false) xs × Distinct xs
