-- ===== src/Prelude/Classes.antt =====
-- Equality as an interface: one test for every type that has an instance.
use Prim.Native.Nat.{ℕ}
use Prim.Native.String.{String}
use mathlib.Core.Path.{◌≡◌}
use mathlib.Core.Logic.{◌↔◌}
use mathlib.Core.Bool.{Bool, true, ◌&&◌}
use native.Mathlib.Omega.{arith}
use text.Mathlib.Text.{◌==◌ as str_eq}
use text.Mathlib.TextEquality.{eq_iff}
use argus_ai.Prelude.Tests.{◌==◌, ==_iff}

pub record Eq {ℓ} (A : Type ℓ) : Type ℓ where
  pub beq : A → A → Bool
  pub beq_iff : (a b : A) → (beq a b ≡ true) ↔ (a ≡ b)

abbrev pub eqb {ℓ} : {A : Type ℓ} ⦃e : Eq A⦄ → A → A → Bool
eqb ⦃e⦄ = e.beq

pub eqb_iff {ℓ} : {A : Type ℓ} ⦃e : Eq A⦄ (a b : A) → (eqb a b ≡ true) ↔ (a ≡ b)
eqb_iff ⦃e⦄ = e.beq_iff

instance abbrev pub nat_eq : Eq ℕ
nat_eq = record { beq = ◌==◌; beq_iff = ==_iff }

instance abbrev pub string_eq : Eq String
string_eq = record { beq = str_eq; beq_iff = eq_iff }

module _ {ℓ κ} {A : Type ℓ} {B : Type κ} ⦃a : Eq A⦄ ⦃b : Eq B⦄ where
  abbrev pub eq_pair : A × B → A × B → Bool
  eq_pair (x, y) (z, w) = eqb x z && eqb y w

  pub eq_pair_iff : (p q : A × B) → (eq_pair p q ≡ true) ↔ (p ≡ q)
  eq_pair_iff (x, y) (z, w) = ground (arith, eqb_iff x z, eqb_iff y w)

  instance abbrev pub pair_eq : Eq (A × B)
  pair_eq = record { beq = eq_pair; beq_iff = eq_pair_iff }
