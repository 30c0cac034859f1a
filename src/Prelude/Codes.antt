-- ===== src/Prelude/Codes.antt =====
-- Texts as lists of code points, for the code that takes a text apart.
use Prim.Native.Char.{code}
use Prim.Native.String.append
use Prim.Native.String.{String, ◌++◌ as str_append}
use Prim.Native.Nat.{ℕ}
use mathlib.Core.Path.{◌≡◌, ap, ◌∙◌}
use mathlib.Core.Logic.{◌↔◌}
use mathlib.Core.Bool.{Bool, true, false, ◌&&◌}
use mathlib.Core.List.{List, [], ◌∷◌, ◌++◌}
use native.Mathlib.Omega.{arith}
use argus_ai.Prelude.Tests.{◌==◌, ==_iff, if◌then◌else◌}
use argus_ai.Prelude.Lists.{All}
use argus_ai.Prelude.Classes.{Eq}

abbrev pub codes : String → List ℕ
codes String.[] = []
codes (String.◌∷◌ c s) = code c ∷ codes s

-- A code point before the first part of a split.
abbrev pub onto_first : ℕ → List (List ℕ) → List (List ℕ)
onto_first c [] = (c ∷ []) ∷ []
onto_first c (p ∷ ps) = (c ∷ p) ∷ ps

-- `str::split` on one character: the parts between its occurrences, empty ones included.
unfoldable pub split : ℕ → List ℕ → List (List ℕ)
split sep [] = [] ∷ []
split sep (c ∷ s) = let rest = split sep s in if c == sep then [] ∷ rest else onto_first c rest

abbrev pub same_codes : List ℕ → List ℕ → Bool
same_codes [] [] = true
same_codes (c ∷ s) (d ∷ t) = (c == d) && same_codes s t
same_codes _ _ = false

pub same_codes_iff : (s t : List ℕ) → (same_codes s t ≡ true) ↔ (s ≡ t)
same_codes_iff [] [] = ground arith
same_codes_iff [] (d ∷ t) = ground arith
same_codes_iff (c ∷ s) [] = ground arith
same_codes_iff (c ∷ s) (d ∷ t) = ground (arith, same_codes_iff s t)

instance abbrev pub codes_eq : Eq (List ℕ)
codes_eq = record { beq = same_codes; beq_iff = same_codes_iff }

pub codes-append : (a b : String) → codes (str_append a b) ≡ codes a ++ codes b
codes-append String.[] b = ap codes (append.nil b)
codes-append (String.◌∷◌ c a) b =
    ap codes (append.cons c a b) ∙ ap (λ s. code c ∷ s) (codes-append a b)

-- What stands before the first separator is the first part.
pub split-append :
    (sep : ℕ) (s t : List ℕ)
    → All (λ c. (c == sep) ≡ false) s
    → split sep (s ++ sep ∷ t) ≡ s ∷ split sep t
unfolding split
split-append sep [] t h = ground (arith, ==_iff sep sep)
split-append sep (c ∷ s) t (p, h) = ground (arith, p, split-append sep s t h)
