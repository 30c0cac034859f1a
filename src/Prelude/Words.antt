-- ===== src/Prelude/Words.antt =====
-- Unsigned machine words: a value is a number, each write keeps its wrap-around or its saturation.
use Prim.Native.Nat.{ℕ, ◌+◌, ◌-◌, ◌*◌, ◌%◌, min}

abbrev pub u32_max : ℕ
u32_max = 4294967295

abbrev pub u64_max : ℕ
u64_max = 18446744073709551615

abbrev pub u64_mod : ℕ
u64_mod = 18446744073709551616

-- `a + 1` on a `u32`, which wraps in a release build.
abbrev pub u32 : ℕ → ℕ
u32 n = n % 4294967296

abbrev pub u32_saturating_add : ℕ → ℕ → ℕ
u32_saturating_add a b = min (a + b) u32_max

abbrev pub u64_saturating_add : ℕ → ℕ → ℕ
u64_saturating_add a b = min (a + b) u64_max

-- `saturating_sub` is the subtraction of the natural numbers.
abbrev pub saturating_sub : ℕ → ℕ → ℕ
saturating_sub a b = a - b

abbrev pub wrapping_mul64 : ℕ → ℕ → ℕ
wrapping_mul64 a b = (a * b) % u64_mod
