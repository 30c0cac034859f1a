-- ===== src/Cloud/Backoff.antt =====
-- Exponential backoff with jitter (crates/argus-cloud/src/transport/backoff.rs). A `Duration` is its
-- number of nanoseconds, which saturates at that of `Duration::MAX`.
use Prim.Native.Nat.{bit_xor}
use native.Mathlib.Nat.{pow-le-pow_right, mul-le-mul_left}
use argus_ai.Prelude.{
  ℕ, ◌+◌, ◌*◌, ◌/◌, ◌%◌, ◌^◌, ◌≤◌, ◌<◌, ◌≡◌, Option, none, some, min, max, ltb, Bool-cases, inl,
  inr, ◌==◌, if◌then◌else◌, u32_max, u64_max, u64_mod, u32_saturating_add, wrapping_mul64, arith,
}

abbrev pub duration_max : ℕ
duration_max = 18446744073709551615999999999

abbrev pub nanos_per_milli : ℕ
nanos_per_milli = 1000000

pub record Backoff : Type 0 where
  pub base : ℕ
  pub maximum : ℕ
  pub attempt : ℕ
  pub state : ℕ

unfoldable pub with_seed : ℕ → ℕ → ℕ → Backoff
with_seed base maximum seed = record {
  base = base;
  maximum = max maximum base;
  attempt = 0;
  state = if seed == 0 then 11400714819323198485 else seed;
}

-- `1u32.checked_shl(n).unwrap_or(u32::MAX)`.
abbrev pub shifted_one : ℕ → ℕ
shifted_one n = if ltb n 32 then 2 ^ n else u32_max

unfoldable pub ceiling : Backoff → ℕ
ceiling b = min (min (b.base * shifted_one (min b.attempt 63)) duration_max) b.maximum

-- The three shifts of the generator on a 64-bit word.
unfoldable pub scramble : ℕ → ℕ
scramble x0 =
    let x1 = bit_xor x0 (x0 / 2 ^ 12) in
    let x2 = bit_xor x1 ((x1 * 2 ^ 25) % u64_mod) in bit_xor x2 (x2 / 2 ^ 27)

unfoldable pub next_u64 : Backoff → Backoff × ℕ
next_u64 b =
    let x = scramble b.state in (record b { state = x }, wrapping_mul64 x 2685821657736338717)

abbrev pub ceiling_ms : Backoff → ℕ
ceiling_ms b = min (ceiling b / nanos_per_milli) u64_max

-- `none` is a panic: where the ceiling is the largest `u64`, `ceiling_ms + 1` overflows, which panics
-- where overflow is checked, and else is the divisor 0.
jittered : Backoff → Option (Backoff × ℕ)
jittered b =
    let (b', n) = next_u64 b in
    if ceiling_ms b == 0
    then some (b, 0)
    else if ceiling_ms b == u64_max
    then none
    else some (b', n % (ceiling_ms b + 1))

counted : Option (Backoff × ℕ) → Option (Backoff × ℕ)
counted none = none
counted (some (b, ms)) =
    some (record b { attempt = u32_saturating_add b.attempt 1 }, ms * nanos_per_milli)

unfoldable pub next_delay : Backoff → Option (Backoff × ℕ)
unfolding jittered counted
next_delay b = counted (jittered b)

unfoldable pub reset : Backoff → Backoff
reset b = record b { attempt = 0 }

-- A maximum whose milliseconds are fewer than a `u64` holds at most.
abbrev pub IsInRange : ℕ → Type 0
IsInRange maximum = maximum < u64_max * nanos_per_milli

-- What a delay is: it never exceeds the ceiling of its attempt, and so never the maximum; taking it
-- counts one attempt, as far as a `u32` counts, and keeps the base and the maximum.
abbrev pub IsDelay : Backoff → Option (Backoff × ℕ) → Type 0
IsDelay b none = ⊥
IsDelay b (some (b', delay)) =
    (delay ≤ ceiling b)
    × (delay ≤ b.maximum)
    × (b'.attempt ≡ min (b.attempt + 1) u32_max)
    × (b'.base ≡ b.base)
    × (b'.maximum ≡ b.maximum)

-- Where the maximum is in range, there is a delay.
pub next_delay_lem : (b : Backoff) → IsInRange b.maximum → IsDelay b (next_delay b)
unfolding next_delay next_u64 ceiling
next_delay_lem b h = ground arith

shifted_one_mono : (m n : ℕ) → m ≤ n → shifted_one m ≤ shifted_one n
shifted_one_mono m n h = elim (Bool-cases (ltb m 32)) [
  | inl below ↦ ground (
    arith,
    pow-le-pow_right {n = 2} (omega arith) {i = m} {j = n} h,
    pow-le-pow_right {n = 2} (omega arith) {i = m} {j = 31} (ground arith),
  )
  | inr above ↦ ground arith
]

-- The ceiling of a delay never shrinks as the attempts go on.
pub ceiling_mono :
    (b : Backoff) (n : ℕ) → b.attempt ≤ n → ceiling b ≤ ceiling (record b { attempt = n })
unfolding ceiling
ceiling_mono b n h =
    omega
      (arith, mul-le-mul_left b.base (shifted_one_mono (min b.attempt 63) (min n 63) (omega arith)))
