-- ===== src/Cloud/ReportQueue.antt =====
-- The bounded report queue of crates/argus-cloud/src/buffer.rs: oldest first, oldest discarded.
pub mod Bounded
pub mod Delivery
pub mod Account
pub mod Refined
use mathlib.Core.List.{reverse}
use argus_ai.Prelude.{
  ℕ, zero, suc, ◌+◌, ◌-◌, Bool, true, false, Option, none, some, List, [], ◌∷◌, ◌++◌, map, length,
  take, drop, min, max, leb, u64_saturating_add, if◌then◌else◌,
}
use argus_ai.Prelude.Int.{ℤ}
use argus_ai.Cloud.Report.{ReportKind, BufferedReport, entry, attempted, push_fronts}

pub record ReportQueue (V : Type 0) : Type 0 where
  pub capacity : ℕ
  pub entries : List (BufferedReport V)
  pub dropped_total : ℕ
  pub last_drain_at : Option ℤ

module _ {V : Type 0} where
  unfoldable pub new : ℕ → ReportQueue V
  new capacity = record {
    capacity = max capacity 1;
    entries = [];
    dropped_total = 0;
    last_drain_at = none;
  }

  -- `pop_front` with its count of what was discarded.
  pop_counted : ReportQueue V → List (BufferedReport V) → ReportQueue V × Option (BufferedReport V)
  pop_counted q [] = (q, none)
  pop_counted q (e ∷ es) =
      (record q { entries = es; dropped_total = u64_saturating_add q.dropped_total 1 }, some e)

  unfoldable pub discard_front : ReportQueue V → ReportQueue V × Option (BufferedReport V)
  unfolding pop_counted
  discard_front q = pop_counted q q.entries

  unfoldable pub enqueue :
      ReportQueue V → ℕ → ReportKind → V → ℤ → ReportQueue V × Option (BufferedReport V)
  unfolding discard_front
  enqueue q fresh kind payload at =
      let (q', discarded) =
        if leb q.capacity (length q.entries) then discard_front q else (q, none) in
      (record q' { entries = q'.entries ++ entry fresh kind payload at ∷ [] }, discarded)

  stamp : List (BufferedReport V) → ℤ → Option ℤ → Option ℤ
  stamp [] at last = last
  stamp (e ∷ es) at last = some at

  unfoldable pub drain : ReportQueue V → ℕ → ℤ → ReportQueue V × List (BufferedReport V)
  unfolding attempted stamp
  drain q limit at =
      let count = min limit (length q.entries) in
      let taken = map attempted (take count q.entries) in
      (
        record q { entries = drop count q.entries; last_drain_at = stamp taken at q.last_drain_at },
        taken,
      )

  -- The `while` loop of `requeue_front`, on the number of entries as fuel: each round pops one.
  unfoldable pub trim : ℕ → ReportQueue V → ReportQueue V
  unfolding discard_front
  trim zero q = q
  trim (suc fuel) q =
      let rest = trim fuel (discard_front q).0 in
      if leb (suc q.capacity) (length q.entries) then rest else q

  unfoldable pub requeue_front : ReportQueue V → List (BufferedReport V) → ReportQueue V
  unfolding push_fronts
  requeue_front q batch =
      let entries = push_fronts (reverse batch) q.entries in
      trim (length entries) (record q { entries = entries })

  unfoldable pub stats :
      ReportQueue V
      → record { capacity : ℕ; count : ℕ; dropped_total : ℕ; last_drain_at : Option ℤ }
  stats q = record {
    capacity = q.capacity;
    count = length q.entries;
    dropped_total = q.dropped_total;
    last_drain_at = q.last_drain_at;
  }
