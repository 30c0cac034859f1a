-- ===== src/Cloud/ReportQueue/Bounded.antt =====
-- The report queue of crates/argus-cloud/src/buffer.rs stays within its capacity and counts what it
-- discards.
use mathlib.Core.List.{append_assoc}
use argus_ai.Prelude.{
  ℕ, zero, suc, ◌+◌, ◌-◌, ◌≤◌, ◌<◌, ◌≡◌, refl, sym, ap, ◌∙◌, Option, none, some, List, [], ◌∷◌,
  ◌++◌, length, length-append, drop, leb, arith, u64_max, u64_saturating_add, Bool-cases, inl, inr,
}
use argus_ai.Prelude.Int.{ℤ}
use argus_ai.Cloud.Report.{ReportKind, BufferedReport, entry, push_fronts-reverse}
use argus_ai.Cloud.ReportQueue.{ReportQueue, new, discard_front, enqueue, trim, requeue_front}

module _ {V : Type 0} where
  abbrev queue : ℕ → List (BufferedReport V) → ℕ → Option ℤ → ReportQueue V
  queue capacity entries dropped last = record {
    capacity = capacity;
    entries = entries;
    dropped_total = dropped;
    last_drain_at = last;
  }

  drop_excess :
      (c : ℕ) (e : BufferedReport V) (es : List (BufferedReport V))
      → c ≤ length es
      → drop (length (e ∷ es) - c) (e ∷ es) ≡ drop (length es - c) es
  drop_excess c e es h =
      ap (λ n. drop n (e ∷ es))
        (let p : suc (length es) - c ≡ suc (length es - c) = omega arith in p)

  -- What the loop leaves, with fuel for every entry: the newest entries within the capacity, and as
  -- many discards counted as there were entries too many.
  trim_lem :
      (fuel c : ℕ) (es : List (BufferedReport V)) (d : ℕ) (last : Option ℤ)
      → length es ≤ fuel
      → d + length es ≤ u64_max
      → trim fuel (queue c es d last) ≡ queue c (drop (length es - c) es) (d + (length es - c)) last
  unfolding trim discard_front
  trim_lem zero c [] d last h k = ground arith
  trim_lem zero c (e ∷ es) d last h k = elim h [ ]
  trim_lem (suc fuel) c [] d last h k = ground arith
  trim_lem (suc fuel) c (e ∷ es) d last h k = elim (Bool-cases (leb (suc c) (length (e ∷ es)))) [
    | inl over ↦ rw over (
        trim_lem fuel c es (u64_saturating_add d 1) last (omega arith) (omega arith)
        ∙ ground (arith, drop_excess c e es))
    | inr fits ↦ rw fits (ground arith)
  ]

  -- A requeued batch stands before the entries, oldest first, and only the newest entries within
  -- the capacity stay; the number of those discarded is added to the count, where the count has
  -- room for all of them in a u64.
  pub requeue_front_lem :
      (q : ReportQueue V) (batch : List (BufferedReport V))
      → q.dropped_total + length (batch ++ q.entries) ≤ u64_max
      → let all = batch ++ q.entries in
        let excess = length all - q.capacity in
        requeue_front q batch
        ≡ record q { entries = drop excess all; dropped_total = q.dropped_total + excess }
  unfolding requeue_front
  requeue_front_lem q batch h = rw (push_fronts-reverse batch q.entries) (
      trim_lem (length (batch ++ q.entries)) q.capacity (batch ++ q.entries) q.dropped_total
        q.last_drain_at (omega arith) h)

  pub record IsBounded (q : ReportQueue V) : Type 0 where
    pub positive : 1 ≤ q.capacity
    pub within : length q.entries ≤ q.capacity

  pub new-IsBounded : (capacity : ℕ) → IsBounded (new capacity)
  unfolding new
  new-IsBounded capacity = record { positive = omega arith; within = omega arith }

  abbrev pub option_list : Option (BufferedReport V) → List (BufferedReport V)
  option_list none = []
  option_list (some e) = e ∷ []

  -- What a discard takes off the front, it returns and counts.
  pub discard_front_lem :
      (q : ReportQueue V)
      → 1 ≤ length q.entries
      → q.dropped_total < u64_max
      → let r = discard_front q in
        (option_list r.1 ++ r.0.entries ≡ q.entries)
        × (r.0.dropped_total ≡ q.dropped_total + 1)
        × (suc (length r.0.entries) ≡ length q.entries)
        × (length (option_list r.1) ≡ 1)
        × (r.0.capacity ≡ q.capacity)
  unfolding discard_front
  discard_front_lem q h k = ground arith

  -- On a queue within its positive capacity whose count of discards is below the u64 maximum, an
  -- enqueue always accepts the report, at the end: what it discards, followed by what stays, is
  -- what the queue held followed by the report, the count of discards rises by what it discards,
  -- and the queue stays within its capacity.
  pub enqueue_lem :
      (q : ReportQueue V) (fresh : ℕ) (kind : ReportKind) (payload : V) (at : ℤ)
      → IsBounded q
      → q.dropped_total < u64_max
      → let (q', discarded) = enqueue q fresh kind payload at in
        (option_list discarded ++ q'.entries ≡ q.entries ++ entry fresh kind payload at ∷ [])
        × (q'.dropped_total ≡ q.dropped_total + length (option_list discarded))
        × IsBounded q'
  unfolding enqueue
  enqueue_lem q fresh kind payload at v h = elim (Bool-cases (leb q.capacity (length q.entries))) [
    | inl full ↦
        let d =
          discard_front_lem q (let x : 1 ≤ length q.entries = ground (arith, v.within) in x) h in
        rw full (
          sym (
                append_assoc (option_list (discard_front q).1) (discard_front q).0.entries
                  (entry fresh kind payload at ∷ []))
              ∙ ap (λ es. es ++ entry fresh kind payload at ∷ []) d.0,
          omega (arith, d),
          record {
            positive = omega (arith, d, v.positive);
            within = omega (
              arith,
              d,
              v.within,
              length-append (discard_front q).0.entries (entry fresh kind payload at ∷ []),
            );
          },
        )
    | inr room ↦ rw room (
      refl,
      omega arith,
      record {
        positive = v.positive;
        within = ground (arith, length-append q.entries (entry fresh kind payload at ∷ []));
      },
    )
  ]
