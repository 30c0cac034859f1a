-- ===== src/Cloud/ReportQueue/Delivery.antt =====
-- Delivery at least once: what the report queue of crates/argus-cloud/src/buffer.rs hands out and
-- takes back, and an account of every report that it was offered.
use mathlib.Core.List.{map-append}
use argus_ai.Prelude.{
  ℕ, ◌+◌, ◌-◌, ◌≤◌, ◌≡◌, refl, ap, ◌∙◌, List, [], ◌∷◌, ◌++◌, map, length, length-append,
  length-take, length-drop, length-map, take, drop, take-append-drop, min, arith, u64_max,
}
use argus_ai.Prelude.Int.{ℤ}
use argus_ai.Cloud.Report.{BufferedReport, attempted}
use argus_ai.Cloud.ReportQueue.{ReportQueue, drain, requeue_front}
use argus_ai.Cloud.ReportQueue.Bounded.{IsBounded, requeue_front_lem}

module _ {V : Type 0} where
  -- A drain hands out the oldest reports, at most the limit, each with one attempt more, keeps the
  -- others in order, and counts no discard.
  pub drain_lem :
      (q : ReportQueue V) (limit : ℕ) (at : ℤ)
      → let (q', taken) = drain q limit at in
        let count = min limit (length q.entries) in
        (taken ≡ map attempted (take count q.entries))
        × (length taken ≡ count)
        × (q'.entries ≡ drop count q.entries)
        × (length q'.entries ≡ length q.entries - count)
        × (q'.dropped_total ≡ q.dropped_total)
        × (q'.capacity ≡ q.capacity)
  unfolding drain
  drain_lem q limit at =
      let count = min limit (length q.entries) in
      (
        refl,
        omega (arith, length-map (take count q.entries) attempted, length-take count q.entries),
        refl,
        length-drop count q.entries,
        refl,
        refl,
      )

  -- A report without its count of attempts.
  abbrev pub unattempted : BufferedReport V → BufferedReport V
  unattempted e = record e { attempts = 0 }

  unattempted-attempted :
      (es : List (BufferedReport V)) → map unattempted (map attempted es) ≡ map unattempted es
  unfolding attempted
  unattempted-attempted [] = refl
  unattempted-attempted (e ∷ es) = ap (λ r. unattempted e ∷ r) (unattempted-attempted es)

  -- On a queue within its positive capacity whose count of discards has room for its entries in a
  -- u64, a failed delivery loses nothing: a batch that is drained and requeued leaves the reports
  -- and their order as they were, up to the attempts counted, and no discard is counted.
  pub requeue-drain :
      (q : ReportQueue V) (limit : ℕ) (at : ℤ)
      → IsBounded q
      → q.dropped_total + length q.entries ≤ u64_max
      → let (q', taken) = drain q limit at in
        let back = requeue_front q' taken in
        (map unattempted back.entries ≡ map unattempted q.entries)
        × (back.dropped_total ≡ q.dropped_total)
        × (back.capacity ≡ q.capacity)
  requeue-drain q limit at v h =
      let q' = (drain q limit at).0 in
      let taken = (drain q limit at).1 in
      let d = drain_lem q limit at in
      let count = min limit (length q.entries) in
      let size : length (taken ++ q'.entries) ≡ length q.entries =
        omega (arith, length-append taken q'.entries, d.1, d.3) in
      let r = requeue_front_lem q' taken (
        let b : q'.dropped_total + length (taken ++ q'.entries) ≤ u64_max =
          omega (arith, d.4, size) in
        b) in
      let none_over : length (taken ++ q'.entries) - q'.capacity ≡ 0 =
        omega (arith, size, d.5, v.within) in
      (
        rw (
          r,
          none_over,
          d.0,
          d.2,
          map-append,
          unattempted-attempted,
          ← map-append,
          take-append-drop count q.entries,
        ),
        omega (arith, ap (λ x. x.dropped_total) r, none_over, d.4),
        ap (λ x. x.capacity) r ∙ d.5,
      )
