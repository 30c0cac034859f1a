-- ===== src/Cloud/ReportQueue/Account.antt =====
-- An account of every report offered to the queue of crates/argus-cloud/src/buffer.rs, through any
-- interleaving of enqueues, drains, deliveries and failed deliveries.
use argus_ai.Prelude.{
  ℕ, ◌+◌, ◌-◌, ◌≤◌, ◌<◌, ◌≡◌, refl, ap, ◌∙◌, List, [], ◌∷◌, ◌++◌, length, length-append,
  length-drop, max, arith, u64_max,
}
use argus_ai.Prelude.Int.{ℤ}
use argus_ai.Cloud.Report.{ReportKind, BufferedReport}
use argus_ai.Cloud.ReportQueue.{ReportQueue, new, discard_front, enqueue, drain, requeue_front}
use argus_ai.Cloud.ReportQueue.Bounded.{
  IsBounded, new-IsBounded, requeue_front_lem, enqueue_lem, option_list,
}
use argus_ai.Cloud.ReportQueue.Delivery.{drain_lem}

-- The queue with the batch that is being sent and the counts of what was offered and delivered.
pub record Trace (V : Type 0) : Type 0 where
  pub queue : ReportQueue V
  pub in_flight : List (BufferedReport V)
  pub offered : ℕ
  pub delivered : ℕ

pub data Call (V : Type 0) : Type 0 where
  offers : ℕ → ReportKind → V → ℤ → Call V
  drains : ℕ → ℤ → Call V
  delivers fails : Call V

module _ {V : Type 0} where
  abbrev pub start : ℕ → Trace V
  start capacity = record { queue = new capacity; in_flight = []; offered = 0; delivered = 0 }

  unfoldable pub step : Trace V → Call V → Trace V
  step t (offers fresh kind payload at) = record t {
    queue = (enqueue t.queue fresh kind payload at).0;
    offered = t.offered + 1;
  }
  step t (drains limit at) =
      let (q, taken) = drain t.queue limit at in
      record t { queue = q; in_flight = t.in_flight ++ taken }
  step t delivers = record t { in_flight = []; delivered = t.delivered + length t.in_flight }
  step t fails = record t { queue = requeue_front t.queue t.in_flight; in_flight = [] }

  unfoldable pub run : Trace V → List (Call V) → Trace V
  run t [] = t
  run t (c ∷ cs) = run (step t c) cs

  pub record Inv (capacity : ℕ) (t : Trace V) : Type 0 where
    pub bounded : IsBounded t.queue
    pub kept : t.queue.capacity ≡ max capacity 1
    pub accounted :
        t.offered
        ≡ length t.queue.entries + length t.in_flight + t.delivered + t.queue.dropped_total

  enqueue_capacity :
      (q : ReportQueue V) (fresh : ℕ) (kind : ReportKind) (payload : V) (at : ℤ)
      → (enqueue q fresh kind payload at).0.capacity ≡ q.capacity
  unfolding enqueue discard_front
  enqueue_capacity q fresh kind payload at = ground arith

  pub step-Inv :
      (k : ℕ) (t : Trace V) (c : Call V) → t.offered < u64_max → Inv k t → Inv k (step t c)
  unfolding step
  step-Inv k t (offers fresh kind payload at) h v =
      let e =
        enqueue_lem t.queue fresh kind payload at v.bounded
          (let b : t.queue.dropped_total < u64_max = omega (arith, v.accounted) in b) in
      let q' = (enqueue t.queue fresh kind payload at).0 in
      let gone = (enqueue t.queue fresh kind payload at).1 in
      record {
        bounded = e.2;
        kept = ground (arith, v.kept, enqueue_capacity t.queue fresh kind payload at);
        accounted = omega (
          arith,
          v.accounted,
          e.1,
          ap length e.0,
          length-append (option_list gone) q'.entries,
          length-append t.queue.entries,
        );
      }
  step-Inv k t (drains limit at) h v =
      let d = drain_lem t.queue limit at in
      record {
        bounded = record {
          positive = omega (arith, d.5, v.bounded.positive);
          within = omega (arith, d.5, d.3, v.bounded.within);
        };
        kept = d.5 ∙ v.kept;
        accounted = omega (
          arith,
          v.accounted,
          d.1,
          d.3,
          d.4,
          length-append t.in_flight (drain t.queue limit at).1,
        );
      }
  step-Inv k t delivers h v = record {
    bounded = v.bounded;
    kept = v.kept;
    accounted = omega (arith, v.accounted);
  }
  step-Inv k t fails h v =
      let all = t.in_flight ++ t.queue.entries in
      let size = length-append t.in_flight t.queue.entries in
      let r = requeue_front_lem t.queue t.in_flight (
        let b : t.queue.dropped_total + length all ≤ u64_max = omega (arith, v.accounted, size) in
        b) in
      let kept = ap (λ q. length q.entries) r in
      let cap' = ap (λ q. q.capacity) r in
      record {
        bounded = record {
          positive = omega (arith, cap', v.bounded.positive);
          within = omega (arith, kept, cap', length-drop (length all - t.queue.capacity) all);
        };
        kept = cap' ∙ v.kept;
        accounted = omega (
          arith,
          v.accounted,
          kept,
          ap (λ q. q.dropped_total) r,
          length-drop (length all - t.queue.capacity) all,
          size,
        );
      }

  pub step-offered : (t : Trace V) (c : Call V) → (step t c).offered ≤ t.offered + 1
  unfolding step
  step-offered t (offers fresh kind payload at) = omega arith
  step-offered t (drains limit at) = omega arith
  step-offered t delivers = omega arith
  step-offered t fails = omega arith

  run-Inv :
      (k : ℕ) (t : Trace V) (cs : List (Call V))
      → t.offered + length cs ≤ u64_max
      → Inv k t
      → Inv k (run t cs)
  unfolding run
  run-Inv k t [] h v = v
  run-Inv k t (c ∷ cs) h v =
      run-Inv k (step t c) cs (omega (arith, step-offered t c)) (step-Inv k t c (omega arith) v)

  pub initial : (capacity : ℕ) → Inv capacity (start capacity)
  unfolding new
  initial capacity = record { bounded = new-IsBounded capacity; kept = refl; accounted = refl }

  -- After any interleaving of calls on a new queue, fewer than 2^64, the queue is within its
  -- capacity, and every report offered is held, in flight, delivered, or counted as dropped.
  pub reports_accounted :
      (capacity : ℕ) (cs : List (Call V))
      → length cs ≤ u64_max
      → let t = run (start capacity) cs in
        (length t.queue.entries ≤ max capacity 1)
        × (t.offered
            ≡ length t.queue.entries + length t.in_flight + t.delivered + t.queue.dropped_total)
  reports_accounted capacity cs h =
      let v = run-Inv capacity (start capacity) cs (omega arith) (initial capacity) in
      (omega (arith, v.bounded.within, v.kept), v.accounted)
