-- ===== src/Cloud/ReportQueue/Refined.antt =====
-- What the report queue of crates/argus-cloud/src/buffer.rs promises, as a list that keeps its newest
-- elements, and that the queue implements it.
use argus_ai.Prelude.{
  take-min, drop-min, take-append, drop-append, ℕ, suc, ◌+◌, ◌-◌, ◌≤◌, ◌<◌, ◌≡◌, refl, sym, ap, ◌∙◌,
  subst, List, [], ◌∷◌, ◌++◌, map, length, length-append, length-take, take, drop, max, leb,
  Bool-cases, inl, inr, u64_max, arith,
}
use argus_ai.Prelude.Int.{ℤ}
use argus_ai.Cloud.Report.{ReportKind, BufferedReport, entry, attempted}
use argus_ai.Cloud.ReportQueue.{ReportQueue, new, enqueue, drain}
use argus_ai.Cloud.ReportQueue.Bounded.{
  IsBounded, option_list, discard_front_lem, enqueue_lem, requeue_front_lem,
}
use argus_ai.Cloud.ReportQueue.Account.{
  Trace, Call, offers, drains, delivers, fails, start, step, run, Inv, step-Inv, step-offered,
  initial,
}
use argus_ai.Cloud.ReportQueue.Delivery.{drain_lem}

-- The reports that wait, those that are being sent, and those that were given up, oldest first.
pub record Mailbox (V : Type 0) : Type 0 where
  pub held : List (BufferedReport V)
  pub sending : List (BufferedReport V)
  pub lost : List (BufferedReport V)

module _ {V : Type 0} where
  abbrev pub empty : Mailbox V
  empty = record { held = []; sending = []; lost = [] }

  -- Of some reports, the newest so many are held and the others are lost.
  unfoldable pub keep_newest : ℕ → List (BufferedReport V) → Mailbox V → Mailbox V
  keep_newest n all m =
      let excess = length all - n in
      record m { held = drop excess all; lost = m.lost ++ take excess all }

  unfoldable pub mail_step : ℕ → Mailbox V → Call V → Mailbox V
  unfolding keep_newest
  mail_step n m (offers fresh kind payload at) =
      keep_newest n (m.held ++ entry fresh kind payload at ∷ []) m
  mail_step n m (drains limit at) = record m {
    held = drop limit m.held;
    sending = m.sending ++ map attempted (take limit m.held);
  }
  mail_step n m delivers = record m { sending = [] }
  mail_step n m fails = keep_newest n (m.sending ++ m.held) (record m { sending = [] })

  unfoldable pub mail_run : ℕ → Mailbox V → List (Call V) → Mailbox V
  mail_run n m [] = m
  mail_run n m (c ∷ cs) = mail_run n (mail_step n m c) cs

  pub record Refines (t : Trace V) (m : Mailbox V) : Type 0 where
    pub waiting : t.queue.entries ≡ m.held
    pub in_flight : t.in_flight ≡ m.sending
    pub counted : t.queue.dropped_total ≡ length m.lost

  -- An enqueue on a queue within its capacity discards what is too much.
  enqueue_excess :
      (q : ReportQueue V) (fresh : ℕ) (kind : ReportKind) (payload : V) (at : ℤ)
      → IsBounded q
      → q.dropped_total < u64_max
      → length (option_list (enqueue q fresh kind payload at).1)
        ≡ suc (length q.entries) - q.capacity
  unfolding enqueue
  enqueue_excess q fresh kind payload at v h =
      elim (Bool-cases (leb q.capacity (length q.entries))) [
        | inl full ↦
            let d =
              discard_front_lem q
                (let x : 1 ≤ length q.entries = ground (arith, v.within, v.positive) in x) h in
            rw full (
              let c : q.capacity ≤ length q.entries = ground arith in
              omega (arith, d.3, v.within, c))
        | inr room ↦
            rw room (let c : length q.entries < q.capacity = ground arith in omega (arith, c))
      ]

  -- Lists that make up the whole, where the first is as long as the excess.
  parted :
      (n : ℕ) (xs ys all : List (BufferedReport V))
      → xs ++ ys ≡ all
      → length xs ≡ length all - n
      → (ys ≡ drop (length all - n) all) × (xs ≡ take (length all - n) all)
  parted n xs ys all e h = (
    sym (
        ap (drop (length all - n)) (sym e)
        ∙ ap (λ k. drop k (xs ++ ys)) (sym h)
        ∙ drop-append xs ys),
    sym (
        ap (take (length all - n)) (sym e)
        ∙ ap (λ k. take k (xs ++ ys)) (sym h)
        ∙ take-append xs ys),
  )

  offer-Refines :
      (t : Trace V) (m : Mailbox V) (fresh : ℕ) (kind : ReportKind) (payload : V) (at : ℤ)
      → IsBounded t.queue
      → t.queue.dropped_total < u64_max
      → Refines t m
      → Refines
          (step t (offers fresh kind payload at))
          (mail_step t.queue.capacity m (offers fresh kind payload at))
  unfolding step mail_step keep_newest
  offer-Refines t m fresh kind payload at v h r =
      let q' = (enqueue t.queue fresh kind payload at).0 in
      let gone = option_list (enqueue t.queue fresh kind payload at).1 in
      let all = m.held ++ entry fresh kind payload at ∷ [] in
      let e = enqueue_lem t.queue fresh kind payload at v h in
      let size : length all ≡ suc (length t.queue.entries) =
        length-append m.held (entry fresh kind payload at ∷ [])
        ∙ omega (arith, ap length r.waiting) in
      let p =
        parted t.queue.capacity gone q'.entries all
          (e.0 ∙ ap (λ es. es ++ entry fresh kind payload at ∷ []) r.waiting)
          (enqueue_excess t.queue fresh kind payload at v h ∙ omega (arith, size)) in
      record {
        waiting = p.0;
        in_flight = r.in_flight;
        counted = omega (
          arith,
          e.1,
          r.counted,
          ap length p.1,
          length-append m.lost (take (length all - t.queue.capacity) all),
        );
      }

  fail-Refines :
      (t : Trace V) (m : Mailbox V)
      → t.queue.dropped_total + length (t.in_flight ++ t.queue.entries) ≤ u64_max
      → Refines t m
      → Refines (step t fails) (mail_step t.queue.capacity m fails)
  unfolding step mail_step keep_newest
  fail-Refines t m h r =
      let all = m.sending ++ m.held in
      let same : t.in_flight ++ t.queue.entries ≡ all =
        ap (λ es. es ++ t.queue.entries) r.in_flight ∙ ap (λ es. m.sending ++ es) r.waiting in
      let q = requeue_front_lem t.queue t.in_flight h in
      let n = t.queue.capacity in
      record {
        waiting = ap (λ q. q.entries) q ∙ ap (λ es. drop (length es - n) es) same;
        in_flight = refl;
        counted = omega (
          arith,
          ap (λ q. q.dropped_total) q,
          ap length same,
          r.counted,
          length-append m.lost (take (length all - n) all),
          length-take (length all - n) all,
        );
      }

  drain-Refines :
      (t : Trace V) (m : Mailbox V) (limit : ℕ) (at : ℤ)
      → Refines t m
      → Refines (step t (drains limit at)) (mail_step t.queue.capacity m (drains limit at))
  unfolding step mail_step
  drain-Refines t m limit at r =
      let d = drain_lem t.queue limit at in
      record {
        waiting = d.2 ∙ drop-min limit t.queue.entries ∙ ap (drop limit) r.waiting;
        in_flight =
            ap (λ es. es ++ (drain t.queue limit at).1) r.in_flight
            ∙ ap (λ es. m.sending ++ es)
                (d.0
                  ∙ ap (map attempted)
                      (take-min limit t.queue.entries ∙ ap (take limit) r.waiting));
        counted = d.4 ∙ r.counted;
      }

  step-Refines :
      (k : ℕ) (t : Trace V) (m : Mailbox V) (c : Call V)
      → t.offered < u64_max
      → Inv k t
      → Refines t m
      → Refines (step t c) (mail_step (max k 1) m c)
  unfolding step mail_step
  step-Refines k t m (offers fresh kind payload at) h v r =
      subst
        (λ n.
          Refines (step t (offers fresh kind payload at))
            (mail_step n m (offers fresh kind payload at)))
        v.kept (offer-Refines t m fresh kind payload at v.bounded (omega (arith, v.accounted)) r)
  step-Refines k t m (drains limit at) h v r = drain-Refines t m limit at r
  step-Refines k t m delivers h v r = record {
    waiting = r.waiting;
    in_flight = refl;
    counted = r.counted;
  }
  step-Refines k t m fails h v r =
      subst (λ n. Refines (step t fails) (mail_step n m fails)) v.kept
        (fail-Refines t m (omega (arith, v.accounted, length-append t.in_flight t.queue.entries)) r)

  run-Refines :
      (k : ℕ) (t : Trace V) (m : Mailbox V) (cs : List (Call V))
      → t.offered + length cs ≤ u64_max
      → Inv k t
      → Refines t m
      → Refines (run t cs) (mail_run (max k 1) m cs)
  unfolding run mail_run
  run-Refines k t m [] h v r = r
  run-Refines k t m (c ∷ cs) h v r =
      run-Refines k (step t c) (mail_step (max k 1) m c) cs (omega (arith, step-offered t c))
        (step-Inv k t c (omega arith) v) (step-Refines k t m c (omega arith) v r)

  -- The queue implements a mailbox that holds the newest reports: after any interleaving of fewer than
  -- 2^64 enqueues, drains, deliveries and failed deliveries on a new queue, its entries are the reports
  -- that the mailbox holds, the batch in flight is the one that it is sending, and its count of
  -- discards is the number of reports that the mailbox gave up, each of them the oldest at that time.
  pub queue-Refines :
      (capacity : ℕ) (cs : List (Call V))
      → length cs ≤ u64_max
      → Refines (run (start capacity) cs) (mail_run (max capacity 1) empty cs)
  unfolding new
  queue-Refines capacity cs h =
      run-Refines capacity (start capacity) empty cs (omega arith) (initial capacity)
        (record { waiting = refl; in_flight = refl; counted = refl })
