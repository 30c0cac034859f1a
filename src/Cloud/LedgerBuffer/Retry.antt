-- ===== src/Cloud/LedgerBuffer/Retry.antt =====
-- What a failed flush of the ledger buffer of crates/argus-cloud/src/buffer.rs gives back.
use mathlib.Core.List.{append-nil, append_assoc, map-append}
use argus_ai.Prelude.{
  ℕ, ◌+◌, ◌≡◌, refl, sym, ap, ◌∙◌, Bool, Bool-cases, inl, inr, arith, true, ◌||◌, false, List, [],
  ◌∷◌, ◌++◌, All, All-append, map,
}
use argus_ai.Prelude.Int.{ℤ}
use argus_ai.Cloud.Report.{
  ReportKind, action_ledger, brain_trace, BufferedReport, attempted, push_fronts-reverse,
}
use argus_ai.Cloud.LedgerBuffer.{
  Json, LedgerBuffer, UsageSum, Sorted, batch, same_batch, merge, usage_entries, drain, sort_entry,
  rebatch, sort_entries, requeue,
}
use argus_ai.Cloud.LedgerBuffer.Usage.{Distinct}

-- Each stream holds entries of its own kind.
pub record WellKinded {V : Type 0} (b : LedgerBuffer V) : Type 0 where
  pub actions : All (λ e. e.kind ≡ action_ledger) b.actions
  pub traces : All (λ e. e.kind ≡ brain_trace) b.traces

-- The sums after each of the given is batched in turn.
abbrev pub batch_all : List UsageSum → List UsageSum → List UsageSum
batch_all us [] = us
batch_all us (v ∷ vs) = batch_all (batch us v) vs

-- Whether there is a sum of the pair.
abbrev pub paired : List UsageSum → UsageSum → Bool
paired [] v = false
paired (u ∷ us) v = same_batch u v || paired us v

abbrev ids : List UsageSum → List ℕ
ids us = map (λ u. u.usage_id) us

ids-batch : (us : List UsageSum) (v : UsageSum) → paired us v ≡ true → ids (batch us v) ≡ ids us
unfolding batch merge
ids-batch [] v h = absurd (ground arith)
ids-batch (u ∷ us) v h = elim (Bool-cases (same_batch u v)) [
  | inl same ↦ rw same refl
  | inr other ↦ rw other (ap (λ l. u.usage_id ∷ l) (ids-batch us v (rw other at h)))
]

paired-batch :
    (us : List UsageSum) (v w : UsageSum) → paired us w ≡ true → paired (batch us v) w ≡ true
unfolding batch
paired-batch [] v w h = absurd (ground arith)
paired-batch (u ∷ us) v w h = elim (Bool-cases (same_batch u v)) [
  | inl same ↦ rw same (unfold merge in h)
  | inr other ↦ rw other (ground (arith, h, paired-batch us v w))
]

All-paired-batch :
    (us : List UsageSum) (v : UsageSum) (vs : List UsageSum)
    → All (λ w. paired us w ≡ true) vs
    → All (λ w. paired (batch us v) w ≡ true) vs
All-paired-batch us v [] a = tt
All-paired-batch us v (w ∷ ws) a = (paired-batch us v w a.0, All-paired-batch us v ws a.1)

ids-batch_all :
    (us vs : List UsageSum) → All (λ w. paired us w ≡ true) vs → ids (batch_all us vs) ≡ ids us
ids-batch_all us [] a = refl
ids-batch_all us (v ∷ vs) a =
    ids-batch_all (batch us v) vs (All-paired-batch us v vs a.1) ∙ ids-batch us v a.0

module _ (json : Json) where
  open json use {V, read-payload}

  sort_entry_action :
      (k : ReportKind) (e : BufferedReport V) (s : Sorted V)
      → k ≡ action_ledger
      → sort_entry json k e s ≡ record s { action_entries = s.action_entries ++ e ∷ [] }
  unfolding sort_entry
  sort_entry_action k e s h = rw h refl

  sort_entry_trace :
      (k : ReportKind) (e : BufferedReport V) (s : Sorted V)
      → k ≡ brain_trace
      → sort_entry json k e s ≡ record s { trace_entries = s.trace_entries ++ e ∷ [] }
  unfolding sort_entry
  sort_entry_trace k e s h = rw h refl

  sort_actions :
      (es rest : List (BufferedReport V)) (s : Sorted V)
      → All (λ e. e.kind ≡ action_ledger) es
      → sort_entries json (map attempted es ++ rest) s
        ≡ sort_entries json rest
            (record s { action_entries = s.action_entries ++ map attempted es })
  unfolding sort_entries attempted
  sort_actions [] rest s k =
      ap (λ a. sort_entries json rest (record s { action_entries = a }))
        (sym (append-nil s.action_entries))
  sort_actions (e ∷ es) rest s k =
      ap (sort_entries json (map attempted es ++ rest))
        (sort_entry_action e.kind (attempted e) s k.0)
      ∙ sort_actions es rest (record s { action_entries = s.action_entries ++ attempted e ∷ [] })
          k.1
      ∙ ap (λ a. sort_entries json rest (record s { action_entries = a }))
          (append_assoc s.action_entries (attempted e ∷ []) (map attempted es))

  sort_traces :
      (es rest : List (BufferedReport V)) (s : Sorted V)
      → All (λ e. e.kind ≡ brain_trace) es
      → sort_entries json (map attempted es ++ rest) s
        ≡ sort_entries json rest (record s { trace_entries = s.trace_entries ++ map attempted es })
  unfolding sort_entries attempted
  sort_traces [] rest s k =
      ap (λ a. sort_entries json rest (record s { trace_entries = a }))
        (sym (append-nil s.trace_entries))
  sort_traces (e ∷ es) rest s k =
      ap (sort_entries json (map attempted es ++ rest))
        (sort_entry_trace e.kind (attempted e) s k.0)
      ∙ sort_traces es rest (record s { trace_entries = s.trace_entries ++ attempted e ∷ [] }) k.1
      ∙ ap (λ a. sort_entries json rest (record s { trace_entries = a }))
          (append_assoc s.trace_entries (attempted e ∷ []) (map attempted es))

  sort_usage :
      (fresh : ℕ → ℕ) (i : ℕ) (us : List UsageSum) (now : ℤ) (s : Sorted V)
      → sort_entries json (map attempted (usage_entries json fresh i us now)) s
        ≡ record s { usage = batch_all s.usage us }
  unfolding sort_entries attempted usage_entries sort_entry rebatch
  sort_usage fresh i [] now s = refl
  sort_usage fresh i (u ∷ us) now s =
      ap
        (λ o.
          sort_entries json (map attempted (usage_entries json fresh (i + 1) us now))
            (record s { usage = rebatch json s.usage o }))
        (read-payload u now)
      ∙ sort_usage fresh (i + 1) us now (record s { usage = batch s.usage u })

  -- What a failed flush of a buffer whose streams hold entries of their own kind gives back, to a
  -- buffer that may have gone on meanwhile: the drained actions and traces in order, each with one
  -- attempt more, before what came since, and each drained sum batched once into the sums since,
  -- whose identity and whose unknown counts a pair that is there already keeps. The count of lost
  -- traces is left alone.
  requeue-drain_later :
      (b later : LedgerBuffer V) (fresh : ℕ → ℕ) (now : ℤ)
      → WellKinded b
      → requeue json later (drain json b fresh now).1 ≡ record later {
        actions = map attempted b.actions ++ later.actions;
        traces = map attempted b.traces ++ later.traces;
        usage = batch_all later.usage b.usage;
      }
  unfolding requeue drain
  requeue-drain_later b later fresh now k = rw (
    sorted,
    push_fronts-reverse (map attempted b.actions) later.actions,
    push_fronts-reverse (map attempted b.traces) later.traces,
  )
    where
      sorted :
          sort_entries json
            (map attempted (b.actions ++ (b.traces ++ usage_entries json fresh 0 b.usage now)))
            (record { action_entries = []; trace_entries = []; usage = later.usage })
          ≡ record {
            action_entries = map attempted b.actions;
            trace_entries = map attempted b.traces;
            usage = batch_all later.usage b.usage;
          }
      sorted =
          rw (map-append, map-append)
            (sort_actions b.actions _ _ k.actions
              ∙ sort_traces b.traces _ _ k.traces
              ∙ sort_usage fresh 0 b.usage now _)

  batch_fresh :
      (us : List UsageSum) (v : UsageSum)
      → All (λ u. same_batch u v ≡ false) us
      → batch us v ≡ us ++ v ∷ []
  unfolding batch
  batch_fresh [] v a = refl
  batch_fresh (u ∷ us) v a = rw a.0 (ap (λ r. u ∷ r) (batch_fresh us v a.1))

  extend_fresh :
      (acc vs : List UsageSum) (u : UsageSum)
      → All (λ w. All (λ x. same_batch x w ≡ false) acc) vs
      → All (λ w. same_batch u w ≡ false) vs
      → All (λ w. All (λ x. same_batch x w ≡ false) (acc ++ u ∷ [])) vs
  extend_fresh acc [] u a h = tt
  extend_fresh acc (w ∷ vs) u a h = (
    All-append (λ x. same_batch x w ≡ false) acc (u ∷ []) a.0 (h.0, tt),
    extend_fresh acc vs u a.1 h.1,
  )

  batch_all_fresh :
      (acc us : List UsageSum)
      → All (λ w. All (λ x. same_batch x w ≡ false) acc) us
      → Distinct us
      → batch_all acc us ≡ acc ++ us
  batch_all_fresh acc [] a d = sym (append-nil acc)
  batch_all_fresh acc (u ∷ us) a d = rw (batch_fresh acc u a.0) (
      batch_all_fresh (acc ++ u ∷ []) us (extend_fresh acc us u a.1 d.0) d.1
      ∙ append_assoc acc (u ∷ []) us)

  All-fresh : (us : List UsageSum) → All (λ w. All (λ x. same_batch x w ≡ false) []) us
  All-fresh [] = tt
  All-fresh (u ∷ us) = (tt, All-fresh us)

  -- A flush that fails gives back everything, where the buffer has no sum of a drained pair yet: for
  -- a buffer whose streams hold entries of their own kind and whose sums are of distinct pairs, the
  -- drained actions and traces stand in order, each with one attempt more, before what came since,
  -- and the drained sums, unchanged in their counts and their identities, behind the sums since. The
  -- count of lost traces is left alone.
  pub requeue-drain_apart :
      (b later : LedgerBuffer V) (fresh : ℕ → ℕ) (now : ℤ)
      → WellKinded b
      → Distinct b.usage
      → All (λ w. All (λ x. same_batch x w ≡ false) later.usage) b.usage
      → requeue json later (drain json b fresh now).1 ≡ record later {
        actions = map attempted b.actions ++ later.actions;
        traces = map attempted b.traces ++ later.traces;
        usage = later.usage ++ b.usage;
      }
  requeue-drain_apart b later fresh now k d a =
      requeue-drain_later b later fresh now k
      ∙ ap
          (λ us. record later {
            actions = map attempted b.actions ++ later.actions;
            traces = map attempted b.traces ++ later.traces;
            usage = us;
          })
          (batch_all_fresh later.usage b.usage a d)

  -- Where a buffer whose streams hold entries of their own kind fails to be flushed, and the buffer
  -- has a sum of every drained pair again, the identities of its sums after the requeue are those of
  -- the sums since: those of the drained sums are not carried over.
  requeue-drain_renamed :
      (b later : LedgerBuffer V) (fresh : ℕ → ℕ) (now : ℤ)
      → WellKinded b
      → All (λ w. paired later.usage w ≡ true) b.usage
      → map (λ u. u.usage_id) (requeue json later (drain json b fresh now).1).usage
        ≡ map (λ u. u.usage_id) later.usage
  requeue-drain_renamed b later fresh now k a =
      ap (λ l. map (λ (u : UsageSum). u.usage_id) l.usage) (requeue-drain_later b later fresh now k)
      ∙ ids-batch_all later.usage b.usage a
