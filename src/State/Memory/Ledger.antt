-- ===== src/State/Memory/Ledger.antt =====
-- The queries and retentions of the repository of crates/argus-state/src/memory.rs.
use mathlib.Core.List.{Perm}
use argus_ai.Prelude.{
  ℕ, ◌-◌, ◌≤◌, ◌≡◌, refl, sym, ap, subst, ◌∙◌, Option, ◌||◌, List, [], ◌∷◌, ◌++◌, length, take,
  drop, min, take-append-drop, length-take, length-drop, if_elim, ltb, ltb→lt, arith,
}
use argus_ai.Prelude.Int.{ℤ, pos_part, ltb_ℤ}
use argus_ai.State.Rows.{
  retain, newest_in, newest_first, newest_first-Perm, newest_first-IsNewestFirst, IsNewestFirst,
}
use argus_ai.State.Memory.{Payloads, ActionEventRecord, BrainTraceRecord, ActionEventFilter, Inner}
use argus_ai.State.Memory.Calls.{
  limit_of, matches, same_cycle, is_none, list_action_events, list_brain_traces,
  retain_observations,
}

module _ {ℓ} {A : Type ℓ} (at : A → ℤ) where
  length-newest_in : (x : A) (xs : List A) → length (newest_in at x xs) ≡ length (x ∷ xs)
  length-newest_in x [] = refl
  length-newest_in x (y ∷ ys) =
      if_elim (λ l. length l ≡ length (x ∷ y ∷ ys)) (ltb_ℤ (at x) (at y))
        (λ _. omega (arith, length-newest_in x ys)) (λ _. refl)

  length-newest_first : (xs : List A) → length (newest_first at xs) ≡ length xs
  length-newest_first [] = refl
  length-newest_first (x ∷ xs) =
      omega (arith, length-newest_in x (newest_first at xs), length-newest_first xs)

  -- The `n` newest of some rows: with the rest they are these rows, each once, from the newest to the
  -- oldest.
  abbrev pub Newest : ℕ → List A → List A → Type ℓ
  Newest n xs l =
      (length l ≡ min n (length xs))
      × (rest : List A) × Perm (l ++ rest) xs
      × IsNewestFirst at (l ++ rest)

  take-Newest : (n : ℕ) (xs : List A) → Newest n xs (take n (newest_first at xs))
  take-Newest n xs =
      let whole = take-append-drop n (newest_first at xs) in
      (
        length-take n (newest_first at xs) ∙ ap (min n) (length-newest_first xs),
        drop n (newest_first at xs),
        subst (λ l. Perm l xs) (sym whole) (newest_first-Perm at xs),
        subst (IsNewestFirst at) (sym whole) (newest_first-IsNewestFirst at xs),
      )

module _ {p : Payloads} where
  -- A query of the action ledger answers with the newest of the rows that pass its filter, each once and
  -- the newest first: as many as the limit allows, 200 where the limit is zero, or all of them where
  -- there are no more. No row that is left out is newer than one that is listed.
  pub list_action_events-Newest :
      (r : Inner p) (filter : ActionEventFilter)
      → Newest
          (λ (e : ActionEventRecord p.V). e.occurred_at)
          (limit_of filter.limit)
          (retain (matches filter) r.action_events)
          (list_action_events r filter)
  unfolding list_action_events
  list_action_events-Newest r filter =
      take-Newest (λ e. e.occurred_at) (limit_of filter.limit)
        (retain (matches filter) r.action_events)

  pub list_brain_traces-Newest :
      (r : Inner p) (cycle_id : Option ℕ) (limit : ℕ)
      → Newest
          (λ (t : BrainTraceRecord). t.occurred_at)
          (limit_of limit)
          (retain (λ t. same_cycle t.cycle_id cycle_id || is_none cycle_id) r.brain_traces)
          (list_brain_traces r cycle_id limit)
  unfolding list_brain_traces
  list_brain_traces-Newest r cycle_id limit = take-Newest (λ t. t.occurred_at) (limit_of limit) _

  -- A retention of observations takes only the oldest away: what is left is the end of the stream, and
  -- there are as many as the bound allows, or all where there are no more. A negative bound counts as zero.
  pub retain_observations-Suffix :
      (r : Inner p) (max_rows : ℤ)
      → let kept = (retain_observations r max_rows).observations in
        (length kept ≡ min (pos_part max_rows) (length r.observations))
        × (old : List p.Observation) × (r.observations ≡ old ++ kept)
  unfolding retain_observations
  retain_observations-Suffix r max_rows =
      let max = pos_part max_rows in
      let n = length r.observations - max in
      if_elim
        (λ (s : Inner p).
          (length s.observations ≡ min max (length r.observations))
          × (old : List p.Observation) × (r.observations ≡ old ++ s.observations))
        (ltb max (length r.observations))
        (λ q.
          let shorter = ltb→lt max (length r.observations) q in
          (
            omega (arith, length-drop n r.observations, shorter),
            take n r.observations,
            sym (take-append-drop n r.observations),
          ))
        (λ q.
          let within : length r.observations ≤ max = ground (arith, q) in
          (omega (arith, within), [], refl))
