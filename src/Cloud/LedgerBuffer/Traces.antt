-- ===== src/Cloud/LedgerBuffer/Traces.antt =====
-- Actions are never dropped and traces give way, counted (crates/argus-cloud/src/buffer.rs).
use argus_ai.Prelude.{
  ℕ, zero, suc, ◌+◌, ◌-◌, ◌≤◌, ◌≡◌, refl, ◌∙◌, ◌⊎◌, inl, inr, ap, none, some, List, [], ◌∷◌, ◌++◌,
  length, length-append, length-drop, drop, take, leb, arith, u64_max, u64_saturating_add,
  Bool-cases, leb→le,
}
use argus_ai.Prelude.Int.{ℤ}
use argus_ai.Cloud.Report.{BufferedReport, action_ledger, brain_trace, entry}
use argus_ai.Cloud.LedgerBuffer.{
  Json, LedgerBuffer, ledger_action_capacity, ledger_trace_capacity, coalesce, stamp, push_trace,
  try_push_action, sacrifice_actions, pop_each, push_blocked, admitted,
}

module _ {V : Type 0} where
  -- The loop leaves the newest traces, one fewer than the capacity at most, and counts the others.
  coalesce_lem :
      (fuel : ℕ) (es : List (BufferedReport V)) (d : ℕ)
      → length es ≤ fuel
      → d + length es ≤ u64_max
      → let excess = suc (length es) - ledger_trace_capacity in
        coalesce fuel es d ≡ (drop excess es, d + excess)
  unfolding coalesce
  coalesce_lem zero [] d h k = ground arith
  coalesce_lem zero (e ∷ es) d h k = elim h [ ]
  coalesce_lem (suc fuel) [] d h k = ground arith
  coalesce_lem (suc fuel) (e ∷ es) d h k =
      elim (Bool-cases (leb ledger_trace_capacity (length (e ∷ es)))) [
        | inl over ↦
            let one_more : suc (suc (length es)) - 256 ≡ suc (suc (length es) - 256) =
              omega (arith, leb→le 256 (length (e ∷ es)) over) in
            let counted : u64_saturating_add d 1 ≡ d + 1 = omega arith in
            rw over (
              rw (one_more, counted)
                (coalesce_lem fuel es (d + 1) (omega arith) (omega arith) ∙ ground arith))
        | inr fits ↦
            let no_more : suc (suc (length es)) - 256 ≡ 0 = ground arith in
            rw fits (rw no_more (ground arith))
      ]

  drop_nil :
      (n : ℕ)
      → ◌≡◌ {A = List (BufferedReport V) × List (BufferedReport V)} (drop n [], take n []) ([], [])
  drop_nil zero = refl
  drop_nil (suc n) = refl

  -- An action event is admitted at the end, with nothing given up, or is refused with the buffer
  -- as it was; it is refused only at the capacity, and until then the buffer stays within it.
  pub try_push_action_lem :
      (b : LedgerBuffer V) (fresh : ℕ) (payload : V) (at : ℤ)
      → let (b', result) = try_push_action b fresh payload at in
        ((result ≡ push_blocked) × (b' ≡ b) × (ledger_action_capacity ≤ length b.actions))
        ⊎ ((result ≡ admitted)
            × (b' ≡ record b { actions = b.actions ++ entry fresh action_ledger payload at ∷ [] })
            × (length b'.actions ≤ ledger_action_capacity))
  unfolding try_push_action
  try_push_action_lem b fresh payload at =
      ground (arith, length-append b.actions (entry fresh action_ledger payload at ∷ []))

  pop_each_lem : (n : ℕ) (es : List (BufferedReport V)) → pop_each n es ≡ (drop n es, take n es)
  unfolding pop_each
  pop_each_lem zero es = refl
  pop_each_lem (suc n) [] = pop_each_lem n [] ∙ drop_nil n
  pop_each_lem (suc n) (e ∷ es) = ap (λ r. (r.0, e ∷ r.1)) (pop_each_lem n es)

  -- The last resort gives up exactly the oldest events, returns them all, and keeps the others.
  pub sacrifice_actions_lem :
      (b : LedgerBuffer V) (count : ℕ)
      → sacrifice_actions b count
        ≡ (record b { actions = drop count b.actions }, take count b.actions)
  unfolding sacrifice_actions
  sacrifice_actions_lem b count = rw (pop_each_lem count b.actions)

module _ (json : Json) where
  open json use {V, insert_number}

  -- What a pushed trace tells of the loss before it.
  abbrev pub Told : V → ℕ → V × ℕ → Type 0
  Told payload loss (payload', left) =
      ((loss ≡ 0) × (payload' ≡ payload) × (left ≡ 0))
      ⊎ ((insert_number "coalesced_before" loss payload ≡ some payload') × (left ≡ 0))
      ⊎ ((insert_number "coalesced_before" loss payload ≡ none)
          × (payload' ≡ payload)
          × (left ≡ loss))

  stamp-Told : (payload : V) (loss : ℕ) → Told payload loss (stamp json payload loss)
  unfolding stamp
  stamp-Told payload loss = ground arith

  -- Where the count of lost traces has room for those held in a u64, a pushed trace goes to the
  -- end, the oldest give way so that at most the capacity is held, and the traces lost since the
  -- last report of it are stamped onto the new trace or still counted.
  pub push_trace_lem :
      (b : LedgerBuffer V) (fresh : ℕ) (payload : V) (at : ℤ)
      → b.dropped_traces + length b.traces ≤ u64_max
      → let b' = push_trace json b fresh payload at in
        let excess = suc (length b.traces) - ledger_trace_capacity in
        let written = stamp json payload (b.dropped_traces + excess) in
        (b'.traces ≡ drop excess b.traces ++ entry fresh brain_trace written.0 at ∷ [])
        × (b'.dropped_traces ≡ written.1)
        × (length b'.traces ≤ ledger_trace_capacity)
        × Told payload (b.dropped_traces + excess) written
  unfolding push_trace
  push_trace_lem b fresh payload at h =
      let excess = suc (length b.traces) - ledger_trace_capacity in
      let written = stamp json payload (b.dropped_traces + excess) in
      rw (coalesce_lem (length b.traces) b.traces b.dropped_traces (omega arith) h) (
        refl,
        refl,
        omega (
          arith,
          length-append (drop excess b.traces) (entry fresh brain_trace written.0 at ∷ []),
          length-drop excess b.traces,
        ),
        stamp-Told payload (b.dropped_traces + excess),
      )
