-- ===== src/Cloud/LedgerBuffer.antt =====
-- The upstream buffer of the action ledger in crates/argus-cloud/src/buffer.rs. A JSON value is
-- serde_json's: an interface gives the two conversions and the one insertion that the code makes.
-- The fresh UUIDs of a drain are a supply indexed by the position of the usage batch.
pub mod Usage
pub mod Retry
pub mod Traces
use mathlib.Core.List.{reverse}
use argus_ai.Prelude.{
  ℕ, zero, suc, ◌+◌, ◌≡◌, Bool, true, false, ◌&&◌, Option, none, some, List, [], ◌∷◌, ◌++◌, String,
  map, length, ltb, leb, ◌==◌, eqb, nat_eq, string_eq, u32_saturating_add, u64_saturating_add,
  is_empty, if◌then◌else◌, Eq,
}
use argus_ai.Prelude.Int.{ℤ}
use argus_ai.Cloud.Report.{
  ReportKind, action_ledger, brain_trace, token_usage, BufferedReport, entry, attempted,
  push_fronts,
}

abbrev pub ledger_action_capacity : ℕ
ledger_action_capacity = 8192

abbrev pub ledger_trace_capacity : ℕ
ledger_trace_capacity = 256

pub record UsageSum : Type 0 where
  pub usage_id : ℕ
  pub cycle_id : Option ℕ
  pub model : Option String
  pub prompt_tokens : Option ℕ
  pub completion_tokens : Option ℕ
  pub total_tokens : Option ℕ
  pub calls : ℕ
  pub unknown_usage : ℕ
  pub duration_ms : ℕ

unfoldable pub sum_opt : Option ℕ → Option ℕ → Option ℕ
sum_opt (some x) (some y) = some (u64_saturating_add x y)
sum_opt a _ = a

unfoldable pub merge : UsageSum → UsageSum → UsageSum
unfolding sum_opt
merge u other = record u {
  prompt_tokens = sum_opt u.prompt_tokens other.prompt_tokens;
  completion_tokens = sum_opt u.completion_tokens other.completion_tokens;
  total_tokens = sum_opt u.total_tokens other.total_tokens;
  calls = u32_saturating_add u.calls other.calls;
  unknown_usage = u32_saturating_add u.unknown_usage other.unknown_usage;
  duration_ms = u64_saturating_add u.duration_ms other.duration_ms;
}

abbrev pub option_eqb : {A : Type 0} ⦃e : Eq A⦄ → Option A → Option A → Bool
option_eqb none none = true
option_eqb (some a) (some b) = eqb a b
option_eqb _ _ = false

-- Whether two sums belong to one `(cycle_id, model)` pair.
abbrev pub same_batch : UsageSum → UsageSum → Bool
same_batch u v = option_eqb u.cycle_id v.cycle_id && option_eqb u.model v.model

-- The first sum of the pair takes the record in; without one it starts a batch at the end.
unfoldable pub batch : List UsageSum → UsageSum → List UsageSum
batch [] value = value ∷ []
batch (u ∷ us) value = if same_batch u value then merge u value ∷ us else u ∷ batch us value

-- `insert_number key n v` is `v` with the member set, where `v` is an object. A usage record reads
-- back from the object that the drain builds of it: unknown members are ignored.
pub record Json : Type 1 where
  pub V : Type 0
  pub insert_number : String → ℕ → V → Option V
  pub usage_payload : UsageSum → ℤ → V
  pub read_usage : V → Option UsageSum
  pub read-payload : (u : UsageSum) (now : ℤ) → read_usage (usage_payload u now) ≡ some u

pub record LedgerBuffer (V : Type 0) : Type 0 where
  pub actions : List (BufferedReport V)
  pub traces : List (BufferedReport V)
  pub dropped_traces : ℕ
  pub usage : List UsageSum

-- The streams that a requeued batch is sorted into.
pub record Sorted (V : Type 0) : Type 0 where
  pub action_entries : List (BufferedReport V)
  pub trace_entries : List (BufferedReport V)
  pub usage : List UsageSum

pub data PushResult : Type 0 where
  admitted push_blocked : PushResult

module _ {V : Type 0} where
  abbrev pub new : LedgerBuffer V
  new = record { actions = []; traces = []; dropped_traces = 0; usage = [] }

  unfoldable pub buffer_is_empty : LedgerBuffer V → Bool
  buffer_is_empty b = is_empty b.actions && is_empty b.traces && is_empty b.usage

  unfoldable pub try_push_action : LedgerBuffer V → ℕ → V → ℤ → LedgerBuffer V × PushResult
  try_push_action b fresh payload at =
      if leb ledger_action_capacity (length b.actions)
      then (b, push_blocked)
      else (record b { actions = b.actions ++ entry fresh action_ledger payload at ∷ [] }, admitted)

  pop_each : ℕ → List (BufferedReport V) → List (BufferedReport V) × List (BufferedReport V)
  pop_each zero es = (es, [])
  pop_each (suc n) [] = pop_each n []
  pop_each (suc n) (e ∷ es) = let (rest, dropped) = pop_each n es in (rest, e ∷ dropped)

  unfoldable pub sacrifice_actions : LedgerBuffer V → ℕ → LedgerBuffer V × List (BufferedReport V)
  unfolding pop_each
  sacrifice_actions b count =
      let (rest, dropped) = pop_each count b.actions in (record b { actions = rest }, dropped)

  -- The `while` loop of `push_trace`, with the number of traces as fuel: each round pops one.
  unfoldable pub coalesce : ℕ → List (BufferedReport V) → ℕ → List (BufferedReport V) × ℕ
  coalesce zero es dropped = (es, dropped)
  coalesce (suc fuel) [] dropped = ([], dropped)
  coalesce (suc fuel) (e ∷ es) dropped =
      let rest = coalesce fuel es (u64_saturating_add dropped 1) in
      if leb ledger_trace_capacity (length (e ∷ es)) then rest else (e ∷ es, dropped)

  unfoldable pub push_usage : LedgerBuffer V → UsageSum → LedgerBuffer V
  push_usage b value = record b { usage = batch b.usage value }

module _ (json : Json) where
  open json use {V, insert_number, usage_payload, read_usage}

  stamped : Option V → V → ℕ → V × ℕ
  stamped none payload dropped = (payload, dropped)
  stamped (some object) payload dropped = (object, 0)

  unfoldable pub stamp : V → ℕ → V × ℕ
  unfolding stamped
  stamp payload dropped =
      if ltb 0 dropped
      then stamped (insert_number "coalesced_before" dropped payload) payload dropped
      else (payload, dropped)

  unfoldable pub push_trace : LedgerBuffer V → ℕ → V → ℤ → LedgerBuffer V
  push_trace b fresh payload at =
      let (kept, dropped) = coalesce (length b.traces) b.traces b.dropped_traces in
      let (payload', left) = stamp payload dropped in
      record b { traces = kept ++ entry fresh brain_trace payload' at ∷ []; dropped_traces = left }

  unfoldable pub usage_entries : (ℕ → ℕ) → ℕ → List UsageSum → ℤ → List (BufferedReport V)
  usage_entries fresh i [] now = []
  usage_entries fresh i (u ∷ us) now =
      entry (fresh i) token_usage (usage_payload u now) now ∷ usage_entries fresh (i + 1) us now

  unfoldable pub drain : LedgerBuffer V → (ℕ → ℕ) → ℤ → LedgerBuffer V × List (BufferedReport V)
  unfolding attempted
  drain b fresh now = (
    record b { actions = []; traces = []; usage = [] },
    map attempted (b.actions ++ (b.traces ++ usage_entries fresh 0 b.usage now)),
  )

  rebatch : List UsageSum → Option UsageSum → List UsageSum
  rebatch us none = us
  rebatch us (some value) = batch us value

  -- One entry of a requeued batch, onto the streams that the code collects.
  sort_entry : ReportKind → BufferedReport V → Sorted V → Sorted V
  unfolding rebatch
  sort_entry action_ledger e s = record s { action_entries = s.action_entries ++ e ∷ [] }
  sort_entry brain_trace e s = record s { trace_entries = s.trace_entries ++ e ∷ [] }
  sort_entry token_usage e s = record s { usage = rebatch s.usage (read_usage e.payload) }
  sort_entry _ e s = s

  unfoldable pub sort_entries : List (BufferedReport V) → Sorted V → Sorted V
  unfolding sort_entry
  sort_entries [] s = s
  sort_entries (e ∷ es) s = sort_entries es (sort_entry e.kind e s)

  unfoldable pub requeue : LedgerBuffer V → List (BufferedReport V) → LedgerBuffer V
  unfolding push_fronts
  requeue b entries =
      let s =
        sort_entries entries
          (record { action_entries = []; trace_entries = []; usage = b.usage }) in
      record b {
        actions = push_fronts (reverse s.action_entries) b.actions;
        traces = push_fronts (reverse s.trace_entries) b.traces;
        usage = s.usage;
      }
