-- ===== src/State/Memory/Calls.antt =====
-- The calls of the repository of crates/argus-state/src/memory.rs. A call that only hands a field out
-- is that field. Instants are in microseconds; a number of days past chrono's range, on which the code
-- panics, is left out.
use Prim.Native.String.{String, compare}
use argus_ai.Prelude.{
  ℕ, ◌-◌, ◌*◌, Bool, true, false, ◌&&◌, ◌||◌, Option, none, some, List, [], ◌∷◌, ◌++◌, eqb,
  string_eq, nat_eq, pair_eq, ltb, length, take, drop, if◌then◌else◌,
}
use argus_ai.Prelude.Int.{ℤ, pos, pos_part, ◌-ℤ◌, leb_ℤ}
use argus_ai.Domain.Plan.{Plan, Execution}
use argus_ai.Autonomy.{AutonomyState}
use argus_ai.Correlate.Graph.{is_after}
use argus_ai.State.Rows.{retain, newest_first, push_new, replace}
use argus_ai.State.Memory.{
  Payloads, ActionEventRecord, BrainTraceRecord, TokenUsageRecord, ActionEventFilter,
  default_action_event_limit, Fact, fact_key, DeliveredRunbook, runbook_name, Inner,
}

abbrev pub key_of {ℓ} : {A : Type ℓ} → ℕ × A → ℕ
key_of (id, a) = id

-- `limit == 0` stands for the default.
unfoldable pub limit_of : ℕ → ℕ
limit_of limit = if eqb limit 0 then default_action_event_limit else limit

abbrev pub since_ok : Option ℤ → ℤ → Bool
since_ok none at = true
since_ok (some since) at = leb_ℤ since at

abbrev pub text_ok : Option String → String → Bool
text_ok none s = true
text_ok (some t) s = eqb t s

unfoldable pub matches : {V : Type 0} → ActionEventFilter → ActionEventRecord V → Bool
matches filter e =
    since_ok filter.since e.occurred_at
    && text_ok filter.kind e.kind
    && text_ok filter.status e.outcome

abbrev pub same_cycle : Option ℕ → Option ℕ → Bool
same_cycle none none = true
same_cycle (some a) (some b) = eqb a b
same_cycle _ _ = false

abbrev pub is_none {ℓ} : {A : Type ℓ} → Option A → Bool
is_none none = true
is_none (some a) = false

-- The instant that so many days lie before now.
abbrev pub cutoff_of : ℤ → ℤ → ℤ
cutoff_of now days = now -ℤ pos (pos_part days * 86400000000)

-- `sort_by` on the names, which is stable.
unfoldable pub runbook_in :
    {C : Type 0} → DeliveredRunbook C → List (DeliveredRunbook C) → List (DeliveredRunbook C)
runbook_in x [] = x ∷ []
runbook_in x (y ∷ ys) =
    let rest = runbook_in x ys in
    if is_after (compare (runbook_name x) (runbook_name y)) then y ∷ rest else x ∷ y ∷ ys

unfoldable pub sort_runbooks : {C : Type 0} → List (DeliveredRunbook C) → List (DeliveredRunbook C)
sort_runbooks [] = []
sort_runbooks (x ∷ xs) = runbook_in x (sort_runbooks xs)

module _ {p : Payloads} where
  open p use {
    V, F, Criterion, Observation, DomainEvent, HealthStatus, Hypothesis, Episode, ProcedureRecord,
  }

  unfoldable pub save_environment : Inner p → ℕ → Inner p
  save_environment r id = record r { environment = some id }

  unfoldable pub put_observation : Inner p → Observation → Inner p
  put_observation r o = record r { observations = r.observations ++ o ∷ [] }

  unfoldable pub put_audit_event : Inner p → DomainEvent → Inner p
  put_audit_event r e = record r { audit_events = r.audit_events ++ e ∷ [] }

  unfoldable pub put_hypothesis : Inner p → ℕ → Hypothesis → Inner p
  put_hypothesis r id h = record r { hypotheses = r.hypotheses ++ (id, h) ∷ [] }

  unfoldable pub put_plan : Inner p → ℕ → Plan V F → Inner p
  put_plan r id plan = record r { plans = r.plans ++ (id, plan) ∷ [] }

  unfoldable pub put_execution : Inner p → ℕ → Execution V → Inner p
  put_execution r id e = record r { executions = r.executions ++ (id, e) ∷ [] }

  unfoldable pub put_episode : Inner p → ℕ → Episode → Inner p
  put_episode r id e = record r { episodes = replace key_of (id, e) r.episodes }

  unfoldable pub put_fact : Inner p → Fact → Inner p
  put_fact r f = record r { facts = replace fact_key f r.facts }

  unfoldable pub put_procedure : Inner p → ℕ → ProcedureRecord → Inner p
  put_procedure r id x = record r { procedures = replace key_of (id, x) r.procedures }

  unfoldable pub save_health : Inner p → HealthStatus → Inner p
  save_health r h = record r { health = some h }

  unfoldable pub put_action_event : Inner p → ActionEventRecord V → Inner p
  put_action_event r e = record r { action_events = push_new (λ x. x.event_id) e r.action_events }

  unfoldable pub list_action_events : Inner p → ActionEventFilter → List (ActionEventRecord V)
  list_action_events r filter =
      take (limit_of filter.limit)
        (newest_first (λ e. e.occurred_at) (retain (matches filter) r.action_events))

  unfoldable pub put_brain_trace : Inner p → BrainTraceRecord → Inner p
  put_brain_trace r t = record r { brain_traces = push_new (λ x. x.trace_id) t r.brain_traces }

  unfoldable pub list_brain_traces : Inner p → Option ℕ → ℕ → List BrainTraceRecord
  list_brain_traces r cycle_id limit = take (limit_of limit) (
      newest_first (λ t. t.occurred_at)
        (retain (λ t. same_cycle t.cycle_id cycle_id || is_none cycle_id) r.brain_traces))

  unfoldable pub put_token_usage : Inner p → TokenUsageRecord → Inner p
  put_token_usage r u = record r { token_usage = r.token_usage ++ u ∷ [] }

  unfoldable pub list_token_usage : Inner p → ℕ → List TokenUsageRecord
  list_token_usage r limit = take (limit_of limit) (newest_first (λ u. u.occurred_at) r.token_usage)

  unfoldable pub retain_ledger : Inner p → ℤ → ℤ → Inner p
  retain_ledger r now days =
      let cutoff = cutoff_of now days in
      record r {
        action_events = retain (λ e. leb_ℤ cutoff e.occurred_at) r.action_events;
        brain_traces = retain (λ t. leb_ℤ cutoff t.occurred_at) r.brain_traces;
        token_usage = retain (λ u. leb_ℤ cutoff u.occurred_at) r.token_usage;
      }

  unfoldable pub retain_observations : Inner p → ℤ → Inner p
  retain_observations r max_rows =
      let max = pos_part max_rows in
      if ltb max (length r.observations)
      then record r { observations = drop (length r.observations - max) r.observations }
      else r

  unfoldable pub put_autonomy_state : Inner p → AutonomyState → Inner p
  put_autonomy_state r s = record r { autonomy = some s }

  unfoldable pub put_runbook : Inner p → DeliveredRunbook Criterion → Inner p
  put_runbook r x = record r { runbooks = sort_runbooks (replace runbook_name x r.runbooks) }
