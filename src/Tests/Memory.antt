-- ===== src/Tests/Memory.antt =====
-- The repository of crates/argus-state on a few rows.
use argus_ai.Prelude.{ℕ, ◌≡◌, refl, none, some, List, [], ◌∷◌, String, string_eq, nat_eq, pair_eq}
use argus_ai.Prelude.Int.{pos, ◌-ℤ◌}
use argus_ai.State.Rows.{retain}
use argus_ai.State.Memory.{Payloads, ActionEventRecord, ActionEventFilter, Fact, new}
use argus_ai.State.Memory.Calls.{
  limit_of, matches, list_action_events, put_action_event, put_fact, put_observation, retain_ledger,
  retain_observations,
}
use argus_ai.State.Memory.History.{
  Call, puts_action_event, puts_fact, puts_observation, retains_ledger, step, run, IsKeyed,
  run-new-IsKeyed,
}
use argus_ai.State.Memory.Refined.{view, spec_run, run-Refines}
use argus_ai.State.Memory.Ledger.{Newest, list_action_events-Newest}

abbrev plain : Payloads
plain = record {
  V = ℕ;
  F = ℕ;
  Criterion = ℕ;
  Observation = ℕ;
  DomainEvent = ℕ;
  HealthStatus = ℕ;
  Hypothesis = ℕ;
  Episode = ℕ;
  ProcedureRecord = ℕ;
}

abbrev event : ℕ → String → ℕ → ActionEventRecord ℕ
event id outcome at = record {
  event_id = id;
  correlation_id = 0;
  causation_id = none;
  cycle_id = none;
  plan_id = none;
  kind = "host.service.restart";
  target = none;
  args = 0;
  verdict = "allow";
  policy_id = none;
  outcome = outcome;
  duration_ms = none;
  validation = none;
  occurred_at = pos at;
}

abbrev release : String → Fact
release value = record {
  subject = "host:local";
  attribute = "kernel.release";
  value = value;
  source = "observation";
  learned_at = pos 0;
}

-- The second row under the id 1 is not written, the second fact takes the place of the first, and the
-- retention takes the rows of the first day.
abbrev calls : List (Call plain)
calls =
    puts_action_event (event 1 "executed" 86400000000)
    ∷ puts_action_event (event 2 "failed" 5)
    ∷ puts_action_event (event 1 "failed" 9)
    ∷ puts_action_event (event 3 "executed" 86400000007)
    ∷ puts_fact (release "6.8.0")
    ∷ puts_fact (release "6.9.1")
    ∷ puts_observation 1
    ∷ puts_observation 2
    ∷ puts_observation 3
    ∷ retains_ledger (pos 172800000000) (pos 1)
    ∷ []

run-new-IsKeyed_example : IsKeyed (run (new {p = plain}) calls)
run-new-IsKeyed_example = run-new-IsKeyed calls

run-Refines_example : view (run (new {p = plain}) calls) ≡ spec_run (view new) calls
run-Refines_example = run-Refines calls

abbrev executed : ActionEventFilter
executed = record { since = none; kind = none; status = some "executed"; limit = 1 }

list_action_events-Newest_example :
    Newest
      (λ (e : ActionEventRecord ℕ). e.occurred_at)
      (limit_of 1)
      (retain (matches executed) (run (new {p = plain}) calls).action_events)
      (list_action_events (run (new {p = plain}) calls) executed)
list_action_events-Newest_example = list_action_events-Newest (run (new {p = plain}) calls) executed

first_write_stays :
    list_action_events (run (new {p = plain}) calls) (record executed { limit = 0 })
    ≡ event 3 "executed" 86400000007 ∷ event 1 "executed" 86400000000 ∷ []
unfolding list_action_events limit_of matches run step put_action_event put_fact put_observation
    retain_ledger ◌-ℤ◌
first_write_stays = refl

last_fact_stays : (run (new {p = plain}) calls).facts ≡ release "6.9.1" ∷ []
unfolding run step put_action_event put_fact put_observation retain_ledger
last_fact_stays = refl

oldest_dropped :
    (retain_observations (run (new {p = plain}) calls) (pos 2)).observations ≡ 2 ∷ 3 ∷ []
unfolding retain_observations run step put_action_event put_fact put_observation retain_ledger
oldest_dropped = refl
