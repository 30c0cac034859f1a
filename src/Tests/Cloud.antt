-- ===== src/Tests/Cloud.antt =====
-- Concrete runs of the buffers and the reconnection of crates/argus-cloud.
use argus_ai.Prelude.{
  ℕ, ◌+◌, ◌≤◌, ◌≡◌, refl, Option, none, some, List, [], ◌∷◌, ◌++◌, String, arith, map, length, max,
  string_eq,
}
use argus_ai.Prelude.Int.{ℤ, pos}
use argus_ai.Cloud.Report.{
  BufferedReport, entry, attempted, health, events, action_ledger, brain_trace,
}
use argus_ai.Cloud.ReportQueue.{ReportQueue}
use argus_ai.Cloud.ReportQueue.Bounded.{IsBounded}
use argus_ai.Cloud.ReportQueue.Refined.{Refines, empty, mail_run, queue-Refines}
use argus_ai.Cloud.ReportQueue.Account
use argus_ai.Cloud.ReportQueue.Account.{offers, drains, delivers, fails, reports_accounted}
use argus_ai.Cloud.LedgerBuffer
use argus_ai.Cloud.LedgerBuffer.{
  Json, LedgerBuffer, UsageSum, batch, push_trace, stamp, try_push_action, push_blocked, admitted,
  ledger_action_capacity, ledger_trace_capacity,
}
use argus_ai.Cloud.LedgerBuffer.Retry.{WellKinded, requeue-drain_apart}
use argus_ai.Cloud.LedgerBuffer.Usage.{Distinct}
use argus_ai.Cloud.Backoff.{Backoff, ceiling}
use argus_ai.Cloud.Reconnect.{
  handshake_failed, rejected, transport_failed, session_ended, with_seed, sixty_seconds,
}
use argus_ai.Cloud.Reconnect.Schedule
use argus_ai.Cloud.Reconnect.Schedule.{Answers, answer, connected, ended, reconnect-IsPaced}

abbrev report : ℕ → BufferedReport ℕ
report n = record { entry_id = n; kind = health; payload = n; enqueued_at = pos n; attempts = 0 }

abbrev full_queue : ReportQueue ℕ
full_queue = record {
  capacity = 2;
  entries = report 1 ∷ report 2 ∷ [];
  dropped_total = 0;
  last_drain_at = none;
}

bounded : IsBounded full_queue
bounded = record { positive = omega arith; within = omega arith }

abbrev queue_calls : List (Account.Call ℕ)
queue_calls =
    offers 1 health 1 (pos 1)
    ∷ offers 2 health 2 (pos 2)
    ∷ drains 1 (pos 3)
    ∷ offers 3 events 3 (pos 4)
    ∷ fails
    ∷ drains 2 (pos 5)
    ∷ delivers
    ∷ []

reports_accounted_example :
    let t = Account.run (Account.start 1) queue_calls in
    (length t.queue.entries ≤ max 1 1)
    × (t.offered
        ≡ length t.queue.entries + length t.in_flight + t.delivered + t.queue.dropped_total)
reports_accounted_example = reports_accounted 1 queue_calls (omega arith)

queue-Refines_example :
    Refines (Account.run (Account.start 1) queue_calls) (mail_run (max 1 1) empty queue_calls)
queue-Refines_example = queue-Refines 1 queue_calls (omega arith)

-- JSON values that are usage objects, or traces with their stamp.
data Value : Type 0 where
  usage_object : UsageSum → ℤ → Value
  trace_object : ℕ → Value

abbrev insert_stamp : String → ℕ → Value → Option Value
insert_stamp key n (usage_object u now) = none
insert_stamp key n (trace_object m) = some (trace_object n)

abbrev usage_of : Value → Option UsageSum
usage_of (usage_object u now) = some u
usage_of (trace_object n) = none

abbrev values : Json
values = record {
  V = Value;
  insert_number = insert_stamp;
  usage_payload = usage_object;
  read_usage = usage_of;
  read-payload = λ u now. refl;
}

abbrev sum_of : String → ℕ → UsageSum
sum_of model n = record {
  usage_id = n;
  cycle_id = none;
  model = some model;
  prompt_tokens = some n;
  completion_tokens = some 1;
  total_tokens = some (n + 1);
  calls = 1;
  unknown_usage = 0;
  duration_ms = n;
}

abbrev buffer : LedgerBuffer Value
buffer = record {
  actions = entry 1 action_ledger (trace_object 0) (pos 1) ∷ [];
  traces = entry 2 brain_trace (trace_object 0) (pos 2) ∷ [];
  dropped_traces = 0;
  usage = sum_of "a" 3 ∷ sum_of "b" 4 ∷ [];
}

well_kinded : WellKinded buffer
well_kinded = record { actions = (refl, tt); traces = (refl, tt) }

distinct : Distinct buffer.usage
distinct = ((refl, tt), (tt, tt))

-- What came since the drain: a call of another model.
abbrev later_usage : LedgerBuffer Value
later_usage = record { actions = []; traces = []; dropped_traces = 0; usage = sum_of "c" 9 ∷ [] }

requeue-drain_apart_example :
    LedgerBuffer.requeue values later_usage (LedgerBuffer.drain values buffer (λ n. n) (pos 5)).1
    ≡ record later_usage {
      actions = map attempted buffer.actions ++ [];
      traces = map attempted buffer.traces ++ [];
      usage = sum_of "c" 9 ∷ buffer.usage;
    }
requeue-drain_apart_example =
    requeue-drain_apart values buffer later_usage (λ n. n) (pos 5) well_kinded distinct
      ((refl, tt), ((refl, tt), tt))

abbrev backoff : Backoff
backoff = record {
  base = 1000000000;
  maximum = 300000000000;
  attempt = 2;
  state = 88172645463325252;
}

-- Four seconds at the third attempt.
four_seconds : ceiling backoff ≡ 4000000000
unfolding ceiling
four_seconds = refl

abbrev reconnects : List Schedule.Event
reconnects =
    ended (transport_failed "refused")
    ∷ connected
    ∷ ended session_ended
    ∷ ended (handshake_failed (rejected "RATE_LIMITED" ""))
    ∷ []

reconnect-IsPaced_example :
    Answers
      (max 300000000000 1000000000)
      sixty_seconds
      (handshake_failed (rejected "RATE_LIMITED" "slow down"))
      (answer
        (Schedule.run (some (with_seed 1000000000 300000000000 7)) reconnects)
        (handshake_failed (rejected "RATE_LIMITED" "slow down")))
reconnect-IsPaced_example =
    reconnect-IsPaced 1000000000 300000000000 7 reconnects
      (handshake_failed (rejected "RATE_LIMITED" "slow down")) (omega arith)
