-- ===== src/State/Memory.antt =====
-- The in-memory repository of crates/argus-state/src/memory.rs, with the records of
-- crates/argus-domain/src/ledger.rs that it queries. A call that locks the mutex is one step; a
-- poisoned lock, which a panic inside a call leaves, does not arise. What the repository only carries
-- is of a type of its own.
pub mod Calls
pub mod History
pub mod Refined
pub mod Ledger
use Prim.Native.Nat.{Ordering}
use Prim.Native.String.{String, compare}
use argus_ai.Prelude.{
  ℕ, ◌+◌, ◌-◌, ◌*◌, Bool, true, false, not, ◌||◌, Option, none, some, List, [], ◌∷◌, ◌++◌, eqb,
  string_eq, nat_eq, ltb, length, take, drop, if◌then◌else◌,
}
use argus_ai.Prelude.Int.{ℤ, pos, pos_part, ◌-ℤ◌, leb_ℤ, int_eq}
use argus_ai.Domain.Plan.{Plan, Execution}
use argus_ai.Autonomy.{AutonomyState}
use argus_ai.Runbooks.{Runbook}
use argus_ai.Correlate.Graph.{is_after}
use argus_ai.State.Rows.{retain, newest_first, push_new, replace}

-- The types of what is stored, those of JSON values, of an `f64` and of a runbook's criteria first.
pub record Payloads : Type 1 where
  pub V : Type 0
  pub F : Type 0
  pub Criterion : Type 0
  pub Observation : Type 0
  pub DomainEvent : Type 0
  pub HealthStatus : Type 0
  pub Hypothesis : Type 0
  pub Episode : Type 0
  pub ProcedureRecord : Type 0

pub record ActionEventRecord (V : Type 0) : Type 0 where
  pub event_id : ℕ
  pub correlation_id : ℕ
  pub causation_id : Option ℕ
  pub cycle_id : Option ℕ
  pub plan_id : Option ℕ
  pub kind : String
  pub target : Option String
  pub args : V
  pub verdict : String
  pub policy_id : Option String
  pub outcome : String
  pub duration_ms : Option ℕ
  pub validation : Option V
  pub occurred_at : ℤ

pub record BrainTraceRecord : Type 0 where
  pub trace_id : ℕ
  pub cycle_id : Option ℕ
  pub plan_id : Option ℕ
  pub evidence : List String
  pub decision : Option String
  pub objective : Option String
  pub steps : List String
  pub outcome : Option String
  pub occurred_at : ℤ

pub record TokenUsageRecord : Type 0 where
  pub cycle_id : Option ℕ
  pub model : Option String
  pub prompt_tokens : Option ℕ
  pub completion_tokens : Option ℕ
  pub total_tokens : Option ℕ
  pub duration_ms : Option ℕ
  pub occurred_at : ℤ

pub record ActionEventFilter : Type 0 where
  pub since : Option ℤ
  pub kind : Option String
  pub status : Option String
  pub limit : ℕ

abbrev pub default_action_event_limit : ℕ
default_action_event_limit = 200

-- A fact of crates/argus-memory/src/semantic.rs, and what it is filed under.
pub record Fact : Type 0 where
  pub subject : String
  pub attribute : String
  pub value : String
  pub source : String
  pub learned_at : ℤ

pub record DeliveredRunbook (C : Type 0) : Type 0 where
  pub runbook : Runbook C
  pub configuration_id : ℕ
  pub version_id : ℕ
  pub version_number : ℤ
  pub delivered_at : ℤ

abbrev pub runbook_name : {C : Type 0} → DeliveredRunbook C → String
runbook_name r = r.runbook.name

abbrev pub fact_key : Fact → String × String
fact_key f = (f.subject, f.attribute)

pub record Inner (p : Payloads) : Type 0 where
  pub environment : Option ℕ
  pub observations : List p.Observation
  pub audit_events : List p.DomainEvent
  pub health : Option p.HealthStatus
  pub hypotheses : List (ℕ × p.Hypothesis)
  pub plans : List (ℕ × Plan p.V p.F)
  pub executions : List (ℕ × Execution p.V)
  pub episodes : List (ℕ × p.Episode)
  pub facts : List Fact
  pub procedures : List (ℕ × p.ProcedureRecord)
  pub action_events : List (ActionEventRecord p.V)
  pub brain_traces : List BrainTraceRecord
  pub token_usage : List TokenUsageRecord
  pub autonomy : Option AutonomyState
  pub runbooks : List (DeliveredRunbook p.Criterion)

abbrev pub new : {p : Payloads} → Inner p
new = record {
  environment = none;
  observations = [];
  audit_events = [];
  health = none;
  hypotheses = [];
  plans = [];
  executions = [];
  episodes = [];
  facts = [];
  procedures = [];
  action_events = [];
  brain_traces = [];
  token_usage = [];
  autonomy = none;
  runbooks = [];
}
