-- ===== src/Lib.antt =====
-- A verification library for argus-ai, an autonomous operations daemon. The daemon observes a host,
-- lets a model propose actions, and runs only what its deterministic layers admit. This library
-- models those layers and states what keeps them safe.
--
-- The parts, and how they meet. A proposal's candidate is judged by the escalation decision, which
-- takes the autonomy level and the policy outcome as inputs; the level is the lower of the operator's
-- ceiling and the rung that the assimilation machine has earned; an action consumes the machine's
-- blast-radius budget, passes the autopilot governor, and, where it is gated, an approval that
-- authorizes one invocation. The sentinel watches the daemon's own health and takes the automatic
-- fixes away when it degrades. Incidents and learned runbooks have their own lifecycles. What the
-- daemon did is reported to the cloud through bounded buffers, over a connection that is tried again
-- with backoff. A plan goes step by step through all of these gates in the daemon's control loop, which
-- executes, validates, rolls back, pauses and resumes it. The correlation graph says what depends on
-- what.
--
-- Where the code is modelled:
--   Prelude       shared tests, lists, machine words, signed integers and association lists
--   Domain        crates/argus-domain/src/{reasoning,autonomy,capability,authorization,event}.rs:
--                 autonomy levels and their ladder, risk classes, scopes, policy outcomes
--   Domain.Plan, Domain.Registry   plans and executions of crates/argus-domain/src/reasoning.rs; the
--                 capability registry of crates/argus-domain/src/{registry,capability}.rs
--   Policy.Budget      crates/argus-policy/src/budget.rs: reserve, refund, remaining
--   Policy.Escalation  crates/argus-policy/src/escalation.rs: decide_escalation
--   Policy.Approval    crates/argus-policy/src/approval.rs, ExecutionApproval of
--                 crates/argus-domain/src/cloud.rs: grant, deny, consume, revoke
--   Policy.Autopilot   crates/argus-policy/src/autopilot.rs: decide, record, evaluate; its InFlight
--                 interleaves the evaluations of many callers
--   Policy.Bootstrap   crates/argus-policy/src/bootstrap.rs: the channel's policy and the local loop's,
--                 with the capability names of crates/argus-domain/src/id.rs
--   Sentinel      crates/argus-daemon/src/sentinel.rs, the safe mode of
--                 crates/argus-observability/src/selfobs.rs
--   Autonomy      crates/argus-daemon/src/autonomy.rs: the state with load and persist, over the
--                 AutonomyState of crates/argus-domain/src/autonomy.rs; Autonomy.Cycle has the body of
--                 on_cycle and the rung transition, Autonomy.Manager the methods on_cycle,
--                 on_validation_failed, record_validated_executions, reserve and refund
--   Cloud.Report, Cloud.ReportQueue, Cloud.LedgerBuffer   crates/argus-cloud/src/buffer.rs
--   Cloud.Backoff      crates/argus-cloud/src/transport/backoff.rs
--   Cloud.Reconnect    crates/argus-cloud/src/client/supervisor.rs, failures of handshake.rs
--   Incidents     crates/argus-incidents/src/lib.rs: open, transition, open_incidents
--   Runbooks      crates/argus-runbooks/src/{runbook,promotion}.rs: record_gate, approve, promote
--   Control       crates/argus-daemon/src/control.rs: Control.Families has its tables of capabilities, with
--                 those of crates/argus-executor/src, crates/argus-validate/src/lib.rs and the autonomy
--                 matrix of crates/argus-ai-core/src/decision/autonomy.rs; Control.Ports what the loop is
--                 given; Control.Effects execute_action, observe_target, desired_state_holds and
--                 validate_step; Control.State the run, with record_failure and rollback_executed;
--                 Control.Step execute_allowed_step; Control.Loop run_plan, one function for each gate;
--                 Control.Resume resume_and_run_with_ports
--   Correlate     crates/argus-correlate/src/graph.rs: owners, dependents, dependencies,
--                 nearest_owner_of_kind
--   Executor.Guardrail   crates/argus-executor/src/guardrail.rs: register, check, the predicates
--   Tests         the theorems at concrete inputs, and runs of the code
--
-- How state corresponds. A struct is a record with the source's fields; a method that takes `&mut
-- self`, or locks a mutex, is a function from the state to the state and the result, since the lock
-- makes the call one step; where a call takes the lock twice, as the governor's evaluation does, its
-- parts are steps that interleave; the clock, fresh UUIDs and whether the repository stored a value are
-- arguments. A hash map is an association list. Instants and durations are signed counts of clock
-- units, except in the backoff, where a duration is a count of nanoseconds; its panic is an absent result. Counters are natural
-- numbers with the wrap-around or the saturation of their width written out. `f32` values and JSON
-- values are interfaces, records of what the code uses of them.
--
-- Bounds and fuel. The two `while` loops that pop from the front of a queue, in `requeue_front` and
-- `push_trace`, recurse on the number of entries: each round pops one, so the fuel never runs out
-- before the loop's own condition ends it. A search of the graph has a round for its start and one for
-- each edge; that these suffice is a theorem. So is that the
-- loop over the headers of a text ends in as many rounds as the text has characters, and one more. The
-- loop of the governor's window is structural. Theorems
-- on `u64` and `u32` counters that saturate assume fewer than 2^64 or 2^32 increments.
--
-- The executors' controllers are the interface Host, whose conversion of a process id to a text and back is
-- relied on for an `i32`, and the interface Cluster; a text that is taken apart is the list of its code
-- points. The control loop's ports are a record of functions on a type of worlds: a port that acts returns the
-- world after it, a live read returns a result. What the budget gate is relied on to do is the interface
-- Meter. The identifiers, durations and log lines of the loop are left out, and so is the wording of
-- reasons.
--
-- Not modelled: the asynchronous wiring of the daemon, the correlator of changes,
-- configuration, the durable repositories' SQL, the protocols (MCP, IPC, cloud messages), the sensors and the
-- model providers, the command line and the terminal interface. They are I/O, generated or wired code,
-- or wait for modules of their own.
pub mod Prelude
pub mod Domain
pub mod Policy
pub mod Sentinel
pub mod Autonomy
pub mod Cloud
pub mod Incidents
pub mod Runbooks
pub mod Control
pub mod Correlate
pub mod Executor
pub mod State
mod Tests
