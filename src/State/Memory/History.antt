-- ===== src/State/Memory/History.antt =====
-- Any sequence of writing calls of the repository of crates/argus-state/src/memory.rs, and the keys that
-- stay distinct through it.
use Prim.Native.String.{compare}
use argus_ai.Prelude.{
  ℕ, ◌≡◌, false, List, [], ◌∷◌, eqb, string_eq, nat_eq, pair_eq, All, if_elim, ltb, length,
}
use argus_ai.Prelude.Int.{ℤ, pos_part}
use argus_ai.Domain.Plan.{Plan, Execution}
use argus_ai.Autonomy.{AutonomyState}
use argus_ai.Correlate.Graph.{is_after}
use argus_ai.State.Rows.{replace, Distinct}
use argus_ai.State.Rows.Keyed.{Distinct-retain, Distinct-push_new, Distinct-replace, eqb_sym}
use argus_ai.State.Memory.{
  Payloads, ActionEventRecord, BrainTraceRecord, TokenUsageRecord, Fact, fact_key, DeliveredRunbook,
  runbook_name, Inner, new,
}
use argus_ai.State.Memory.Calls.{
  key_of, save_environment, put_observation, put_audit_event, put_hypothesis, put_plan,
  put_execution, put_episode, put_fact, put_procedure, save_health, put_action_event,
  put_brain_trace, put_token_usage, retain_ledger, retain_observations, put_autonomy_state,
  runbook_in, sort_runbooks, put_runbook,
}

pub data Call (p : Payloads) : Type 0 where
  saves_environment : ℕ → Call p
  puts_observation : p.Observation → Call p
  puts_audit_event : p.DomainEvent → Call p
  puts_hypothesis : ℕ → p.Hypothesis → Call p
  puts_plan : ℕ → Plan p.V p.F → Call p
  puts_execution : ℕ → Execution p.V → Call p
  puts_episode : ℕ → p.Episode → Call p
  puts_fact : Fact → Call p
  puts_procedure : ℕ → p.ProcedureRecord → Call p
  saves_health : p.HealthStatus → Call p
  puts_action_event : ActionEventRecord p.V → Call p
  puts_brain_trace : BrainTraceRecord → Call p
  puts_token_usage : TokenUsageRecord → Call p
  retains_ledger retains_observations : ℤ → ℤ → Call p
  puts_autonomy_state : AutonomyState → Call p
  puts_runbook : DeliveredRunbook p.Criterion → Call p

module _ {p : Payloads} where
  unfoldable pub step : Inner p → Call p → Inner p
  step r (saves_environment id) = save_environment r id
  step r (puts_observation o) = put_observation r o
  step r (puts_audit_event e) = put_audit_event r e
  step r (puts_hypothesis id h) = put_hypothesis r id h
  step r (puts_plan id plan) = put_plan r id plan
  step r (puts_execution id e) = put_execution r id e
  step r (puts_episode id e) = put_episode r id e
  step r (puts_fact f) = put_fact r f
  step r (puts_procedure id x) = put_procedure r id x
  step r (saves_health h) = save_health r h
  step r (puts_action_event e) = put_action_event r e
  step r (puts_brain_trace t) = put_brain_trace r t
  step r (puts_token_usage u) = put_token_usage r u
  step r (retains_ledger now days) = retain_ledger r now days
  step r (retains_observations now max_rows) = retain_observations r max_rows
  step r (puts_autonomy_state s) = put_autonomy_state r s
  step r (puts_runbook x) = put_runbook r x

  unfoldable pub run : Inner p → List (Call p) → Inner p
  run r [] = r
  run r (c ∷ cs) = run (step r c) cs

  -- Every keyed collection has at most one row under a key.
  abbrev pub IsKeyed : Inner p → Type 0
  IsKeyed r =
      Distinct (λ (e : ActionEventRecord p.V). e.event_id) r.action_events
      × Distinct (λ (t : BrainTraceRecord). t.trace_id) r.brain_traces
      × Distinct key_of r.episodes
      × Distinct fact_key r.facts
      × Distinct key_of r.procedures
      × Distinct runbook_name r.runbooks

All-runbook_in :
    {C : Type 0} (P : DeliveredRunbook C → Type 0) (x : DeliveredRunbook C)
    (ys : List (DeliveredRunbook C))
    → P x
    → All P ys
    → All P (runbook_in x ys)
unfolding runbook_in
All-runbook_in P x [] h hs = (h, tt)
All-runbook_in P x (y ∷ ys) h (k, hs) =
    if_elim (All P) (is_after (compare (runbook_name x) (runbook_name y)))
      (λ _. (k, All-runbook_in P x ys h hs)) (λ _. (h, (k, hs)))

pub All-sort_runbooks :
    {C : Type 0} (P : DeliveredRunbook C → Type 0) (xs : List (DeliveredRunbook C))
    → All P xs
    → All P (sort_runbooks xs)
unfolding sort_runbooks
All-sort_runbooks P [] h = tt
All-sort_runbooks P (x ∷ xs) (h, hs) =
    All-runbook_in P x (sort_runbooks xs) h (All-sort_runbooks P xs hs)

Distinct-runbook_in :
    {C : Type 0} (x : DeliveredRunbook C) (ys : List (DeliveredRunbook C))
    → All (λ y. eqb (runbook_name y) (runbook_name x) ≡ false) ys
    → Distinct runbook_name ys
    → Distinct runbook_name (runbook_in x ys)
unfolding runbook_in
Distinct-runbook_in x [] h d = (tt, tt)
Distinct-runbook_in x (y ∷ ys) (h, hs) (d, ds) =
    if_elim (Distinct runbook_name) (is_after (compare (runbook_name x) (runbook_name y)))
      (λ _. (
        All-runbook_in _ x ys (eqb_sym (runbook_name y) (runbook_name x) h) d,
        Distinct-runbook_in x ys hs ds,
      ))
      (λ _. ((h, hs), (d, ds)))

pub Distinct-sort_runbooks :
    {C : Type 0} (xs : List (DeliveredRunbook C))
    → Distinct runbook_name xs
    → Distinct runbook_name (sort_runbooks xs)
unfolding sort_runbooks
Distinct-sort_runbooks [] d = tt
Distinct-sort_runbooks (x ∷ xs) (d, ds) =
    Distinct-runbook_in x (sort_runbooks xs) (All-sort_runbooks _ xs d)
      (Distinct-sort_runbooks xs ds)

module _ {p : Payloads} where
  pub step-IsKeyed : (r : Inner p) (c : Call p) → IsKeyed r → IsKeyed (step r c)
  unfolding step save_environment put_observation put_audit_event put_hypothesis put_plan
      put_execution put_episode put_fact put_procedure save_health put_action_event put_brain_trace
      put_token_usage retain_ledger retain_observations put_autonomy_state put_runbook
  step-IsKeyed r (puts_episode id x) (e, t, s, f, q, b) =
      (e, t, Distinct-replace key_of (id, x) r.episodes s, f, q, b)
  step-IsKeyed r (puts_fact x) (e, t, s, f, q, b) =
      (e, t, s, Distinct-replace fact_key x r.facts f, q, b)
  step-IsKeyed r (puts_procedure id x) (e, t, s, f, q, b) =
      (e, t, s, f, Distinct-replace key_of (id, x) r.procedures q, b)
  step-IsKeyed r (puts_action_event x) (e, t, s, f, q, b) =
      (Distinct-push_new (λ y. y.event_id) x r.action_events e, t, s, f, q, b)
  step-IsKeyed r (puts_brain_trace x) (e, t, s, f, q, b) =
      (e, Distinct-push_new (λ y. y.trace_id) x r.brain_traces t, s, f, q, b)
  step-IsKeyed r (retains_ledger now days) (e, t, s, f, q, b) = (
    Distinct-retain (λ y. y.event_id) _ r.action_events e,
    Distinct-retain (λ y. y.trace_id) _ r.brain_traces t,
    s,
    f,
    q,
    b,
  )
  step-IsKeyed r (puts_runbook x) (e, t, s, f, q, b) = (
    e,
    t,
    s,
    f,
    q,
    Distinct-sort_runbooks (replace runbook_name x r.runbooks)
        (Distinct-replace runbook_name x r.runbooks b),
  )
  step-IsKeyed r (retains_observations now max_rows) v =
      if_elim IsKeyed (ltb (pos_part max_rows) (length r.observations)) (λ _. v) (λ _. v)
  step-IsKeyed r c v = v

  pub run-IsKeyed : (r : Inner p) (cs : List (Call p)) → IsKeyed r → IsKeyed (run r cs)
  unfolding run
  run-IsKeyed r [] v = v
  run-IsKeyed r (c ∷ cs) v = run-IsKeyed (step r c) cs (step-IsKeyed r c v)

  -- After any sequence of calls on an empty repository, in any order: no two rows of the action ledger
  -- have the same event id, no two traces the same trace id, no two episodes or procedures the same id, no
  -- two facts the same subject and attribute, and no two delivered runbooks the same name.
  pub run-new-IsKeyed : (cs : List (Call p)) → IsKeyed (run new cs)
  run-new-IsKeyed cs = run-IsKeyed new cs (tt, tt, tt, tt, tt, tt)
