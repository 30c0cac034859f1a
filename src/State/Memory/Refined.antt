-- ===== src/State/Memory/Refined.antt =====
-- What the repository of crates/argus-state/src/memory.rs promises of its keyed collections: each is a
-- partial map, whose ledgers keep the first write under an id and whose memories keep the last.
use mathlib.Core.Path.{fun_ext}
use Prim.Native.String.{String, compare}
use argus_ai.Prelude.{
  ℕ, ◌≡◌, refl, ap, ◌∙◌, Bool, false, Bool-cases, inl, inr, Option, none, some, List, [], ◌∷◌, Eq,
  eqb, eqb_iff, string_eq, nat_eq, pair_eq, All, ltb, length, if_elim, arith, if◌then◌else◌,
}
use argus_ai.Prelude.Int.{ℤ, pos_part, leb_ℤ}
use argus_ai.Correlate.Graph.{is_after}
use argus_ai.State.Rows.{with_key, replace, Distinct}
use argus_ai.State.Rows.Keyed.{
  or_else, filtered, with_key-push_new, with_key-replace, with_key-retain, Distinct-replace,
}
use argus_ai.State.Memory.{
  Payloads, ActionEventRecord, BrainTraceRecord, Fact, fact_key, DeliveredRunbook, runbook_name,
  Inner, new,
}
use argus_ai.State.Memory.Calls.{
  key_of, cutoff_of, save_environment, put_observation, put_audit_event, put_hypothesis, put_plan,
  put_execution, put_episode, put_fact, put_procedure, save_health, put_action_event,
  put_brain_trace, put_token_usage, retain_ledger, retain_observations, put_autonomy_state,
  runbook_in, sort_runbooks, put_runbook,
}
use argus_ai.State.Memory.History.{
  Call, puts_episode, puts_fact, puts_procedure, puts_action_event, puts_brain_trace,
  retains_ledger, retains_observations, puts_runbook, step, run, IsKeyed, step-IsKeyed,
  All-sort_runbooks,
}

-- The abstract view: what stands under every key.
pub record View (p : Payloads) : Type 0 where
  pub events : ℕ → Option (ActionEventRecord p.V)
  pub traces : ℕ → Option BrainTraceRecord
  pub episodes : ℕ → Option (ℕ × p.Episode)
  pub facts : String × String → Option Fact
  pub procedures : ℕ → Option (ℕ × p.ProcedureRecord)
  pub runbooks : String → Option (DeliveredRunbook p.Criterion)

module _ {ℓ κ} {K : Type ℓ} {A : Type κ} ⦃e : Eq K⦄ where
  abbrev pub write_once : K → A → (K → Option A) → K → Option A
  write_once k x f j = or_else (f j) (if eqb k j then some x else none)

  abbrev pub overwrite : K → A → (K → Option A) → K → Option A
  overwrite k x f j = if eqb k j then some x else f j

with_key-runbook_in :
    {C : Type 0} (k : String) (x : DeliveredRunbook C) (ys : List (DeliveredRunbook C))
    → All (λ y. eqb (runbook_name y) (runbook_name x) ≡ false) ys
    → with_key runbook_name k (runbook_in x ys)
      ≡ (if eqb (runbook_name x) k then some x else with_key runbook_name k ys)
unfolding runbook_in
with_key-runbook_in k x [] h = refl
with_key-runbook_in k x (y ∷ ys) (h, hs) =
    elim (Bool-cases (is_after (compare (runbook_name x) (runbook_name y)))) [
      | inl q ↦
          ap (λ b. with_key runbook_name k (if b then y ∷ runbook_in x ys else x ∷ y ∷ ys)) q
          ∙ ap (λ o. if eqb (runbook_name y) k then some y else o) (with_key-runbook_in k x ys hs)
          ∙ apart
      | inr q ↦ ap (λ b. with_key runbook_name k (if b then y ∷ runbook_in x ys else x ∷ y ∷ ys)) q
    ]
  where
    apart :
        (if eqb (runbook_name y) k
          then some y
          else if eqb (runbook_name x) k
          then some x
          else with_key runbook_name k ys)
        ≡ (if eqb (runbook_name x) k
            then some x
            else if eqb (runbook_name y) k
            then some y
            else with_key runbook_name k ys)
    apart = ground (
      arith,
      h,
      eqb_iff (runbook_name y) k,
      eqb_iff (runbook_name x) k,
      eqb_iff (runbook_name y) (runbook_name x),
    )

-- Sorting does not change what stands under a name.
with_key-sort_runbooks :
    {C : Type 0} (k : String) (xs : List (DeliveredRunbook C))
    → Distinct runbook_name xs
    → with_key runbook_name k (sort_runbooks xs) ≡ with_key runbook_name k xs
unfolding sort_runbooks
with_key-sort_runbooks k [] d = refl
with_key-sort_runbooks k (x ∷ xs) (d, ds) =
    with_key-runbook_in k x (sort_runbooks xs) (All-sort_runbooks _ xs d)
    ∙ ap (λ o. if eqb (runbook_name x) k then some x else o) (with_key-sort_runbooks k xs ds)

module _ {p : Payloads} where
  unfoldable pub view : Inner p → View p
  view r = record {
    events = λ k. with_key (λ (e : ActionEventRecord p.V). e.event_id) k r.action_events;
    traces = λ k. with_key (λ (t : BrainTraceRecord). t.trace_id) k r.brain_traces;
    episodes = λ k. with_key key_of k r.episodes;
    facts = λ k. with_key fact_key k r.facts;
    procedures = λ k. with_key key_of k r.procedures;
    runbooks = λ k. with_key runbook_name k r.runbooks;
  }

  -- What a call does to the maps.
  unfoldable pub spec_step : View p → Call p → View p
  spec_step v (puts_action_event e) = record v { events = write_once e.event_id e v.events }
  spec_step v (puts_brain_trace t) = record v { traces = write_once t.trace_id t v.traces }
  spec_step v (puts_episode id x) = record v { episodes = overwrite id (id, x) v.episodes }
  spec_step v (puts_fact f) = record v { facts = overwrite (fact_key f) f v.facts }
  spec_step v (puts_procedure id x) = record v { procedures = overwrite id (id, x) v.procedures }
  spec_step v (puts_runbook x) = record v { runbooks = overwrite (runbook_name x) x v.runbooks }
  spec_step v (retains_ledger now days) = record v {
    events = λ k. filtered (λ e. leb_ℤ (cutoff_of now days) e.occurred_at) (v.events k);
    traces = λ k. filtered (λ t. leb_ℤ (cutoff_of now days) t.occurred_at) (v.traces k);
  }
  spec_step v c = v

  unfoldable pub spec_run : View p → List (Call p) → View p
  spec_run v [] = v
  spec_run v (c ∷ cs) = spec_run (spec_step v c) cs

  step-Refines : (r : Inner p) (c : Call p) → IsKeyed r → view (step r c) ≡ spec_step (view r) c
  unfolding view spec_step step save_environment put_observation put_audit_event put_hypothesis
      put_plan put_execution put_episode put_fact put_procedure save_health put_action_event
      put_brain_trace put_token_usage retain_ledger retain_observations put_autonomy_state
      put_runbook
  step-Refines r (puts_action_event x) d =
      ap (λ f. record (view r) { events = f })
        (fun_ext λ k. with_key-push_new (λ y. y.event_id) k x r.action_events)
  step-Refines r (puts_brain_trace x) d =
      ap (λ f. record (view r) { traces = f })
        (fun_ext λ k. with_key-push_new (λ y. y.trace_id) k x r.brain_traces)
  step-Refines r (puts_episode id x) d =
      ap (λ f. record (view r) { episodes = f })
        (fun_ext λ k. with_key-replace key_of k (id, x) r.episodes)
  step-Refines r (puts_fact x) d =
      ap (λ f. record (view r) { facts = f }) (fun_ext λ k. with_key-replace fact_key k x r.facts)
  step-Refines r (puts_procedure id x) d =
      ap (λ f. record (view r) { procedures = f })
        (fun_ext λ k. with_key-replace key_of k (id, x) r.procedures)
  step-Refines r (puts_runbook x) (e, t, s, f, q, b) =
      ap (λ f. record (view r) { runbooks = f })
        (fun_ext λ k.
          with_key-sort_runbooks k (replace runbook_name x r.runbooks)
            (Distinct-replace runbook_name x r.runbooks b)
          ∙ with_key-replace runbook_name k x r.runbooks)
  step-Refines r (retains_ledger now days) (e, t, s, f, q, b) = λ i. record (view r) {
    events =
        λ k. with_key-retain (λ y. y.event_id) k (kept (λ y. y.occurred_at)) r.action_events e i;
    traces =
        λ k. with_key-retain (λ y. y.trace_id) k (kept (λ y. y.occurred_at)) r.brain_traces t i;
  }
    where
      kept : {A : Type 0} → (A → ℤ) → A → Bool
      kept at y = leb_ℤ (cutoff_of now days) (at y)
  step-Refines r (retains_observations now max_rows) d =
      if_elim (λ s. view s ≡ view r) (ltb (pos_part max_rows) (length r.observations)) (λ _. refl)
        (λ _. refl)
  step-Refines r c d = refl

  run-Refines_from :
      (r : Inner p) (cs : List (Call p)) → IsKeyed r → view (run r cs) ≡ spec_run (view r) cs
  unfolding run spec_run
  run-Refines_from r [] d = refl
  run-Refines_from r (c ∷ cs) d =
      run-Refines_from (step r c) cs (step-IsKeyed r c d)
      ∙ ap (λ v. spec_run v cs) (step-Refines r c d)

  -- Any sequence of calls on an empty repository leaves under every key what the same calls leave of
  -- six empty maps: in the action ledger and the traces the first write under an id stays, until a
  -- retention whose cutoff is later than the row takes it; of the episodes, facts, procedures and runbooks
  -- the last write under a key stays; every other call leaves the maps alone.
  pub run-Refines : (cs : List (Call p)) → view (run new cs) ≡ spec_run (view new) cs
  run-Refines cs = run-Refines_from new cs (tt, tt, tt, tt, tt, tt)
