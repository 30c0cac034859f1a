-- ===== src/Tests/Procedures.antt =====
-- Concrete runs of the incidents (crates/argus-incidents) and the runbook ladder
-- (crates/argus-runbooks).
use argus_ai.Prelude.{ℕ, ◌≤◌, ◌≡◌, ◌↔◌, refl, List, [], ◌∷◌, arith, take, nat_eq}
use argus_ai.Prelude.Int.{pos}
use argus_ai.Prelude.Assoc
use argus_ai.Domain.{error}
use argus_ai.Incidents.{
  Incident, opened, investigating, closed, IncidentManager, opened_incident, find_live,
  open_incident, transition, get, valid_transition, invalid_transition,
}
use argus_ai.Incidents.Lifecycle
use argus_ai.Incidents.Lifecycle.{
  live_count, opens, moves, stages_left, one_live_per_key, transition_lem, transition_refused,
  IsRefusal, IsOpening, open_incident_lem,
}
use argus_ai.Runbooks.{
  Runbook, candidate_status, promoted_status, manual, evaluation, simulation, validation, policy,
  ladder, candidate, approve, promote, record_gate, has_reached,
}
use argus_ai.Runbooks.Ladder
use argus_ai.Runbooks.Ladder.{records, approves, promotes, promoted_earned, approved_earned}
use argus_ai.Runbooks.Operator.{promote-approve_iff, recorded_approval_stuck}

abbrev incident_calls : List Lifecycle.Call
incident_calls =
    opens 1 "disk" error [] "probe" (pos 0)
    ∷ opens 2 "disk" error [] "probe" (pos 5)
    ∷ moves 1 closed
    ∷ opens 3 "disk" error [] "probe" (pos 9)
    ∷ []

one_live_per_key_example : live_count "disk" (Lifecycle.run [] incident_calls) ≤ 1
one_live_per_key_example = one_live_per_key "disk" incident_calls

abbrev disk : Incident
disk = opened_incident 1 "disk" error [] "probe" (pos 0)

abbrev incidents : IncidentManager
incidents = (1, disk) ∷ []

transition_refused_example :
    ((transition incidents 9 closed).0 ≡ incidents)
    × IsRefusal (get incidents 9) 9 closed (argus_ai.Incidents.unknown_id 9)
unfolding transition Assoc.get
transition_refused_example =
    transition_refused incidents 9 closed (argus_ai.Incidents.unknown_id 9) refl

abbrev new_runbook : Runbook ℕ
new_runbook = candidate 1 "diagnose" manual [] [] [] [] [] []

abbrev climb : List Ladder.Call
climb =
    records evaluation
    ∷ records simulation
    ∷ records validation
    ∷ records policy
    ∷ approves
    ∷ promotes
    ∷ []

promoted_earned_example : take 6 (Ladder.run new_runbook climb).gates ≡ ladder
unfolding candidate Ladder.run Ladder.step record_gate approve promote has_reached
promoted_earned_example = promoted_earned new_runbook climb refl refl refl

approved_earned_example : take 5 (Ladder.run new_runbook (take 5 climb)).gates ≡ take 5 ladder
unfolding candidate Ladder.run Ladder.step record_gate approve promote has_reached
approved_earned_example = approved_earned new_runbook (take 5 climb) refl refl refl

abbrev ready : Runbook ℕ
ready = record new_runbook { gates = evaluation ∷ simulation ∷ validation ∷ policy ∷ [] }

promote-approve_iff_example :
    ((promote (approve (Ladder.run new_runbook (take 4 climb))).0).0.status ≡ promoted_status)
    ↔ ((Ladder.run new_runbook (take 4 climb)).gates ≡ take 4 ladder)
unfolding candidate Ladder.run Ladder.step record_gate
promote-approve_iff_example = promote-approve_iff new_runbook (take 4 climb) refl refl refl

recorded_approval_stuck_example :
    (Ladder.run (record ready { gates = take 5 ladder }) (approves ∷ promotes ∷ [])).status
    ≡ candidate_status
unfolding candidate
recorded_approval_stuck_example =
    recorded_approval_stuck (record ready { gates = take 5 ladder }) (approves ∷ promotes ∷ []) refl
      (omega arith)
