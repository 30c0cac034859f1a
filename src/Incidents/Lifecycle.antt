-- ===== src/Incidents/Lifecycle.antt =====
-- Deduplication and lifecycle of the incidents of crates/argus-incidents/src/lib.rs.
use argus_ai.Prelude.{
  ℕ, ◌+◌, ◌≤◌, ◌<◌, ◌≡◌, refl, ◌⊎◌, inl, inr, true, false, Option, none, some, List, [], ◌∷◌,
  String, arith, eqb, eqb_iff, nat_eq, string_eq, to_ℕ, if◌then◌else◌, Bool-cases,
}
use argus_ai.Prelude.Int.{ℤ}
use argus_ai.Prelude.Assoc
use argus_ai.Prelude.Assoc.{get-insert}
use argus_ai.Domain.{Severity}
use argus_ai.Incidents.{
  Incident, IncidentStatus, opened, investigating, mitigated, resolved, closed, IncidentManager,
  Opened, IncidentError, is_live, find_live, open_incident, opened_incident, open_found, transition,
  transition_found, valid_transition, get, unknown_id, invalid_transition,
}

-- How many incidents that are not closed have the key.
unfoldable pub live_count : String → IncidentManager → ℕ
live_count key [] = 0
live_count key ((j, i) ∷ m) = to_ℕ (is_live key i) + live_count key m

abbrev live_of : String → Option Incident → ℕ
live_of key none = 0
live_of key (some i) = to_ℕ (is_live key i)

live_count-insert :
    (key : String) (id : ℕ) (i : Incident) (m : IncidentManager)
    → live_count key (Assoc.insert id i m) + live_of key (Assoc.get id m)
      ≡ live_count key m + to_ℕ (is_live key i)
unfolding live_count Assoc.insert Assoc.get
live_count-insert key id i [] = omega arith
live_count-insert key id i ((j, k) ∷ m) = ground (arith, live_count-insert key id i m)

live_count-find :
    (key : String) (m : IncidentManager) → find_live key m ≡ none → live_count key m ≡ 0
unfolding live_count find_live
live_count-find key [] h = refl
live_count-find key ((j, i) ∷ m) h = ground (arith, live_count-find key m)

-- One call of the manager.
pub data Call : Type 0 where
  opens : ℕ → String → Severity → List String → String → ℤ → Call
  moves : ℕ → IncidentStatus → Call

unfoldable pub step : IncidentManager → Call → IncidentManager
step m (opens fresh key severity affected source now) =
    (open_incident m fresh key severity affected source now).0
step m (moves id status) = (transition m id status).0

unfoldable pub run : IncidentManager → List Call → IncidentManager
run m [] = m
run m (c ∷ cs) = run (step m c) cs

open-live :
    (o : Option Incident) (key : String) (m : IncidentManager) (i : Incident)
    → find_live i.dedup_key m ≡ o
    → live_count key m ≤ 1
    → live_count key (open_found o m i).0 ≤ 1
unfolding open_found
open-live none key m i e h = ground (
  arith,
  live_count-insert key i.id i m,
  live_count-find i.dedup_key m e,
  eqb_iff i.dedup_key key,
)
open-live (some j) key m i e h = h

transition-live :
    (o : Option Incident) (key : String) (m : IncidentManager) (id : ℕ) (status : IncidentStatus)
    → Assoc.get id m ≡ o
    → live_count key (transition_found o m id status).0 ≤ live_count key m
unfolding transition_found valid_transition
transition-live none key m id status e = omega arith
transition-live (some i) key m id status e =
    ground (arith, live_count-insert key id (record i { status = status }) m)

step-live :
    (key : String) (m : IncidentManager) (c : Call)
    → live_count key m ≤ 1
    → live_count key (step m c) ≤ 1
unfolding step
step-live key m (opens fresh k severity affected source now) h =
    unfold open_incident in
    open-live (find_live k m) key m (opened_incident fresh k severity affected source now) refl h
step-live key m (moves id status) h =
    unfold transition in omega (arith, transition-live (Assoc.get id m) key m id status refl)

run-live :
    (key : String) (m : IncidentManager) (cs : List Call)
    → live_count key m ≤ 1
    → live_count key (run m cs) ≤ 1
unfolding run
run-live key m [] h = h
run-live key m (c ∷ cs) h = run-live key (step m c) cs (step-live key m c h)

-- After any history of openings and transitions, from no incidents, whatever ids are drawn, a key
-- has at most one incident that is not closed.
pub one_live_per_key : (key : String) (cs : List Call) → live_count key (run [] cs) ≤ 1
one_live_per_key key cs = run-live key [] cs (unfold live_count in omega arith)

-- The distance from the end of the lifecycle.
abbrev pub stages_left : IncidentStatus → ℕ
stages_left opened = 4
stages_left investigating = 3
stages_left mitigated = 2
stages_left resolved = 1
stages_left closed = 0

valid_forward : (a b : IncidentStatus) → valid_transition a b ≡ true → stages_left b < stages_left a
unfolding valid_transition
valid_forward a b h = ground arith

-- Where an incident has the id and the lifecycle has an edge from its status to the new one, the
-- transition succeeds: the incident has the new status, closer to the end of the lifecycle, and
-- every other incident is as it was.
pub transition_lem :
    (m : IncidentManager) (id other : ℕ) (status : IncidentStatus) {i : Incident}
    → get m id ≡ some i
    → valid_transition i.status status ≡ true
    → let r = transition m id status in
      (r.1 ≡ none)
      × (stages_left status < stages_left i.status)
      × (get r.0 other
          ≡ (if eqb id other then some (record i { status = status }) else get m other))
unfolding transition get
transition_lem m id other status {i} e v = (
  ground arith,
  valid_forward i.status status v,
  ground (arith, get-insert id other (record i { status = status }) m),
)

-- Why a transition of an incident, found or not, is refused.
abbrev pub IsRefusal : Option Incident → ℕ → IncidentStatus → IncidentError → Type 0
IsRefusal o id status e =
    ((o ≡ none) × (e ≡ unknown_id id))
    ⊎ ((i : Incident) × (o ≡ some i)
        × (valid_transition i.status status ≡ false)
        × (e ≡ invalid_transition i.status status))

found_refused :
    (o : Option Incident) (m : IncidentManager) (id : ℕ) (status : IncidentStatus)
    (e : IncidentError)
    → (transition_found o m id status).1 ≡ some e
    → ((transition_found o m id status).0 ≡ m) × IsRefusal o id status e
unfolding transition_found
found_refused none m id status e h = (refl, inl (refl, ground arith))
found_refused (some i) m id status e h = elim (Bool-cases (valid_transition i.status status)) [
  | inl good ↦ absurd (ground arith)
  | inr bad ↦ (ground arith, inr (i, refl, bad, ground arith))
]

-- A transition that is refused leaves the manager as it was, and its error says why: no incident
-- has the id, or the lifecycle has no edge from the incident's status to the new one.
pub transition_refused :
    (m : IncidentManager) (id : ℕ) (status : IncidentStatus) (e : IncidentError)
    → (transition m id status).1 ≡ some e
    → ((transition m id status).0 ≡ m) × IsRefusal (get m id) id status e
unfolding transition get
transition_refused m id status e h = found_refused (Assoc.get id m) m id status e h

-- An opening with a live incident of its key changes nothing and returns such an incident; without
-- one it creates an open incident under the fresh id, which is then the only new one.
abbrev pub IsOpening : Option Incident → IncidentManager → Incident → ℕ → Opened → Type 0
IsOpening (some i) m fresh other r = (is_live fresh.dedup_key i ≡ true) × (r ≡ (m, i.id, false))
IsOpening none m fresh other r =
    (live_count fresh.dedup_key m ≡ 0)
    × (r.1 ≡ fresh.id)
    × (r.2 ≡ true)
    × (get r.0 other ≡ (if eqb fresh.id other then some fresh else get m other))

find_live-is_live :
    (key : String) (m : IncidentManager) (i : Incident)
    → find_live key m ≡ some i
    → is_live key i ≡ true
unfolding find_live
find_live-is_live key [] i h = absurd (ground arith)
find_live-is_live key ((j, k) ∷ m) i h = ground (arith, find_live-is_live key m i)

found-IsOpening :
    (o : Option Incident) (m : IncidentManager) (fresh : Incident) (other : ℕ)
    → find_live fresh.dedup_key m ≡ o
    → IsOpening o m fresh other (open_found o m fresh)
unfolding open_found get
found-IsOpening none m fresh other e =
    (live_count-find fresh.dedup_key m e, refl, refl, get-insert fresh.id other fresh m)
found-IsOpening (some i) m fresh other e = (find_live-is_live fresh.dedup_key m i e, refl)

-- Repeated observations of one condition collapse: where a live incident has the key, opening
-- changes nothing and returns the id of such an incident; otherwise it creates an open incident
-- with no root cause under the fresh id, and leaves the incidents of the other ids alone.
pub open_incident_lem :
    (m : IncidentManager) (fresh other : ℕ) (key : String) (severity : Severity)
    (affected : List String) (source : String) (now : ℤ)
    → IsOpening
        (find_live key m)
        m
        (opened_incident fresh key severity affected source now)
        other
        (open_incident m fresh key severity affected source now)
unfolding open_incident
open_incident_lem m fresh other key severity affected source now =
    found-IsOpening (find_live key m) m (opened_incident fresh key severity affected source now)
      other refl
