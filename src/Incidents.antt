-- ===== src/Incidents.antt =====
-- The incident manager of crates/argus-incidents/src/lib.rs. The hash map of incidents is an
-- association list in the order that its iterator happens to have; a fresh UUID is an argument.
pub mod Lifecycle
use argus_ai.Prelude.{
  ℕ, Bool, true, false, not, ◌&&◌, Option, none, some, List, [], ◌∷◌, String, eqb, nat_eq,
  string_eq, if◌then◌else◌,
}
use argus_ai.Prelude.Int.{ℤ}
use argus_ai.Prelude.Assoc
use argus_ai.Domain.{Severity}

pub data IncidentStatus : Type 0 where
  opened investigating mitigated resolved closed : IncidentStatus

pub record Incident : Type 0 where
  pub id : ℕ
  pub dedup_key : String
  pub severity : Severity
  pub status : IncidentStatus
  pub started_at : ℤ
  pub affected : List String
  pub detection_source : String
  pub root_cause : Option String
  pub resolution : Option String
  pub impact : Option String

pub data IncidentError : Type 0 where
  unknown_id : ℕ → IncidentError
  invalid_transition : IncidentStatus → IncidentStatus → IncidentError

abbrev pub IncidentManager : Type 0
IncidentManager = List (ℕ × Incident)

abbrev pub new : IncidentManager
new = []

abbrev pub is_closed : IncidentStatus → Bool
is_closed closed = true
is_closed _ = false

-- Whether the incident is not closed and has the key.
abbrev pub is_live : String → Incident → Bool
is_live key i = eqb i.dedup_key key && not (is_closed i.status)

unfoldable pub find_live : String → IncidentManager → Option Incident
find_live key [] = none
find_live key ((j, i) ∷ m) = if is_live key i then some i else find_live key m

abbrev pub opened_incident : ℕ → String → Severity → List String → String → ℤ → Incident
opened_incident fresh key severity affected source now = record {
  id = fresh;
  dedup_key = key;
  severity = severity;
  status = opened;
  started_at = now;
  affected = affected;
  detection_source = source;
  root_cause = none;
  resolution = none;
  impact = none;
}

-- The manager after the call, the id it returns, and whether a new incident was created.
abbrev pub Opened : Type 0
Opened = IncidentManager × ℕ × Bool

open_found : Option Incident → IncidentManager → Incident → Opened
open_found (some existing) m i = (m, existing.id, false)
open_found none m i = (Assoc.insert i.id i m, i.id, true)

unfoldable pub open_incident :
    IncidentManager → ℕ → String → Severity → List String → String → ℤ → Opened
unfolding open_found
open_incident m fresh key severity affected source now =
    open_found (find_live key m) m (opened_incident fresh key severity affected source now)

unfoldable pub get : IncidentManager → ℕ → Option Incident
get m id = Assoc.get id m

unfoldable pub valid_transition : IncidentStatus → IncidentStatus → Bool
valid_transition opened investigating = true
valid_transition opened closed = true
valid_transition investigating mitigated = true
valid_transition investigating resolved = true
valid_transition mitigated resolved = true
valid_transition resolved closed = true
valid_transition _ _ = false

-- An error, or none where the transition is made.
abbrev pub Transitioned : Type 0
Transitioned = IncidentManager × Option IncidentError

transition_found : Option Incident → IncidentManager → ℕ → IncidentStatus → Transitioned
unfolding valid_transition
transition_found none m id status = (m, some (unknown_id id))
transition_found (some i) m id status =
    if valid_transition i.status status
    then (Assoc.insert id (record i { status = status }) m, none)
    else (m, some (invalid_transition i.status status))

unfoldable pub transition : IncidentManager → ℕ → IncidentStatus → Transitioned
unfolding transition_found
transition m id status = transition_found (Assoc.get id m) m id status

unfoldable pub open_incidents : IncidentManager → List Incident
open_incidents [] = []
open_incidents ((j, i) ∷ m) =
    let rest = open_incidents m in if is_closed i.status then rest else i ∷ rest
