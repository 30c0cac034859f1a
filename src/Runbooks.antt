-- ===== src/Runbooks.antt =====
-- Learned procedures and their promotion ladder (crates/argus-runbooks/src/runbook.rs and
-- promotion.rs). The criteria of a runbook are only carried here: a type `C`.
pub mod Ladder
pub mod Operator
use argus_ai.Prelude.{
  ℕ, suc, ◌+◌, Bool, true, false, not, Option, none, some, List, [], ◌∷◌, ◌++◌, String, length,
  get_elem?, leb, eqb, string_eq, if◌then◌else◌, ◌==◌, u32, ◌||◌,
}

pub data RunbookStatus : Type 0 where
  candidate_status approved_status promoted_status : RunbookStatus

pub data RunbookTrigger : Type 0 where
  symptom signal : String → RunbookTrigger
  manual : RunbookTrigger

pub data EvidenceKind : Type 0 where
  metrics process service container cgroup kubernetes logs change_record : EvidenceKind

pub record Step : Type 0 where
  pub description : String
  pub evidence : EvidenceKind

pub data Gate : Type 0 where
  evaluation simulation validation policy approval promotion : Gate

pub record Runbook (C : Type 0) : Type 0 where
  pub id : ℕ
  pub name : String
  pub trigger : RunbookTrigger
  pub required_evidence : List EvidenceKind
  pub investigation_steps : List Step
  pub decision_criteria : List C
  pub allowed_actions : List String
  pub rollback : List String
  pub validation_criteria : List C
  pub status : RunbookStatus
  pub gates : List Gate
  pub attempts : ℕ
  pub successes : ℕ

abbrev pub ladder : List Gate
ladder = evaluation ∷ simulation ∷ validation ∷ policy ∷ approval ∷ promotion ∷ []

pub data GateError : Type 0 where
  out_of_order prerequisites_missing : GateError

pub data PromotionError : Type 0 where
  not_ready_for_approval not_approved : PromotionError
  already_in_status : RunbookStatus → PromotionError
  gate_error : GateError → PromotionError

-- The place of a gate in the ladder.
abbrev pub position : Gate → ℕ
position evaluation = 0
position simulation = 1
position validation = 2
position policy = 3
position approval = 4
position promotion = 5

abbrev pub same_gate : Gate → Gate → Bool
same_gate a b = position a == position b

abbrev pub or_promotion : Option Gate → Gate
or_promotion none = promotion
or_promotion (some g) = g

-- The gate that is expected after `n` gates.
abbrev pub expected_at : ℕ → Gate
expected_at n = or_promotion (get_elem? ladder n)

abbrev pub same_trigger : RunbookTrigger → RunbookTrigger → Bool
same_trigger (symptom a) (symptom b) = eqb a b
same_trigger (signal a) (signal b) = eqb a b
same_trigger manual manual = true
same_trigger _ _ = false

abbrev pub contains : List String → String → Bool
contains [] c = false
contains (a ∷ rest) c = eqb a c || contains rest c

module _ {C : Type 0} where
  unfoldable pub candidate :
      ℕ
      → String
      → RunbookTrigger
      → List EvidenceKind
      → List Step
      → List C
      → List String
      → List String
      → List C
      → Runbook C
  candidate id name trigger required steps criteria actions rollback validating = record {
    id = id;
    name = name;
    trigger = trigger;
    required_evidence = required;
    investigation_steps = steps;
    decision_criteria = criteria;
    allowed_actions = actions;
    rollback = rollback;
    validation_criteria = validating;
    status = candidate_status;
    gates = [];
    attempts = 0;
    successes = 0;
  }

  unfoldable pub matches_trigger : Runbook C → RunbookTrigger → Bool
  matches_trigger r trigger = same_trigger r.trigger trigger

  unfoldable pub allows_candidate : Runbook C → String → Bool
  allows_candidate r capability = contains r.allowed_actions capability

  unfoldable pub record_outcome : Runbook C → Bool → Runbook C
  record_outcome r success = record r {
    attempts = u32 (r.attempts + 1);
    successes = if success then u32 (r.successes + 1) else r.successes;
  }

  -- The runbook after the call, and the error, if any.
  unfoldable pub record_gate : Runbook C → Gate → Runbook C × Option GateError
  record_gate r gate =
      if same_gate gate (expected_at (length r.gates))
      then (record r { gates = r.gates ++ gate ∷ [] }, none)
      else (r, some out_of_order)

  unfoldable pub has_reached : Runbook C → Gate → Bool
  has_reached r gate = leb (position gate) (length r.gates)

  -- `record_gate(gate)?` followed by `set_status(status)`.
  gate_then : Runbook C × Option GateError → RunbookStatus → Runbook C × Option PromotionError
  gate_then (r, none) status = (record r { status = status }, none)
  gate_then (r, some e) status = (r, some (gate_error e))

  approve_at : RunbookStatus → Runbook C → Runbook C × Option PromotionError
  unfolding record_gate has_reached gate_then
  approve_at candidate_status r =
      if has_reached r policy
      then gate_then (record_gate r approval) approved_status
      else (r, some not_ready_for_approval)
  approve_at status r = (r, some (already_in_status status))

  unfoldable pub approve : Runbook C → Runbook C × Option PromotionError
  unfolding approve_at
  approve r = approve_at r.status r

  promote_at : RunbookStatus → Runbook C → Runbook C × Option PromotionError
  unfolding record_gate gate_then
  promote_at promoted_status r = (r, some (already_in_status promoted_status))
  promote_at candidate_status r = (r, some not_approved)
  promote_at approved_status r = gate_then (record_gate r promotion) promoted_status

  unfoldable pub promote : Runbook C → Runbook C × Option PromotionError
  unfolding promote_at
  promote r = promote_at r.status r
