-- ===== src/Control/Ports.antt =====
-- What the plan loop of crates/argus-daemon/src/control.rs is given: the policy, the governor, the
-- budget gate, the executors, the live reads, and the conversions of serde_json. The world behind the
-- ports is a type `W`; a port that acts answers with the world after it, a live read leaves it alone.
use argus_ai.Prelude.{ℕ, ◌≡◌, Bool, true, Option, List, String}
use argus_ai.Prelude.Int.{ℤ}
use argus_ai.Prelude.Results.{Result}
use argus_ai.Domain.{RiskClass, BlastRadius, PolicyOutcome, PlanStatus}
use argus_ai.Domain.Plan.{Action, Plan}
use argus_ai.Policy.Escalation.{Float32}
use argus_ai.Policy.Autopilot.{ResourceAdjustment, GovernanceDecision}
use argus_ai.Policy.Bootstrap.{AuthorizationRequest, PolicyDecision}

-- The part of an authorization request that goes with the capability and the approval flag.
pub record RequestDetails (V : Type 0) : Type 0 where
  pub resource : Option String
  pub arguments : V
  pub risk_class : RiskClass
  pub blast_radius : BlastRadius

-- The errors of the loop, whose texts are prose.
pub data ActionError : Type 0 where
  missing_argument : String → ActionError
  unsupported : String → ActionError
  not_authorized : PolicyOutcome → ActionError
  no_live_read : String → ActionError
  port_failed : String → ActionError

-- crates/argus-executor/src/action.rs
pub record AuthorizedAction (V : Type 0) : Type 0 where
  pub request : Action V
  pub decision : PolicyDecision

pub record Ports : Type 1 where
  pub V : Type 0
  pub C : Type 0
  pub W : Type 0
  -- `confidence.clamp(0.0, 1.0) as f32`
  pub f32 : Float32
  pub to_f32 : C → f32.F
  -- `value.get(key).and_then(Value::as_str)`
  pub str_arg : V → String → Option String
  -- `{"already_desired": true}`, and whether a value has that member with that content
  pub already_desired : V
  pub is_already_desired : V → Bool
  pub is_already_desired-already_desired : is_already_desired already_desired ≡ true
  -- `{"unit": …, "capability": …}` and `{"error": …}`
  pub service_evidence : String → String → V
  pub error_evidence : ActionError → V
  -- the UTF-8 bytes of the plan's JSON text without its member `status`
  pub canonical : Plan V C → List ℕ
  pub canonical-status :
      (plan : Plan V C) (s : PlanStatus) → canonical (record plan { status = s }) ≡ canonical plan
  -- the policy evaluator, the governor and the budget gate, with the clock that the gate is given
  pub evaluate : AuthorizationRequest (RequestDetails V) → PolicyDecision
  pub governed_prefixes : List String
  pub govern : W → ResourceAdjustment → W × GovernanceDecision
  pub clock : W → ℤ
  pub reserve : W → RiskClass → BlastRadius → ℤ → W × Bool
  pub refund : W → RiskClass → BlastRadius → ℤ → W
  -- the executors
  pub service_restart : W → String → W × Result String (Unit {0})
  pub service_stop : W → String → W × Result String (Unit {0})
  pub service_start : W → String → W × Result String (Unit {0})
  pub kubernetes_execute : W → AuthorizedAction V → W × Result String V
  pub remediation_execute : W → AuthorizedAction V → W × Result String V
  -- the live reads
  pub is_active : W → String → Result String Bool
  pub is_running : W → String → Result String Bool
  pub is_frozen : W → String → Result String Bool
  pub pod_running : W → String → String → Result String Bool
  pub deployment_available : W → String → String → Result String Bool
  pub node_schedulable : W → String → Result String Bool
