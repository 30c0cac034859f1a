-- ===== src/Tests/Host.antt =====
-- A concrete host behind the ports of crates/argus-daemon/src/control.rs.
use argus_ai.Prelude.{
  ℕ, ◌-◌, ◌≡◌, refl, Bool, true, false, Option, none, some, List, [], ◌∷◌, String, suc, arith, eqb,
  string_eq, nat_eq, leb, length, if◌then◌else◌,
}
use argus_ai.Prelude.Int.{pos}
use argus_ai.Prelude.Results.{ok, err}
use argus_ai.Domain.{low_risk, host, proposed}
use argus_ai.Domain.Plan.{Action, PlanStep, Plan}
use argus_ai.Domain.Registry.{CapabilityDescriptor, CapabilityRegistry, reversible}
use argus_ai.Policy.Autopilot.{allowed}
use argus_ai.Policy.Escalation.{Float32, standard}
use argus_ai.Policy.Bootstrap
use argus_ai.Policy.Bootstrap.{
  AuthorizationRequest, PolicyDecision, with_local_remediation, locally_permitted,
}
use argus_ai.Control.Ports.{Ports}
use argus_ai.Control.Meter.{Meter}

-- A JSON value: whether it says that the state was in place already, and its members that are texts.
abbrev pub Value : Type 0
Value = Bool × List (String × String)

-- What was reserved of the budget, and whether the one unit of the host is active.
pub record World : Type 0 where
  pub reserved : ℕ
  pub active : Bool

abbrev member : List (String × String) → String → Option String
member [] key = none
member ((k, v) ∷ m) key = if eqb k key then some v else member m key

pub leb_trans : (a b c : ℕ) → leb b a ≡ true → leb c b ≡ true → leb c a ≡ true
leb_trans a b c h k = ground arith

abbrev percent : Float32
percent = record { F = ℕ; ge = λ a b. leb b a; hundredths = λ n. n; ge_trans = leb_trans }

abbrev pub one_unit : Ports
one_unit = record {
  V = Value;
  C = ℕ;
  W = World;
  f32 = percent;
  to_f32 = λ c. c;
  str_arg = λ v key. member v.1 key;
  already_desired = (true, []);
  is_already_desired = λ v. v.0;
  is_already_desired-already_desired = refl;
  service_evidence = λ unit c. (false, ("unit", unit) ∷ ("capability", c) ∷ []);
  error_evidence = λ e. (false, []);
  canonical = λ plan. length plan.steps ∷ [];
  canonical-status = λ plan s. refl;
  evaluate = λ request. Bootstrap.evaluate with_local_remediation request;
  governed_prefixes = "host.cgroup." ∷ [];
  govern = λ w a. (w, allowed a.subject standard);
  clock = λ w. pos 0;
  reserve = λ w risk scope now. (record w { reserved = suc w.reserved }, true);
  refund = λ w risk scope now. record w { reserved = w.reserved - 1 };
  service_restart = λ w unit. (record w { active = true }, ok tt);
  service_stop = λ w unit. (record w { active = false }, ok tt);
  service_start = λ w unit. (w, err "no such unit");
  kubernetes_execute = λ w a. (w, ok (false, []));
  remediation_execute = λ w a. (w, ok (false, []));
  is_active = λ w unit. ok w.active;
  is_running = λ w container. ok true;
  is_frozen = λ w path. ok false;
  pod_running = λ w namespace name. ok true;
  deployment_available = λ w namespace name. ok true;
  node_schedulable = λ w name. ok true;
}

abbrev pub meter : Meter one_unit
meter = record {
  spent = λ w. w.reserved;
  spent-reserve = λ w risk scope now. omega arith;
  spent-refund = λ w risk scope now. refl;
  spent-govern = λ w a. refl;
  spent-service_restart = λ w unit. refl;
  spent-service_stop = λ w unit. refl;
  spent-service_start = λ w unit. refl;
  spent-kubernetes_execute = λ w a. refl;
  spent-remediation_execute = λ w a. refl;
}

abbrev pub descriptor : String → CapabilityDescriptor Value
descriptor c = record {
  id = c;
  provider = "host";
  operation = c;
  risk_class = low_risk;
  version = "1.0.0";
  input_schema = (false, []);
  output_schema = (false, []);
  reversibility = reversible;
  blast_radius = some host;
  requires_approval = false;
  timeout_seconds = none;
  privileged = false;
  privileges = [];
}

abbrev pub services : CapabilityRegistry Value
services = record {
  descriptors =
      ("host.service.stop", descriptor "host.service.stop")
      ∷ ("host.service.start", descriptor "host.service.start")
      ∷ [];
  sandbox = none;
}

abbrev on_unit : String → Action Value
on_unit c = record { capability = c; resource = none; arguments = (false, ("unit", "nginx") ∷ []) }

abbrev pub stop_step : PlanStep Value
stop_step = record {
  action = on_unit "host.service.stop";
  rollback = some (on_unit "host.service.restart");
}

abbrev start_step : PlanStep Value
start_step = record { action = on_unit "host.service.start"; rollback = none }

abbrev pub plan_of : List (PlanStep Value) → Plan Value ℕ
plan_of steps = record {
  objective = "stop the unit";
  steps = steps;
  preconditions = [];
  expected_outcomes = [];
  blast_radius = host;
  confidence = 80;
  status = proposed;
  runbook = none;
}

abbrev pub running : World
running = record { reserved = 0; active = true }
