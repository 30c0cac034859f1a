-- ===== src/Control/Families.antt =====
-- The families of capabilities that the plan loop tells apart: the tables of
-- crates/argus-daemon/src/control.rs, crates/argus-executor/src/{remediation,cluster,mcp}.rs and
-- crates/argus-validate/src/lib.rs, and the autonomy matrix of
-- crates/argus-ai-core/src/decision/autonomy.rs.
use text.Mathlib.Text.{starts_with}
use argus_ai.Prelude.{
  Bool, true, false, ◌||◌, Option, none, some, List, [], ◌∷◌, String, eqb, string_eq, if◌then◌else◌,
}
use argus_ai.Domain.{
  AutonomyMode, l3_assisted, l4_autonomous, l5_adaptive, RiskClass, read, low_risk, controlled,
  high_risk,
}

-- Whether a name is one of the list, as `matches!` on the text asks.
abbrev pub is_one_of : List String → String → Bool
is_one_of [] c = false
is_one_of (a ∷ rest) c = eqb a c || is_one_of rest c

abbrev pub low_risk_capabilities : List String
low_risk_capabilities =
    "host.service.restart" ∷ "host.service.stop" ∷ "host.service.start" ∷ "host.cgroup.freeze"
    ∷ "host.cgroup.thaw" ∷ []

abbrev pub high_risk_capabilities : List String
high_risk_capabilities =
    "host.process.signal" ∷ "k8s.pod.delete" ∷ "k8s.node.drain" ∷ "k8s.workload.reschedule" ∷ []

unfoldable pub is_mcp_capability : String → Bool
is_mcp_capability c = starts_with c "mcp."

-- Every name that the source lists as controlled has the risk of the default case.
unfoldable pub risk_for : String → RiskClass
unfolding is_mcp_capability
risk_for c =
    if is_one_of low_risk_capabilities c
    then low_risk
    else if is_one_of high_risk_capabilities c
    then high_risk
    else if is_mcp_capability c
    then high_risk
    else controlled

unfoldable pub is_service_action : String → Bool
is_service_action c =
    is_one_of ("host.service.restart" ∷ "host.service.stop" ∷ "host.service.start" ∷ []) c

unfoldable pub is_kubernetes_action : String → Bool
is_kubernetes_action c =
    is_one_of
      ("k8s.pod.restart" ∷ "k8s.pod.delete" ∷ "k8s.deployment.restart" ∷ "k8s.deployment.rollback"
        ∷ "k8s.workload.scale" ∷ "k8s.node.cordon" ∷ "k8s.node.uncordon" ∷ "k8s.job.cleanup"
        ∷ "k8s.cluster.read" ∷ "k8s.node.read" ∷ "k8s.pod.read" ∷ "k8s.deployment.read" ∷ [])
      c

-- `RemediationExecutor::handles`.
unfoldable pub remediation_handles : String → Bool
unfolding is_mcp_capability
remediation_handles c =
    is_one_of
      ("host.process.signal" ∷ "container.restart" ∷ "host.cgroup.freeze" ∷ "host.cgroup.thaw"
        ∷ "host.memory.reclaim" ∷ "host.journal.vacuum" ∷ [])
      c
    || is_mcp_capability c

unfoldable pub desired_state : String → Option Bool
desired_state c =
    if is_one_of ("host.service.start" ∷ "host.service.restart" ∷ []) c
    then some true
    else if eqb "host.service.stop" c
    then some false
    else if eqb "container.restart" c
    then some true
    else if eqb "host.cgroup.freeze" c
    then some true
    else if eqb "host.cgroup.thaw" c
    then some false
    else if eqb "k8s.pod.restart" c
    then some true
    else if eqb "k8s.pod.delete" c
    then some false
    else if is_one_of ("k8s.deployment.restart" ∷ "k8s.deployment.rollback" ∷ []) c
    then some true
    else if eqb "k8s.node.cordon" c
    then some false
    else if eqb "k8s.node.uncordon" c
    then some true
    else none

abbrev pub is_read_or_low : RiskClass → Bool
is_read_or_low read = true
is_read_or_low low_risk = true
is_read_or_low _ = false

abbrev pub is_up_to_controlled : RiskClass → Bool
is_up_to_controlled read = true
is_up_to_controlled low_risk = true
is_up_to_controlled controlled = true
is_up_to_controlled _ = false

unfoldable pub may_execute_without_approval : AutonomyMode → RiskClass → Bool
may_execute_without_approval l3_assisted risk = is_read_or_low risk
may_execute_without_approval l4_autonomous risk = is_up_to_controlled risk
may_execute_without_approval l5_adaptive risk = is_up_to_controlled risk
may_execute_without_approval _ risk = false

unfoldable pub escalation_bounded : AutonomyMode → Bool
escalation_bounded l4_autonomous = true
escalation_bounded l5_adaptive = true
escalation_bounded _ = false
