-- ===== src/Policy/Escalation.antt =====
-- The escalation decision of crates/argus-policy/src/escalation.rs. `f32` is an
-- interface: its comparison and its literals.
pub mod Safety
use argus_ai.Prelude.{ℕ, ◌≡◌, Bool, true, false, not, ◌&&◌, Option, none, some, if◌then◌else◌}
use argus_ai.Domain.{
  AutonomyMode, l0_observe, l1_explain, l2_recommend, BlastRadius, nowhere, host, RiskClass, read,
  low_risk, controlled, PolicyOutcome, allow, deny, require_approval,
}

-- `ge a b` is `a >= b`, false where either is NaN; `hundredths n` is the literal n / 100.
pub record Float32 : Type 1 where
  pub F : Type 0
  pub ge : F → F → Bool
  pub hundredths : ℕ → F
  pub ge_trans : (a b c : F) → ge a b ≡ true → ge b c ≡ true → ge a c ≡ true

pub data EvidenceQuality : Type 0 where
  sparse adequate strong : EvidenceQuality

pub data Environment : Type 0 where
  production staging development : Environment

pub data Escalation : Type 0 where
  observe explain recommend ask_human auto_fix : Escalation

-- crates/argus-policy/src/autopilot.rs
pub data Criticality : Type 0 where
  protected critical standard best_effort : Criticality

pub record EscalationInput (F : Type 0) : Type 0 where
  pub evidence_quality : EvidenceQuality
  pub confidence : F
  pub reversible : Bool
  pub blast_radius : BlastRadius
  pub risk : RiskClass
  pub criticality : Criticality
  pub environment : Environment
  pub historical_success : Option F
  pub autonomy : AutonomyMode
  pub policy : PolicyOutcome

abbrev pub is_sparse : EvidenceQuality → Bool
is_sparse sparse = true
is_sparse _ = false

abbrev pub is_bounded : BlastRadius → Bool
is_bounded nowhere = true
is_bounded host = true
is_bounded _ = false

abbrev pub is_guarded : Criticality → Bool
is_guarded protected = true
is_guarded critical = true
is_guarded _ = false

abbrev pub is_bounded_risk : RiskClass → Bool
is_bounded_risk read = true
is_bounded_risk low_risk = true
is_bounded_risk controlled = true
is_bounded_risk _ = false

module _ (f32 : Float32) where
  open f32 use {F, ge, hundredths}

  unfoldable pub confidence_threshold : Environment → F
  confidence_threshold production = hundredths 75
  confidence_threshold staging = hundredths 60
  confidence_threshold development = hundredths 50

  abbrev pub is_none_or_sound : Option F → Bool
  is_none_or_sound none = true
  is_none_or_sound (some rate) = ge rate (hundredths 70)

  unfoldable pub safe_to_fix : EscalationInput F → Bool
  safe_to_fix input =
      input.reversible
      && is_bounded input.blast_radius
      && not (is_guarded input.criticality)
      && is_bounded_risk input.risk
      && ge input.confidence (confidence_threshold input.environment)
      && is_none_or_sound input.historical_success
      && not (is_sparse input.evidence_quality)

  -- The third precedence: the autonomy cap, then the automatic fix.
  by_autonomy : AutonomyMode → EscalationInput F → Escalation
  by_autonomy l0_observe input = observe
  by_autonomy l1_explain input = explain
  by_autonomy l2_recommend input = recommend
  by_autonomy _ input =
      if safe_to_fix input
      then auto_fix
      else (if is_sparse input.evidence_quality then recommend else ask_human)

  by_policy : PolicyOutcome → EscalationInput F → Escalation
  unfolding by_autonomy
  by_policy deny input = observe
  by_policy require_approval input = ask_human
  by_policy allow input = by_autonomy input.autonomy input

  unfoldable pub decide_escalation : EscalationInput F → Escalation
  unfolding by_policy
  decide_escalation input = by_policy input.policy input
