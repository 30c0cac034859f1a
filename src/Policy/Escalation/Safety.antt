-- ===== src/Policy/Escalation/Safety.antt =====
-- What the escalation decision of crates/argus-policy/src/escalation.rs guarantees.
use argus_ai.Prelude.{ℕ, ◌≤◌, ◌≡◌, ◌↔◌, ◌⊎◌, true, Option, none, some, arith}
use argus_ai.Domain.{
  AutonomyMode, nowhere, host, read, low_risk, controlled, rank, allow, deny, require_approval,
}
use argus_ai.Policy.Escalation.{
  Float32, Escalation, observe, explain, recommend, ask_human, auto_fix, EscalationInput,
  Environment, production, staging, development, standard, best_effort, adequate, strong,
  confidence_threshold, safe_to_fix, decide_escalation,
}

-- How far an escalation goes beyond watching.
abbrev pub reach : Escalation → ℕ
reach observe = 0
reach explain = 1
reach recommend = 2
reach ask_human = 3
reach auto_fix = 4

module _ (f32 : Float32) where
  open f32 use {F, ge, hundredths, ge_trans}

  -- The confidence that each environment wants, and the success that a known history shows.
  abbrev pub IsSure : Environment → F → Type 0
  IsSure production c = ge c (hundredths 75) ≡ true
  IsSure staging c = ge c (hundredths 60) ≡ true
  IsSure development c = ge c (hundredths 50) ≡ true

  abbrev pub IsSound : Option F → Type 0
  IsSound none = Unit
  IsSound (some rate) = ge rate (hundredths 70) ≡ true

  -- What an automatic fix rests on.
  pub record IsFixable (input : EscalationInput F) : Type 0 where
    pub allowed : input.policy ≡ allow
    pub trusted : 3 ≤ rank input.autonomy
    pub reversible : input.reversible ≡ true
    pub bounded : (input.blast_radius ≡ nowhere) ⊎ (input.blast_radius ≡ host)
    pub unguarded : (input.criticality ≡ standard) ⊎ (input.criticality ≡ best_effort)
    pub bounded_risk : (input.risk ≡ read) ⊎ (input.risk ≡ low_risk) ⊎ (input.risk ≡ controlled)
    pub confident : IsSure input.environment input.confidence
    pub sound : IsSound input.historical_success
    pub evident : (input.evidence_quality ≡ adequate) ⊎ (input.evidence_quality ≡ strong)

  -- The decision is an automatic fix exactly when the policy allows, the level is at least L3, the
  -- candidate is reversible, its blast radius is none or one host, its subject is of the standard or
  -- the best-effort tier, its risk is read, low or controlled, its confidence is at least 0.75 in
  -- production, 0.60 in staging and 0.50 in development, its history, where known, succeeded at a
  -- rate of at least 0.70, and the evidence is adequate or strong.
  pub auto_fix_iff :
      (input : EscalationInput F) → (decide_escalation f32 input ≡ auto_fix) ↔ IsFixable input
  unfolding decide_escalation safe_to_fix confidence_threshold rank
  auto_fix_iff input = ground arith

  -- A higher autonomy level and a confidence that is at least the given one, all else equal, never
  -- lead to a lesser escalation.
  pub reach_mono :
      (input : EscalationInput F) (level : AutonomyMode) (c : F)
      → rank input.autonomy ≤ rank level
      → ge c input.confidence ≡ true
      → reach (decide_escalation f32 input)
        ≤ reach (decide_escalation f32 (record input { autonomy = level; confidence = c }))
  unfolding decide_escalation safe_to_fix rank
  reach_mono input level c h k =
      ground (arith, ge_trans c input.confidence (confidence_threshold f32 input.environment))

  -- The policy is final: a denial is only watched, and a required approval always asks.
  pub policy_final :
      (input : EscalationInput F)
      → (decide_escalation f32 (record input { policy = deny }) ≡ observe)
        × (decide_escalation f32 (record input { policy = require_approval }) ≡ ask_human)
  unfolding decide_escalation
  policy_final input = ground arith
