-- ===== src/Control/Meter.antt =====
-- The budget gate as the plan loop of crates/argus-daemon/src/control.rs relies on it: an interface
-- that counts the reservations in force, which no executor touches.
use argus_ai.Prelude.{
  ℕ, ◌+◌, ◌-◌, ◌≡◌, refl, ◌∙◌, sym, ap, Option, none, some, List, String, eqb, string_eq, to_ℕ,
  if_elim,
}
use argus_ai.Prelude.Int.{ℤ}
use argus_ai.Prelude.Results.{Result, ok, err}
use argus_ai.Domain.{RiskClass, BlastRadius}
use argus_ai.Domain.Plan.{Action, PlanStep}
use argus_ai.Policy.Autopilot.{ResourceAdjustment}
use argus_ai.Policy.Bootstrap.{PolicyDecision}
use argus_ai.Control.Families.{is_service_action, is_kubernetes_action, remediation_handles}
use argus_ai.Control.Ports.{Ports, ActionError, AuthorizedAction}
use argus_ai.Control.Effects.{service_answer, execute_service, cross, authorized, execute_action}
use argus_ai.Control.State.{Run, rollback_executed, rollback_decision}
use argus_ai.Control.Rollback.{rollback_keeps}

pub record Meter (p : Ports) : Type 0 where
  pub spent : p.W → ℕ
  pub spent-reserve :
      (w : p.W) (risk : RiskClass) (scope : BlastRadius) (now : ℤ)
      → spent (p.reserve w risk scope now).0 ≡ spent w + to_ℕ (p.reserve w risk scope now).1
  pub spent-refund :
      (w : p.W) (risk : RiskClass) (scope : BlastRadius) (now : ℤ)
      → spent (p.refund w risk scope now) ≡ spent w - 1
  pub spent-govern : (w : p.W) (a : ResourceAdjustment) → spent (p.govern w a).0 ≡ spent w
  pub spent-service_restart :
      (w : p.W) (unit : String) → spent (p.service_restart w unit).0 ≡ spent w
  pub spent-service_stop : (w : p.W) (unit : String) → spent (p.service_stop w unit).0 ≡ spent w
  pub spent-service_start : (w : p.W) (unit : String) → spent (p.service_start w unit).0 ≡ spent w
  pub spent-kubernetes_execute :
      (w : p.W) (a : AuthorizedAction p.V) → spent (p.kubernetes_execute w a).0 ≡ spent w
  pub spent-remediation_execute :
      (w : p.W) (a : AuthorizedAction p.V) → spent (p.remediation_execute w a).0 ≡ spent w

module _ (p : Ports) (meter : Meter p) where
  open p use {V, C, W}
  open meter use {spent}

  -- The world after a port answers has spent as much as the one before.
  abbrev pub Keeps : W → W × Result ActionError V → Type 0
  Keeps w x = spent x.0 ≡ spent w

  answer-Keeps :
      (unit c : String) (w : W) (x : W × Result String (Unit {0}))
      → spent x.0 ≡ spent w
      → Keeps w (service_answer p unit c x)
  unfolding service_answer
  answer-Keeps unit c w (w', ok tt) e = e
  answer-Keeps unit c w (w', err s) e = e

  service-Keeps : (w : W) (c : String) (o : Option String) → Keeps w (execute_service p w c o)
  unfolding execute_service
  service-Keeps w c none = refl
  service-Keeps w c (some unit) =
      if_elim (Keeps w) (eqb "host.service.restart" c)
        (λ h. answer-Keeps unit c w _ (meter.spent-service_restart w unit))
        (λ h.
          if_elim (Keeps w) (eqb "host.service.stop" c)
            (λ h. answer-Keeps unit c w _ (meter.spent-service_stop w unit))
            (λ h.
              if_elim (Keeps w) (eqb "host.service.start" c)
                (λ h. answer-Keeps unit c w _ (meter.spent-service_start w unit)) (λ h. refl)))

  cross-Keeps :
      (port : W → AuthorizedAction V → W × Result String V) (w : W)
      (x : Result ActionError (AuthorizedAction V))
      → ((a : AuthorizedAction V) → spent (port w a).0 ≡ spent w)
      → Keeps w (cross p port w x)
  unfolding cross
  cross-Keeps port w (err e) k = refl
  cross-Keeps port w (ok a) k = k a

  pub execute_action-Keeps :
      (w : W) (a : Action V) (decision : PolicyDecision) → Keeps w (execute_action p w a decision)
  unfolding execute_action
  execute_action-Keeps w a decision =
      if_elim (Keeps w) (is_service_action a.capability)
        (λ h. service-Keeps w a.capability (p.str_arg a.arguments "unit"))
        (λ h.
          if_elim (Keeps w) (is_kubernetes_action a.capability)
            (λ h.
              cross-Keeps p.kubernetes_execute w (authorized p a decision)
                (meter.spent-kubernetes_execute w))
            (λ h.
              if_elim (Keeps w) (remediation_handles a.capability)
                (λ h.
                  cross-Keeps p.remediation_execute w (authorized p a decision)
                    (meter.spent-remediation_execute w))
                (λ h. refl)))

  pub spent-rollback_executed :
      (steps : List (PlanStep V)) (r : Run p)
      → spent (rollback_executed p steps r).world ≡ spent r.world
  spent-rollback_executed steps r =
      rollback_keeps p (λ r'. spent r'.world ≡ spent r.world) (λ r' e. e)
        (λ r' a w v x e.
          sym (ap (λ y. spent y.0) x) ∙ execute_action-Keeps r'.world a (rollback_decision p) ∙ e)
        (λ r' a w v x e.
          sym (ap (λ y. spent y.0) x) ∙ execute_action-Keeps r'.world a (rollback_decision p) ∙ e)
        (λ r' e. e) (λ r' e. e) steps r refl
