-- ===== src/Executor/Privileged/Reversal.antt =====
-- What a service operation of crates/argus-executor/src/privileged.rs leaves behind, and what its
-- answer says of it.
use argus_ai.Prelude.{◌≡◌, refl, Option, none, some, String, arith}
use argus_ai.Prelude.Results.{Result, ok, err}
use argus_ai.Control.Ports.{AuthorizedAction}
use argus_ai.Executor.Guardrail.{GuardrailRegistry, check}
use argus_ai.Executor.Host.{
  ReversalStatus, not_attempted, reversed, reversal_failed, not_possible, not_authorized,
  unsupported, failed, guardrail_violation, failed_after_effect, Host, Outcome,
}
use argus_ai.Executor.Remediation.Steps.{required_elim, guarded_elim}
use argus_ai.Executor.Remediation.Execute.{bind, required, not_blank, guarded}
use argus_ai.Executor.Privileged.{
  ServiceOp, restart, stop, start, operation_of, inverse, apply, reversal_of, attempt_reversal,
  conclude, execute,
}

module _ (h : Host) (guardrails : GuardrailRegistry) where
  open h use {V, W}

  -- How the reversal went, from the world `w` that the failed operation left to the world `w'`.
  abbrev pub Reverted : ServiceOp → String → W → W → ReversalStatus → Type 0
  Reverted op unit w w' not_attempted = ⊥
  Reverted op unit w w' not_possible = (inverse op ≡ none) × (w' ≡ w)
  Reverted op unit w w' reversed =
      (undo : ServiceOp) × (inverse op ≡ some undo) × (apply h undo w unit ≡ (w', ok tt))
  Reverted op unit w w' reversal_failed =
      (undo : ServiceOp) × (e : String) × (inverse op ≡ some undo)
      × (apply h undo w unit ≡ (w', err e))

  -- The operation ran on a unit that passed the guardrails.
  abbrev pub Admitted : AuthorizedAction V → ServiceOp → String → Type 0
  Admitted a op unit =
      (operation_of a.request.capability ≡ some op)
      × (h.str_arg a.request.arguments "unit" ≡ some unit)
      × (check guardrails a.request.capability unit ≡ ok tt)

  abbrev pub Explained : W → AuthorizedAction V → Outcome h → Type 0
  Explained w a (w', ok r) =
      (op : ServiceOp) × (unit : String) × Admitted a op unit × (apply h op w unit ≡ (w', ok tt))
  Explained w a (w', err (failed_after_effect reason reversal)) =
      (op : ServiceOp) × (unit : String) × (w1 : W) × Admitted a op unit
      × (apply h op w unit ≡ (w1, err reason))
      × Reverted op unit w1 w' reversal
  Explained w a (w', err (not_authorized outcome)) = w' ≡ w
  Explained w a (w', err (unsupported c)) = w' ≡ w
  Explained w a (w', err (failed reason)) = w' ≡ w
  Explained w a (w', err (guardrail_violation v)) = w' ≡ w

  reversal_of-Reverted :
      (op undo : ServiceOp) (unit : String) (w : W) (x : W × Result String (Unit {0}))
      → inverse op ≡ some undo
      → apply h undo w unit ≡ x
      → Reverted op unit w (reversal_of h x).0 (reversal_of h x).1
  reversal_of-Reverted op undo unit w (w', ok tt) i e = (undo, i, e)
  reversal_of-Reverted op undo unit w (w', err s) i e = (undo, s, i, e)

  attempt_reversal-Reverted :
      (op : ServiceOp) (unit : String) (w : W)
      → let (w', reversal) = attempt_reversal h op w unit in Reverted op unit w w' reversal
  unfolding attempt_reversal inverse
  attempt_reversal-Reverted restart unit w = (refl, refl)
  attempt_reversal-Reverted stop unit w =
      reversal_of-Reverted stop start unit w (h.service_start w unit) refl refl
  attempt_reversal-Reverted start unit w =
      reversal_of-Reverted start stop unit w (h.service_stop w unit) refl refl

  conclude-Explained :
      (w : W) (a : AuthorizedAction V) (op : ServiceOp) (unit : String)
      (x : W × Result String (Unit {0}))
      → Admitted a op unit
      → apply h op w unit ≡ x
      → Explained w a (conclude h a.request.capability op unit w x)
  unfolding conclude
  conclude-Explained w a op unit (w', ok tt) k e = (op, unit, k, e)
  conclude-Explained w a op unit (w', err reason) k e =
      (op, unit, w', k, e, attempt_reversal-Reverted op unit w')

  unit_of : (x : Option String) (unit : String) → bind x (not_blank h) ≡ some unit → x ≡ some unit
  unit_of none unit e = absurd (ground arith)
  unit_of (some u) unit e = ground arith

  -- Whatever the service manager answers: an action that succeeds ran the operation that its
  -- capability names, once, on a unit that passed the guardrails. An action that failed after its
  -- effect says truly what became of it: a failed restart is never reversed; of a failed stop or start
  -- the inverse ran exactly once, and the answer says reversed if and only if that call succeeded. Every
  -- other failure leaves the world as it was, a refusal by a guardrail included.
  pub execute-Explained :
      (w : W) (a : AuthorizedAction V) → Explained w a (execute h guardrails w a)
  unfolding execute
  execute-Explained w a = by_operation (operation_of a.request.capability) refl
    where
      by_operation :
          (x : Option ServiceOp)
          → operation_of a.request.capability ≡ x
          → Explained w a (elim x as (λ _. Outcome h) [
            | none ↦ (w, err (unsupported a.request.capability))
            | some op ↦
                required h w
                  (bind (h.str_arg a.request.arguments "unit") (not_blank h))
                  "no service unit"
                  (λ unit.
                    guarded h w guardrails a.request.capability unit
                      (conclude h a.request.capability op unit w (apply h op w unit)))
          ])
      by_operation none e = refl
      by_operation (some op) e = required_elim h (Explained w a) w _ _ _ refl λ unit u.
          guarded_elim h (Explained w a) w guardrails _ _ _ (λ v. refl)
            λ passed.
              conclude-Explained w a op unit (apply h op w unit)
                (e, unit_of (h.str_arg a.request.arguments "unit") unit u, passed) refl
