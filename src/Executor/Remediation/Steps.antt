-- ===== src/Executor/Remediation/Steps.antt =====
-- What holds of an outcome of the executors in crates/argus-executor, through the early returns on a
-- missing argument and on a guardrail's refusal.
use argus_ai.Prelude.{◌≡◌, refl, Option, none, some, String}
use argus_ai.Prelude.Int.{ℤ}
use argus_ai.Prelude.Results.{Result, ok, err}
use argus_ai.Executor.Guardrail.{GuardrailRegistry, GuardrailViolation, check}
use argus_ai.Executor.Host.{RemediationError, failed, guardrail_violation, Host, Outcome}
use argus_ai.Executor.Remediation.Execute.{required, guarded, answer}

-- The world of an answer is the one that the controller left.
pub answer_world :
    (h : Host) (c : String) (s : ℤ) (w : h.W) (x : Result RemediationError h.V)
    → (answer h c s w x).0 ≡ w
unfolding answer
answer_world h c s w (ok v) = refl
answer_world h c s w (err e) = refl

module _ (h : Host) (P : Outcome h → Type 0) (w : h.W) where
  pub required_elim {ℓ} :
      {A : Type ℓ} (x : Option A) (reason : String) (k : A → Outcome h)
      → P (w, err (failed reason))
      → ((b : A) → x ≡ some b → P (k b))
      → P (required h w x reason k)
  unfolding required
  required_elim none reason k p f = p
  required_elim (some b) reason k p f = f b refl

  pub guarded_elim :
      (guardrails : GuardrailRegistry) (c target : String) (k : Outcome h)
      → ((v : GuardrailViolation) → P (w, err (guardrail_violation v)))
      → (check guardrails c target ≡ ok tt → P k)
      → P (guarded h w guardrails c target k)
  unfolding guarded
  guarded_elim guardrails c target k p f = by_answer (check guardrails c target) f
    where
      by_answer :
          (x : Result GuardrailViolation (Unit {0}))
          → (x ≡ ok tt → P k)
          → P (elim x as (λ _. Outcome h) [
            | ok accepted ↦ k
            | err v ↦ (w, err (guardrail_violation v))
          ])
      by_answer (ok tt) f = f refl
      by_answer (err v) f = p v
