-- ===== src/Cloud/Report.antt =====
-- The buffered entry of crates/argus-cloud/src/buffer.rs, and the queue steps that its buffers share.
-- A payload is a JSON value, a type `V` that the buffers only carry; a fresh UUID is an argument.
use mathlib.Core.List.{reverse, reverse-cons, reverse-reverse, append_assoc}
use argus_ai.Prelude.{
  ℕ, ◌≡◌, refl, Bool, true, false, List, [], ◌∷◌, ◌++◌, String, u32_saturating_add, ◌∙◌,
}
use argus_ai.Prelude.Int.{ℤ}

pub data ReportKind : Type 0 where
  telemetry health events activities sentinel action_ledger brain_trace token_usage : ReportKind

unfoldable pub as_str : ReportKind → String
as_str telemetry = "telemetry"
as_str sentinel = "sentinel"
as_str health = "health"
as_str events = "events"
as_str activities = "activities"
as_str action_ledger = "actions"
as_str brain_trace = "traces"
as_str token_usage = "usage"

unfoldable pub is_ledger : ReportKind → Bool
is_ledger action_ledger = true
is_ledger brain_trace = true
is_ledger token_usage = true
is_ledger _ = false

pub record BufferedReport (V : Type 0) : Type 0 where
  pub entry_id : ℕ
  pub kind : ReportKind
  pub payload : V
  pub enqueued_at : ℤ
  pub attempts : ℕ

-- A new entry, with no delivery attempt.
abbrev pub entry : {V : Type 0} → ℕ → ReportKind → V → ℤ → BufferedReport V
entry fresh kind payload at = record {
  entry_id = fresh;
  kind = kind;
  payload = payload;
  enqueued_at = at;
  attempts = 0;
}

unfoldable pub attempted : {V : Type 0} → BufferedReport V → BufferedReport V
attempted e = record e { attempts = u32_saturating_add e.attempts 1 }

-- `push_front` of each entry in turn.
unfoldable pub push_fronts {ℓ} : {A : Type ℓ} → List A → List A → List A
push_fronts [] entries = entries
push_fronts (e ∷ es) entries = push_fronts es (e ∷ entries)

push_fronts-reverse-onto {ℓ} :
    {A : Type ℓ} (es entries : List A) → push_fronts es entries ≡ reverse es ++ entries
unfolding push_fronts
push_fronts-reverse-onto [] entries = refl
push_fronts-reverse-onto (e ∷ es) entries =
    push_fronts-reverse-onto es (e ∷ entries)
    ∙ rw (reverse-cons e es, append_assoc (reverse es) (e ∷ []) entries)

-- In reverse order that puts a batch in front of the entries as it stands.
pub push_fronts-reverse {ℓ} :
    {A : Type ℓ} (batch entries : List A) → push_fronts (reverse batch) entries ≡ batch ++ entries
push_fronts-reverse batch entries =
    push_fronts-reverse-onto (reverse batch) entries ∙ rw (reverse-reverse batch)
