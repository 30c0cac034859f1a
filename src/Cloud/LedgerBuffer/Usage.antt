-- ===== src/Cloud/LedgerBuffer/Usage.antt =====
-- The rolling usage sums of crates/argus-cloud/src/buffer.rs: one batch per pair, no call lost.
use argus_ai.Prelude.{
  ℕ, ◌+◌, ◌≤◌, ◌≡◌, refl, false, none, some, List, [], ◌∷◌, All, arith, u32_max, Bool-cases, inl,
  inr,
}
use argus_ai.Cloud.LedgerBuffer.{UsageSum, merge, same_batch, batch}

-- No later sum belongs to the pair of an earlier one.
abbrev pub Distinct : List UsageSum → Type 0
Distinct [] = Unit
Distinct (u ∷ us) = All (λ w. same_batch u w ≡ false) us × Distinct us

same_batch-merge : (u v w : UsageSum) → same_batch (merge u v) w ≡ same_batch u w
unfolding merge
same_batch-merge u v w = refl

All-batch :
    (u v : UsageSum) (us : List UsageSum)
    → All (λ w. same_batch u w ≡ false) us
    → same_batch u v ≡ false
    → All (λ w. same_batch u w ≡ false) (batch us v)
unfolding batch
All-batch u v [] a h = (h, tt)
All-batch u v (x ∷ us) a h = elim (Bool-cases (same_batch x v)) [
  | inl same ↦ rw same (unfold merge in a)
  | inr other ↦ rw other (a.0, All-batch u v us a.1 h)
]

-- Batching a record keeps one sum per pair.
pub batch-Distinct : (us : List UsageSum) (v : UsageSum) → Distinct us → Distinct (batch us v)
unfolding batch
batch-Distinct [] v d = (tt, tt)
batch-Distinct (u ∷ us) v d = elim (Bool-cases (same_batch u v)) [
  | inl same ↦ rw same (unfold merge in d)
  | inr other ↦ rw other (All-batch u v us d.0 other, batch-Distinct us v d.1)
]

unfoldable pub total_calls : List UsageSum → ℕ
total_calls [] = 0
total_calls (u ∷ us) = u.calls + total_calls us

unfoldable pub total_unknown : List UsageSum → ℕ
total_unknown [] = 0
total_unknown (u ∷ us) = u.unknown_usage + total_unknown us

calls-batch :
    (us : List UsageSum) (v : UsageSum)
    → total_calls us + v.calls ≤ u32_max
    → total_calls (batch us v) ≡ total_calls us + v.calls
unfolding total_calls batch merge
calls-batch [] v h = omega arith
calls-batch (u ∷ us) v h = ground (arith, calls-batch us v)

unknown-batch :
    (us : List UsageSum) (v : UsageSum)
    → total_unknown us + v.unknown_usage ≤ u32_max
    → total_unknown (batch us v) ≡ total_unknown us + v.unknown_usage
unfolding total_unknown batch merge
unknown-batch [] v h = omega arith
unknown-batch (u ∷ us) v h = ground (arith, unknown-batch us v)

-- Batching loses no call and no unknown: on sums of distinct pairs, while the totals fit a u32,
-- both totals grow by those of the record; and the sums are still of distinct pairs.
pub batch_totals :
    (us : List UsageSum) (v : UsageSum)
    → Distinct us
    → total_calls us + v.calls ≤ u32_max
    → total_unknown us + v.unknown_usage ≤ u32_max
    → (total_calls (batch us v) ≡ total_calls us + v.calls)
      × (total_unknown (batch us v) ≡ total_unknown us + v.unknown_usage)
      × Distinct (batch us v)
batch_totals us v d h k = (calls-batch us v h, unknown-batch us v k, batch-Distinct us v d)

-- A batch whose first record has an unknown count stays unknown, whatever known counts follow; in
-- the other order the known count is kept.
pub merge_order :
    (unknown known : UsageSum) {n : ℕ}
    → unknown.total_tokens ≡ none
    → known.total_tokens ≡ some n
    → ((merge unknown known).total_tokens ≡ none) × ((merge known unknown).total_tokens ≡ some n)
unfolding merge
merge_order unknown known h k = rw (h, k) (refl, refl)
