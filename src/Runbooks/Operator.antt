-- ===== src/Runbooks/Operator.antt =====
-- What an operator's approval and promotion do, and where they cannot succeed any more
-- (crates/argus-runbooks/src/promotion.rs).
use argus_ai.Prelude.{
  ℕ, ◌≤◌, ◌≡◌, ◌⊎◌, ◌↔◌, ap, false, none, List, [], ◌∷◌, arith, length, length-append, take,
}
use argus_ai.Runbooks.{
  Runbook, candidate_status, promoted_status, Gate, approval, ladder, same_gate, expected_at,
  record_outcome, record_gate, approve, promote, approve_at, promote_at, gate_then, has_reached,
}
use argus_ai.Runbooks.Ladder.{
  Call, records, approves, promotes, outcomes, step, run, Laddered, run_fresh-Earned,
}

expected_approval_end : (n : ℕ) → 5 ≤ n → same_gate approval (expected_at n) ≡ false
expected_approval_end n h = ground arith

-- A ladder of four gates.
first_four : (gs : List Gate) → Laddered 0 gs → length gs ≡ 4 → gs ≡ take 4 ladder
first_four [] l h = absurd (omega arith)
first_four (a ∷ []) l h = absurd (omega arith)
first_four (a ∷ b ∷ []) l h = absurd (omega arith)
first_four (a ∷ b ∷ c ∷ []) l h = absurd (omega arith)
first_four (a ∷ b ∷ c ∷ d ∷ []) l h = cc (l.0, l.1.0, l.1.1.0, l.1.1.1.0)
first_four (a ∷ b ∷ c ∷ d ∷ e ∷ gs) l h = absurd (omega arith)

module _ {C : Type 0} where
  -- Whatever fails leaves the runbook as it was: a gate out of order, an approval, a promotion.
  pub refused_unchanged :
      (r : Runbook C) (g : Gate)
      → (((record_gate r g).1 ≡ none) ⊎ ((record_gate r g).0 ≡ r))
        × (((approve r).1 ≡ none) ⊎ ((approve r).0 ≡ r))
        × (((promote r).1 ≡ none) ⊎ ((promote r).0 ≡ r))
  unfolding record_gate approve promote approve_at promote_at gate_then has_reached
  refused_unchanged r g = ground arith

  -- With a number of gates, whatever they are, an approval and then a promotion go through exactly
  -- when the number is four.
  promote-approve_four :
      (r : Runbook C)
      → r.status ≡ candidate_status
      → ((promote (approve r).0).0.status ≡ promoted_status) ↔ (length r.gates ≡ 4)
  unfolding approve promote approve_at promote_at gate_then record_gate has_reached
  promote-approve_four r s = ground (arith, length-append r.gates (approval ∷ []))

  -- After any history of calls on a candidate with no gates, an operator's approval and then a
  -- promotion bring a candidate to promoted exactly when the gates behind it are the four technical
  -- ones, in order: neither with fewer, nor where the approval gate was already recorded.
  pub promote-approve_iff :
      (r : Runbook C) (cs : List Call)
      → r.status ≡ candidate_status
      → r.gates ≡ []
      → (run r cs).status ≡ candidate_status
      → ((promote (approve (run r cs)).0).0.status ≡ promoted_status)
        ↔ ((run r cs).gates ≡ take 4 ladder)
  promote-approve_iff r cs s g h =
      let x = run r cs in
      let four = promote-approve_four x h in
      (
        λ e. first_four x.gates (run_fresh-Earned r cs s g).laddered (four.0 e),
        λ e. four.1 (ap length e),
      )

  step_stuck :
      (r : Runbook C) (c : Call)
      → (r.status ≡ candidate_status) × (5 ≤ length r.gates)
      → ((step r c).status ≡ candidate_status) × (5 ≤ length (step r c).gates)
  unfolding step
  step_stuck r (records g) h = unfold record_gate in ground (arith, length-append r.gates (g ∷ []))
  step_stuck r approves h =
      unfold approve approve_at record_gate gate_then has_reached in
      ground (arith, expected_approval_end (length r.gates))
  step_stuck r promotes h = unfold promote promote_at in ground arith
  step_stuck r (outcomes success) h = unfold record_outcome in ground arith

  run_stuck :
      (r : Runbook C) (cs : List Call)
      → (r.status ≡ candidate_status) × (5 ≤ length r.gates)
      → ((run r cs).status ≡ candidate_status) × (5 ≤ length (run r cs).gates)
  unfolding run
  run_stuck r [] h = h
  run_stuck r (c ∷ cs) h = run_stuck (step r c) cs (step_stuck r c h)

  -- A candidate with five gates or more stays a candidate after any history of calls: where the
  -- approval gate was recorded as a gate, and not by an approval, no later approval succeeds.
  pub recorded_approval_stuck :
      (r : Runbook C) (cs : List Call)
      → r.status ≡ candidate_status
      → 5 ≤ length r.gates
      → (run r cs).status ≡ candidate_status
  recorded_approval_stuck r cs s h = (run_stuck r cs (s, h)).0
