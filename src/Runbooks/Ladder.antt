-- ===== src/Runbooks/Ladder.antt =====
-- What a runbook has earned when it is approved or promoted (crates/argus-runbooks/src/promotion.rs).
use argus_ai.Prelude.{
  ℕ, ◌+◌, ◌≤◌, ◌≡◌, refl, ap, ◌⊎◌, inl, inr, Bool, true, none, some, List, [], ◌∷◌, ◌++◌, arith,
  length, length-append, take, Bool-cases, leb,
}
use argus_ai.Runbooks.{
  Runbook, RunbookStatus, candidate_status, approved_status, promoted_status, Gate, approval,
  promotion, ladder, position, same_gate, expected_at, record_outcome, record_gate, approve,
  promote, approve_at, promote_at, gate_then, has_reached, GateError, out_of_order,
}

-- The gates are those that the ladder expects from the given place on.
abbrev pub Laddered : ℕ → List Gate → Type 0
Laddered n [] = Unit
Laddered n (g ∷ gs) = (g ≡ expected_at n) × Laddered (n + 1) gs

Laddered-append :
    (n k : ℕ) (gs : List Gate) (g : Gate)
    → Laddered n gs
    → k ≡ n + length gs
    → g ≡ expected_at k
    → Laddered n (gs ++ g ∷ [])
Laddered-append n k [] g l e h = (rw h (ap expected_at (omega arith)), tt)
Laddered-append n k (a ∷ gs) g l e h = (l.0, Laddered-append (n + 1) k gs g l.1 (omega arith) h)

same_gate_eq : (a b : Gate) → same_gate a b ≡ true → a ≡ b
same_gate_eq a b h = ground arith

-- The gates that each status has behind it.
abbrev pub gates_needed : RunbookStatus → ℕ
gates_needed candidate_status = 0
gates_needed approved_status = 5
gates_needed promoted_status = 6

pub record Earned {C : Type 0} (r : Runbook C) : Type 0 where
  pub laddered : Laddered 0 r.gates
  pub enough : gates_needed r.status ≤ length r.gates

-- The first gates of a ladder that is long enough.
first_five : (gs : List Gate) → Laddered 0 gs → 5 ≤ length gs → take 5 gs ≡ take 5 ladder
first_five [] l h = absurd (omega arith)
first_five (a ∷ []) l h = absurd (omega arith)
first_five (a ∷ b ∷ []) l h = absurd (omega arith)
first_five (a ∷ b ∷ c ∷ []) l h = absurd (omega arith)
first_five (a ∷ b ∷ c ∷ d ∷ []) l h = absurd (omega arith)
first_five (a ∷ b ∷ c ∷ d ∷ e ∷ gs) l h = cc (l.0, l.1.0, l.1.1.0, l.1.1.1.0, l.1.1.1.1.0)

first_six : (gs : List Gate) → Laddered 0 gs → 6 ≤ length gs → take 6 gs ≡ ladder
first_six [] l h = absurd (omega arith)
first_six (a ∷ []) l h = absurd (omega arith)
first_six (a ∷ b ∷ []) l h = absurd (omega arith)
first_six (a ∷ b ∷ c ∷ []) l h = absurd (omega arith)
first_six (a ∷ b ∷ c ∷ d ∷ []) l h = absurd (omega arith)
first_six (a ∷ b ∷ c ∷ d ∷ e ∷ []) l h = absurd (omega arith)
first_six (a ∷ b ∷ c ∷ d ∷ e ∷ f ∷ gs) l h =
    cc (l.0, l.1.0, l.1.1.0, l.1.1.1.0, l.1.1.1.1.0, l.1.1.1.1.1.0)

-- One call on a runbook.
pub data Call : Type 0 where
  records : Gate → Call
  approves promotes : Call
  outcomes : Bool → Call

-- The ladder expects the approval only after four gates, and the promotion after five.
expected_approval : (n : ℕ) → approval ≡ expected_at n → 4 ≤ n
expected_approval n h = ground arith

expected_promotion : (n : ℕ) → promotion ≡ expected_at n → 5 ≤ n
expected_promotion n h = ground arith

module _ {C : Type 0} where
  unfoldable pub step : Runbook C → Call → Runbook C
  step r (records g) = (record_gate r g).0
  step r approves = (approve r).0
  step r promotes = (promote r).0
  step r (outcomes success) = record_outcome r success

  unfoldable pub run : Runbook C → List Call → Runbook C
  run r [] = r
  run r (c ∷ cs) = run (step r c) cs

  record_gate_cases :
      (r : Runbook C) (g : Gate)
      → ((g ≡ expected_at (length r.gates))
          × (record_gate r g ≡ (record r { gates = r.gates ++ g ∷ [] }, none)))
        ⊎ ((e : GateError) × (record_gate r g ≡ (r, some e)))
  unfolding record_gate
  record_gate_cases r g = elim (Bool-cases (same_gate g (expected_at (length r.gates)))) [
    | inl e ↦ inl (same_gate_eq g (expected_at (length r.gates)) e, rw e refl)
    | inr e ↦ inr (out_of_order, rw e refl)
  ]

  record_gate-Earned : (r : Runbook C) (g : Gate) → Earned r → Earned (record_gate r g).0
  record_gate-Earned r g v = elim (record_gate_cases r g) [
    | inl (expected, e) ↦ rw e (record {
      laddered = Laddered-append 0 (length r.gates) r.gates g v.laddered (omega arith) expected;
      enough = omega (arith, v.enough, length-append r.gates (g ∷ []));
    })
    | inr (_, e) ↦ rw e v
  ]

  gate_then-Earned :
      (r : Runbook C) (g : Gate) (status : RunbookStatus)
      → Earned r
      → gates_needed status ≡ position g + 1
      → ((n : ℕ) → g ≡ expected_at n → position g ≤ n)
      → Earned (gate_then (record_gate r g) status).0
  unfolding gate_then
  gate_then-Earned r g status v n h = elim (record_gate_cases r g) [
    | inl (expected, e) ↦ rw e (record {
      laddered = Laddered-append 0 (length r.gates) r.gates g v.laddered (omega arith) expected;
      enough = omega (arith, n, h (length r.gates) expected, length-append r.gates (g ∷ []));
    })
    | inr (_, e) ↦ rw e v
  ]

  approve-Earned : (s : RunbookStatus) (r : Runbook C) → Earned r → Earned (approve_at s r).0
  unfolding approve_at has_reached
  approve-Earned candidate_status r v = elim (Bool-cases (leb 3 (length r.gates))) [
    | inl e ↦ rw e (gate_then-Earned r approval approved_status v refl expected_approval)
    | inr e ↦ rw e v
  ]
  approve-Earned approved_status r v = v
  approve-Earned promoted_status r v = v

  promote-Earned : (s : RunbookStatus) (r : Runbook C) → Earned r → Earned (promote_at s r).0
  unfolding promote_at
  promote-Earned candidate_status r v = v
  promote-Earned approved_status r v =
      gate_then-Earned r promotion promoted_status v refl expected_promotion
  promote-Earned promoted_status r v = v

  step-Earned : (r : Runbook C) (c : Call) → Earned r → Earned (step r c)
  unfolding step
  step-Earned r (records g) v = record_gate-Earned r g v
  step-Earned r approves v = unfold approve in approve-Earned r.status r v
  step-Earned r promotes v = unfold promote in promote-Earned r.status r v
  step-Earned r (outcomes success) v =
      unfold record_outcome in record { laddered = v.laddered; enough = v.enough }

  run-Earned : (r : Runbook C) (cs : List Call) → Earned r → Earned (run r cs)
  unfolding run
  run-Earned r [] v = v
  run-Earned r (c ∷ cs) v = run-Earned (step r c) cs (step-Earned r c v)

  pub run_fresh-Earned :
      (r : Runbook C) (cs : List Call)
      → r.status ≡ candidate_status
      → r.gates ≡ []
      → Earned (run r cs)
  run_fresh-Earned r cs s g =
      run-Earned r cs (record { laddered = rw g tt; enough = rw s (omega arith) })

  -- Promotion is earned: after any history of calls on a candidate with no gates, a promoted
  -- runbook has passed the six gates of the ladder first, in order.
  pub promoted_earned :
      (r : Runbook C) (cs : List Call)
      → r.status ≡ candidate_status
      → r.gates ≡ []
      → (run r cs).status ≡ promoted_status
      → take 6 (run r cs).gates ≡ ladder
  promoted_earned r cs s g h =
      let v = run_fresh-Earned r cs s g in
      first_six (run r cs).gates v.laddered (omega (arith, v.enough, ap gates_needed h))

  -- After any history of calls on a candidate with no gates, a runbook that is approved has passed
  -- the four technical gates and the approval gate, in order.
  pub approved_earned :
      (r : Runbook C) (cs : List Call)
      → r.status ≡ candidate_status
      → r.gates ≡ []
      → (run r cs).status ≡ approved_status
      → take 5 (run r cs).gates ≡ take 5 ladder
  approved_earned r cs s g h =
      let v = run_fresh-Earned r cs s g in
      first_five (run r cs).gates v.laddered (omega (arith, v.enough, ap gates_needed h))
