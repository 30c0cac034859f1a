-- ===== src/Policy/Autopilot/InFlight/Bound.antt =====
-- The rolling budget over overlapping evaluations (crates/argus-policy/src/autopilot.rs).
use argus_ai.Prelude.{
  ℕ, zero, suc, ◌+◌, ◌≤◌, ◌≡◌, refl, sym, ap, ◌∙◌, to_ℕ, Option, none, some, List, [], ◌∷◌, length,
  arith, inl, inr, string_eq,
}
use argus_ai.Prelude.Int.{ℤ, ◌-ℤ◌, ◌≤ℤ◌, ltb_ℤ}
use argus_ai.Policy.Escalation.{Criticality}
use argus_ai.Policy.Autopilot.{
  AutopilotGovernor, ResourceAdjustment, expire, by_class, classify, record_grant,
}
use argus_ai.Policy.Autopilot.Limits.{recent}
use argus_ai.Policy.Autopilot.Trace.{recent-expire, recent-append, recent_cons, recent-le-length}
use argus_ai.Policy.Autopilot.InFlight.{
  Shared, Event, classified, decided, recorded, behind, pluck, after_decision, after_record, step,
  run, alone, by_class_cases,
}

-- No clock reading is later than the time.
abbrev pub Before : ℤ → List Event → Type 0
Before t [] = Unit
Before t (classified subject tier ∷ es) = Before t es
Before t (decided a class now ∷ es) = (now ≤ℤ t) × Before t es
Before t (recorded i at ∷ es) = (at ≤ℤ t) × Before t es

-- At no point are more calls than the number between their decision and their record.
abbrev pub AtMost : ℕ → Shared → List Event → Type 0
AtMost n s [] = Unit
AtMost n s (e ∷ es) = (length (step s e).in_flight ≤ n) × AtMost n (step s e) es

-- One fewer is left where an element was found.
abbrev Plucked : {A : Type 0} → ℕ → Option (A × List A) → Type 0
Plucked n none = Unit
Plucked n (some (y, ys)) = n ≡ length ys + 1

behind-Plucked :
    {A : Type 0} (x : A) (n : ℕ) (o : Option (A × List A))
    → Plucked n o
    → Plucked (suc n) (behind x o)
unfolding behind
behind-Plucked x n none h = tt
behind-Plucked x n (some (y, ys)) h = omega arith

pluck-Plucked : {A : Type 0} (xs : List A) (i : ℕ) → Plucked (length xs) (pluck xs i)
unfolding pluck
pluck-Plucked [] i = tt
pluck-Plucked (x ∷ xs) zero = omega arith
pluck-Plucked (x ∷ xs) (suc i) = behind-Plucked x (length xs) (pluck xs i) (pluck-Plucked xs i)

record Counted (budget k : ℕ) (t window : ℤ) (s : Shared) : Type 0 where
  budget_kept : s.governor.limits.budget_per_window ≡ budget
  window_kept : s.governor.limits.window ≡ window
  same : recent s.log t window ≡ recent s.governor.granted t window
  bounded : recent s.log t window + length s.in_flight ≤ budget + k

module _ (budget k : ℕ) (t window : ℤ) where
  decision-Counted :
      (s : Shared) (a : ResourceAdjustment) (class : Option Criticality) (now : ℤ)
      → now ≤ℤ t
      → length (after_decision s a (by_class s.governor a class now)).in_flight ≤ k + 1
      → Counted budget k t window s
      → Counted budget k t window (after_decision s a (by_class s.governor a class now))
  unfolding after_decision
  decision-Counted s a class now h few v =
      let (limits, cases) = by_class_cases s.governor a class now in
      elim cases [
        | inl (e, refused) ↦ record {
          budget_kept = ap (λ l. l.budget_per_window) limits ∙ v.budget_kept;
          window_kept = ap (λ l. l.window) limits ∙ v.window_kept;
          same = rw e v.same;
          bounded = rw refused v.bounded;
        }
        | inr (inl (e, refused)) ↦ record {
          budget_kept = ap (λ l. l.budget_per_window) limits ∙ v.budget_kept;
          window_kept = ap (λ l. l.window) limits ∙ v.window_kept;
          same = rw (e, v.window_kept, recent-expire now t window s.governor.granted h) v.same;
          bounded = rw refused v.bounded;
        }
        | inr (inr (e, granted, room, rested)) ↦ record {
          budget_kept = ap (λ l. l.budget_per_window) limits ∙ v.budget_kept;
          window_kept = ap (λ l. l.window) limits ∙ v.window_kept;
          same = rw (e, v.window_kept, recent-expire now t window s.governor.granted h) v.same;
          bounded = ground (
            arith,
            few,
            room,
            v.same,
            v.budget_kept,
            v.window_kept,
            recent-expire now t window s.governor.granted h,
            recent-le-length t window (expire s.governor.granted now window),
          );
        }
      ]

  record-Counted :
      (s : Shared) (at : ℤ) (o : Option (ResourceAdjustment × List ResourceAdjustment))
      → Plucked (length s.in_flight) o
      → Counted budget k t window s
      → Counted budget k t window (after_record s at o)
  unfolding after_record record_grant
  record-Counted s at none h v = v
  record-Counted s at (some (a, others)) h v = record {
    budget_kept = v.budget_kept;
    window_kept = v.window_kept;
    same =
        recent_cons at t window a.subject s.log
        ∙ ap (λ n. to_ℕ (ltb_ℤ (t -ℤ at) window) + n) v.same
        ∙ sym (recent_cons at t window a.subject s.governor.granted)
        ∙ sym (recent-append at t window a.subject s.governor.granted);
    bounded = ground (arith, h, v.bounded, recent_cons at t window a.subject s.log);
  }

  step-Counted :
      (s : Shared) (e : Event)
      → Before t (e ∷ [])
      → length (step s e).in_flight ≤ k + 1
      → Counted budget k t window s
      → Counted budget k t window (step s e)
  unfolding step
  step-Counted s (classified subject tier) b few v =
      unfold classify in
      record {
        budget_kept = v.budget_kept;
        window_kept = v.window_kept;
        same = v.same;
        bounded = v.bounded;
      }
  step-Counted s (decided a class now) b few v = decision-Counted s a class now b.0 few v
  step-Counted s (recorded i at) b few v =
      record-Counted s at (pluck s.in_flight i) (pluck-Plucked s.in_flight i) v

  Before-first : (e : Event) (es : List Event) → Before t (e ∷ es) → Before t (e ∷ []) × Before t es
  Before-first (classified subject tier) es b = (tt, b)
  Before-first (decided a class now) es b = ((b.0, tt), b.1)
  Before-first (recorded i at) es b = ((b.0, tt), b.1)

  run-Counted :
      (s : Shared) (es : List Event)
      → Before t es
      → AtMost (k + 1) s es
      → Counted budget k t window s
      → Counted budget k t window (run s es)
  unfolding run
  run-Counted s [] b few v = v
  run-Counted s (e ∷ es) b few v =
      let (first, rest) = Before-first e es b in
      run-Counted (step s e) es rest few.1 (step-Counted s e first few.0 v)

-- Calls of many callers on one governor with no grants yet, in any interleaving of their decisions,
-- their records and an operator's classifications, where at most k + 1 calls at a time are between
-- their decision and their record: at any time that no clock reading passes, the grants of the whole
-- history that are younger than the window, with the calls allowed and not yet recorded, exceed the
-- budget by at most k. Calls that do not overlap keep to the budget.
pub in_flight_bounded :
    (g : AutopilotGovernor) (k : ℕ) (es : List Event) (t : ℤ)
    → g.granted ≡ []
    → AtMost (k + 1) (alone g) es
    → Before t es
    → let s = run (alone g) es in
      recent s.log t g.limits.window + length s.in_flight ≤ g.limits.budget_per_window + k
in_flight_bounded g k es t e few b =
    (run-Counted g.limits.budget_per_window k t g.limits.window (alone g) es b few (record {
      budget_kept = refl;
      window_kept = refl;
      same = rw e;
      bounded = unfold recent in (omega arith);
    })).bounded
