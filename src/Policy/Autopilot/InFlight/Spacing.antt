-- ===== src/Policy/Autopilot/InFlight/Spacing.antt =====
-- The cooldown where no two evaluations of one subject overlap, whatever those of other subjects do
-- (crates/argus-policy/src/autopilot.rs).
use argus_ai.Prelude.{
  ℕ, zero, suc, ◌≡◌, refl, sym, ap, ◌∙◌, false, ◌&&◌, ◌||◌, Option, none, some, List, [], ◌∷◌,
  String, All, eqb, arith, inl, inr, string_eq,
}
use argus_ai.Prelude.Int.{ℤ, ◌-ℤ◌, ◌≤ℤ◌, ltb_ℤ}
use argus_ai.Policy.Escalation.{Criticality}
use argus_ai.Policy.Autopilot.{
  AutopilotGovernor, AutopilotLimits, ResourceAdjustment, cooling, expire, by_class, classify,
  record_grant,
}
use argus_ai.Policy.Autopilot.Trace.{
  Spaced, cooling-expire, cooling-append, cooling_cons, cooling_later,
}
use argus_ai.Policy.Autopilot.InFlight.{
  Shared, Event, classified, decided, recorded, step, run, alone, pluck, behind, after_decision,
  after_record, by_class_cases,
}

-- Two adjustments of different subjects.
abbrev pub Differ : ResourceAdjustment → ResourceAdjustment → Type 0
Differ a b = (eqb a.subject b.subject ≡ false) × (eqb b.subject a.subject ≡ false)

abbrev Apart : List ResourceAdjustment → Type 0
Apart [] = Unit
Apart (a ∷ others) = All (Differ a) others × Apart others

-- The clock readings never go back, in the order of the events, from the given one on.
abbrev pub Clocked : ℤ → List Event → Type 0
Clocked clock [] = Unit
Clocked clock (classified subject tier ∷ es) = Clocked clock es
Clocked clock (decided a class now ∷ es) = (clock ≤ℤ now) × Clocked now es
Clocked clock (recorded i at ∷ es) = (clock ≤ℤ at) × Clocked at es

-- A call decides only while no call for its subject is in flight.
abbrev Enters : Shared → Event → Type 0
Enters s (decided a class now) = All (Differ a) s.in_flight
Enters s _ = Unit

abbrev pub Exclusive : Shared → List Event → Type 0
Exclusive s [] = Unit
Exclusive s (e ∷ es) = Enters s e × Exclusive (step s e) es

-- What a pluck leaves, for the element and for the others.
abbrev Parted :
    (ResourceAdjustment → Type 0) → Option (ResourceAdjustment × List ResourceAdjustment) → Type 0
Parted P none = Unit
Parted P (some (y, ys)) = P y × All P ys

abbrev LeftApart : Option (ResourceAdjustment × List ResourceAdjustment) → Type 0
LeftApart none = Unit
LeftApart (some (y, ys)) = All (Differ y) ys × Apart ys

behind-Parted :
    (P : ResourceAdjustment → Type 0) (x : ResourceAdjustment)
    (o : Option (ResourceAdjustment × List ResourceAdjustment))
    → P x
    → Parted P o
    → Parted P (behind x o)
unfolding behind
behind-Parted P x none h v = tt
behind-Parted P x (some (y, ys)) h v = (v.0, (h, v.1))

pluck-Parted :
    (P : ResourceAdjustment → Type 0) (xs : List ResourceAdjustment) (i : ℕ)
    → All P xs
    → Parted P (pluck xs i)
unfolding pluck
pluck-Parted P [] i a = tt
pluck-Parted P (x ∷ xs) zero a = a
pluck-Parted P (x ∷ xs) (suc i) a = behind-Parted P x (pluck xs i) a.0 (pluck-Parted P xs i a.1)

behind-LeftApart :
    (x : ResourceAdjustment) (o : Option (ResourceAdjustment × List ResourceAdjustment))
    → Parted (Differ x) o
    → LeftApart o
    → LeftApart (behind x o)
unfolding behind
behind-LeftApart x none h v = tt
behind-LeftApart x (some (y, ys)) h v = (((h.0.1, h.0.0), v.0), (h.1, v.1))

pluck-LeftApart : (xs : List ResourceAdjustment) (i : ℕ) → Apart xs → LeftApart (pluck xs i)
unfolding pluck
pluck-LeftApart [] i a = tt
pluck-LeftApart (x ∷ xs) zero a = a
pluck-LeftApart (x ∷ xs) (suc i) a =
    behind-LeftApart x (pluck xs i) (pluck-Parted (Differ x) xs i a.0) (pluck-LeftApart xs i a.1)

All-map :
    {A : Type 0} (P Q : A → Type 0) (xs : List A) → ((x : A) → P x → Q x) → All P xs → All Q xs
All-map P Q [] f a = tt
All-map P Q (x ∷ xs) f a = (f x a.0, All-map P Q xs f a.1)

-- At the clock reading, the log and the grants cool down alike from then on, the log is spaced, and
-- the calls in flight are for different subjects that have all cooled down.
record Rested (l : AutopilotLimits) (clock : ℤ) (s : Shared) : Type 0 where
  kept : s.governor.limits ≡ l
  same :
      (subject : String) (t : ℤ)
      → clock ≤ℤ t
      → cooling s.log subject t l.cooldown_per_subject
        ≡ cooling s.governor.granted subject t l.cooldown_per_subject
  spaced : Spaced l.cooldown_per_subject s.log
  cooled : All (λ a. cooling s.log a.subject clock l.cooldown_per_subject ≡ false) s.in_flight
  apart : Apart s.in_flight

module _ (l : AutopilotLimits) (f : l.cooldown_per_subject ≤ℤ l.window) where
  cooled_later :
      (s : Shared) (clock t : ℤ)
      → clock ≤ℤ t
      → (xs : List ResourceAdjustment)
      → All (λ a. cooling s.log a.subject clock l.cooldown_per_subject ≡ false) xs
      → All (λ a. cooling s.log a.subject t l.cooldown_per_subject ≡ false) xs
  cooled_later s clock t h xs =
      All-map (λ a. cooling s.log a.subject clock l.cooldown_per_subject ≡ false)
        (λ a. cooling s.log a.subject t l.cooldown_per_subject ≡ false) xs
        (λ a c. cooling_later a.subject clock t l.cooldown_per_subject s.log h c)

  decision-Rested :
      (s : Shared) (clock : ℤ) (a : ResourceAdjustment) (class : Option Criticality) (now : ℤ)
      → clock ≤ℤ now
      → All (Differ a) s.in_flight
      → Rested l clock s
      → Rested l now (after_decision s a (by_class s.governor a class now))
  unfolding after_decision
  decision-Rested s clock a class now h alone v =
      let (limits, cases) = by_class_cases s.governor a class now in
      let spacing = l.cooldown_per_subject in
      let expired : (subject : String) (t : ℤ)
          → now ≤ℤ t
          → cooling s.log subject t spacing
            ≡ cooling (expire s.governor.granted now s.governor.limits.window) subject t spacing =
        λ subject t k.
          rw (v.kept, cooling-expire subject now t l.window spacing s.governor.granted k f)
            (v.same subject t (omega arith)) in
      elim cases [
        | inl (e, refused) ↦ record {
          kept = limits ∙ v.kept;
          same = λ subject t k. rw e (v.same subject t (omega arith));
          spaced = v.spaced;
          cooled = rw refused (cooled_later s clock now h s.in_flight v.cooled);
          apart = rw refused v.apart;
        }
        | inr (inl (e, refused)) ↦ record {
          kept = limits ∙ v.kept;
          same = λ subject t k. rw e (expired subject t k);
          spaced = v.spaced;
          cooled = rw refused (cooled_later s clock now h s.in_flight v.cooled);
          apart = rw refused v.apart;
        }
        | inr (inr (e, granted, room, rested)) ↦ record {
          kept = limits ∙ v.kept;
          same = λ subject t k. rw e (expired subject t k);
          spaced = v.spaced;
          cooled = rw granted (
            v.same a.subject now h ∙ (rw v.kept at rested),
            cooled_later s clock now h s.in_flight v.cooled,
          );
          apart = rw granted (alone, v.apart);
        }
      ]

  record-Rested :
      (s : Shared) (clock at : ℤ) (o : Option (ResourceAdjustment × List ResourceAdjustment))
      → clock ≤ℤ at
      → Parted (λ a. cooling s.log a.subject clock l.cooldown_per_subject ≡ false) o
      → LeftApart o
      → Rested l clock s
      → Rested l at (after_record s at o)
  unfolding after_record record_grant
  record-Rested s clock at none h p q v = record {
    kept = v.kept;
    same = λ subject t k. v.same subject t (omega arith);
    spaced = v.spaced;
    cooled = cooled_later s clock at h s.in_flight v.cooled;
    apart = v.apart;
  }
  record-Rested s clock at (some (a, others)) h p q v =
      let spacing = l.cooldown_per_subject in
      record {
        kept = v.kept;
        same = λ subject t k.
            cooling_cons subject at t spacing a.subject s.log
            ∙ ap (λ c. (eqb a.subject subject && ltb_ℤ (t -ℤ at) spacing) || c)
                (v.same subject t (omega arith))
            ∙ sym (cooling_cons subject at t spacing a.subject s.governor.granted)
            ∙ sym (cooling-append subject at t spacing a.subject s.governor.granted);
        spaced = unfold Spaced in (cooling_later a.subject clock at spacing s.log h p.0, v.spaced);
        cooled = recorded_cooled others q.0 (cooled_later s clock at h others p.1);
        apart = q.1;
      }
    where
      recorded_cooled :
          (xs : List ResourceAdjustment)
          → All (Differ a) xs
          → All (λ b. cooling s.log b.subject at l.cooldown_per_subject ≡ false) xs
          → All
              (λ b. cooling ((at, a.subject) ∷ s.log) b.subject at l.cooldown_per_subject ≡ false)
              xs
      recorded_cooled [] d c = tt
      recorded_cooled (b ∷ bs) d c = (
        cooling_cons b.subject at at l.cooldown_per_subject a.subject s.log ∙ rw (d.0.0, c.0) refl,
        recorded_cooled bs d.1 c.1,
      )

  run-Spaced :
      (s : Shared) (clock : ℤ) (es : List Event)
      → Clocked clock es
      → Exclusive s es
      → Rested l clock s
      → Spaced l.cooldown_per_subject (run s es).log
  unfolding run step
  run-Spaced s clock [] c x v = v.spaced
  run-Spaced s clock (classified subject tier ∷ es) c x v =
      run-Spaced (step s (classified subject tier)) clock es c x.1 (
        unfold classify in
        record {
          kept = v.kept;
          same = v.same;
          spaced = v.spaced;
          cooled = v.cooled;
          apart = v.apart;
        })
  run-Spaced s clock (decided a class now ∷ es) c x v =
      run-Spaced (step s (decided a class now)) now es c.1 x.1
        (decision-Rested s clock a class now c.0 x.0 v)
  run-Spaced s clock (recorded i at ∷ es) c x v =
      run-Spaced (step s (recorded i at)) at es c.1 x.1 (
        record-Rested s clock at (pluck s.in_flight i) c.0
          (pluck-Parted (λ a. cooling s.log a.subject clock l.cooldown_per_subject ≡ false)
            s.in_flight i v.cooled)
          (pluck-LeftApart s.in_flight i v.apart) v)

-- Calls of many callers on one governor with no grants yet and a cooldown no longer than its window,
-- whose decisions and records interleave in any way, but where a call for a subject decides only
-- once every earlier call for that subject that was allowed has recorded, and the clock readings
-- never go back: two grants of one subject are always at least the cooldown apart.
pub run-alone-Spaced :
    (g : AutopilotGovernor) (clock : ℤ) (es : List Event)
    → g.granted ≡ []
    → g.limits.cooldown_per_subject ≤ℤ g.limits.window
    → Clocked clock es
    → Exclusive (alone g) es
    → Spaced g.limits.cooldown_per_subject (run (alone g) es).log
run-alone-Spaced g clock es e f c x = run-Spaced g.limits f (alone g) clock es c x (record {
  kept = refl;
  same = λ subject t k. rw e refl;
  spaced = unfold Spaced in tt;
  cooled = tt;
  apart = tt;
})
