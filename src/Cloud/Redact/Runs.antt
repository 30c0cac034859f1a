-- ===== src/Cloud/Redact/Runs.antt =====
-- What is left of the runs of credential characters after crates/argus-cloud/src/mapping/redact.rs.
use mathlib.Core.List.{append-nil, append_assoc}
use argus_ai.Prelude.{
  ℕ, ◌≡◌, refl, sym, ap, ◌∙◌, Bool, true, false, not, ◌&&◌, [], ◌∷◌, ◌++◌, All, All-append, arith,
  if_elim, if◌then◌else◌,
}
use argus_ai.Cloud.Redact.{
  Text, TextTests, redacted, is_run_char, is_hot, flush, redact_runs, redact_high_entropy_runs,
}

module _ (t : TextTests) where
  -- No run of the text looks like a credential, where `run` has been read before it.
  unfoldable pub is_cool : Text → Text → Bool
  is_cool run [] = not (is_hot t run)
  is_cool run (c ∷ s) = elim (is_run_char c) [
    | true ↦ is_cool (run ++ c ∷ []) s
    | false ↦ not (is_hot t run) && is_cool [] s
  ]

  -- A text that ends what run stands before it.
  abbrev Ends : Text → Type 0
  Ends [] = Unit
  Ends (c ∷ s) = is_run_char c ≡ false

  is_cool-Ends :
      (run s : Text) → Ends s → is_hot t run ≡ false → is_cool [] s ≡ true → is_cool run s ≡ true
  unfolding is_cool
  is_cool-Ends run [] e h k = ground (arith, h)
  is_cool-Ends run (c ∷ s) e h k = ground (arith, e, h, k)

  is_cool-append :
      (r run s : Text)
      → All (λ c. is_run_char c ≡ true) run
      → is_cool r (run ++ s) ≡ is_cool (r ++ run) s
  unfolding is_cool
  is_cool-append r [] s h = ap (λ x. is_cool x s) (sym (append-nil r))
  is_cool-append r (c ∷ run) s (h, hs) =
      ap
        (λ b. elim b as (λ _. Bool) [
          | true ↦ is_cool (r ++ c ∷ []) (run ++ s)
          | false ↦ not (is_hot t r) && is_cool [] (run ++ s)
        ])
        h
      ∙ is_cool-append (r ++ c ∷ []) run s hs
      ∙ ap (λ x. is_cool x s) (append_assoc r (c ∷ []) run)

  -- The placeholder is no credential itself.
  placeholder : (s : Text) → Ends s → is_cool [] s ≡ true → is_cool [] (redacted ++ s) ≡ true
  unfolding is_cool is_run_char is_hot
  placeholder s e k = ground (arith, k)

  flush-cool :
      (run s : Text)
      → All (λ c. is_run_char c ≡ true) run
      → Ends s
      → is_cool [] s ≡ true
      → is_cool [] (flush t run ++ s) ≡ true
  unfolding flush
  flush-cool run s h e k =
      if_elim (λ x. is_cool [] (x ++ s) ≡ true) (is_hot t run) (λ _. placeholder s e k)
        (λ q. is_cool-append [] run s h ∙ is_cool-Ends run s e q k)

  nothing_cool : is_cool [] [] ≡ true
  unfolding is_cool is_hot
  nothing_cool = refl

  next_cool :
      (c : ℕ) (s : Text) → is_run_char c ≡ false → is_cool [] s ≡ true → is_cool [] (c ∷ s) ≡ true
  unfolding is_cool is_hot
  next_cool c s e k = ground (arith, e, k)

  redact_runs-cool :
      (run s : Text) → All (λ c. is_run_char c ≡ true) run → is_cool [] (redact_runs t run s) ≡ true
  unfolding redact_runs
  redact_runs-cool run [] h =
      ap (is_cool []) (sym (append-nil (flush t run))) ∙ flush-cool run [] h tt nothing_cool
  redact_runs-cool run (c ∷ s) h =
      by_char (is_run_char c) refl (redact_runs-cool (run ++ c ∷ []) s) (redact_runs-cool [] s tt)
    where
      by_char :
          (b : Bool)
          → is_run_char c ≡ b
          → (All (λ d. is_run_char d ≡ true) (run ++ c ∷ [])
              → is_cool [] (redact_runs t (run ++ c ∷ []) s) ≡ true)
          → is_cool [] (redact_runs t [] s) ≡ true
          → is_cool [] (elim b as (λ _. Text) [
            | true ↦ redact_runs t (run ++ c ∷ []) s
            | false ↦ flush t run ++ c ∷ redact_runs t [] s
          ])
            ≡ true
      by_char true e more again = more (All-append _ run (c ∷ []) h (e, tt))
      by_char false e more again =
          flush-cool run (c ∷ redact_runs t [] s) h e (next_cool c (redact_runs t [] s) e again)

  -- A text without such a run is left as it is.
  redact_runs-kept : (run s : Text) → is_cool run s ≡ true → redact_runs t run s ≡ run ++ s
  unfolding redact_runs is_cool flush
  redact_runs-kept run [] h = ground (arith, h, append-nil run)
  redact_runs-kept run (c ∷ s) h =
      by_char (is_run_char c) h (redact_runs-kept (run ++ c ∷ []) s) (redact_runs-kept [] s)
    where
      first : (b d : Bool) → (not b && d) ≡ true → b ≡ false
      first b d h = ground arith

      second : (b d : Bool) → (not b && d) ≡ true → d ≡ true
      second b d h = ground arith

      by_char :
          (b : Bool)
          → (elim b as (λ _. Bool) [
            | true ↦ is_cool (run ++ c ∷ []) s
            | false ↦ not (is_hot t run) && is_cool [] s
          ])
            ≡ true
          → (is_cool (run ++ c ∷ []) s ≡ true
              → redact_runs t (run ++ c ∷ []) s ≡ (run ++ c ∷ []) ++ s)
          → (is_cool [] s ≡ true → redact_runs t [] s ≡ s)
          → (elim b as (λ _. Text) [
            | true ↦ redact_runs t (run ++ c ∷ []) s
            | false ↦ flush t run ++ c ∷ redact_runs t [] s
          ])
            ≡ run ++ c ∷ s
      by_char true h more again = more h ∙ append_assoc run (c ∷ []) s
      by_char false h more again =
          ap (λ b. (if b then redacted else run) ++ c ∷ redact_runs t [] s)
            (first (is_hot t run) (is_cool [] s) h)
          ∙ ap (λ x. run ++ c ∷ x) (again (second (is_hot t run) (is_cool [] s) h))

  -- Whatever counts as high entropy: after the pass no run of credential characters of 24 or more of
  -- them has high entropy, the placeholders included, and a second pass changes nothing.
  pub redact_high_entropy_runs-Cool :
      (text : Text)
      → let out = redact_high_entropy_runs t text in
        (is_cool [] out ≡ true) × (redact_high_entropy_runs t out ≡ out)
  unfolding redact_high_entropy_runs
  redact_high_entropy_runs-Cool text =
      let cool = redact_runs-cool [] text tt in
      (cool, redact_runs-kept [] (redact_runs t [] text) cool)
