-- ===== src/Cloud/Redact/Headers.antt =====
-- The loop over the headers in crates/argus-cloud/src/mapping/redact.rs comes to its end.
use argus_ai.Prelude.{
  ℕ, zero, suc, ◌+◌, ◌≤◌, ◌<◌, ◌≡◌, refl, ap, Bool, true, false, Option, none, some, [], ◌∷◌, ◌++◌,
  if◌then◌else◌, length, length-drop, take, drop, eqb, nat_eq, arith,
}
use argus_ai.Prelude.Codes.{codes}
use argus_ai.Cloud.Redact.{
  Text, TextTests, redacted, lowered, find_text, find_char, shifted, is_blank, redact_header,
  redact_headers,
}

abbrev pub IsSome : Option Text → Type 0
IsSome o = (out : Text) × (o ≡ some out)

find_char-lt : (q : ℕ → Bool) (s : Text) (n : ℕ) → find_char q s ≡ some n → n < length s
unfolding find_char
find_char-lt q [] n h = absurd (ground arith)
find_char-lt q (c ∷ s) n h = by_test (q c) (find_char q s) (find_char-lt q s) h
  where
    by_test :
        (b : Bool) (o : Option ℕ)
        → ((m : ℕ) → o ≡ some m → m < length s)
        → (if b then some 0 else shifted o) ≡ some n
        → n < suc (length s)
    by_test true o f h = ground arith
    by_test false none f h = absurd (ground arith)
    by_test false (some m) f h = let k = f m refl in ground (arith, k)

-- A header's line is taken off with its newline, so that what is left is shorter.
left_shorter :
    (t : TextTests) (after left : Text)
    → (redact_header t after).1 ≡ some left
    → length left + 2 ≤ length after
unfolding redact_header
left_shorter t after left h = by_colon (find_char (eqb 58) after) (find_char-lt (eqb 58) after) h
  where
    by_blank :
        (b : Bool) (x : Text × Option Text)
        → (x.1 ≡ some left → length left + 2 ≤ length after)
        → (if b then (after, none) else x).1 ≡ some left
        → length left + 2 ≤ length after
    by_blank true x k h = absurd (ground arith)
    by_blank false x k h = k h

    by_end :
        (colon : ℕ) (o : Option ℕ)
        → colon < length after
        → ((m : ℕ) → o ≡ some m → m < length (drop (suc colon) after))
        → (elim o as (λ _. Text × Option Text) [
          | none ↦ (take colon after ++ codes ": " ++ redacted, none)
          | some end ↦ (
            take colon after ++ codes ": " ++ redacted ++ 10 ∷ [],
            some (drop (suc end) (drop (suc colon) after)),
          )
        ]).1
          ≡ some left
        → length left + 2 ≤ length after
    by_end colon none c f h = absurd (ground arith)
    by_end colon (some end) c f h =
        let same : drop (suc end) (drop (suc colon) after) ≡ left = ground (arith, h) in
        let lt = f end refl in
        let size = ap length same in
        omega (
          arith,
          c,
          lt,
          size,
          length-drop (suc colon) after,
          length-drop (suc end) (drop (suc colon) after),
        )

    by_colon :
        (o : Option ℕ)
        → ((m : ℕ) → o ≡ some m → m < length after)
        → (elim o as (λ _. Text × Option Text) [
          | none ↦ (after, none)
          | some colon ↦
              (if is_blank t.is_whitespace (drop (suc colon) after)
                then (after, none)
                else elim (find_char (eqb 10) (drop (suc colon) after))
                    as (λ _. Text × Option Text) [
                      | none ↦ (take colon after ++ codes ": " ++ redacted, none)
                      | some end ↦ (
                        take colon after ++ codes ": " ++ redacted ++ 10 ∷ [],
                        some (drop (suc end) (drop (suc colon) after)),
                      )
                    ])
        ]).1
          ≡ some left
        → length left + 2 ≤ length after
    by_colon none f h = absurd (ground arith)
    by_colon (some colon) f h =
        by_blank (is_blank t.is_whitespace (drop (suc colon) after)) _
          (by_end colon (find_char (eqb 10) (drop (suc colon) after)) (f colon refl)
            (find_char-lt (eqb 10) (drop (suc colon) after)))
          h

module _ (t : TextTests) where
  pub redact_headers-IsSome :
      (fuel : ℕ) (text : Text) → length text < fuel → IsSome (redact_headers fuel t text)
  unfolding redact_headers
  redact_headers-IsSome zero text h = absurd (omega (arith, h))
  redact_headers-IsSome (suc fuel) text h =
      by_header (find_text (codes "authorization") (lowered text)) (redact_headers-IsSome fuel)
    where
      by_rest :
          (o : Option Text) (before written : Text)
          → IsSome o
          → IsSome (elim o as (λ _. Option Text) [
            | none ↦ none
            | some out ↦ some (before ++ written ++ out)
          ])
      by_rest none before written (out, e) = absurd (ground arith)
      by_rest (some out) before written k = (before ++ written ++ out, refl)

      by_left :
          (before written : Text) (o : Option Text)
          → ((later : Text) → o ≡ some later → IsSome (redact_headers fuel t later))
          → IsSome (elim o as (λ _. Option Text) [
            | none ↦ some (before ++ written)
            | some later ↦ elim (redact_headers fuel t later) as (λ _. Option Text) [
              | none ↦ none
              | some out ↦ some (before ++ written ++ out)
            ]
          ])
      by_left before written none f = (before ++ written, refl)
      by_left before written (some later) f =
          by_rest (redact_headers fuel t later) before written (f later refl)

      by_header :
          (o : Option ℕ)
          → ((later : Text) → length later < fuel → IsSome (redact_headers fuel t later))
          → IsSome (elim o as (λ _. Option Text) [
            | none ↦ some text
            | some at ↦ elim (redact_header t (drop at text)).1 as (λ _. Option Text) [
              | none ↦ some (take at text ++ (redact_header t (drop at text)).0)
              | some later ↦ elim (redact_headers fuel t later) as (λ _. Option Text) [
                | none ↦ none
                | some out ↦ some (take at text ++ (redact_header t (drop at text)).0 ++ out)
              ]
            ]
          ])
      by_header none f = (text, refl)
      by_header (some at) f =
          by_left (take at text) (redact_header t (drop at text)).0
            (redact_header t (drop at text)).1
            λ later e. f later (
              let k = left_shorter t (drop at text) later e in
              omega (arith, k, h, length-drop at text))

-- The loop over the headers ends within as many rounds as the text has characters, and one more.
pub redact_headers-Total :
    (t : TextTests) (text : Text) → IsSome (redact_headers (suc (length text)) t text)
redact_headers-Total t text = redact_headers-IsSome t (suc (length text)) text (omega arith)
