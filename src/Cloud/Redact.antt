-- ===== src/Cloud/Redact.antt =====
-- The redaction of what is uploaded, crates/argus-cloud/src/mapping/redact.rs. A text is the list of its
-- code points. The entropy test on floats, and the characters that `trim` takes off, are an interface.
pub mod Runs
pub mod Headers
pub mod Value
use argus_ai.Prelude.{
  ℕ, zero, suc, ◌+◌, ◌-◌, Bool, true, false, not, ◌&&◌, ◌||◌, Option, none, some, List, [], ◌∷◌,
  ◌++◌, eqb, nat_eq, length, take, drop, is_empty, leb, if◌then◌else◌,
}
use argus_ai.Prelude.Codes.{codes, split, codes_eq}

abbrev pub Text : Type 0
Text = List ℕ

abbrev pub redacted : Text
redacted = codes "[redacted]"

abbrev pub secret_key_markers : List Text
secret_key_markers =
    codes "token"
    ∷ codes "secret"
    ∷ codes "password"
    ∷ codes "passwd"
    ∷ codes "authorization"
    ∷ codes "credential"
    ∷ codes "api_key"
    ∷ codes "apikey"
    ∷ codes "private_key"
    ∷ codes "privatekey"
    ∷ codes "cookie"
    ∷ codes "session_key"
    ∷ codes "bearer"
    ∷ []

-- `entropy` is `shannon_entropy(run) >= ENTROPY_FLOOR`.
pub record TextTests : Type 0 where
  pub is_whitespace : ℕ → Bool
  pub is_high_entropy : Text → Bool

abbrev pub ascii_lowercase : ℕ → ℕ
ascii_lowercase c = if leb 65 c && leb c 90 then c + 32 else c

abbrev pub lowered : Text → Text
lowered [] = []
lowered (c ∷ s) = ascii_lowercase c ∷ lowered s

abbrev pub starts_with : Text → Text → Bool
starts_with s [] = true
starts_with [] (p ∷ ps) = false
starts_with (c ∷ s) (p ∷ ps) = eqb c p && starts_with s ps

-- `str::find` of a text and of a character, by its position.
abbrev pub shifted : Option ℕ → Option ℕ
shifted none = none
shifted (some n) = some (suc n)

unfoldable pub find_text : Text → Text → Option ℕ
find_text p [] = if is_empty p then some 0 else none
find_text p (c ∷ s) =
    let rest = find_text p s in if starts_with (c ∷ s) p then some 0 else shifted rest

unfoldable pub find_char : (ℕ → Bool) → Text → Option ℕ
find_char q [] = none
find_char q (c ∷ s) = let rest = find_char q s in if q c then some 0 else shifted rest

abbrev pub is_some {ℓ} : {A : Type ℓ} → Option A → Bool
is_some none = false
is_some (some a) = true

abbrev pub any_marker : List Text → Text → Bool
any_marker [] s = false
any_marker (m ∷ ms) s = is_some (find_text m s) || any_marker ms s

unfoldable pub is_secret_key : Text → Bool
is_secret_key key = any_marker secret_key_markers (lowered key)

abbrev pub trim_start : (ℕ → Bool) → Text → Text
trim_start w [] = []
trim_start w (c ∷ s) = let rest = trim_start w s in if w c then rest else c ∷ s

-- Whether nothing but whitespace is left.
abbrev pub is_blank : (ℕ → Bool) → Text → Bool
is_blank w [] = true
is_blank w (c ∷ s) = w c && is_blank w s

abbrev pub trim_end : (ℕ → Bool) → Text → Text
trim_end w [] = []
trim_end w (c ∷ s) = let rest = trim_end w s in if is_blank w (c ∷ s) then [] else c ∷ rest

abbrev pub trim : (ℕ → Bool) → Text → Text
trim w s = trim_end w (trim_start w s)

-- A character of a credential: a letter, a digit or one of `+/=_-.`
unfoldable pub is_run_char : ℕ → Bool
is_run_char c =
    (leb 65 c && leb c 90)
    || (leb 97 c && leb c 122)
    || (leb 48 c && leb c 57)
    || eqb c 43
    || eqb c 47
    || eqb c 61
    || eqb c 95
    || eqb c 45
    || eqb c 46

-- A run that looks like a credential.
unfoldable pub is_hot : TextTests → Text → Bool
is_hot t run = leb 24 (length run) && t.is_high_entropy run

unfoldable pub flush : TextTests → Text → Text
flush t run = if is_hot t run then redacted else run

-- The loop over the characters, with the run that has been read.
unfoldable pub redact_runs : TextTests → Text → Text → Text
redact_runs t run [] = flush t run
redact_runs t run (c ∷ s) = elim (is_run_char c) [
  | true ↦ redact_runs t (run ++ c ∷ []) s
  | false ↦ flush t run ++ c ∷ redact_runs t [] s
]

unfoldable pub redact_high_entropy_runs : TextTests → Text → Text
redact_high_entropy_runs t text = redact_runs t [] text

abbrev pub is_separator : ℕ → Bool
is_separator c = eqb c 61 || eqb c 58

-- A line whose first separator ends a key.
unfoldable pub redact_pair : TextTests → Text → Text → ℕ → Text → Text → Text
redact_pair t line prefix sep key value =
    if not (is_empty key)
      && not (is_some (find_char (eqb 32) key))
      && is_secret_key key
      && not (is_empty value)
    then (if starts_with value redacted then line else prefix ++ key ++ sep ∷ redacted)
    else line

unfoldable pub redact_line : TextTests → Text → Text
redact_line t line =
    let trimmed = trim_start t.is_whitespace line in
    elim (find_char is_separator trimmed) [
      | none ↦ line
      | some at ↦
          redact_pair t line (take (length line - length trimmed) line)
            (if starts_with (drop at trimmed) (codes "=") then 61 else 58)
            (trim t.is_whitespace (take at trimmed)) (trim t.is_whitespace (drop (suc at) trimmed))
    ]

-- The lines again, with the newlines between them.
abbrev pub join_lines : List Text → Text
join_lines [] = []
join_lines (l ∷ []) = l
join_lines (l ∷ m ∷ ls) = l ++ 10 ∷ join_lines (m ∷ ls)

abbrev pub map_lines : (Text → Text) → List Text → List Text
map_lines f [] = []
map_lines f (l ∷ ls) = f l ∷ map_lines f ls

unfoldable pub redact_env_assignments : TextTests → Text → Text
redact_env_assignments t text = join_lines (map_lines (redact_line t) (split 10 text))

-- What the loop over the headers does at a header, from the text at it: what it writes, and the text
-- that is left, if it goes on.
unfoldable pub redact_header : TextTests → Text → Text × Option Text
redact_header t after = elim (find_char (eqb 58) after) [
  | none ↦ (after, none)
  | some colon ↦
      let value = drop (suc colon) after in
      if is_blank t.is_whitespace value then (after, none) else elim (find_char (eqb 10) value) [
        | none ↦ (take colon after ++ codes ": " ++ redacted, none)
        | some end ↦
            (take colon after ++ codes ": " ++ redacted ++ 10 ∷ [], some (drop (suc end) value))
      ]
]

-- The loop, in so many rounds; none where they run out.
unfoldable pub redact_headers : ℕ → TextTests → Text → Option Text
redact_headers zero t rest = none
redact_headers (suc fuel) t rest = elim (find_text (codes "authorization") (lowered rest)) [
  | none ↦ some rest
  | some at ↦
      let (written, left) = redact_header t (drop at rest) in
      elim left [
        | none ↦ some (take at rest ++ written)
        | some later ↦ elim (redact_headers fuel t later) [
          | none ↦ none
          | some out ↦ some (take at rest ++ written ++ out)
        ]
      ]
]

abbrev pub or_empty : Option Text → Text
or_empty none = []
or_empty (some s) = s

unfoldable pub redact_authorization_headers : TextTests → Text → Text
redact_authorization_headers t text = or_empty (redact_headers (suc (length text)) t text)

unfoldable pub redact_text : TextTests → Text → Text
redact_text t text =
    redact_high_entropy_runs t (redact_env_assignments t (redact_authorization_headers t text))
