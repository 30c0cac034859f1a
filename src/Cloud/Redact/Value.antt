-- ===== src/Cloud/Redact/Value.antt =====
-- The redaction of JSON values in crates/argus-cloud/src/mapping/redact.rs.
use argus_ai.Prelude.{◌≡◌, refl, ap, ◌⊎◌, inl, inr, Bool, true, if_elim, if◌then◌else◌}
use argus_ai.Cloud.Redact.{Text, TextTests, redacted, is_secret_key, redact_text}

-- `serde_json::Value`, over a type of numbers; an array and an object are lists of their own.
mutual
  pub data Value (N : Type 0) : Type 0 where
    null : Value N
    boolean : Bool → Value N
    number : N → Value N
    string : Text → Value N
    array : Items N → Value N
    object : Fields N → Value N

  pub data Items (N : Type 0) : Type 0 where
    no_items : Items N
    item : Value N → Items N → Items N

  pub data Fields (N : Type 0) : Type 0 where
    no_fields : Fields N
    field : Text → Value N → Fields N → Fields N

unfoldable mutual
  pub redact_value : {N : Type 0} → TextTests → Value N → Value N
  redact_value t null = null
  redact_value t (boolean b) = boolean b
  redact_value t (number n) = number n
  redact_value t (string s) = string (redact_text t s)
  redact_value t (array items) = array (redact_items t items)
  redact_value t (object fields) = object (redact_fields t fields)

  pub redact_items : {N : Type 0} → TextTests → Items N → Items N
  redact_items t no_items = no_items
  redact_items t (item v items) = item (redact_value t v) (redact_items t items)

  pub redact_fields : {N : Type 0} → TextTests → Fields N → Fields N
  redact_fields t no_fields = no_fields
  redact_fields t (field key v fields) =
      let inner = redact_value t v in
      let rest = redact_fields t fields in
      field key (if is_secret_key key then string redacted else inner) rest

-- A text that may be uploaded: the placeholder, or what the redaction makes of a text.
abbrev pub IsRedacted : TextTests → Text → Type 0
IsRedacted t s = (s ≡ redacted) ⊎ ((u : Text) × (s ≡ redact_text t u))

-- At every depth, a field with a secret key has the placeholder, and every text is redacted.
unfoldable mutual
  pub Clean : {N : Type 0} → TextTests → Value N → Type 0
  Clean t null = Unit
  Clean t (boolean b) = Unit
  Clean t (number n) = Unit
  Clean t (string s) = IsRedacted t s
  Clean t (array items) = CleanItems t items
  Clean t (object fields) = CleanFields t fields

  pub CleanItems : {N : Type 0} → TextTests → Items N → Type 0
  CleanItems t no_items = Unit
  CleanItems t (item v items) = Clean t v × CleanItems t items

  pub CleanFields : {N : Type 0} → TextTests → Fields N → Type 0
  CleanFields t no_fields = Unit
  CleanFields t (field key v fields) =
      (is_secret_key key ≡ true → v ≡ string redacted) × Clean t v × CleanFields t fields

secret_field :
    {N : Type 0} (key : Text) (inner : Value N)
    → is_secret_key key ≡ true
    → (if is_secret_key key then string redacted else inner) ≡ string redacted
secret_field key inner h = ap (λ b. if b then string redacted else inner) h

field-Clean :
    {N : Type 0} (t : TextTests) (key : Text) (inner : Value N)
    → Clean t inner
    → Clean t (if is_secret_key key then string redacted else inner)
unfolding Clean
field-Clean t key inner h =
    if_elim (Clean t) (is_secret_key key) {x = string redacted} {y = inner} (λ _. inl refl) (λ _. h)

mutual
  unfolding redact_value redact_items redact_fields Clean CleanItems CleanFields

  value-Clean : {N : Type 0} (t : TextTests) (v : Value N) → Clean t (redact_value t v)
  value-Clean t null = tt
  value-Clean t (boolean b) = tt
  value-Clean t (number n) = tt
  value-Clean t (string s) = inr (s, refl)
  value-Clean t (array items) = items-CleanItems t items
  value-Clean t (object fields) = fields-CleanFields t fields

  items-CleanItems :
      {N : Type 0} (t : TextTests) (items : Items N) → CleanItems t (redact_items t items)
  items-CleanItems t no_items = tt
  items-CleanItems t (item v items) = (value-Clean t v, items-CleanItems t items)

  fields-CleanFields :
      {N : Type 0} (t : TextTests) (fields : Fields N) → CleanFields t (redact_fields t fields)
  fields-CleanFields t no_fields = tt
  fields-CleanFields t (field key v fields) = (
    secret_field key (redact_value t v),
    field-Clean t key (redact_value t v) (value-Clean t v),
    fields-CleanFields t fields,
  )

-- Whatever a value is: in its redaction every field with a secret key, at any depth, has the
-- placeholder for a value, and every text is the placeholder or went through the redaction of texts.
pub redact_value-Clean : {N : Type 0} (t : TextTests) (v : Value N) → Clean t (redact_value t v)
redact_value-Clean t v = value-Clean t v
