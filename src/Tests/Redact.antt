-- ===== src/Tests/Redact.antt =====
-- The redaction of crates/argus-cloud on concrete texts and values.
use argus_ai.Prelude.{ℕ, ◌≡◌, refl, true, [], eqb, nat_eq, suc, length}
use argus_ai.Prelude.Codes.{codes, split, codes_eq}
use argus_ai.Cloud.Redact.{
  Text, TextTests, redacted, is_secret_key, find_text, find_char, is_run_char, is_hot, flush,
  redact_runs, redact_high_entropy_runs, redact_pair, redact_line, redact_env_assignments,
  redact_header, redact_headers, redact_authorization_headers, redact_text,
}
use argus_ai.Cloud.Redact.Runs.{is_cool, redact_high_entropy_runs-Cool}
use argus_ai.Cloud.Redact.Headers.{IsSome, redact_headers-Total}
use argus_ai.Cloud.Redact.Value.{
  Value, object, field, no_fields, number, string, redact_value, Clean, redact_value-Clean,
}

-- Every long run counts as a credential.
abbrev strict : TextTests
strict = record { is_whitespace = eqb 32; is_high_entropy = λ run. true }

abbrev long_run : Text
long_run = codes "key j8Kp2mQ7vX4nR1sT9wZ3bY6uF0 end"

redact_high_entropy_runs-Cool_example :
    (is_cool strict [] (redact_high_entropy_runs strict long_run) ≡ true)
    × (redact_high_entropy_runs strict (redact_high_entropy_runs strict long_run)
        ≡ redact_high_entropy_runs strict long_run)
redact_high_entropy_runs-Cool_example = redact_high_entropy_runs-Cool strict long_run

redact_headers-Total_example : IsSome (redact_headers (suc (length long_run)) strict long_run)
redact_headers-Total_example = redact_headers-Total strict long_run

abbrev nested : Value ℕ
nested = object (
    field (codes "unit") (string (codes "nginx"))
      (field (codes "nested") (object (field (codes "PASSWORD") (number 7) no_fields)) no_fields))

redact_value-Clean_example : Clean strict (redact_value strict nested)
redact_value-Clean_example = redact_value-Clean strict nested

password_hidden :
    redact_value strict nested
    ≡ object (
        field (codes "unit") (string (codes "nginx")) (
          field
            (codes "nested")
            (object (field (codes "PASSWORD") (string redacted) no_fields))
            no_fields))
unfolding redact_value is_secret_key redact_text redact_authorization_headers redact_headers
    redact_env_assignments redact_line redact_high_entropy_runs redact_runs flush is_hot is_run_char
    find_text find_char split
password_hidden = refl

run_hidden : redact_high_entropy_runs strict long_run ≡ codes "key [redacted] end"
unfolding redact_high_entropy_runs redact_runs flush is_hot is_run_char
run_hidden = refl

header_hidden :
    redact_authorization_headers strict (codes "Authorization: Bearer x\nunit: nginx")
    ≡ codes "Authorization: [redacted]\nunit: nginx"
unfolding redact_authorization_headers redact_headers redact_header find_text find_char
header_hidden = refl

-- An assignment at the start of a line is redacted, one behind another word is not.
assignment_hidden :
    (redact_env_assignments strict (codes "TOKEN=xyz restart") ≡ codes "TOKEN=[redacted]")
    × (redact_env_assignments strict (codes "restart TOKEN=xyz") ≡ codes "restart TOKEN=xyz")
unfolding redact_env_assignments redact_line redact_pair is_secret_key find_text find_char split
assignment_hidden = (refl, refl)
