-- ===== src/Tests/Remediation.antt =====
-- The executors of crates/argus-executor on a concrete host.
use Prim.Native.Char.{code}
use Prim.Native.String.{String}
use argus_ai.Prelude.{
  ℕ, zero, suc, ◌≡◌, refl, ap, ◌⊎◌, inl, inr, to_ℕ, ◌==◌, false, Option, none, some, List, [], ◌∷◌,
  eqb, string_eq, if◌then◌else◌,
}
use argus_ai.Prelude.Int.{ℤ, pos, negsuc, int_eq}
use argus_ai.Prelude.Results.{ok, err}
use argus_ai.Domain.{allow}
use argus_ai.Control.Ports.{AuthorizedAction}
use argus_ai.Executor.Guardrail.{
  CharTests, register, check, check_all, never_target_argusd, valid_service_unit,
  is_valid_unit_name,
}
use argus_ai.Prelude.Assoc
use argus_ai.Prelude.Codes.{split}
use argus_ai.Executor.Host.{Host, unsupported, failed_after_effect, reversed}
use argus_ai.Executor.Remediation.{
  remediation_guardrails, no_mcp_tools, new, with_mcp_controller, never_target, valid_cgroup_path,
  validate_cgroup_path,
}
use argus_ai.Executor.Remediation.Execute.{required, guarded, answer, set_cgroup_freeze}
use argus_ai.Executor.Remediation.Execute
use argus_ai.Executor.Remediation.Confined.{Effect, perform}
use argus_ai.Executor.Remediation.Protected.{Spares, wired_executor, execute-Spares}
use argus_ai.Executor.Privileged
use argus_ai.Executor.Privileged.{
  CompositeExecutor, service_guardrails, execute_composite, operation_of, conclude,
  attempt_reversal, inverse,
}
use argus_ai.Executor.Privileged.Reversal.{Explained, execute-Explained}
use argus_ai.Executor.Privileged.OwnUnit.{Foreign, execute-Foreign}

-- A JSON value, as far as these requests need it: its members, each a number or a text.
abbrev pub Value : Type 0
Value = List (String × (ℤ ⊎ String))

abbrev pub members : List (String × Value) → Value
members [] = []
members ((key, []) ∷ ms) = members ms
members ((key, (_, x) ∷ _) ∷ ms) = (key, x) ∷ members ms

abbrev pub member : Value → String → Option (ℤ ⊎ String)
member [] key = none
member ((k, v) ∷ m) key = if eqb k key then some v else member m key

abbrev pub as_number : Option (ℤ ⊎ String) → Option ℤ
as_number (some (inl n)) = some n
as_number _ = none

abbrev pub as_text : Option (ℤ ⊎ String) → Option String
as_text (some (inr s)) = some s
as_text _ = none

-- A number as a text: its sign, and a mark for each unit.
abbrev pub marks : ℕ → String
marks zero = String.[]
marks (suc n) = String.◌∷◌ "i" (marks n)

abbrev pub count_marks : String → ℕ
count_marks String.[] = 0
count_marks (String.◌∷◌ c s) = suc (count_marks s)

abbrev pub number_text : ℤ → String
number_text (pos n) = String.◌∷◌ "+" (marks n)
number_text (negsuc n) = String.◌∷◌ "-" (marks n)

abbrev pub parse_number : String → Option ℤ
parse_number String.[] = none
parse_number (String.◌∷◌ c s) =
    if code c == 43 then some (pos (count_marks s)) else some (negsuc (count_marks s))

count_marks-marks : (n : ℕ) → count_marks (marks n) ≡ n
count_marks-marks zero = refl
count_marks-marks (suc n) = ap suc (count_marks-marks n)

pub parse_number-number_text : (n : ℤ) → parse_number (number_text n) ≡ some n
parse_number-number_text (pos n) = ap (λ k. some (pos k)) (count_marks-marks n)
parse_number-number_text (negsuc n) = ap (λ k. some (negsuc k)) (count_marks-marks n)

-- The world is the log of what was called. A stop of a unit times out, all else succeeds.
abbrev pub logging : Host
logging = record {
  V = Value;
  W = List String;
  int_arg = λ v key. as_number (member v key);
  str_arg = λ v key. as_text (member v key);
  object = members;
  number = λ n. ("", inl n) ∷ [];
  text = λ s. ("", inr s) ∷ [];
  boolean = λ b. ("", inl (pos (to_ℕ b))) ∷ [];
  null = [];
  trim = λ s. s;
  pid_text = number_text;
  parse_i32 = parse_number;
  parse_i32-pid_text = λ pid h. parse_number-number_text pid;
  own_pid = pos 7;
  clock = λ w. pos 100000000000;
  signal = λ w pid s. ("signal" ∷ w, ok tt);
  restart_container = λ w id. (id ∷ w, ok tt);
  set_freeze = λ w path frozen. (path ∷ w, ok tt);
  reclaim_page_cache = λ w. ("reclaim" ∷ w, ok tt);
  vacuum = λ w since. ("vacuum" ∷ w, ok tt);
  service_restart = λ w unit. ("restart" ∷ w, ok tt);
  service_stop = λ w unit. ("stop" ∷ w, err "timed out");
  service_start = λ w unit. ("start" ∷ w, ok tt);
}

abbrev any_name : CharTests
any_name = record { contains = λ s c. false; has_control = λ s. false; has_whitespace = λ s. false }

abbrev pub action : String → Value → AuthorizedAction Value
action capability arguments = record {
  request = record { capability = capability; resource = none; arguments = arguments };
  decision = record { outcome = allow; policy_id = "bootstrap" };
}

abbrev freeze : AuthorizedAction Value
freeze = action "host.cgroup.freeze" (("path", inr "system.slice/batch") ∷ [])

abbrev stop_nginx : AuthorizedAction Value
stop_nginx = action "host.service.stop" (("unit", inr "nginx") ∷ [])

execute-Spares_example :
    let r =
      wired_executor logging ("db" ∷ []) ("system.slice/argusd" ∷ []) 7 (no_mcp_tools logging) in
    let w' = (Execute.execute logging r [] freeze).0 in
    (w' ≡ [])
    ⊎ ((e : Effect Value) × (w' ≡ perform logging r [] e)
        × Spares logging ("db" ∷ []) ("system.slice/argusd" ∷ []) [] e)
execute-Spares_example =
    execute-Spares logging ("db" ∷ []) ("system.slice/argusd" ∷ []) 7 (no_mcp_tools logging) []
      freeze

execute-Explained_example :
    Explained logging
      (service_guardrails (λ s. s) any_name "argusd")
      []
      stop_nginx
      (Privileged.execute logging (service_guardrails (λ s. s) any_name "argusd") [] stop_nginx)
execute-Explained_example =
    execute-Explained logging (service_guardrails (λ s. s) any_name "argusd") [] stop_nginx

execute-Foreign_example :
    ((Privileged.execute logging (service_guardrails (λ s. s) any_name "argusd") [] stop_nginx).0
      ≡ [])
    ⊎ ((unit : String) × (some "nginx" ≡ some unit) × Foreign logging any_name "argusd" unit)
execute-Foreign_example = execute-Foreign logging any_name "argusd" [] stop_nginx

abbrev read_everything : CompositeExecutor logging
read_everything = record {
  read_only = λ w a. ("read" ∷ w, err (unsupported "nothing"));
  environment_changing = λ w a. (w, err (unsupported "nothing"));
  remediation = none;
  kubernetes = none;
}

-- The stop that timed out is undone by a start, and the answer says so.
stop_reversed :
    Privileged.execute logging (service_guardrails (λ s. s) any_name "argusd") [] stop_nginx
    ≡ ("start" ∷ "stop" ∷ [], err (failed_after_effect "timed out" reversed))
unfolding Privileged.execute service_guardrails register check check_all never_target_argusd
    valid_service_unit is_valid_unit_name Assoc.get Assoc.insert operation_of required guarded
    conclude attempt_reversal inverse
stop_reversed = refl

own_unit_spared :
    (Privileged.execute logging
      (service_guardrails (λ s. s) any_name "argusd")
      []
      (action "host.service.stop" (("unit", inr "argusd.service") ∷ []))).0
    ≡ []
unfolding Privileged.execute service_guardrails register check check_all never_target_argusd
    valid_service_unit is_valid_unit_name Assoc.get Assoc.insert operation_of required guarded
    conclude attempt_reversal inverse
own_unit_spared = refl

-- The batch group is frozen, the daemon's own group and a path that goes up are not.
abbrev freeze_at : String → List String
freeze_at path =
    (Execute.execute logging
      (wired_executor logging ("db" ∷ []) ("system.slice/argusd" ∷ []) 7 (no_mcp_tools logging)) []
      (action "host.cgroup.freeze" (("path", inr path) ∷ []))).0

freezes_batch :
    (freeze_at "system.slice/batch" ≡ "system.slice/batch" ∷ [])
    × (freeze_at "system.slice/argusd" ≡ [])
    × (freeze_at "system.slice/../argusd" ≡ [])
unfolding Execute.execute remediation_guardrails new with_mcp_controller register check check_all
    never_target valid_cgroup_path validate_cgroup_path split Assoc.get Assoc.insert
    set_cgroup_freeze required guarded answer
freezes_batch = (refl, refl, refl)
