-- ===== src/Executor/Remediation/Execute.antt =====
-- What the executor of crates/argus-executor/src/remediation.rs does with an authorized action: the
-- argument is read, the guardrails check the target, and one controller acts.
use text.Mathlib.Text.{starts_with}
use argus_ai.Prelude.{
  ℕ, ◌*◌, Bool, true, false, Option, none, some, List, [], ◌∷◌, String, eqb, string_eq,
  if◌then◌else◌,
}
use argus_ai.Prelude.Int.{ℤ, pos, pos_part, ◌-ℤ◌}
use argus_ai.Prelude.Results.{Result, ok, err}
use argus_ai.Executor.Guardrail.{GuardrailRegistry, check}
use argus_ai.Executor.Host.{
  ProcessSignal, RemediationError, error_text, unsupported, failed, guardrail_violation, is_i32,
  Host, Outcome, Executor,
}
use argus_ai.Executor.Remediation.{RemediationExecutor, parse, name}

abbrev pub bind {ℓ κ} : {A : Type ℓ} {B : Type κ} → Option A → (A → Option B) → Option B
bind none f = none
bind (some a) f = f a

-- `i32::try_from`
abbrev pub to_i32 : ℤ → Option ℤ
to_i32 n = if is_i32 n then some n else none

module _ (h : Host) where
  open h use {V, W}

  -- `ok_or_else(…)?` on an argument of the request.
  unfoldable pub required {ℓ} : {A : Type ℓ} → W → Option A → String → (A → Outcome h) → Outcome h
  required w none reason k = (w, err (failed reason))
  required w (some a) reason k = k a

  -- `self.guardrails.check(capability, target)?`
  unfoldable pub guarded : W → GuardrailRegistry → String → String → Outcome h → Outcome h
  guarded w guardrails capability target k = elim (check guardrails capability target) [
    | ok accepted ↦ k
    | err v ↦ (w, err (guardrail_violation v))
  ]

  -- A controller's answer as the executor's: started is the instant before the call.
  unfoldable pub answer : String → ℤ → W → Result RemediationError V → Outcome h
  answer capability started_at w (ok evidence) = (
    w,
    ok (record {
      capability = capability;
      evidence = evidence;
      started_at = started_at;
      finished_at = h.clock w;
    }),
  )
  answer capability started_at w (err e) = (w, err (failed (error_text e)))

  abbrev pub with_evidence : V → Result RemediationError (Unit {0}) → Result RemediationError V
  with_evidence evidence (ok done) = ok evidence
  with_evidence evidence (err e) = err e

  unfoldable pub signal_with : RemediationExecutor h → W → String → ℤ → ProcessSignal → Outcome h
  signal_with r w capability pid signal = guarded w r.guardrails capability (h.pid_text pid) (
      let (w', done) = h.signal w pid signal in
      answer capability (h.clock w) w' (
        with_evidence (h.object (("pid", h.number pid) ∷ ("signal", h.text (name signal)) ∷ []))
          done))

  unfoldable pub signal_pid : RemediationExecutor h → Executor h
  signal_pid r w action =
      let arguments = action.request.arguments in
      required w (bind (h.int_arg arguments "pid") to_i32) "no valid numeric 'pid'" (λ pid.
        required w (bind (h.str_arg arguments "signal") parse) "no signal"
          (signal_with r w action.request.capability pid))

  -- A text argument that is not blank.
  abbrev pub not_blank : String → Option String
  not_blank s = if eqb {A = String} (h.trim s) "" then none else some s

  unfoldable pub restart_container : RemediationExecutor h → Executor h
  restart_container r w action =
      let capability = action.request.capability in
      required w (bind (h.str_arg action.request.arguments "container") not_blank) "no 'container'"
        (λ id. guarded w r.guardrails capability id (
          let (w', done) = h.restart_container w id in
          answer capability (h.clock w) w' (
            with_evidence
              (h.object (("container", h.text id) ∷ ("operation", h.text "restart") ∷ [])) done)))

  unfoldable pub set_cgroup_freeze : RemediationExecutor h → Bool → Executor h
  set_cgroup_freeze r frozen w action =
      let capability = action.request.capability in
      required w (bind (h.str_arg action.request.arguments "path") not_blank) "no cgroup 'path'"
        (λ path. guarded w r.guardrails capability path (
          let (w', done) = h.set_freeze w path frozen in
          answer capability (h.clock w) w' (
            with_evidence (h.object (("path", h.text path) ∷ ("frozen", h.boolean frozen) ∷ []))
              done)))

  -- `pressure_subject`, as the members that it adds to the evidence.
  unfoldable pub pressure_subject : V → List (String × V)
  pressure_subject arguments = elim (h.str_arg arguments "subject") [
    | none ↦ []
    | some subject ↦ ("subject", h.text subject) ∷ []
  ]

  unfoldable pub reclaim_page_cache : Executor h
  reclaim_page_cache w action =
      let (w', done) = h.reclaim_page_cache w in
      answer action.request.capability (h.clock w) w' (
        with_evidence
          (h.object (
            ("operation", h.text "page-cache-reclaim")
            ∷ ("value", h.text "1")
            ∷ pressure_subject action.request.arguments))
          done)

  -- `u64::try_from(cutoff_usec.max(0))`, with the days in microseconds.
  unfoldable pub since_usec : RemediationExecutor h → W → ℕ
  since_usec r w = pos_part (h.clock w -ℤ pos (r.journal_keep_days * 86400000000))

  unfoldable pub vacuum_journal : RemediationExecutor h → Executor h
  vacuum_journal r w action =
      let since = since_usec r w in
      let (w', done) = h.vacuum w since in
      answer action.request.capability (h.clock w) w' (
        with_evidence
          (h.object (
            ("operation", h.text "journal-vacuum")
            ∷ ("keep_days", h.number (pos r.journal_keep_days))
            ∷ ("since_usec", h.number (pos since))
            ∷ pressure_subject action.request.arguments))
          done)

  unfoldable pub call_mcp_tool : RemediationExecutor h → Executor h
  call_mcp_tool r w action =
      let capability = action.request.capability in
      let (w', result) = r.mcp w capability action.request.arguments in
      answer capability (h.clock w) w' result

  unfoldable pub execute : RemediationExecutor h → Executor h
  execute r w action =
      let capability = action.request.capability in
      if eqb "host.process.signal" capability
      then signal_pid r w action
      else if eqb "container.restart" capability
      then restart_container r w action
      else if eqb "host.cgroup.freeze" capability
      then set_cgroup_freeze r true w action
      else if eqb "host.cgroup.thaw" capability
      then set_cgroup_freeze r false w action
      else if eqb "host.memory.reclaim" capability
      then reclaim_page_cache w action
      else if eqb "host.journal.vacuum" capability
      then vacuum_journal r w action
      else if starts_with capability "mcp."
      then call_mcp_tool r w action
      else (w, err (unsupported capability))
