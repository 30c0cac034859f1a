-- ===== src/Executor/Remediation/Confined.antt =====
-- What the executor of crates/argus-executor/src/remediation.rs can do to the host, whatever its
-- guardrails are.
use text.Mathlib.Text.{starts_with}
use argus_ai.Prelude.{
  ℕ, ◌≡◌, refl, sym, subst, ◌⊎◌, inl, inr, Bool, true, false, Option, none, some, String, eqb,
  eqb_iff, string_eq, if_elim, arith,
}
use argus_ai.Prelude.Int.{ℤ}
use argus_ai.Prelude.Results.{Result, ok, err}
use argus_ai.Control.Ports.{AuthorizedAction}
use argus_ai.Executor.Guardrail.{check}
use argus_ai.Executor.Host.{
  ProcessSignal, RemediationError, ExecutionError, unsupported, is_i32, Host, Outcome,
}
use argus_ai.Executor.Remediation.{RemediationExecutor}
use argus_ai.Executor.Remediation.Steps.{answer_world, required_elim, guarded_elim}
use argus_ai.Executor.Remediation.Execute.{
  bind, to_i32, answer, signal_with, signal_pid, restart_container, set_cgroup_freeze,
  reclaim_page_cache, since_usec, vacuum_journal, call_mcp_tool, execute,
}

-- One call of a controller.
pub data Effect (V : Type 0) : Type 0 where
  signals : ℤ → ProcessSignal → Effect V
  restarts : String → Effect V
  freezes : String → Bool → Effect V
  reclaims : Effect V
  vacuums : ℕ → Effect V
  calls : String → V → Effect V

abbrev pub freeze_capability : Bool → String
freeze_capability true = "host.cgroup.freeze"
freeze_capability false = "host.cgroup.thaw"

to_i32-some : (n m : ℤ) → to_i32 n ≡ some m → is_i32 m ≡ true
to_i32-some n m h = ground arith

module _ (h : Host) (r : RemediationExecutor h) where
  open h use {V, W}

  -- The world after the call.
  abbrev pub perform : W → Effect V → W
  perform w (signals pid s) = (h.signal w pid s).0
  perform w (restarts id) = (h.restart_container w id).0
  perform w (freezes path frozen) = (h.set_freeze w path frozen).0
  perform w reclaims = (h.reclaim_page_cache w).0
  perform w (vacuums since) = (h.vacuum w since).0
  perform w (calls capability arguments) = (r.mcp w capability arguments).0

  abbrev Passes : String → String → Type 0
  Passes capability target = check r.guardrails capability target ≡ ok tt

  -- The call is the one that the action's capability names, on a target that passed its guardrails.
  abbrev pub Checked : W → AuthorizedAction V → Effect V → Type 0
  Checked w a (signals pid s) =
      (a.request.capability ≡ "host.process.signal")
      × (is_i32 pid ≡ true)
      × Passes "host.process.signal" (h.pid_text pid)
  Checked w a (restarts id) =
      (a.request.capability ≡ "container.restart") × Passes "container.restart" id
  Checked w a (freezes path frozen) =
      (a.request.capability ≡ freeze_capability frozen) × Passes (freeze_capability frozen) path
  Checked w a reclaims = a.request.capability ≡ "host.memory.reclaim"
  Checked w a (vacuums since) =
      (a.request.capability ≡ "host.journal.vacuum") × (since ≡ since_usec h r w)
  Checked w a (calls c v) =
      (a.request.capability ≡ c) × (a.request.arguments ≡ v) × (starts_with c "mcp." ≡ true)

  -- The world is as it was, or as one checked call leaves it.
  abbrev pub Touched : W → AuthorizedAction V → W → Type 0
  Touched w a w' = (w' ≡ w) ⊎ ((e : Effect V) × (w' ≡ perform w e) × Checked w a e)

  -- The same of an executor's outcome.
  unfoldable Leaves : W → AuthorizedAction V → Outcome h → Type 0
  Leaves w a o = Touched w a o.0

  untouched : (w : W) (a : AuthorizedAction V) (e : ExecutionError) → Leaves w a (w, err e)
  unfolding Leaves
  untouched w a e = inl refl

  acts :
      (w : W) (a : AuthorizedAction V) (e : Effect V) (c : String) (s : ℤ)
      (x : Result RemediationError V)
      → Checked w a e
      → Leaves w a (answer h c s (perform w e) x)
  unfolding Leaves
  acts w a e c s x k = inr (e, answer_world h c s (perform w e) x, k)

  signal_pid-Leaves :
      (w : W) (a : AuthorizedAction V)
      → a.request.capability ≡ "host.process.signal"
      → Leaves w a (signal_pid h r w a)
  unfolding signal_pid signal_with
  signal_pid-Leaves w a c = required_elim h (Leaves w a) w _ _ _ (untouched w a _) λ pid p.
      required_elim h (Leaves w a) w _ _ _ (untouched w a _) λ s _.
        guarded_elim h (Leaves w a) w _ _ _ _ (λ v. untouched w a _)
          λ passed. acts w a (signals pid s) _ _ _ (
            c,
            in_range (h.int_arg a.request.arguments "pid") pid p,
            subst (λ x. Passes x (h.pid_text pid)) c passed,
          )
    where
      in_range : (x : Option ℤ) (m : ℤ) → bind x to_i32 ≡ some m → is_i32 m ≡ true
      in_range none m h = absurd (ground arith)
      in_range (some n) m h = to_i32-some n m h

  restart_container-Leaves :
      (w : W) (a : AuthorizedAction V)
      → a.request.capability ≡ "container.restart"
      → Leaves w a (restart_container h r w a)
  unfolding restart_container
  restart_container-Leaves w a c = required_elim h (Leaves w a) w _ _ _ (untouched w a _) λ id _.
      guarded_elim h (Leaves w a) w _ _ _ _ (λ v. untouched w a _)
        λ passed. acts w a (restarts id) _ _ _ (c, subst (λ x. Passes x id) c passed)

  set_cgroup_freeze-Leaves :
      (frozen : Bool) (w : W) (a : AuthorizedAction V)
      → a.request.capability ≡ freeze_capability frozen
      → Leaves w a (set_cgroup_freeze h r frozen w a)
  unfolding set_cgroup_freeze
  set_cgroup_freeze-Leaves frozen w a c =
      required_elim h (Leaves w a) w _ _ _ (untouched w a _) λ path _.
        guarded_elim h (Leaves w a) w _ _ _ _ (λ v. untouched w a _)
          λ passed. acts w a (freezes path frozen) _ _ _ (c, subst (λ x. Passes x path) c passed)

  -- Whatever the controllers do and whatever guardrails are registered: executing an action leaves the
  -- world as it was, or as exactly one call of one controller leaves it. That call is the one that the
  -- action's capability names; the process, container or path that it acts on passed every guardrail of
  -- that capability, a process id is in the range of an `i32`, and a vacuum goes up to the configured
  -- number of days before now.
  pub execute-Touched : (w : W) (a : AuthorizedAction V) → Touched w a (execute h r w a).0
  unfolding Leaves execute reclaim_page_cache vacuum_journal call_mcp_tool
  execute-Touched w a =
      let c = a.request.capability in
      let P = Leaves w a in
      if_elim P (eqb "host.process.signal" c) (λ q. signal_pid-Leaves w a (named _ q))
        λ _.
          if_elim P (eqb "container.restart" c) (λ q. restart_container-Leaves w a (named _ q))
            λ _.
              if_elim P (eqb "host.cgroup.freeze" c)
                (λ q. set_cgroup_freeze-Leaves true w a (named _ q))
                λ _.
                  if_elim P (eqb "host.cgroup.thaw" c)
                    (λ q. set_cgroup_freeze-Leaves false w a (named _ q))
                    λ _.
                      if_elim P (eqb "host.memory.reclaim" c)
                        (λ q. acts w a reclaims _ _ _ (named _ q))
                        λ _.
                          if_elim P (eqb "host.journal.vacuum" c)
                            (λ q. acts w a (vacuums (since_usec h r w)) _ _ _ (named _ q, refl))
                            λ _.
                              if_elim P (starts_with c "mcp.")
                                (λ q. acts w a (calls c a.request.arguments) _ _ _ (refl, refl, q))
                                λ _. untouched w a (unsupported c)
    where
      named : (k : String) → eqb k a.request.capability ≡ true → a.request.capability ≡ k
      named k q = sym ((eqb_iff k a.request.capability).0 q)
