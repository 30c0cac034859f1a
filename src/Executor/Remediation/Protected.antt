-- ===== src/Executor/Remediation/Protected.antt =====
-- What the guardrails that crates/argus-executor/src/remediation.rs wires keep its executor from.
use Prim.Native.String.{String}
use text.Mathlib.Text.{starts_with}
use argus_ai.Prelude.{
  ℕ, ◌+◌, ◌≡◌, ◌≢◌, refl, sym, ap, subst, ◌∙◌, ◌⊎◌, inl, inr, true, false, some, List, [], ◌∷◌,
  eqb_iff, string_eq, All, arith,
}
use argus_ai.Prelude.Int.{ℤ, pos, ◌-ℤ◌, ◌≤ℤ◌, int_eq}
use argus_ai.Prelude.Results.{ok}
use argus_ai.Prelude.Codes.{codes, split, codes_eq, same_codes_iff}
use argus_ai.Control.Ports.{AuthorizedAction}
use argus_ai.Executor.Guardrail.{Guardrail, Reason, is_among, pid_above_one, check}
use argus_ai.Executor.Guardrail
use argus_ai.Executor.Guardrail.Checked.{registered, register_all, check-accepts}
use argus_ai.Executor.Host.{Host, McpToolController}
use argus_ai.Executor.Remediation.{
  RemediationExecutor, new, with_mcp_controller, remediation_guardrails, never_target,
  never_signal_self, guards_init, valid_cgroup_path, validate_cgroup_path, any_traversal,
}
use argus_ai.Executor.Remediation.Execute.{since_usec, execute}
use argus_ai.Executor.Remediation.Confined.{
  Effect, signals, restarts, freezes, reclaims, vacuums, calls, perform, Checked, execute-Touched,
}

-- A path below the mount root: relative, without an empty part and without a part that goes up.
abbrev pub IsSubtree : String → Type 0
IsSubtree path =
    (starts_with path "/" ≡ false)
    × All (λ part. (part ≢ []) × (part ≢ codes "..")) (split 47 (codes path))

never_target_lem :
    (protected : List String) (target : String)
    → never_target protected target ≡ ok tt
    → is_among protected target ≡ false
unfolding never_target
never_target_lem protected target h = ground arith

no_traversal :
    (ps : List (List ℕ))
    → any_traversal ps ≡ false
    → All (λ part. (part ≢ []) × (part ≢ codes "..")) ps
no_traversal [] h = tt
no_traversal (p ∷ ps) h =
    (ground (arith, same_codes_iff p (codes "..")), no_traversal ps (ground arith))

valid_cgroup_path_lem : (path : String) → valid_cgroup_path path ≡ ok tt → IsSubtree path
unfolding valid_cgroup_path validate_cgroup_path
valid_cgroup_path_lem path h = (ground arith, no_traversal (split 47 (codes path)) (ground arith))

never_signal_self_lem :
    (h : Host) (pid : ℤ)
    → h.parse_i32 (h.pid_text pid) ≡ some pid
    → never_signal_self h (h.pid_text pid) ≡ ok tt
    → pid ≢ h.own_pid
unfolding never_signal_self
never_signal_self_lem h pid e k = ground (arith, e, eqb_iff pid h.own_pid)

guards_init_lem :
    (h : Host) (pid : ℤ)
    → h.parse_i32 (h.pid_text pid) ≡ some pid
    → guards_init h (h.pid_text pid) ≡ ok tt
    → pos 2 ≤ℤ pid
unfolding guards_init pid_above_one
guards_init_lem h pid e k = ground (arith, e)

module _ (h : Host) (containers cgroups : List String) where
  open h use {V, W}

  abbrev wiring : List (String × Guardrail)
  wiring =
      ("host.process.signal", never_signal_self h)
      ∷ ("host.process.signal", guards_init h)
      ∷ ("container.restart", never_target containers)
      ∷ ("host.cgroup.freeze", valid_cgroup_path)
      ∷ ("host.cgroup.freeze", never_target cgroups)
      ∷ ("host.cgroup.thaw", valid_cgroup_path)
      ∷ ("host.cgroup.thaw", never_target cgroups)
      ∷ []

  wired : remediation_guardrails h containers cgroups ≡ register_all Guardrail.new wiring
  unfolding remediation_guardrails register_all
  wired = refl

  passed :
      (capability target : String)
      → check (remediation_guardrails h containers cgroups) capability target ≡ ok tt
      → All (λ g. g target ≡ ok tt) (registered wiring capability)
  passed capability target e =
      check-accepts wiring capability target (ap (λ r. check r capability target) (sym wired) ∙ e)

  -- What a call of a controller must not reach.
  abbrev pub Spares : W → Effect V → Type 0
  Spares w (signals pid s) = (pid ≢ h.own_pid) × (pos 2 ≤ℤ pid)
  Spares w (restarts id) = is_among containers id ≡ false
  Spares w (freezes path frozen) = IsSubtree path × (is_among cgroups path ≡ false)
  Spares w reclaims = Unit
  Spares w (vacuums since) = (since ≡ 0) ⊎ (pos (since + 86400000000) ≤ℤ h.clock w)
  Spares w (calls capability arguments) = starts_with capability "mcp." ≡ true

  -- The executor as the daemon builds it.
  abbrev pub wired_executor : ℕ → McpToolController h → RemediationExecutor h
  wired_executor keep_days mcp =
      with_mcp_controller (new h keep_days (remediation_guardrails h containers cgroups)) mcp

  since_usec_lem :
      (keep_days : ℕ) (mcp : McpToolController h) (w : W)
      → let since = since_usec h (wired_executor keep_days mcp) w in
        (since ≡ 0) ⊎ (pos (since + 86400000000) ≤ℤ h.clock w)
  unfolding since_usec new with_mcp_controller ◌-ℤ◌
  since_usec_lem keep_days mcp w = ground arith

  spared :
      (keep_days : ℕ) (mcp : McpToolController h) (w : W) (a : AuthorizedAction V) (e : Effect V)
      → Checked h (wired_executor keep_days mcp) w a e
      → Spares w e
  unfolding new with_mcp_controller
  spared keep_days mcp w a (signals pid s) (c, r, k) =
      let (self, (init, _)) = passed "host.process.signal" (h.pid_text pid) k in
      let parsed = h.parse_i32-pid_text pid r in
      (never_signal_self_lem h pid parsed self, guards_init_lem h pid parsed init)
  spared keep_days mcp w a (restarts id) (c, k) =
      never_target_lem containers id (passed "container.restart" id k).0
  spared keep_days mcp w a (freezes path true) (c, k) =
      let (valid, (free, _)) = passed "host.cgroup.freeze" path k in
      (valid_cgroup_path_lem path valid, never_target_lem cgroups path free)
  spared keep_days mcp w a (freezes path false) (c, k) =
      let (valid, (free, _)) = passed "host.cgroup.thaw" path k in
      (valid_cgroup_path_lem path valid, never_target_lem cgroups path free)
  spared keep_days mcp w a reclaims k = tt
  spared keep_days mcp w a (vacuums since) (c, k) =
      subst (λ n. (n ≡ 0) ⊎ (pos (n + 86400000000) ≤ℤ h.clock w)) (sym k)
        (since_usec_lem keep_days mcp w)
  spared keep_days mcp w a (calls capability arguments) (c, v, k) = k

  -- With the guardrails that the daemon wires, whatever number of days and whatever protected containers
  -- and cgroups it is configured with: executing an action leaves the world as it was, or as one call of
  -- one controller leaves it. That call never signals the daemon itself or a process id below 2, never
  -- restarts a protected container, never freezes or thaws a protected cgroup or a path that is
  -- absolute or has an empty or `..` part, never takes journal entries of the last day away, and calls
  -- external tools only under their own prefix.
  pub execute-Spares :
      (keep_days : ℕ) (mcp : McpToolController h) (w : W) (a : AuthorizedAction V)
      → let r = wired_executor keep_days mcp in
        let w' = (execute h r w a).0 in
        (w' ≡ w) ⊎ ((e : Effect V) × (w' ≡ perform h r w e) × Spares w e)
  execute-Spares keep_days mcp w a = elim (execute-Touched h (wired_executor keep_days mcp) w a) [
    | inl q ↦ inl q
    | inr (e, q, k) ↦ inr (e, q, spared keep_days mcp w a e k)
  ]
