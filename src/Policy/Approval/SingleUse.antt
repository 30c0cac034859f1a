-- ===== src/Policy/Approval/SingleUse.antt =====
-- An approval authorizes one invocation (crates/argus-policy/src/approval.rs).
use argus_ai.Prelude.{
  ℕ, ◌+◌, ◌≤◌, ◌≡◌, Bool, true, false, Option, none, some, List, [], ◌∷◌, String, arith, eqb,
  eqb_iff, nat_eq, string_eq, to_ℕ, if◌then◌else◌,
}
use argus_ai.Prelude.Int.{ℤ}
use argus_ai.Prelude.Assoc.{get-insert, get-remove}
use argus_ai.Prelude.Assoc
use argus_ai.Policy.Approval.{
  Uuid, ApprovalStore, ExecutionApproval, is_granted, authorizes, is_authorized, grant,
  grant_for_a_while, deny, get, consume, revoke,
}

-- A consumption that succeeds returns the approval that was stored under the token and authorizes
-- the call, and takes it away: the next consumption of the token fails, whatever hash or instant
-- it presents, and every other token keeps its approval.
pub consume_once :
    (s : ApprovalStore) (token other : Uuid) (hash hash' : String) (now later : ℤ)
    {a : ExecutionApproval}
    → (consume s token hash now).1 ≡ some a
    → let s' = (consume s token hash now).0 in
      (authorizes a token hash now ≡ true)
      × (get s token ≡ some a)
      × (consume s' token hash' later ≡ (s', none))
      × (get s' other ≡ (if eqb token other then none else get s other))
unfolding consume get
consume_once s token other hash hash' now later {a} h = (
  ground arith,
  ground arith,
  ground (arith, get-remove token token s, eqb_iff token token),
  ground (arith, get-remove token other s),
)

-- A consumption that fails leaves the store as it was, and fails only where the approval stored
-- under the token, if any, does not authorize it.
pub consume_refused :
    (s : ApprovalStore) (token : Uuid) (hash : String) (now : ℤ)
    → (consume s token hash now).1 ≡ none
    → ((consume s token hash now).0 ≡ s) × (is_authorized (get s token) token hash now ≡ false)
unfolding consume get
consume_refused s token hash now h = (ground arith, ground arith)

-- One call of the store that changes it.
pub data Call : Type 0 where
  grants : ExecutionApproval → Call
  grants_for_a_while denies : Uuid → Uuid → String → String → ℤ → ℤ → Call
  consumes : Uuid → String → ℤ → Call
  revokes : Uuid → Call

unfoldable pub step : ApprovalStore → Call → ApprovalStore
step s (grants a) = grant s a
step s (grants_for_a_while fresh token hash by now ttl) =
    (grant_for_a_while s fresh token hash by now ttl).0
step s (denies fresh token hash by now _) = (deny s fresh token hash by now).0
step s (consumes token hash now) = (consume s token hash now).0
step s (revokes token) = (revoke s token).0

abbrev is_some : Option ExecutionApproval → Bool
is_some none = false
is_some (some a) = true

-- Whether the call consumes an approval of the token, and whether it grants one.
unfoldable pub executes : Uuid → ApprovalStore → Call → ℕ
executes t s (consumes token hash now) =
    to_ℕ (if eqb token t then is_some (consume s token hash now).1 else false)
executes t s c = 0

unfoldable pub grants_of : Uuid → Call → ℕ
grants_of t (grants a) = to_ℕ (if eqb a.token t then is_granted a.state else false)
grants_of t (grants_for_a_while fresh token hash by now ttl) = to_ℕ (eqb token t)
grants_of t c = 0

unfoldable pub executions : Uuid → ApprovalStore → List Call → ℕ
executions t s [] = 0
executions t s (c ∷ cs) = executes t s c + executions t (step s c) cs

unfoldable pub total_grants : Uuid → List Call → ℕ
total_grants t [] = 0
total_grants t (c ∷ cs) = grants_of t c + total_grants t cs

-- Whether the store holds a live approval of the token.
abbrev live_of : Option ExecutionApproval → ℕ
live_of none = 0
live_of (some a) = to_ℕ (is_granted a.state)

live : Uuid → ApprovalStore → ℕ
live t s = live_of (Assoc.get t s)

step-live :
    (t : Uuid) (s : ApprovalStore) (c : Call)
    → executes t s c + live t (step s c) ≤ live t s + grants_of t c
unfolding live executes grants_of step
step-live t s (grants a) = unfold grant in ground (arith, get-insert a.token t a s)
step-live t s (grants_for_a_while fresh token hash by now ttl) =
    unfold grant_for_a_while in
    ground (arith, get-insert token t (grant_for_a_while s fresh token hash by now ttl).1 s)
step-live t s (denies fresh token hash by now ttl) =
    unfold deny in ground (arith, get-insert token t (deny s fresh token hash by now).1 s)
step-live t s (consumes token hash now) =
    unfold consume authorizes in ground (arith, get-remove token t s, eqb_iff token t)
step-live t s (revokes token) = unfold revoke in ground (arith, get-remove token t s)

executions-le :
    (t : Uuid) (s : ApprovalStore) (cs : List Call)
    → executions t s cs ≤ live t s + total_grants t cs
unfolding executions total_grants
executions-le t s [] = omega arith
executions-le t s (c ∷ cs) = omega (arith, step-live t s c, executions-le t (step s c) cs)

-- From an empty store, no history of grants, denials, consumptions and revocations lets a token
-- be consumed more often than it was granted.
pub executions_bounded : (t : Uuid) (cs : List Call) → executions t [] cs ≤ total_grants t cs
unfolding live Assoc.get
executions_bounded t cs = omega (arith, executions-le t [] cs)
