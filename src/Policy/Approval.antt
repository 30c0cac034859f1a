-- ===== src/Policy/Approval.antt =====
-- Execution approvals (crates/argus-domain/src/cloud.rs) and their store
-- (crates/argus-policy/src/approval.rs). A UUID is its number; one that the code draws at random is
-- the argument `fresh`. The mutex of the store serialises the calls, so a call is a state change.
pub mod SingleUse
use argus_ai.Prelude.{
  ℕ, Bool, true, false, ◌&&◌, Option, none, some, List, [], ◌∷◌, String, eqb, nat_eq, string_eq,
  if◌then◌else◌,
}
use argus_ai.Prelude.Int.{ℤ, ◌+ℤ◌, ltb_ℤ}
use argus_ai.Prelude.Assoc

abbrev pub Uuid : Type 0
Uuid = ℕ

pub data ApprovalState : Type 0 where
  granted denied expired : ApprovalState

pub record ExecutionApproval : Type 0 where
  pub approval_id : Uuid
  pub token : Uuid
  pub context_hash : String
  pub granted_by : String
  pub granted_at : ℤ
  pub expires_at : ℤ
  pub state : ApprovalState

unfoldable pub grant_approval : Uuid → Uuid → String → String → ℤ → ℤ → ExecutionApproval
grant_approval fresh token context_hash granted_by granted_at expires_at = record {
  approval_id = fresh;
  token = token;
  context_hash = context_hash;
  granted_by = granted_by;
  granted_at = granted_at;
  expires_at = expires_at;
  state = granted;
}

unfoldable pub deny_approval : Uuid → Uuid → String → String → ℤ → ExecutionApproval
deny_approval fresh token context_hash granted_by at = record {
  approval_id = fresh;
  token = token;
  context_hash = context_hash;
  granted_by = granted_by;
  granted_at = at;
  expires_at = at;
  state = denied;
}

abbrev pub is_granted : ApprovalState → Bool
is_granted granted = true
is_granted _ = false

unfoldable pub authorizes : ExecutionApproval → Uuid → String → ℤ → Bool
authorizes a token context_hash now =
    is_granted a.state
    && eqb a.token token
    && eqb a.context_hash context_hash
    && ltb_ℤ now a.expires_at

abbrev pub ApprovalStore : Type 0
ApprovalStore = List (Uuid × ExecutionApproval)

abbrev pub new : ApprovalStore
new = []

unfoldable pub grant : ApprovalStore → ExecutionApproval → ApprovalStore
grant s a = Assoc.insert a.token a s

unfoldable pub grant_for :
    ApprovalStore → Uuid → Uuid → String → String → ℤ → ℤ → ApprovalStore × ExecutionApproval
unfolding grant grant_approval
grant_for s fresh token context_hash granted_by granted_at expires_at =
    let approval = grant_approval fresh token context_hash granted_by granted_at expires_at in
    (grant s approval, approval)

unfoldable pub grant_for_a_while :
    ApprovalStore → Uuid → Uuid → String → String → ℤ → ℤ → ApprovalStore × ExecutionApproval
unfolding grant_for
grant_for_a_while s fresh token context_hash granted_by now ttl =
    grant_for s fresh token context_hash granted_by now (now +ℤ ttl)

unfoldable pub deny :
    ApprovalStore → Uuid → Uuid → String → String → ℤ → ApprovalStore × ExecutionApproval
unfolding grant deny_approval
deny s fresh token context_hash granted_by now =
    let approval = deny_approval fresh token context_hash granted_by now in
    (grant s approval, approval)

unfoldable pub get : ApprovalStore → Uuid → Option ExecutionApproval
get s token = Assoc.get token s

abbrev pub is_authorized : Option ExecutionApproval → Uuid → String → ℤ → Bool
is_authorized none token context_hash now = false
is_authorized (some a) token context_hash now = authorizes a token context_hash now

unfoldable pub revoke : ApprovalStore → Uuid → ApprovalStore × Option ExecutionApproval
revoke s token = (Assoc.remove token s, Assoc.get token s)

unfoldable pub consume :
    ApprovalStore → Uuid → String → ℤ → ApprovalStore × Option ExecutionApproval
unfolding revoke
consume s token context_hash now =
    if is_authorized (Assoc.get token s) token context_hash now then revoke s token else (s, none)
