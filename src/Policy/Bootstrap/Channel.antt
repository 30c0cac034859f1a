-- ===== src/Policy/Bootstrap/Channel.antt =====
-- What the cloud channel may ask for, against the local loop (crates/argus-policy/src/bootstrap.rs).
use text.Mathlib.Text.{starts_with}
use argus_ai.Prelude.{
  ◌≡◌, refl, ◌↔◌, inl, inr, Bool, true, false, ◌||◌, List, [], ◌∷◌, ◌++◌, String, arith, eqb,
  eqb_iff, string_eq, sym, Bool-cases, ◌∙◌, ap,
}
use argus_ai.Domain.{allow, deny, require_approval}
use argus_ai.Policy.Bootstrap.{
  AuthorizationRequest, BootstrapPolicyEvaluator, contains, any_prefix, channel_capabilities,
  remediation_capabilities, new, with_local_remediation, locally_permitted, evaluate,
}

-- No name of the list starts with the prefix.
abbrev NoneStart : String → List String → Type 0
NoneStart p [] = Unit
NoneStart p (a ∷ rest) = (starts_with a p ≡ false) × NoneStart p rest

contains-NoneStart :
    (p c : String) (names : List String)
    → NoneStart p names
    → starts_with c p ≡ true
    → contains names c ≡ false
contains-NoneStart p c [] n h = refl
contains-NoneStart p c (a ∷ rest) n h = elim (Bool-cases (eqb a c)) [
  | inl e ↦
      let same : a ≡ c = (eqb_iff a c).0 e in
      let clash : true ≡ false = sym (rw (sym same) at h) ∙ n.0 in absurd (ground arith)
  | inr e ↦ rw e (contains-NoneStart p c rest n.1 h)
]

-- The policy of the cloud channel denies every request for an external tool, whatever its name
-- after the prefix, its approval flag and its other fields.
pub evaluate-new :
    {R : Type 0} (r : AuthorizationRequest R)
    → starts_with r.capability "mcp." ≡ true
    → (evaluate new r).outcome ≡ deny
unfolding evaluate new locally_permitted
evaluate-new r h =
    rw
      (contains-NoneStart "mcp." r.capability channel_capabilities
        (refl, (refl, (refl, (refl, (refl, (refl, (refl, tt))))))) h)
      refl

-- The policy allows outright exactly the permitted requests that need no approval, and asks for an
-- approval for exactly the permitted requests that need one; all others it denies.
pub evaluate_lem :
    {R : Type 0} (e : BootstrapPolicyEvaluator) (r : AuthorizationRequest R)
    → (((evaluate e r).outcome ≡ allow)
        ↔ ((locally_permitted e r.capability ≡ true) × (r.requires_approval ≡ false)))
      × (((evaluate e r).outcome ≡ require_approval)
          ↔ ((locally_permitted e r.capability ≡ true) × (r.requires_approval ≡ true)))
      × (((evaluate e r).outcome ≡ deny) ↔ (locally_permitted e r.capability ≡ false))
unfolding evaluate
evaluate_lem e r = ground arith

contains-append :
    (xs ys : List String) (c : String) → contains (xs ++ ys) c ≡ (contains xs c || contains ys c)
contains-append [] ys c = refl
contains-append (x ∷ xs) ys c = ground (arith, contains-append xs ys c)

or_regroup : (x y p : Bool) → ((x || y) || (p || false)) ≡ (x || y || p)
or_regroup x y p = ground arith

-- The local loop permits exactly the channel's capabilities, the remediation capabilities, and
-- every external tool.
pub with_local_remediation_lem :
    (c : String)
    → locally_permitted with_local_remediation c ≡ (
        contains channel_capabilities c
        || contains remediation_capabilities c
        || starts_with c "mcp.")
unfolding with_local_remediation new locally_permitted
with_local_remediation_lem c =
    ap (λ b. b || any_prefix ("mcp." ∷ []) c)
      (contains-append channel_capabilities remediation_capabilities c)
    ∙ or_regroup (contains channel_capabilities c) (contains remediation_capabilities c)
        (starts_with c "mcp.")
