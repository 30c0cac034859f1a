-- ===== src/Domain/Surface.antt =====
-- The surface of capabilities that a registry of crates/argus-domain/src/registry.rs authorizes.
use text.Mathlib.Text.{starts_with}
use argus_ai.Prelude.{
  ◌≡◌, refl, ◌∙◌, sym, ap, subst, Bool, true, false, not, ◌&&◌, ◌||◌, Option, none, some, List, [],
  ◌∷◌, String, ◌⊎◌, inl, inr, eqb, string_eq, eqb_iff, is_empty, if◌then◌else◌, arith,
}
use argus_ai.Prelude.Results.{is_ok}
use argus_ai.Prelude.Assoc
use argus_ai.Prelude.Assoc.{get-insert, get-remove}
use argus_ai.Domain.Registry.{
  Privileges, is_satisfied_by, CapabilityDescriptor, CapabilityRegistry, get, contains, ungranted,
  is_registered, with_sandbox, register, server_prefix, with_prefix, remove_each, unregister_server,
}

abbrev pub listed : List String → String → Bool
listed [] id = false
listed (i ∷ ids) id = eqb i id || listed ids id

module _ {V : Type 0} where
  get-remove_each :
      (ids : List String) (m : List (String × CapabilityDescriptor V)) (id : String)
      → Assoc.get id (remove_each ids m) ≡ (if listed ids id then none else Assoc.get id m)
  unfolding remove_each
  get-remove_each [] m id = refl
  get-remove_each (i ∷ ids) m id =
      ground (arith, get-remove_each ids (Assoc.remove i m) id, get-remove i id m)

  listed-with_prefix :
      (prefix : String) (m : List (String × CapabilityDescriptor V)) (id : String)
      → listed (with_prefix prefix m) id ≡ (starts_with id prefix && is_registered (Assoc.get id m))
  unfolding with_prefix Assoc.get
  listed-with_prefix prefix [] id = ground arith
  listed-with_prefix prefix ((i, d) ∷ m) id =
      ground (arith, listed-with_prefix prefix m id, eqb_iff i id)

  -- Unregistering a server takes away every capability in its namespace `mcp.<server>.`, and every
  -- other capability keeps its descriptor; the sandbox stays. A name is reported as removed exactly
  -- when it was registered there.
  pub unregister_server_lem :
      (r : CapabilityRegistry V) (server id : String)
      → let (r', removed) = unregister_server r server in
        (get r' id ≡ (if starts_with id (server_prefix server) then none else get r id))
        × (listed removed id ≡ (starts_with id (server_prefix server) && contains r id))
        × (r'.sandbox ≡ r.sandbox)
  unfolding unregister_server get contains
  unregister_server_lem r server id =
      let l = listed-with_prefix (server_prefix server) r.descriptors id in
      (
        get-remove_each (with_prefix (server_prefix server) r.descriptors) r.descriptors id
            ∙ missing (Assoc.get id r.descriptors) l,
        l,
        refl,
      )
    where
      missing :
          (o : Option (CapabilityDescriptor V)) {b : Bool}
          → b ≡ (starts_with id (server_prefix server) && is_registered o)
          → (if b then none else o) ≡ (if starts_with id (server_prefix server) then none else o)
      missing none h = ground arith
      missing (some d) h = ground arith

  -- A registration succeeds exactly when the name is free, a privileged capability declares its
  -- privileges and the sandbox grants all that is declared; then the name has the descriptor and every
  -- other name keeps its own. After a refused registration every name keeps what it had.
  pub register_lem :
      (r : CapabilityRegistry V) (d : CapabilityDescriptor V) (id : String)
      → let accepted =
          not (contains r d.id)
          && (not (d.privileged && is_empty d.privileges) && is_empty (ungranted r.sandbox d)) in
        let (r', result) = register r d in
        (is_ok result ≡ accepted)
        × (get r' id ≡ (if accepted && eqb d.id id then some d else get r id))
        × (r'.sandbox ≡ r.sandbox)
  unfolding register get
  register_lem r d id =
      (ground arith, ground (arith, get-insert d.id id d r.descriptors), ground arith)

-- One change of a registry.
pub data Change (V : Type 0) : Type 0 where
  registers : CapabilityDescriptor V → Change V
  unregisters : String → Change V

module _ {V : Type 0} where
  unfoldable pub change : CapabilityRegistry V → Change V → CapabilityRegistry V
  change r (registers d) = (register r d).0
  change r (unregisters server) = (unregister_server r server).0

  unfoldable pub change_all : CapabilityRegistry V → List (Change V) → CapabilityRegistry V
  change_all r [] = r
  change_all r (c ∷ cs) = change_all (change r c) cs

  -- The descriptor stands under its own name, declares its privileges if it is privileged, and
  -- declares none that the sandbox does not grant.
  abbrev pub Honoured : Privileges → String → CapabilityDescriptor V → Type 0
  Honoured sandbox id d =
      (d.id ≡ id)
      × ((d.privileged && is_empty d.privileges) ≡ false)
      × (is_satisfied_by d.privileges sandbox ≡ true)

  abbrev AllHonoured : Privileges → CapabilityRegistry V → Type 0
  AllHonoured sandbox r =
      (r.sandbox ≡ some sandbox)
      × ((id : String) (d : CapabilityDescriptor V) → get r id ≡ some d → Honoured sandbox id d)

  -- The value of a conditional on options is the first, under the test, or the second.
  chosen :
      (b : Bool) (o : Option (CapabilityDescriptor V)) {c d : CapabilityDescriptor V}
      → (if b then some c else o) ≡ some d
      → ((b ≡ true) × (c ≡ d)) ⊎ (o ≡ some d)
  chosen true o h = inl (refl, ground arith)
  chosen false o h = inr h

  accepted-Honoured :
      (sandbox : Privileges) (r : CapabilityRegistry V) (d : CapabilityDescriptor V) (id : String)
      → r.sandbox ≡ some sandbox
      → (not (contains r d.id)
          && (not (d.privileged && is_empty d.privileges) && is_empty (ungranted r.sandbox d))
          && eqb d.id id)
        ≡ true
      → Honoured sandbox id d
  unfolding is_satisfied_by ungranted
  accepted-Honoured sandbox r d id s h =
      let e : is_empty (ungranted r.sandbox d) ≡ true = ground arith in
      (
        ground (arith, eqb_iff d.id id),
        ground arith,
        sym (ap (λ o. is_empty (ungranted o d)) s) ∙ e,
      )

  change-AllHonoured :
      (sandbox : Privileges) (r : CapabilityRegistry V) (c : Change V)
      → AllHonoured sandbox r
      → AllHonoured sandbox (change r c)
  unfolding change
  change-AllHonoured sandbox r (registers d) (s, v) = (
    (register_lem r d d.id).2 ∙ s,
    λ id e h. elim (chosen _ (get r id) {c = d} {d = e} (sym (register_lem r d id).1 ∙ h)) [
      | inl (b, q) ↦ subst (Honoured sandbox id) q (accepted-Honoured sandbox r d id s b)
      | inr o ↦ v id e o
    ],
  )
  change-AllHonoured sandbox r (unregisters server) (s, v) = (
    (unregister_server_lem r server server).2 ∙ s,
    λ id e h. v id e (
        kept (starts_with id (server_prefix server))
          (sym (unregister_server_lem r server id).0 ∙ h)),
  )
    where
      kept :
          (b : Bool) {o : Option (CapabilityDescriptor V)} {d : CapabilityDescriptor V}
          → (if b then none else o) ≡ some d
          → o ≡ some d
      kept true h = absurd (ground arith)
      kept false h = h

  change_all-AllHonoured :
      (sandbox : Privileges) (r : CapabilityRegistry V) (cs : List (Change V))
      → AllHonoured sandbox r
      → AllHonoured sandbox (change_all r cs)
  unfolding change_all
  change_all-AllHonoured sandbox r [] v = v
  change_all-AllHonoured sandbox r (c ∷ cs) v =
      change_all-AllHonoured sandbox (change r c) cs (change-AllHonoured sandbox r c v)

-- Whatever is registered and unregistered in a registry with a sandbox, in any order: every capability
-- that it authorizes stands under its own name, declares its privileges if it is privileged, and
-- declares none that the sandbox does not grant.
pub registered-Honoured :
    {V : Type 0} (sandbox : Privileges) (cs : List (Change V)) (id : String)
    (d : CapabilityDescriptor V)
    → get (change_all (with_sandbox sandbox) cs) id ≡ some d
    → Honoured sandbox id d
unfolding with_sandbox get Assoc.get
registered-Honoured sandbox cs id d h =
    (change_all-AllHonoured sandbox (with_sandbox sandbox) cs
        (refl, λ i e q. absurd (ground arith))).1
      id d h
