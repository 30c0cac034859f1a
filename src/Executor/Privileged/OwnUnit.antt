-- ===== src/Executor/Privileged/OwnUnit.antt =====
-- The daemon's own unit under the guardrails that crates/argus-daemon/src/runtime.rs wires for services.
use Prim.Native.String.{String, ◌++◌ as str_append}
use argus_ai.Prelude.{
  ◌≡◌, ◌≢◌, refl, sym, ap, subst, ◌∙◌, ◌⊎◌, inl, inr, true, some, List, [], ◌∷◌, eqb_iff, string_eq,
  All, arith,
}
use argus_ai.Prelude.Results.{ok, err}
use argus_ai.Control.Ports.{AuthorizedAction}
use argus_ai.Executor.Guardrail
use argus_ai.Executor.Guardrail.{
  Guardrail, CharTests, is_valid_unit_name, valid_service_unit, never_target_argusd, check,
}
use argus_ai.Executor.Guardrail.Checked.{registered, register_all, check-accepts}
use argus_ai.Executor.Host.{
  Host, Outcome, not_authorized, unsupported, failed, guardrail_violation, failed_after_effect,
}
use argus_ai.Executor.Privileged.{ServiceOp, operation_of, service_guardrails, execute}
use argus_ai.Executor.Privileged.Reversal.{Explained, Admitted, execute-Explained}

never_target_argusd_lem :
    (trim : String → String) (own target : String)
    → never_target_argusd trim own target ≡ ok tt
    → (trim target ≢ own) × (trim target ≢ str_append own ".service")
unfolding never_target_argusd
never_target_argusd_lem trim own target h = (
  ground (arith, eqb_iff (trim target) own),
  ground (arith, eqb_iff (trim target) (str_append own ".service")),
)

valid_service_unit_lem :
    (t : CharTests) (target : String)
    → valid_service_unit t target ≡ ok tt
    → is_valid_unit_name t target ≡ true
unfolding valid_service_unit
valid_service_unit_lem t target h = ground arith

module _ (h : Host) (tests : CharTests) (own : String) where
  open h use {V, W}

  abbrev pub Foreign : String → Type 0
  Foreign unit =
      (h.trim unit ≢ own)
      × (h.trim unit ≢ str_append own ".service")
      × (is_valid_unit_name tests unit ≡ true)

  abbrev wiring : List (String × Guardrail)
  wiring =
      ("host.service.restart", never_target_argusd h.trim own)
      ∷ ("host.service.restart", valid_service_unit tests)
      ∷ ("host.service.stop", never_target_argusd h.trim own)
      ∷ ("host.service.stop", valid_service_unit tests)
      ∷ ("host.service.start", never_target_argusd h.trim own)
      ∷ ("host.service.start", valid_service_unit tests)
      ∷ []

  wired : service_guardrails h.trim tests own ≡ register_all Guardrail.new wiring
  unfolding service_guardrails register_all
  wired = refl

  passed :
      (capability unit : String)
      → check (service_guardrails h.trim tests own) capability unit ≡ ok tt
      → All (λ g. g unit ≡ ok tt) (registered wiring capability)
  passed capability unit e =
      check-accepts wiring capability unit (ap (λ r. check r capability unit) (sym wired) ∙ e)

  both :
      (unit : String)
      → All (λ g. g unit ≡ ok tt) (never_target_argusd h.trim own ∷ valid_service_unit tests ∷ [])
      → Foreign unit
  both unit (other, (valid, _)) =
      let (a, b) = never_target_argusd_lem h.trim own unit other in
      (a, b, valid_service_unit_lem tests unit valid)

  op_names :
      (c : String) (op : ServiceOp)
      → operation_of c ≡ some op
      → (c ≡ "host.service.restart") ⊎ ((c ≡ "host.service.stop") ⊎ (c ≡ "host.service.start"))
  unfolding operation_of
  op_names c op e = ground (
    arith,
    eqb_iff "host.service.restart" c,
    eqb_iff "host.service.stop" c,
    eqb_iff "host.service.start" c,
  )

  Admitted-Foreign :
      (a : AuthorizedAction V) (op : ServiceOp) (unit : String)
      → Admitted h (service_guardrails h.trim tests own) a op unit
      → Foreign unit
  Admitted-Foreign a op unit (o, u, k) = elim (op_names a.request.capability op o) [
    | inl q ↦
        both unit (subst (λ c. All (λ g. g unit ≡ ok tt) (registered wiring c)) q (passed _ unit k))
    | inr (inl q) ↦
        both unit (subst (λ c. All (λ g. g unit ≡ ok tt) (registered wiring c)) q (passed _ unit k))
    | inr (inr q) ↦
        both unit (subst (λ c. All (λ g. g unit ≡ ok tt) (registered wiring c)) q (passed _ unit k))
  ]

  -- With the guardrails that the daemon wires under its own unit name: an authorized service action
  -- changes the world only if the unit that it names is a valid unit name and is, up to surrounding
  -- whitespace, neither the daemon's own name nor that name with the ending `.service`.
  pub execute-Foreign :
      (w : W) (a : AuthorizedAction V)
      → ((execute h (service_guardrails h.trim tests own) w a).0 ≡ w)
        ⊎ ((unit : String) × (h.str_arg a.request.arguments "unit" ≡ some unit) × Foreign unit)
  execute-Foreign w a =
      by_outcome (execute h (service_guardrails h.trim tests own) w a)
        (execute-Explained h (service_guardrails h.trim tests own) w a)
    where
      by_outcome :
          (o : Outcome h)
          → Explained h (service_guardrails h.trim tests own) w a o
          → (o.0 ≡ w)
            ⊎ ((unit : String) × (h.str_arg a.request.arguments "unit" ≡ some unit) × Foreign unit)
      by_outcome (w', ok r) (op, unit, k, e) = inr (unit, k.1, Admitted-Foreign a op unit k)
      by_outcome (w', err (failed_after_effect reason status)) (op, unit, w1, k, e, u) =
          inr (unit, k.1, Admitted-Foreign a op unit k)
      by_outcome (w', err (not_authorized outcome)) e = inl e
      by_outcome (w', err (unsupported c)) e = inl e
      by_outcome (w', err (failed reason)) e = inl e
      by_outcome (w', err (guardrail_violation v)) e = inl e
