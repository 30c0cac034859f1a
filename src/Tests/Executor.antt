-- ===== src/Tests/Executor.antt =====
-- Guardrails of crates/argus-executor on concrete targets.
use argus_ai.Prelude.{◌≡◌, refl, List, [], ◌∷◌, String, string_eq}
use argus_ai.Prelude.Results.{ok, err}
use argus_ai.Prelude.Assoc
use argus_ai.Executor.Guardrail.{
  Guardrail, new, register, check, check_all, never_target_argusd, allowed_targets, own_unit,
}
use argus_ai.Executor.Guardrail.Checked.{
  registered, register_all, first_refusal, violation, check-register_all,
}

abbrev wired : List (String × Guardrail)
wired =
    ("host.service.stop", never_target_argusd (λ t. t) "argusd")
    ∷ ("host.service.stop", allowed_targets ("nginx" ∷ "argusd.service" ∷ []))
    ∷ ("container.restart", allowed_targets [])
    ∷ []

check-register_all_example :
    check (register_all new wired) "host.service.stop" "argusd.service"
    ≡ violation "host.service.stop"
        (first_refusal (registered wired "host.service.stop") "argusd.service")
check-register_all_example = check-register_all wired "host.service.stop" "argusd.service"

-- The daemon's own unit is refused although it stands among the allowed targets.
own_unit_refused :
    check (register_all new wired) "host.service.stop" "argusd.service"
    ≡ err (record { capability = "host.service.stop"; reason = own_unit "argusd.service" })
unfolding check check_all register_all register never_target_argusd Assoc.get Assoc.insert
own_unit_refused = refl

nginx_accepted : check (register_all new wired) "host.service.stop" "nginx" ≡ ok tt
unfolding check check_all register_all register never_target_argusd allowed_targets Assoc.get
    Assoc.insert
nginx_accepted = refl
