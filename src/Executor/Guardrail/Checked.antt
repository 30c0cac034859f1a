-- ===== src/Executor/Guardrail/Checked.antt =====
-- What a check of crates/argus-executor/src/guardrail.rs accepts.
use mathlib.Core.List.{append-nil, append_assoc}
use argus_ai.Prelude.{
  Bool-cases, inl, inr, ◌≡◌, refl, ◌∙◌, sym, ap, Bool, true, false, Option, none, some, List, [],
  ◌∷◌, ◌++◌, String, eqb, string_eq, eqb_iff, All, arith, if◌then◌else◌,
}
use argus_ai.Prelude.Results.{Result, ok, err}
use argus_ai.Prelude.Assoc
use argus_ai.Prelude.Assoc.{get-insert}
use argus_ai.Executor.Guardrail.{
  Guardrail, GuardrailRegistry, GuardrailViolation, Reason, new, or_empty, register, check_all,
  check,
}

-- The predicates that were registered for a capability, in the order of their registration.
abbrev pub registered : List (String × Guardrail) → String → List Guardrail
registered [] capability = []
registered ((c, g) ∷ rest) capability =
    let gs = registered rest capability in if eqb c capability then g ∷ gs else gs

unfoldable pub register_all : GuardrailRegistry → List (String × Guardrail) → GuardrailRegistry
register_all r [] = r
register_all r ((c, g) ∷ rest) = register_all (register r c g) rest

-- The first refusal in a list of predicates.
abbrev pub first_refusal : List Guardrail → String → Option Reason
first_refusal [] target = none
first_refusal (g ∷ gs) target = elim (g target) [
  | ok accepted ↦ first_refusal gs target
  | err reason ↦ some reason
]

abbrev pub violation : String → Option Reason → Result GuardrailViolation (Unit {0})
violation capability none = ok tt
violation capability (some reason) = err (record { capability = capability; reason = reason })

check_all_lem :
    (capability : String) (gs : List Guardrail) (target : String)
    → check_all capability gs target ≡ violation capability (first_refusal gs target)
unfolding check_all
check_all_lem capability [] target = refl
check_all_lem capability (g ∷ gs) target = by_answer (g target) (check_all_lem capability gs target)
  where
    by_answer :
        (x : Result Reason (Unit {0}))
        → check_all capability gs target ≡ violation capability (first_refusal gs target)
        → (elim x as (λ _. Result GuardrailViolation (Unit {0})) [
          | ok accepted ↦ check_all capability gs target
          | err reason ↦ err (record { capability = capability; reason = reason })
        ])
          ≡ violation capability (elim x as (λ _. Option Reason) [
            | ok accepted ↦ first_refusal gs target
            | err reason ↦ some reason
          ])
    by_answer (ok accepted) later = later
    by_answer (err reason) later = refl

get-register :
    (r : GuardrailRegistry) (k c : String) (g : Guardrail)
    → or_empty (Assoc.get c (register r k g))
      ≡ or_empty (Assoc.get c r) ++ (if eqb k c then g ∷ [] else [])
unfolding register
get-register r k c g =
    ap or_empty (get-insert k c (or_empty (Assoc.get k r) ++ g ∷ []) r)
    ∙ elim (Bool-cases (eqb k c)) [
      | inl q ↦
          ap
            (λ b. or_empty (if b then some (or_empty (Assoc.get k r) ++ g ∷ []) else Assoc.get c r))
            q
          ∙ ap (λ x. or_empty (Assoc.get x r) ++ g ∷ []) ((eqb_iff k c).0 q)
          ∙ ap (λ b. or_empty (Assoc.get c r) ++ (if b then g ∷ [] else [])) (sym q)
      | inr q ↦
          ap
            (λ b. or_empty (if b then some (or_empty (Assoc.get k r) ++ g ∷ []) else Assoc.get c r))
            q
          ∙ sym (append-nil (or_empty (Assoc.get c r)))
          ∙ ap (λ b. or_empty (Assoc.get c r) ++ (if b then g ∷ [] else [])) (sym q)
    ]

registered-cons :
    (k c : String) (g : Guardrail) (rest : List (String × Guardrail))
    → registered ((k, g) ∷ rest) c ≡ (if eqb k c then g ∷ [] else []) ++ registered rest c
registered-cons k c g rest = by_test (eqb k c)
  where
    by_test :
        (b : Bool)
        → (if b then g ∷ registered rest c else registered rest c)
          ≡ (if b then g ∷ [] else []) ++ registered rest c
    by_test true = refl
    by_test false = refl

get-register_all :
    (r : GuardrailRegistry) (rs : List (String × Guardrail)) (c : String)
    → or_empty (Assoc.get c (register_all r rs)) ≡ or_empty (Assoc.get c r) ++ registered rs c
unfolding register_all
get-register_all r [] c = sym (append-nil (or_empty (Assoc.get c r)))
get-register_all r ((k, g) ∷ rest) c =
    get-register_all (register r k g) rest c
    ∙ ap (λ gs. gs ++ registered rest c) (get-register r k c g)
    ∙ append_assoc (or_empty (Assoc.get c r)) (if eqb k c then g ∷ [] else []) (registered rest c)
    ∙ ap (λ gs. or_empty (Assoc.get c r) ++ gs) (sym (registered-cons k c g rest))

-- Whatever predicates were registered, and in whatever order: a check refuses a target exactly when
-- a predicate registered for its capability refuses it, with the reason of the first one that does, and
-- otherwise accepts. Predicates of other capabilities have no say.
pub check-register_all :
    (rs : List (String × Guardrail)) (capability target : String)
    → check (register_all new rs) capability target
      ≡ violation capability (first_refusal (registered rs capability) target)
unfolding check Assoc.get
check-register_all rs capability target =
    ap (λ gs. check_all capability gs target) (get-register_all new rs capability)
    ∙ check_all_lem capability (registered rs capability) target

accepts :
    (gs : List Guardrail) (target : String)
    → first_refusal gs target ≡ none
    → All (λ g. g target ≡ ok tt) gs
accepts [] target h = tt
accepts (g ∷ gs) target h = by_answer (g target) refl (accepts gs target) h
  where
    by_answer :
        (x : Result Reason (Unit {0}))
        → g target ≡ x
        → (first_refusal gs target ≡ none → All (λ k. k target ≡ ok tt) gs)
        → (elim x as (λ _. Option Reason) [
          | ok accepted ↦ first_refusal gs target
          | err reason ↦ some reason
        ])
          ≡ none
        → (g target ≡ ok tt) × All (λ k. k target ≡ ok tt) gs
    by_answer (ok tt) e later h = (e, later h)
    by_answer (err reason) e later h = absurd (ground arith)

-- What an accepted target satisfies: every predicate that was registered for the capability.
pub check-accepts :
    (rs : List (String × Guardrail)) (capability target : String)
    → check (register_all new rs) capability target ≡ ok tt
    → All (λ g. g target ≡ ok tt) (registered rs capability)
check-accepts rs capability target h = accepts (registered rs capability) target (
    by_refusal (first_refusal (registered rs capability) target)
      (sym (check-register_all rs capability target) ∙ h))
  where
    by_refusal : (x : Option Reason) → violation capability x ≡ ok tt → x ≡ none
    by_refusal none h = refl
    by_refusal (some reason) h = absurd (ground arith)
