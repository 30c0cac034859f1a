-- ===== src/Executor/Cluster/Names.antt =====
-- What the predicates of crates/argus-executor/src/cluster.rs accept: the parts of a target.
use Prim.Native.String.{String, ◌++◌ as str_append}
use argus_ai.Prelude.{
  ℕ, ◌≤◌, ◌≡◌, ◌≢◌, ap, ◌∙◌, true, false, ◌==◌, List, [], ◌∷◌, ◌++◌, string_eq, nat_eq, length, All,
  arith,
}
use argus_ai.Prelude.Results.{ok}
use argus_ai.Prelude.Codes.{codes, split, codes_eq, codes-append, split-append}
use argus_ai.Executor.Cluster.{
  protected_namespaces, valid_k8s_name, is_listed, first_part, is_name_char, all_name_chars,
  starts_separated, ends_separated, is_valid_part, all_valid_parts,
}
use argus_ai.Executor.Cluster.Execute.{target_of}

-- A part of a name: one to 253 characters out of [a-z0-9.-], none of `.-` at an end.
abbrev pub IsName : List ℕ → Type 0
IsName part =
    (part ≢ [])
    × (length part ≤ 253)
    × All (λ c. is_name_char c ≡ true) part
    × (starts_separated part ≡ false)
    × (ends_separated part ≡ false)

abbrev pub parts_of : String → String → List (List ℕ)
parts_of namespace name = split 47 (codes (target_of namespace name))

all_name_chars_lem : (s : List ℕ) → all_name_chars s ≡ true → All (λ c. is_name_char c ≡ true) s
all_name_chars_lem [] h = tt
all_name_chars_lem (c ∷ s) h = (ground arith, all_name_chars_lem s (ground arith))

is_valid_part-IsName : (part : List ℕ) → is_valid_part part ≡ true → IsName part
is_valid_part-IsName part h =
    (ground arith, ground arith, all_name_chars_lem part (ground arith), ground arith, ground arith)

all_valid_parts-IsName : (ps : List (List ℕ)) → all_valid_parts ps ≡ true → All IsName ps
all_valid_parts-IsName [] h = tt
all_valid_parts-IsName (p ∷ ps) h =
    (is_valid_part-IsName p (ground arith), all_valid_parts-IsName ps (ground arith))

pub valid_k8s_name_lem :
    (target : String) → valid_k8s_name target ≡ ok tt → All IsName (split 47 (codes target))
unfolding valid_k8s_name
valid_k8s_name_lem target h = all_valid_parts-IsName (split 47 (codes target)) (ground arith)

pub protected_namespaces_lem :
    (protected : List String) (target : String)
    → protected_namespaces protected target ≡ ok tt
    → is_listed protected (first_part (split 47 (codes target))) ≡ false
unfolding protected_namespaces
protected_namespaces_lem protected target h = ground arith

-- The first part of a target is its namespace, if that has no slash itself.
pub first_part-parts_of :
    (namespace name : String)
    → All (λ c. (c == 47) ≡ false) (codes namespace)
    → first_part (parts_of namespace name) ≡ codes namespace
first_part-parts_of namespace name h =
    ap (λ s. first_part (split 47 s))
      (codes-append namespace (str_append "/" name)
        ∙ ap (λ s. codes namespace ++ s) (codes-append "/" name))
    ∙ ap first_part (split-append 47 (codes namespace) (codes name) h)
