-- ===== src/Engine/Context/Layers.antt =====
-- `buildContext` of engine.go: of which source a variable of a run has its value.
use markov.Prelude.{
  String, ◌≡◌, refl, ◌∙◌, ap, true, false, Option, none, some, [], ◌∷◌, ◌==◌, eq_iff, if◌then◌else◌,
  lookup, insert, merge, lookup-insert, Bool-cases, ◌⊎◌, inl, inr, subst,
}
use markov.Prelude.Layers.{UniqueKeys, prefer, lookup-layers, lookup-copied}
use markov.Value.{Value, Vars, is_null}
use markov.Engine.Context.{merge_present, build_context}

-- A value that is not null.
abbrev pub present : Option Value → Option Value
present none = none
present (some v) = if is_null v then none else some v

lookup-merge_present :
    (k : String) (base over : Vars)
    → UniqueKeys over
    → lookup k (merge_present base over) ≡ prefer (present (lookup k over)) (lookup k base)
unfolding merge_present lookup
lookup-merge_present k base [] u = refl
lookup-merge_present k base ((j, v) ∷ over) (fresh, u) =
    lookup-merge_present k (if is_null v then base else insert j v base) over u
    ∙ cases (Bool-cases (is_null v)) (Bool-cases (j == k))
  where
    absent : (j == k) ≡ true → lookup k over ≡ none
    absent same = subst (λ i. lookup i over ≡ none) ((eq_iff j k).0 same) fresh

    cases :
        (is_null v ≡ true) ⊎ (is_null v ≡ false)
        → ((j == k) ≡ true) ⊎ ((j == k) ≡ false)
        → prefer (present (lookup k over)) (lookup k (if is_null v then base else insert j v base))
          ≡ prefer (present (if j == k then some v else lookup k over)) (lookup k base)
    cases (inl null) (inl same) = rw (null, same, absent same) (rw null refl)
    cases (inl null) (inr other) = rw (null, other) refl
    cases (inr given) (inl same) =
        rw (given, same, absent same) (rw given (lookup-insert j k v base ∙ rw same refl))
    cases (inr given) (inr other) =
        rw (given, other)
          (ap (prefer (present (lookup k over))) (lookup-insert j k v base ∙ rw other refl))

-- A run's variable has the value that the caller gives it, else the workflow's if that is not null,
-- else the file's.
pub lookup-build_context :
    (k : String) (file_vars cli_vars workflow_vars : Vars)
    → UniqueKeys file_vars
    → UniqueKeys cli_vars
    → UniqueKeys workflow_vars
    → lookup k (build_context file_vars cli_vars workflow_vars)
      ≡ prefer (lookup k cli_vars) (prefer (present (lookup k workflow_vars)) (lookup k file_vars))
unfolding build_context
lookup-build_context k file_vars cli_vars workflow_vars uf uc uw =
    lookup-layers k (merge_present (merge [] file_vars) workflow_vars) cli_vars uc
    ∙ ap (prefer (lookup k cli_vars)) (
        lookup-merge_present k (merge [] file_vars) workflow_vars uw
        ∙ ap (prefer (present (lookup k workflow_vars))) (lookup-copied k file_vars uf))
