-- ===== src/Template/Plain.antt =====
-- Rendering leaves what holds no template as it is.
use markov.Prelude.{String, ◌≡◌, refl, ap, ◌∙◌, false, [], ◌∷◌}
use markov.Value.{
  Value, Items, Fields, Vars, null, bool, int, float, number, str, obj, slice, decision_functions,
  any_slice, string_slice, map_slice, nil, cons, end, field, fields_of, vars_of,
}
use markov.Failure.{ok, map_result, map_error, returning}
use markov.Engine.Env.{Go}
use markov.Template.{
  Pongo, is_template, render_text, render_value, render_items, render_fields, render_map,
  param_error,
}

-- No text that `renderValue` comes to is a template, however deep it stands.
unfoldable mutual
  pub IsLiteral : Value → Type 0
  IsLiteral (str s) = is_template s ≡ false
  IsLiteral (obj fs) = AllLiteral fs
  IsLiteral (slice any_slice vs) = EachLiteral vs
  IsLiteral (slice string_slice vs) = Unit
  IsLiteral (slice map_slice vs) = Unit
  IsLiteral null = Unit
  IsLiteral (bool b) = Unit
  IsLiteral (int n) = Unit
  IsLiteral (float x) = Unit
  IsLiteral (number n) = Unit
  IsLiteral decision_functions = Unit

  pub EachLiteral : Items → Type 0
  EachLiteral nil = Unit
  EachLiteral (cons v vs) = IsLiteral v × EachLiteral vs

  pub AllLiteral : Fields → Type 0
  AllLiteral end = Unit
  AllLiteral (field k v fs) = IsLiteral v × AllLiteral fs

vars_of-fields_of : (m : Vars) → vars_of (fields_of m) ≡ m
vars_of-fields_of [] = refl
vars_of-fields_of ((k, v) ∷ m) = ap (λ r. (k, v) ∷ r) (vars_of-fields_of m)

module _ (go : Go) (pongo : Pongo) where
  module _ (token : String) (ctx : Vars) where
    mutual
      unfolding render_value render_items render_fields render_text IsLiteral EachLiteral AllLiteral

      render_value-literal : (v : Value) → IsLiteral v → render_value go pongo token ctx v ≡ ok v
      render_value-literal (str s) h = rw h refl
      render_value-literal (obj fs) h = ap (map_result obj) (render_fields-literal fs h)
      render_value-literal (slice any_slice vs) h =
          ap (map_result (slice any_slice)) (render_items-literal vs h)
      render_value-literal (slice string_slice vs) h = refl
      render_value-literal (slice map_slice vs) h = refl
      render_value-literal null h = refl
      render_value-literal (bool b) h = refl
      render_value-literal (int n) h = refl
      render_value-literal (float x) h = refl
      render_value-literal (number n) h = refl
      render_value-literal decision_functions h = refl

      render_items-literal :
          (vs : Items) → EachLiteral vs → render_items go pongo token ctx vs ≡ ok vs
      render_items-literal nil h = refl
      render_items-literal (cons v vs) h = λ i.
          returning (render_value-literal v h.0 i)
            (λ w. map_result (cons w) (render_items-literal vs h.1 i))

      render_fields-literal :
          (fs : Fields) → AllLiteral fs → render_fields go pongo token ctx fs ≡ ok fs
      render_fields-literal end h = refl
      render_fields-literal (field k v fs) h = λ i.
          returning (map_error (param_error go pongo token ctx k) (render_value-literal v h.0 i))
            (λ w. map_result (field k w) (render_fields-literal fs h.1 i))

    -- Parameters that hold no template, in any of their lists and maps, are rendered to themselves:
    -- every value keeps its type, and no error arises, whatever pongo2 does.
    pub render_map-literal :
        (params : Vars)
        → AllLiteral (fields_of params)
        → render_map go pongo token ctx params ≡ ok params
    unfolding render_map
    render_map-literal params h =
        ap (map_result vars_of) (render_fields-literal (fields_of params) h)
        ∙ ap ok (vars_of-fields_of params)
