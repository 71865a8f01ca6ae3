-- ===== src/Template.antt =====
-- pkg/template/template.go: rendering of values, and the filters that it adds to pongo2. What pongo2
-- does with a template is a parameter.
pub mod Plain
pub mod Filters
use Prim.Native.Nat.{◌-◌}
use Prim.Native.String.{slice as substring, len}
use markov.Prelude.{
  ℕ, String, Bool, true, false, ◌&&◌, ◌||◌, not, Option, none, some, List, [], ◌∷◌, concat,
  contains, split, has_suffix, starts_with, lookup, if◌then◌else◌, ◌==◌,
}
use markov.Value.{
  Value, Items, Fields, Vars, SliceType, null, bool, int, float, number, str, obj,
  decision_functions, slice, any_slice, string_slice, map_slice, nil, cons, end, field, as_map,
  fields_of, vars_of, object, is_null,
}
use markov.Failure.{Error, Result, ok, err, message, wrap, map_result, map_error, returning}
use markov.Engine.Env.{Go, Template, Condition}

-- What pongo2 makes of a template: it may refuse the text, fail while it runs, or give a text. The
-- calls of the filter `markov_native_capture` in between are the tokens and the values they were given.
pub data Rendering : Type 0 where
  unparsed : Error → Rendering
  failed : Error → Rendering
  rendered : String → List (String × Value) → Rendering

pub record Pongo : Type 0 where
  pub run : String → Vars → Rendering

-- The outcome of `renderNativeExpression`: `foreign` is a template that it leaves to pongo2.
pub data Native : Type 0 where
  foreign : Native
  native : Result Value → Native

-- `s[2 : len(s)-2]`
abbrev inside : String → String
inside s = substring s 2 (len s - 2)

abbrev both : Option Value → Option Value → Option Value
both none a = a
both (some b) a = some b

-- what is stored under a token: the last value
abbrev stored : String → List (String × Value) → Option Value
stored token [] = none
stored token ((t, v) ∷ calls) = both (stored token calls) (if t == token then some v else none)

-- the walk of `lookupPath`, whose parts are not blank
abbrev pub walk : (String → String) → List String → Value → Option Value
walk trim [] v = some v
walk trim (part ∷ parts) v = if trim part == "" then none else elim (as_map v) [
  | none ↦ none
  | some m ↦ elim (lookup (trim part) m) [ none ↦ none | some next ↦ walk trim parts next ]
]

abbrev pub is_template : String → Bool
is_template s = contains s "{{" || contains s "{%"

module _ (go : Go) (pongo : Pongo) where
  -- `exactExpression`
  unfoldable pub exact_expression : String → Option String
  exact_expression tmpl =
      let s = go.trim_space tmpl in
      let inner = go.trim_space (inside s) in
      if starts_with s "{{" && has_suffix s "}}"
      then (if inner == "" || (contains inner "{" || contains inner "}") then none else some inner)
      else none

  -- `lookupPath`
  unfoldable pub lookup_path : Vars → String → Option Value
  lookup_path ctx path = walk go.trim_space (split 0x2e path) (object ctx)

  abbrev decode : String → Result Value
  decode s = elim (go.json_decode s) [ none ↦ err (message (go.json_error s)) | some v ↦ ok v ]

  -- `parseJSONValue`
  unfoldable pub parse_json_value : Value → Result Value
  parse_json_value (str s) = decode (go.trim_space s)
  parse_json_value v = ok v

  -- a text that holds a JSON object or array becomes it, and any other value stays
  unfoldable pub parse_object_or_array : Value → Value
  unfolding parse_json_value
  parse_object_or_array (str s) =
      let t = go.trim_space s in
      if starts_with t "{" || starts_with t "["
      then elim (parse_json_value (str t)) [ err e ↦ str s | ok v ↦ v ]
      else str s
  parse_object_or_array v = v

  -- the filters after the path; `none` for one that is pongo2's
  unfoldable pub apply_filters : List String → Value → Option (Result Value)
  unfolding parse_json_value
  apply_filters [] v = some (ok v)
  apply_filters (raw ∷ filters) v =
      let filter = go.trim_space raw in
      if filter == "fromjson" || filter == "from_json"
      then elim (parse_json_value v) [
        | err e ↦ some (err (wrap "from_json" e))
        | ok parsed ↦ apply_filters filters parsed
      ]
      else elim (filter == "tojson" || filter == "to_json") [
        | true ↦ apply_filters filters (str (go.json_encode v))
        | false ↦ none
      ]

  abbrev after_filters : List String → Value → Native
  after_filters filters v = elim (apply_filters filters v) [
    | none ↦ foreign
    | some (err e) ↦ native (err e)
    | some (ok w) ↦ native (ok (elim filters [ [] ↦ parse_object_or_array w | f ∷ fs ↦ w ]))
  ]

  -- an expression that is a path with filters
  abbrev of_parts : Vars → List String → Native
  of_parts ctx [] = foreign
  of_parts ctx (first ∷ filters) =
      let path = go.trim_space first in
      if path == ""
      then foreign
      else elim (lookup_path ctx path) [ none ↦ foreign | some v ↦ after_filters filters v ]

  -- `renderNativeExpression`
  unfoldable pub render_native : String → Vars → Native
  unfolding exact_expression lookup_path apply_filters parse_object_or_array
  render_native tmpl ctx = elim (exact_expression tmpl) [
    | none ↦ foreign
    | some expr ↦ of_parts ctx (split 0x7c expr)
  ]

  -- `Render`
  unfoldable pub render : String → Vars → Result String
  render tmpl ctx = elim (pongo.run tmpl ctx) [
    | unparsed e ↦ err (wrap "parsing template" e)
    | failed e ↦ err (wrap "executing template" e)
    | rendered text calls ↦ ok text
  ]

  -- the template of `evalNative`
  abbrev capture : String → String → String
  capture token expr = concat (
      "{% with markov_native_value=" ∷ expr ∷ " %}{{ markov_native_value|markov_native_capture:\""
      ∷ token ∷ "\" }}{% endwith %}" ∷ [])

  abbrev defined : Option Value → Option Value
  defined none = none
  defined (some v) = if is_null v then none else some v

  -- `evalNative`; the token is a number that no other call has
  unfoldable pub eval_native : String → String → Vars → Result (Option Value)
  eval_native token expr ctx = elim (pongo.run (capture token expr) ctx) [
    | unparsed e ↦ err (wrap "parsing template" e)
    | failed e ↦ err (wrap "executing template" e)
    | rendered text calls ↦ ok (defined (stored token calls))
  ]

  -- `Eval`
  unfoldable pub eval_value : String → String → Vars → Result Value
  unfolding eval_native
  eval_value token expr ctx = elim (eval_native token expr ctx) [
    | err e ↦ err e
    | ok none ↦ ok null
    | ok (some v) ↦ ok v
  ]

  -- `EvalBool`
  unfoldable pub eval_bool : String → Vars → Result Bool
  eval_bool expr ctx = elim (pongo.run (concat ("{% if " ∷ expr ∷ " %}true{% endif %}" ∷ [])) ctx) [
    | unparsed e ↦ err (wrap (concat ("parsing expression " ∷ go.quote expr ∷ [])) e)
    | failed e ↦ err (wrap (concat ("evaluating expression " ∷ go.quote expr ∷ [])) e)
    | rendered text calls ↦ ok (go.trim_space text == "true")
  ]

  abbrev as_value : Result String → Result Value
  as_value (ok s) = ok (str s)
  as_value (err e) = err e

  module _ (token : String) (ctx : Vars) where
    abbrev render_other : String → Result Value
    render_other s = elim (exact_expression s) [
      | none ↦ as_value (render s ctx)
      | some expr ↦ elim (eval_native token expr ctx) [
        | err e ↦ err e
        | ok (some v) ↦ ok v
        | ok none ↦ as_value (render s ctx)
      ]
    ]

    -- `renderValue` of a text
    unfoldable pub render_text : String → Result Value
    unfolding exact_expression render_native render eval_native
    render_text s =
        if not (is_template s)
        then ok (str s)
        else elim (render_native s ctx) [ native r ↦ r | foreign ↦ render_other s ]

    abbrev pub param_error : String → Error → Error
    param_error k e = wrap (concat ("rendering param " ∷ go.quote k ∷ [])) e

    -- `renderValue`, with the loops over the items of a list and over the entries of a map
    unfoldable mutual
      unfolding render_text

      pub render_value : Value → Result Value
      render_value (str s) = render_text s
      render_value (obj fs) = map_result obj (render_fields fs)
      render_value (slice any_slice vs) = map_result (slice any_slice) (render_items vs)
      render_value (slice string_slice vs) = ok (slice string_slice vs)
      render_value (slice map_slice vs) = ok (slice map_slice vs)
      render_value null = ok null
      render_value (bool b) = ok (bool b)
      render_value (int n) = ok (int n)
      render_value (float x) = ok (float x)
      render_value (number n) = ok (number n)
      render_value decision_functions = ok decision_functions

      pub render_items : Items → Result Items
      render_items nil = ok nil
      render_items (cons v vs) =
          returning (render_value v) (λ w. map_result (cons w) (render_items vs))

      pub render_fields : Fields → Result Fields
      render_fields end = ok end
      render_fields (field k v fs) =
          returning (map_error (param_error k) (render_value v))
            (λ w. map_result (field k w) (render_fields fs))

    -- `RenderMap`
    unfoldable pub render_map : Vars → Result Vars
    unfolding render_value
    render_map params = map_result vars_of (render_fields (fields_of params))

  -- The template engine that pkg/engine is given, with the conditions of a workflow, in which
  -- pongo2 may ask for decisions.
  unfoldable pub template_engine : String → (String → Vars → Condition) → Template
  unfolding render render_map eval_value eval_bool
  template_engine token conditions = record {
    render = render;
    render_map = λ params ctx. render_map token ctx params;
    eval = eval_value token;
    eval_bool = eval_bool;
    eval_condition = conditions;
  }
