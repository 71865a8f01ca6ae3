-- ===== src/Engine/Facts.antt =====
-- pkg/engine/facts.go: the values of `set_fact`.
use markov.Prelude.{
  String, Bool, true, false, ◌||◌, ◌&&◌, Option, none, some, List, [], ◌∷◌, Dict, insert, contains,
  starts_with, strip_prefix, strip_suffix, concat, if◌then◌else◌, ◌==◌, or_else,
}
use markov.Value.{
  Value, Vars, bool, str, obj, int, float, slice, any_slice, map_slice, vars_of, list_of, object,
  as_map, as_string, index, is_null,
}
use markov.Failure.{message, wrap, Result, ok, err, map_error}
use markov.Engine.Env.{Go, Env}
use markov.Engine.Context.{resolve_context_path}
use markov.Engine.World.{Exec, pure, lift, gets, modify_vars, ◌>>=◌, ◌>>◌}

infixl 5 ◌then_result◌
abbrev ◌then_result◌ {ℓ κ} : {A : Type ℓ} {B : Type κ} → Result A → (A → Result B) → Result B
ok a then_result f = f a
err e then_result f = err e

-- the filters that `extractFromJSONExpr` knows
abbrev json_filter : String → Option String
json_filter inner = elim (strip_suffix inner "| from_json") [
  | some path ↦ some path
  | none ↦ strip_suffix inner "| fromjson"
]

abbrev non_empty : String → Option String
non_empty s = if s == "" then none else some s

-- the braces taken off a template that is one expression
abbrev braced : String → Option String
braced s = elim (strip_prefix "{{" s) [ none ↦ none | some t ↦ strip_suffix t "}}" ]

module _ (go : Go) where
  -- `extractFromJSONExpr`
  unfoldable pub extract_from_json_expr : String → Option String
  extract_from_json_expr tmpl = elim (braced (go.trim_space tmpl)) [
    | none ↦ none
    | some inner ↦ elim (json_filter (go.trim_space inner)) [
      | none ↦ none
      | some path ↦ non_empty (go.trim_space path)
    ]
  ]

  abbrev json_or_text : String → Value
  json_or_text s =
      if starts_with s "[" || starts_with s "{" then or_else (go.json_decode s) (str s) else str s

  abbrev number_or_text : String → Value
  number_or_text s = elim (go.parse_int s) [
    | some n ↦ int n
    | none ↦ elim (go.parse_float s) [ some x ↦ float x | none ↦ json_or_text s ]
  ]

  -- `coerceString`
  unfoldable pub coerce_string : String → Value
  coerce_string raw =
      let s = go.trim_space raw in
      if s == "True" || s == "true"
      then bool true
      else if s == "False" || s == "false"
      then bool false
      else if s == "None" || s == ""
      then str s
      else number_or_text s

module _ (env : Env) where
  open env use {go, tmpl}

  -- `renderTemplateValue`
  unfoldable pub render_template_value : Value → Vars → Result Value
  render_template_value v ctx =
      tmpl.render_map (("v", v) ∷ []) ctx then_result (λ m. ok (index m "v"))

  -- the texts that a row's fields must have
  abbrev match_values : Vars → Vars → Result (Dict String)
  match_values [] ctx = ok []
  match_values ((k, v) ∷ spec) ctx =
      (let vs = go.show v in
        if contains vs "{{"
        then map_error (wrap (concat ("lookup match " ∷ go.quote k ∷ []))) (tmpl.render vs ctx)
        else ok vs)
      then_result (λ text. match_values spec ctx then_result (λ rest. ok ((k, text) ∷ rest)))

  abbrev row_matches : Dict String → Vars → Bool
  row_matches [] row = true
  row_matches ((k, text) ∷ wanted) row = go.show (index row k) == text && row_matches wanted row

  abbrev chosen : Vars → Vars → Value
  chosen spec row = elim (as_string (index spec "field")) [
    | some key ↦ index row key
    | none ↦ object row
  ]

  -- the first row that matches
  abbrev find_row : Dict String → List Value → Option Vars
  find_row wanted [] = none
  find_row wanted (item ∷ items) = elim (as_map item) [
    | none ↦ find_row wanted items
    | some row ↦ if row_matches wanted row then some row else find_row wanted items
  ]

  abbrev rows_at : String → Value → Result (List Value)
  rows_at path (slice any_slice vs) = ok (list_of vs)
  rows_at path (slice map_slice vs) = ok (list_of vs)
  rows_at path v = err (
      message
        (concat ("lookup: " ∷ go.quote path ∷ " is not a list (got " ∷ go.type_name v ∷ ")" ∷ [])))

  abbrev default_of : Vars → Value
  default_of spec = index spec "default"

  abbrev look_in : List Value → Vars → Vars → Result Value
  look_in rows spec ctx = elim (as_map (index spec "match")) [
    | none ↦ err (message "lookup: match criteria required")
    | some wanted ↦ match_values wanted ctx then_result (λ texts. elim (find_row texts rows) [
      | some row ↦ ok (chosen spec row)
      | none ↦ ok (default_of spec)
    ])
  ]

  -- `lookupFact`
  unfoldable pub lookup_fact : String → Vars → Vars → Result Value
  unfolding resolve_context_path
  lookup_fact path spec ctx =
      let source = resolve_context_path path ctx in
      if is_null source
      then ok (default_of spec)
      else rows_at path source then_result (λ rows. look_in rows spec ctx)

  abbrev rendered_fact : String → Vars → Result Value
  rendered_fact text ctx =
      map_error (wrap "rendering template") (render_template_value (str text) ctx)
      then_result (λ v. elim (as_string v) [ some s ↦ ok (coerce_string go s) | none ↦ ok v ])

  abbrev parsed_json : String → Result Value
  parsed_json s = elim (go.json_decode (go.trim_space s)) [
    | some v ↦ ok v
    | none ↦ err (wrap "fromjson" (message (go.json_error (go.trim_space s))))
  ]

  -- `{{ path | fromjson }}` of a text that is in the context, and any other template
  abbrev template_fact : String → Vars → Result Value
  template_fact text ctx = elim (extract_from_json_expr go text) [
    | none ↦ rendered_fact text ctx
    | some path ↦ elim (as_string (resolve_context_path path ctx)) [
      | some s ↦ parsed_json s
      | none ↦ rendered_fact text ctx
    ]
  ]

  abbrev text_fact : String → Vars → Result Value
  text_fact text ctx =
      if contains text "{{" || contains text "{%"
      then template_fact text ctx
      else map_error (wrap "evaluating expression") (tmpl.eval_bool text ctx)
        then_result (λ b. ok (bool b))

  -- `evalFact`
  unfoldable pub eval_fact : Value → Vars → Result Value
  unfolding lookup_fact
  eval_fact (str text) ctx = text_fact text ctx
  eval_fact (obj fs) ctx = elim (as_string (index (vars_of fs) "from")) [
    | some path ↦ lookup_fact path (vars_of fs) ctx
    | none ↦ render_template_value (obj fs) ctx
  ]
  eval_fact (slice any_slice vs) ctx = render_template_value (slice any_slice vs) ctx
  eval_fact v ctx = ok v

  -- The loop of `evalFacts`: each fact sees those before it, and is put into the run's context.
  unfoldable pub eval_facts : Vars → Vars → Exec Vars
  unfolding eval_fact
  eval_facts result [] = pure result
  eval_facts result ((k, v) ∷ vars) = do
    ctx ← gets (λ w. w.vars)
    val ← lift (map_error (wrap (concat ("fact " ∷ go.quote k ∷ []))) (eval_fact v ctx))
    modify_vars (insert k val)
    eval_facts (insert k val result) vars
