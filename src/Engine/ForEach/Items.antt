-- ===== src/Engine/ForEach/Items.antt =====
-- The items of a for_each: the list, its order and its keys, as `executeForEach` prepares them.
use markov.Prelude.{
  ℕ, suc, String, Option, none, some, List, [], ◌∷◌, lookup, insert, concat, split, text_le,
  if◌then◌else◌, ◌==◌, pos,
}
use markov.Value.{
  Value, Vars, int, slice, any_slice, string_slice, object, as_map, items_of, list_of, is_null,
}
use markov.Failure.{map_error, Error, message, wrap, Result, ok, err}
use markov.Workflow.{Step}
use markov.Engine.Env.{Env}
use markov.Engine.World.{lift, Exec, pure, gets, modify_vars, raise, ◌>>=◌, ◌>>◌}
use markov.Engine.Context.{resolve_context_path, extract_item_field}

-- the list that a path leads to, as `resolveForEachList` accepts it
abbrev list_at : Value → Option (List Value)
list_at (slice any_slice vs) = some (list_of vs)
list_at (slice string_slice vs) = some (list_of vs)
list_at _ = none

-- `asList`
abbrev as_list : Value → Option (List Value)
as_list (slice t vs) = some (list_of vs)
as_list _ = none

-- The write through a path that a sort in place makes.
abbrev set_at : List String → Value → Vars → Vars
set_at [] v ctx = ctx
set_at (part ∷ []) v ctx = insert part v ctx
set_at (part ∷ next ∷ parts) v ctx = elim (lookup part ctx) [
  | none ↦ ctx
  | some inner ↦ elim (as_map inner) [
    | none ↦ ctx
    | some m ↦ insert part (object (set_at (next ∷ parts) v m)) ctx
  ]
]

module _ (env : Env) where
  open env use {go, tmpl}

  abbrev not_a_list : String → Error
  not_a_list expr =
      message (concat ("for_each expression " ∷ go.quote expr ∷ " did not resolve to a list" ∷ []))

  abbrev rendered_list : String → Vars → Result (List Value)
  rendered_list expr ctx = elim (tmpl.render (concat ("{{ " ∷ expr ∷ " }}" ∷ [])) ctx) [
    | err e ↦ err e
    | ok text ↦ elim (go.json_decode text) [
      | none ↦ err (not_a_list expr)
      | some v ↦ elim v [
        | Value.null ↦ ok []
        | slice t vs ↦ ok (list_of vs)
        | _ ↦ err (not_a_list expr)
      ]
    ]
  ]

  -- `resolveForEachList`
  unfoldable pub resolve_for_each_list : String → Vars → Result (List Value)
  unfolding resolve_context_path
  resolve_for_each_list expr ctx = elim (list_at (resolve_context_path expr ctx)) [
    | some vs ↦ ok vs
    | none ↦ elim (tmpl.eval expr ctx) [
      | err e ↦ err e
      | ok native ↦ elim (as_list native) [ some vs ↦ ok vs | none ↦ rendered_list expr ctx ]
    ]
  ]

  abbrev missing_field : String → String → ℕ → Error
  missing_field option key i = message (
      concat
        (option ∷ " " ∷ go.quote key ∷ " not found on item at index " ∷ go.show (int (pos i)) ∷ []))

  -- the first item that lacks the field to sort by
  unfoldable pub check_sort : String → ℕ → List Value → Option Error
  check_sort key i [] = none
  check_sort key i (v ∷ vs) =
      let rest = check_sort key (suc i) vs in
      if is_null (extract_item_field v key)
      then some (missing_field "for_each_sort" key i)
      else rest

  abbrev pub sort_key : String → Value → String
  sort_key key v = go.show (extract_item_field v key)

  abbrev pub place_item : String → Value → List Value → List Value
  place_item key v [] = v ∷ []
  place_item key v (u ∷ us) =
      if text_le (sort_key key v) (sort_key key u) then v ∷ u ∷ us else u ∷ place_item key v us

  -- `sort.SliceStable`
  unfoldable pub sort_items : String → List Value → List Value
  sort_items key [] = []
  sort_items key (v ∷ vs) = place_item key v (sort_items key vs)

  abbrev number : ℕ → String
  number i = go.show (int (pos i))

  abbrev duplicate_key : String → ℕ → ℕ → Error
  duplicate_key key previous i = message (
      concat (
        "duplicate for_each_key "
        ∷ go.quote key
        ∷ " at indices "
        ∷ number previous
        ∷ " and "
        ∷ number i
        ∷ []))

  -- the keys are there and differ; `seen` has the index of each
  unfoldable pub check_keys : String → List (String × ℕ) → ℕ → List Value → Option Error
  unfolding lookup insert
  check_keys key seen i [] = none
  check_keys key seen i (v ∷ vs) =
      let text = sort_key key v in
      let rest = check_keys key (insert text i seen) (suc i) vs in
      if is_null (extract_item_field v key)
      then some (missing_field "for_each_key" key i)
      else elim (lookup text seen) [
        | some previous ↦ some (duplicate_key text previous i)
        | none ↦ rest
      ]

  -- The sort is in place: the context, after a list that stands in it was sorted.
  abbrev sorted_in_place : Step → List Value → Vars → Vars
  sorted_in_place step sorted ctx = elim (resolve_context_path step.for_each ctx) [
    | slice any_slice _ ↦ set_at (split b'.' step.for_each) (slice any_slice (items_of sorted)) ctx
    | _ ↦ ctx
  ]

  unfoldable pub order_items : Step → List Value → Exec (List Value)
  unfolding check_sort sort_items
  order_items step vs = if step.for_each_sort == "" then pure vs else (do
    missing ← pure (check_sort step.for_each_sort 0 vs)
    elim missing [
      | some e ↦ raise e
      | none ↦ do
        modify_vars (sorted_in_place step (sort_items step.for_each_sort vs))
        pure (sort_items step.for_each_sort vs)
    ])

  -- from the start of `executeForEach` to its loop
  unfoldable pub prepare_items : Step → Exec (List Value)
  unfolding resolve_for_each_list order_items check_keys
  prepare_items step = do
    ctx ← gets (λ w. w.vars)
    found ← lift (map_error (wrap "resolving for_each") (resolve_for_each_list step.for_each ctx))
    items ← order_items step found
    if step.for_each_key == "" then pure items else (do
      clash ← pure (check_keys step.for_each_key [] 0 items)
      elim clash [ none ↦ pure items | some e ↦ raise e ])
