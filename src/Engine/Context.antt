-- ===== src/Engine/Context.antt =====
-- The helpers of engine.go on variable contexts.
pub mod Layers
use markov.Prelude.{
  String, Bool, Option, none, some, List, [], ◌∷◌, lookup, insert, merge, split, if◌then◌else◌,
  ◌==◌,
}
use markov.Value.{
  Value, Vars, null, bool, str, obj, number, int, float, slice, Items, nil, cons, Fields, end,
  field, object, as_map, is_null,
}
use markov.Failure.{Error}
use markov.Workflow.{Step}
use markov.Engine.Env.{Go}

abbrev resolve_parts : List String → Value → Value
resolve_parts [] current = current
resolve_parts (part ∷ parts) current = elim (as_map current) [
  | none ↦ null
  | some m ↦ elim (lookup part m) [ none ↦ null | some v ↦ resolve_parts parts v ]
]

-- `resolveContextPath`, `null` for nil
unfoldable pub resolve_context_path : String → Vars → Value
resolve_context_path path ctx = resolve_parts (split b'.' path) (object ctx)

-- `extractItemField`, `null` for nil
unfoldable pub extract_item_field : Value → String → Value
extract_item_field item key = elim (as_map item) [
  | none ↦ null
  | some m ↦ elim (lookup key m) [ none ↦ null | some v ↦ v ]
]

-- `if v != nil { base[k] = v }` over a map
unfoldable pub merge_present : Vars → Vars → Vars
merge_present base [] = base
merge_present base ((k, v) ∷ over) =
    merge_present (if is_null v then base else insert k v base) over

-- `buildContext`: the file's variables, then the workflow's that are not null, then the caller's
unfoldable pub build_context : Vars → Vars → Vars → Vars
unfolding merge_present
build_context file_vars cli_vars workflow_vars =
    merge (merge_present (merge [] file_vars) workflow_vars) cli_vars

-- `ignoredFailure`
unfoldable pub ignored_failure : (Error → String) → Vars → Error → Vars
ignored_failure text output e =
    insert "error" (str (text e)) (insert "failed" (bool Bool.true) (merge [] output))

-- `normalizeNumbers`: a `json.Number` becomes an int if it is one, and a float otherwise
module _ (go : Go) where
  abbrev normalize_number : String → Value
  normalize_number s = elim (go.parse_int s) [
    | some n ↦ int n
    | none ↦ elim (go.parse_float s) [ some x ↦ float x | none ↦ float "0" ]
  ]

  unfoldable mutual
    pub normalize : Value → Value
    normalize (number s) = normalize_number s
    normalize (obj fs) = obj (normalize_fields fs)
    normalize (slice t vs) = slice t (normalize_items vs)
    normalize v = v

    pub normalize_items : Items → Items
    normalize_items nil = nil
    normalize_items (cons v vs) = cons (normalize v) (normalize_items vs)

    pub normalize_fields : Fields → Fields
    normalize_fields end = end
    normalize_fields (field k v fs) = field k (normalize v) (normalize_fields fs)

  -- `decodeState`: what the text holds, or `none` where the target is left nil
  unfoldable pub decode_state : String → Option Vars
  unfolding normalize
  decode_state text = elim (go.json_decode_numbers text) [
    | none ↦ none
    | some raw ↦ as_map (normalize raw)
  ]

-- `isSetFactStep` and `isGateStep`: the type of the first step of that name among `wf.Steps`
unfoldable pub step_type_is : String → List Step → String → Bool
step_type_is type [] name = Bool.false
step_type_is type (s ∷ ss) name =
    if s.name == name then s.type == type else step_type_is type ss name
