-- ===== src/Value.antt =====
-- The values of workflow variables, Go's `any`: pkg/engine works on `map[string]any`.
use markov.Prelude.{String, Bool, true, false, Option, none, some, List, [], ◌∷◌, ℤ, Dict, lookup}

-- `[]any`, `[]string` and `[]map[string]any` are distinct types to a Go type switch.
pub data SliceType : Type 0 where
  any_slice string_slice map_slice : SliceType

-- A `float64` is its shortest decimal text. `number` is a `json.Number`, and `decision_functions`
-- the map of functions that a condition finds under the name `jev`.
mutual
  pub data Value : Type 0 where
    null : Value
    bool : Bool → Value
    int : ℤ → Value
    float : String → Value
    number : String → Value
    str : String → Value
    slice : SliceType → Items → Value
    obj : Fields → Value
    decision_functions : Value

  pub data Items : Type 0 where
    nil : Items
    cons : Value → Items → Items

  pub data Fields : Type 0 where
    end : Fields
    field : String → Value → Fields → Fields

-- `map[string]any`
abbrev pub Vars : Type 0
Vars = Dict Value

abbrev pub fields_of : Vars → Fields
fields_of [] = end
fields_of ((k, v) ∷ m) = field k v (fields_of m)

abbrev pub vars_of : Fields → Vars
vars_of end = []
vars_of (field k v fs) = (k, v) ∷ vars_of fs

abbrev pub items_of : List Value → Items
items_of [] = nil
items_of (v ∷ vs) = cons v (items_of vs)

abbrev pub list_of : Items → List Value
list_of nil = []
list_of (cons v vs) = v ∷ list_of vs

abbrev pub object : Vars → Value
object m = obj (fields_of m)

-- A map as a value; a nil map is held as `null`.
abbrev pub map_value : Option Vars → Value
map_value none = null
map_value (some m) = object m

-- The type assertions `v.(map[string]any)`, `v.(string)` and `v.([]any)`.
abbrev pub as_map : Value → Option Vars
as_map (obj fs) = some (vars_of fs)
as_map _ = none

abbrev pub as_string : Value → Option String
as_string (str s) = some s
as_string _ = none

abbrev pub is_null : Value → Bool
is_null null = true
is_null _ = false

abbrev pub of_slice : SliceType → Items → Option (List Value)
of_slice any_slice vs = some (list_of vs)
of_slice _ vs = none

-- `m[k]`, whose zero value is nil
unfoldable pub index : Vars → String → Value
index m k = elim (lookup k m) [ none ↦ null | some v ↦ v ]
