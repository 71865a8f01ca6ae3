-- ===== src/Engine/FactStore.antt =====
-- pkg/engine/factstore.go: the facts that rule conditions read and rule actions write.
use markov.Prelude.{
  String, Bool, true, false, not, ◌||◌, Option, none, some, [], ◌==◌, ℤ, pos, negsuc, Dict, lookup,
  insert, nat_eq, or_else,
}
use markov.Value.{Value, Vars, null, bool, int, float, str, index}

-- `data` and `fired`
pub record FactStore : Type 0 where
  pub facts : Vars
  pub fired : Dict Bool

abbrev pub new_fact_store : Vars → FactStore
new_fact_store m = record { facts = m; fired = [] }

unfoldable pub get : FactStore → String → Value
get f key = index f.facts key

unfoldable pub get_str : (Value → String) → FactStore → String → String
get_str show f key = elim (lookup key f.facts) [
  | none ↦ ""
  | some v ↦ elim v [ null ↦ "" | other ↦ show other ]
]

-- the type switch of `GetNum`; a float is its text
abbrev num_of : (ℤ → String) → (String → Option String) → Value → String
num_of of_int parse (float x) = x
num_of of_int parse (int n) = of_int n
num_of of_int parse (str s) = or_else (parse s) "0"
num_of of_int parse _ = "0"

unfoldable pub get_num : (ℤ → String) → (String → Option String) → FactStore → String → String
get_num of_int parse f key = elim (lookup key f.facts) [
  | none ↦ "0"
  | some v ↦ num_of of_int parse v
]

abbrev is_zero_int : ℤ → Bool
is_zero_int (pos n) = nat_eq n 0
is_zero_int (negsuc n) = false

-- the type switch of `IsTrue`
abbrev pub truth : Value → Bool
truth (bool b) = b
truth null = false
truth (str s) = not (s == "")
truth (int n) = not (is_zero_int n)
truth (float x) = not (x == "0" || x == "-0")
truth _ = true

unfoldable pub is_true : FactStore → String → Bool
is_true f key = elim (lookup key f.facts) [ none ↦ false | some v ↦ truth v ]

unfoldable pub is_nil : FactStore → String → Bool
is_nil f key = elim (lookup key f.facts) [
  | none ↦ true
  | some v ↦ elim v [ null ↦ true | _ ↦ false ]
]

-- `Set`, of which `SetStr`, `SetBool` and `SetNum` are the cases of a text, a truth value, a float
unfoldable pub set_fact : String → Value → FactStore → FactStore
set_fact key v f = record f { facts = insert key v f.facts }

unfoldable pub mark_fired : String → FactStore → FactStore
mark_fired rule f = record f { fired = insert rule true f.fired }

unfoldable pub has_fired : FactStore → String → Bool
has_fired f rule = or_else (lookup rule f.fired) false
