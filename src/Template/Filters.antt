-- ===== src/Template/Filters.antt =====
-- The filters that template.go adds to pongo2, on the values that pongo2 hands them.
use markov.Prelude.{
  ℕ, zero, suc, ◌-◌, ℤ, pos, negsuc, String, Bool, true, false, ◌&&◌, not, Option, none, some, List,
  [], ◌∷◌, ◌++◌, map, concat, split, if◌then◌else◌, ◌==◌, ◌≡◌, refl,
}
use markov.Value.{
  Value, Items, null, bool, int, float, number, str, obj, slice, decision_functions, SliceType,
  any_slice, nil, cons, as_map, index, items_of, list_of,
}
use markov.Failure.{Error, Result, ok, err, message}
use markov.Engine.Env.{Go}

abbrev pub is_list : Value → Bool
is_list (slice t vs) = true
is_list v = false

-- the levels below, for a number of levels or, if it is negative, for all
abbrev deeper : ℤ → ℤ
deeper (pos n) = pos (n - 1)
deeper (negsuc n) = negsuc (suc n)

abbrev is_zero : ℤ → Bool
is_zero (pos zero) = true
is_zero (pos (suc n)) = false
is_zero (negsuc n) = false

-- `flatten`, with its loop over the items
unfoldable mutual
  pub flatten : Value → ℤ → List Value
  flatten (slice t vs) depth = flatten_items vs depth
  flatten (str s) depth = []
  flatten (obj fs) depth = []
  flatten null depth = []
  flatten (bool b) depth = []
  flatten (int n) depth = []
  flatten (float x) depth = []
  flatten (number n) depth = []
  flatten decision_functions depth = []

  pub flatten_items : Items → ℤ → List Value
  flatten_items nil depth = []
  flatten_items (cons v vs) depth =
      let nested = flatten v (deeper depth) in
      let rest = flatten_items vs depth in
      if not (is_zero depth) && is_list v then nested ++ rest else v ∷ rest

-- The leaves of a list of lists, from left to right.
mutual
  pub leaves : Value → List Value
  leaves (slice t vs) = leaves_of vs
  leaves (str s) = str s ∷ []
  leaves (obj fs) = obj fs ∷ []
  leaves null = null ∷ []
  leaves (bool b) = bool b ∷ []
  leaves (int n) = int n ∷ []
  leaves (float x) = float x ∷ []
  leaves (number n) = number n ∷ []
  leaves decision_functions = decision_functions ∷ []

  pub leaves_of : Items → List Value
  leaves_of nil = []
  leaves_of (cons v vs) = leaves v ++ leaves_of vs

flatten_items-all : (vs : Items) (n : ℕ) → flatten_items vs (negsuc n) ≡ leaves_of vs
unfolding flatten flatten_items leaves leaves_of
flatten_items-all nil n = refl
flatten_items-all (cons (slice t ws) vs) n =
    λ i. flatten_items-all ws (suc n) i ++ flatten_items-all vs n i
flatten_items-all (cons (str s) vs) n = λ i. str s ∷ flatten_items-all vs n i
flatten_items-all (cons (obj fs) vs) n = λ i. obj fs ∷ flatten_items-all vs n i
flatten_items-all (cons null vs) n = λ i. null ∷ flatten_items-all vs n i
flatten_items-all (cons (bool b) vs) n = λ i. bool b ∷ flatten_items-all vs n i
flatten_items-all (cons (int k) vs) n = λ i. int k ∷ flatten_items-all vs n i
flatten_items-all (cons (float x) vs) n = λ i. float x ∷ flatten_items-all vs n i
flatten_items-all (cons (number k) vs) n = λ i. number k ∷ flatten_items-all vs n i
flatten_items-all (cons decision_functions vs) n =
    λ i. decision_functions ∷ flatten_items-all vs n i

-- With no limit on the levels, a list is flattened to its leaves, from left to right.
pub flatten-leaves :
    (t : SliceType) (vs : Items) (n : ℕ) → flatten (slice t vs) (negsuc n) ≡ leaves_of vs
unfolding flatten
flatten-leaves t vs n = flatten_items-all vs n

-- the field at a dotted path; a missing one is nil
abbrev field_at : List String → Value → Value
field_at [] v = v
field_at (key ∷ path) v = elim (as_map v) [ none ↦ null | some m ↦ field_at path (index m key) ]

abbrev count_from : ℕ → ℕ → List Value
count_from zero i = []
count_from (suc n) i = int (pos i) ∷ count_from n (suc i)

abbrev of_list : List Value → Value
of_list vs = slice any_slice (items_of vs)

module _ (go : Go) (text : Value → String) (integer : Value → ℤ) where
  abbrev trimmed_parts : List String → List Value
  trimmed_parts [] = []
  trimmed_parts (s ∷ ss) =
      let rest = trimmed_parts ss in
      let item = go.trim_space s in if item == "" then rest else str item ∷ rest

  -- `filterCSV`; `text` is pongo2's `Value.String`
  unfoldable pub filter_csv : Value → Value
  filter_csv v = of_list (trimmed_parts (split 0x2c (text v)))

  -- the list 1..n, empty for a negative count
  abbrev count_to : ℤ → Value
  count_to (pos n) = of_list (count_from n 1)
  count_to (negsuc n) = of_list []

  abbrev not_a_count : Value → Error
  not_a_count v = message (concat ("not a count: " ∷ go.quote (text v) ∷ []))

  abbrev count_text : Value → Result Value
  count_text v =
      let s = go.trim_space (text v) in
      if s == ""
      then ok (count_to (pos 0))
      else elim (go.parse_int s) [ none ↦ err (not_a_count v) | some n ↦ ok (count_to n) ]

  -- `filterSeq`; `integer` is pongo2's `Value.Integer`
  unfoldable pub filter_seq : Value → Result Value
  filter_seq (int n) = ok (count_to n)
  filter_seq (float x) = ok (count_to (integer (float x)))
  filter_seq v = count_text v

  -- `filterPluck`, with the text of its parameter
  unfoldable pub filter_pluck : Value → String → Result Value
  filter_pluck (slice t vs) path = ok (of_list (map (field_at (split 0x2e path)) (list_of vs)))
  filter_pluck v path = err (message (concat ("pluck needs a list, got " ∷ go.type_name v ∷ [])))

  -- `filterFlatten`; the parameter is missing, or a number
  unfoldable pub filter_flatten : Value → Option ℤ → Value
  unfolding flatten
  filter_flatten v none = of_list (flatten v (negsuc 0))
  filter_flatten v (some depth) = of_list (flatten v depth)

  -- `filterFromJSON`
  unfoldable pub filter_from_json : Value → Result Value
  filter_from_json v = elim (go.json_decode (text v)) [
    | none ↦ err (message (go.json_error (text v)))
    | some parsed ↦ ok parsed
  ]

  -- `filterTrim` and `filterToJSON`
  unfoldable pub filter_trim : Value → Value
  filter_trim v = str (go.trim_space (text v))

  unfoldable pub filter_to_json : Value → Value
  filter_to_json v = str (go.json_encode v)
