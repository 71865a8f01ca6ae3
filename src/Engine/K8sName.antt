-- ===== src/Engine/K8sName.antt =====
-- `sanitizeK8sName`, `sanitizeK8sLabel` and `injectJobMeta` of engine.go.
pub mod Length
pub mod Safe
use Prim.Native.Char.{code}
use Prim.Native.String.{slice, len}
use markov.Prelude.{
  ℕ, ◌-◌, String, Bool, false, ◌||◌, ◌&&◌, none, some, [], ◌∷◌, concat, insert, has_key, leb, ltb,
  nat_eq, if◌then◌else◌, ◌==◌,
}
use markov.Value.{Vars, str, object, as_string, index}
use markov.Engine.Env.{Go}

abbrev pub is_name_char : ℕ → Bool
is_name_char c =
    (leb 0x61 c && leb c 0x7a) || ((leb 0x30 c && leb c 0x39) || (nat_eq c 0x2d || nat_eq c 0x2e))

-- what is left after `_`, ` ` and every other unsafe character became a dash
unfoldable pub dashed : String → String
dashed String.[] = ""
dashed (String.◌∷◌ c s) =
    if is_name_char (code c) then String.◌∷◌ c (dashed s) else String.◌∷◌ "-" (dashed s)

-- one dash for each row of dashes; the flag says that a dash stands before
unfoldable pub collapse : Bool → String → String
collapse after String.[] = ""
collapse after (String.◌∷◌ c s) =
    let rest = collapse (nat_eq (code c) 0x2d) s in
    if after && nat_eq (code c) 0x2d then rest else String.◌∷◌ c rest

-- `strings.TrimLeft`, `TrimRight` and `Trim`, with the set of characters as a test
unfoldable pub trim_left : (ℕ → Bool) → String → String
trim_left p String.[] = ""
trim_left p (String.◌∷◌ c s) = if p (code c) then trim_left p s else String.◌∷◌ c s

unfoldable pub trim_right : (ℕ → Bool) → String → String
trim_right p String.[] = ""
trim_right p (String.◌∷◌ c s) =
    let rest = trim_right p s in if rest == "" && p (code c) then "" else String.◌∷◌ c rest

unfoldable pub trim : (ℕ → Bool) → String → String
unfolding trim_left trim_right
trim p s = trim_right p (trim_left p s)

abbrev pub is_edge : ℕ → Bool
is_edge c = nat_eq c 0x2d || nat_eq c 0x2e

abbrev is_label_edge : ℕ → Bool
is_label_edge c = nat_eq c 0x2d || (nat_eq c 0x2e || nat_eq c 0x5f)

abbrev separators : ℕ → Bool
separators c = nat_eq c 0x5f || nat_eq c 0x20

-- `strings.NewReplacer("_", "-", " ", "-")`
unfoldable pub replace_separators : String → String
replace_separators String.[] = ""
replace_separators (String.◌∷◌ c s) =
    if separators (code c)
    then String.◌∷◌ "-" (replace_separators s)
    else String.◌∷◌ c (replace_separators s)

module _ (go : Go) where
  unfoldable pub sanitize_k8s_name : String → ℕ → String
  unfolding dashed collapse trim
  sanitize_k8s_name raw max =
      let s = trim is_edge (collapse false (dashed (go.to_lower raw))) in
      let suffix = slice (go.sha256_hex s) 0 8 in
      if ltb max (len s)
      then trim_right is_edge (concat (slice s 0 (max - len suffix - 1) ∷ "-" ∷ suffix ∷ []))
      else s

  unfoldable pub sanitize_k8s_label : String → ℕ → String
  unfolding replace_separators trim
  sanitize_k8s_label raw max =
      let s = replace_separators raw in
      trim is_label_edge (if ltb max (len s) then slice s 0 max else s)

  abbrev prefix_of : Vars → String
  prefix_of params = elim (as_string (index params "name_prefix")) [
    | none ↦ "markov"
    | some p ↦ if p == "" then "markov" else p
  ]

  -- `_labels` is never a map of strings in rendered parameters, so the labels start empty.
  unfoldable pub inject_job_meta : Vars → String → String → String → Vars
  unfolding sanitize_k8s_name sanitize_k8s_label
  inject_job_meta params run workflow step =
      let raw = concat (prefix_of params ∷ "-" ∷ run ∷ "-" ∷ step ∷ []) in
      let named =
        if has_key "_job_name" params
        then params
        else insert "_job_name" (str (sanitize_k8s_name raw 63)) params in
      insert "_labels"
        (object (
          ("app", str "markov")
          ∷ ("markov/run-id", str (sanitize_k8s_label run 63))
          ∷ ("markov/workflow", str (sanitize_k8s_label workflow 63))
          ∷ ("markov/step", str (sanitize_k8s_label step 63))
          ∷ []))
        named
