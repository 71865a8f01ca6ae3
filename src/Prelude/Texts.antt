-- ===== src/Prelude/Texts.antt =====
-- Texts built from parts, as `fmt.Sprintf` and `strings.Join` build them.
use Prim.Native.Char.{code}
use Prim.Native.String.{String, ◌++◌, compare}
use mathlib.Core.Bool.{Bool, ◌||◌}
use Prim.Native.Nat.{ℕ}
use mathlib.Core.Option.{Option, none, some}
use mathlib.Core.List.{List, [], ◌∷◌}
use text.Mathlib.Text.{find?, ◌==◌, is_le}
use markov.Prelude.Tests.{is_some, nat_eq, if◌then◌else◌, or_else}

-- The parts of a formatted text, one after another.
abbrev pub concat : List String → String
concat [] = ""
concat (t ∷ ts) = t ++ concat ts

-- `strings.Join`
abbrev pub join : String → List String → String
join sep [] = ""
join sep (t ∷ []) = t
join sep (t ∷ u ∷ ts) = t ++ (sep ++ join sep (u ∷ ts))

-- `strings.Contains`
abbrev pub contains : String → String → Bool
contains s part = is_some (find? s part)

-- What follows a prefix, if the text has it.
abbrev pub strip_prefix : String → String → Option String
strip_prefix String.[] s = some s
strip_prefix (String.◌∷◌ c p) String.[] = none
strip_prefix (String.◌∷◌ c p) (String.◌∷◌ d s) =
    if nat_eq (code c) (code d) then strip_prefix p s else none

-- `strings.TrimPrefix`
abbrev pub trim_prefix : String → String → String
trim_prefix s p = or_else (strip_prefix p s) s

-- `strings.HasSuffix`
abbrev pub has_suffix : String → String → Bool
has_suffix String.[] suffix = suffix == ""
has_suffix (String.◌∷◌ c s) suffix = suffix == String.◌∷◌ c s || has_suffix s suffix

abbrev pub strip_suffix : String → String → Option String
strip_suffix String.[] suffix = if suffix == "" then some "" else none
strip_suffix (String.◌∷◌ c s) suffix =
    let rest = strip_suffix s suffix in
    if suffix == String.◌∷◌ c s
    then some ""
    else elim rest [ none ↦ none | some t ↦ some (String.◌∷◌ c t) ]

-- `strings.Split` at one character
abbrev pub split : ℕ → String → List String
split sep String.[] = "" ∷ []
split sep (String.◌∷◌ c s) =
    let rest = split sep s in
    if nat_eq (code c) sep
    then "" ∷ rest
    else elim rest [ [] ↦ String.◌∷◌ c "" ∷ [] | t ∷ ts ↦ String.◌∷◌ c t ∷ ts ]

-- The order of texts by their bytes.
abbrev pub text_le : String → String → Bool
text_le s t = is_le (compare s t)

abbrev pub place_text : String → List String → List String
place_text s [] = s ∷ []
place_text s (t ∷ ts) = if text_le s t then s ∷ t ∷ ts else t ∷ place_text s ts

-- `sort.Strings`
abbrev pub sort_texts : List String → List String
sort_texts [] = []
sort_texts (s ∷ ss) = place_text s (sort_texts ss)
