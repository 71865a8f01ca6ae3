-- ===== src/Engine/Debug/Places/RoundTrip.antt =====
-- The debugger reads back the section and the iteration that the engine's state names are made of.
use Prim.Native.String.append
use Prim.Native.String.{slice, len, ◌++◌}
use text.Mathlib.TextLemmas.{append-nil, append_assoc}
use text.Mathlib.TextPositions.{len-append, slice-append_middle}
use markov.Prelude.{
  ◌+◌, ◌-◌, String, true, none, ◌≡◌, refl, sym, ap, ◌∙◌, strip_prefix, has_suffix, arith,
  Option-cases, inl, inr,
}
use markov.Prelude.Prefixes.{
  strip_prefix-append, strip_prefix-append_none, strip_prefix-eq, avoids, has_suffix-append,
}
use markov.Workflow.{Step}
use markov.Engine.Records.{Section, rescue_section, always_section, section_name}
use markov.Engine.ForEach.{iteration_name}
use markov.Engine.Lifecycle.{handler_name}
use markov.Engine.Debug.Places.{split_section, iteration_of, split_state_name}

-- No text begins with itself and a bracket.
strip_prefix-longer : (s : String) → strip_prefix (s ++ "[") s ≡ none
strip_prefix-longer s = elim (Option-cases (strip_prefix (s ++ "[") s)) [
  | inl e ↦ e
  | inr (r, e) ↦
      let whole = ap len (strip_prefix-eq (s ++ "[") s r e) in
      let a = len-append (s ++ "[") r in
      let b = len-append s "[" in absurd (omega (arith, whole, a, b))
]

iteration_of_self : (name : String) → iteration_of name name ≡ ""
unfolding iteration_of
iteration_of_self name = rw (strip_prefix-longer name) refl

bracketed : String → String → String
bracketed name key = (name ++ "[") ++ (key ++ "]")

-- The key between the brackets, whatever the name and the key are.
iteration_of-bracketed : (name key : String) → iteration_of (bracketed name key) name ≡ key
unfolding iteration_of bracketed
iteration_of-bracketed name key =
    rw (strip_prefix-append (name ++ "[") (key ++ "]"), ends)
      ((λ i. slice ((name ++ "[") ++ (key ++ "]")) (start i) (finish i))
        ∙ slice-append_middle (name ++ "[") key "]")
  where
    ends : has_suffix ((name ++ "[") ++ (key ++ "]")) "]" ≡ true
    ends =
        ap (λ t. has_suffix t "]") (sym (append_assoc (name ++ "[") key "]"))
        ∙ has_suffix-append ((name ++ "[") ++ key) "]"

    start : len name + 1 ≡ len (name ++ "[")
    start = let e = len-append name "[" in omega (arith, e)

    finish : len ((name ++ "[") ++ (key ++ "]")) - 1 ≡ len (name ++ "[") + len key
    finish =
        let e = len-append (name ++ "[") (key ++ "]") in
        let k = len-append key "]" in omega (arith, e, k)

iteration_name-bracketed :
    (step : Step) (key : String) → iteration_name step key ≡ bracketed step.name key
unfolding bracketed
iteration_name-bracketed step key =
    ap (λ t. step.name ++ ("[" ++ (key ++ t))) (append-nil "]")
    ∙ sym (append_assoc step.name "[" (key ++ "]"))

-- A step's name that looks like the state name of no handler.
pub record IsPlain (name : String) : Type 0 where
  pub no_rescue : strip_prefix "rescue/" name ≡ none
  pub no_always : strip_prefix "always/" name ≡ none

split_section-IsPlain : (name : String) → IsPlain name → split_section name ≡ ("steps", name)
unfolding split_section
split_section-IsPlain name plain = rw (plain.no_rescue, plain.no_always, split_section) refl

-- A bracket after the name does not make it look like a handler's.
bracketed-IsPlain : (name key : String) → IsPlain name → IsPlain (bracketed name key)
unfolding bracketed
bracketed-IsPlain name key plain = record {
  no_rescue = longer "rescue/" refl plain.no_rescue;
  no_always = longer "always/" refl plain.no_always;
}
  where
    longer :
        (p : String)
        → avoids 0x5b p ≡ true
        → strip_prefix p name ≡ none
        → strip_prefix p ((name ++ "[") ++ (key ++ "]")) ≡ none
    longer p h k =
        ap (strip_prefix p) (
          append_assoc name "[" (key ++ "]")
          ∙ ap (λ t. name ++ t) (append.cons "[" "" (key ++ "]")))
        ∙ strip_prefix-append_none p name "[" ("" ++ (key ++ "]")) h k

handler_parts :
    (sec : Section) (step : Step) → handler_name sec step ≡ (section_name sec ++ "/") ++ step.name
handler_parts sec step =
    ap (λ t. section_name sec ++ ("/" ++ t)) (append-nil step.name)
    ∙ sym (append_assoc (section_name sec) "/" step.name)

split_section-rescue : (rest : String) → split_section ("rescue/" ++ rest) ≡ ("rescue", rest)
unfolding split_section
split_section-rescue rest = rw (strip_prefix-append "rescue/" rest, split_section) refl

split_section-always : (rest : String) → split_section ("always/" ++ rest) ≡ ("always", rest)
unfolding split_section
split_section-always rest =
    rw (other_handler, strip_prefix-append "always/" rest, split_section) refl
  where
    other_handler : strip_prefix "rescue/" ("always/" ++ rest) ≡ none
    other_handler = ap (strip_prefix "rescue/") (append.cons "a" "lways/" rest)

split_state_name-section :
    (state_name name section rest : String)
    → split_section state_name ≡ (section, rest)
    → split_state_name state_name name ≡ (section, iteration_of rest name)
unfolding split_state_name
split_state_name-section state_name name section rest e = rw e refl

-- The ways the engine runs a step: as a step of `steps`, as an item of a loop, as a handler.
pub data Call : Type 0 where
  plain : Call
  item : String → Call
  rescue : Call
  always : Call

abbrev pub state_name_of : Call → Step → String
state_name_of plain step = step.name
state_name_of (item key) step = iteration_name step key
state_name_of rescue step = handler_name rescue_section step
state_name_of always step = handler_name always_section step

abbrev pub parts_of : Call → String × String
parts_of plain = ("steps", "")
parts_of (item key) = ("steps", key)
parts_of rescue = ("rescue", "")
parts_of always = ("always", "")

abbrev pub IsReadable : Call → String → Type 0
IsReadable plain name = IsPlain name
IsReadable (item key) name = IsPlain name
IsReadable rescue name = Unit
IsReadable always name = Unit

-- The debugger reads the engine's state names back: that of a handler gives its section and no
-- iteration, for every step; that of a step of `steps` gives that section, and that of an item of
-- a loop that section and the item's key, if the step's name begins with neither `rescue/` nor
-- `always/`. The key and the rest of the name may hold any characters, brackets too.
pub split_state_name-state_name_of :
    (call : Call) (step : Step)
    → IsReadable call step.name
    → split_state_name (state_name_of call step) step.name ≡ parts_of call
split_state_name-state_name_of plain step p =
    split_state_name-section step.name step.name "steps" step.name
      (split_section-IsPlain step.name p)
    ∙ ap (λ t. ("steps", t)) (iteration_of_self step.name)
split_state_name-state_name_of (item key) step p =
    ap (λ t. split_state_name t step.name) (iteration_name-bracketed step key)
    ∙ split_state_name-section (bracketed step.name key) step.name "steps" (bracketed step.name key)
        (split_section-IsPlain (bracketed step.name key) (bracketed-IsPlain step.name key p))
    ∙ ap (λ t. ("steps", t)) (iteration_of-bracketed step.name key)
split_state_name-state_name_of rescue step p =
    ap (λ t. split_state_name t step.name) (handler_parts rescue_section step)
    ∙ split_state_name-section ("rescue/" ++ step.name) step.name "rescue" step.name
        (split_section-rescue step.name)
    ∙ ap (λ t. ("rescue", t)) (iteration_of_self step.name)
split_state_name-state_name_of always step p =
    ap (λ t. split_state_name t step.name) (handler_parts always_section step)
    ∙ split_state_name-section ("always/" ++ step.name) step.name "always" step.name
        (split_section-always step.name)
    ∙ ap (λ t. ("always", t)) (iteration_of_self step.name)
