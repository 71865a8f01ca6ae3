-- ===== src/Engine/Debug/Places.antt =====
-- Where a run is, as the debugger sees it: the section and the iteration of a state name.
pub mod RoundTrip
use Prim.Native.String.{slice, len, ◌++◌}
use markov.Prelude.{
  ◌+◌, ◌-◌, String, Bool, ◌&&◌, List, [], ◌∷◌, concat, has_suffix, strip_prefix, is_some, none,
  some, if◌then◌else◌, ◌==◌,
}
use markov.Engine.Debug.Points.{Breakpoint}

-- `debugPoint`
pub record DebugPoint : Type 0 where
  pub run_id : String
  pub workflow : String
  pub step : String
  pub step_type : String
  pub section : String
  pub iteration : String
  pub phase : String

-- `strings.HasPrefix`
abbrev pub has_prefix : String → String → Bool
has_prefix s prefix = is_some (strip_prefix prefix s)

-- the section that a state name begins with, and what follows it
unfoldable pub split_section : String → String × String
split_section name = elim (strip_prefix "rescue/" name) [
  | some rest ↦ ("rescue", rest)
  | none ↦ elim (strip_prefix "always/" name) [
    | some rest ↦ ("always", rest)
    | none ↦ ("steps", name)
  ]
]

-- what stands between the brackets after the step's name, and else the empty text
unfoldable pub iteration_of : String → String → String
iteration_of rest step_name =
    if has_prefix rest (step_name ++ "[") && has_suffix rest "]"
    then slice rest (len step_name + 1) (len rest - 1)
    else ""

-- `splitStateName`
unfoldable pub split_state_name : String → String → String × String
unfolding split_section iteration_of
split_state_name state_name step_name =
    let (section, rest) = split_section state_name in (section, iteration_of rest step_name)

-- `matches`
unfoldable pub matches : Breakpoint → DebugPoint → Bool
matches b p =
    b.workflow == p.workflow
    && (b.step == p.step
        && (b.section == p.section && (b.phase == p.phase && b.iteration == p.iteration)))
