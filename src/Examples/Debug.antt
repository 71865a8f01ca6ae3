-- ===== src/Examples/Debug.antt =====
-- The debugger at a small workflow file.
use markov.Prelude.{
  ℕ, ◌+◌, ◌≤◌, String, true, none, some, [], ◌∷◌, ◌≡◌, refl, ◌⊎◌, ◌↔◌, pos, if◌then◌else◌, ◌==◌,
}
use markov.Value.{Vars, int}
use markov.Failure.{Result, ok, err, message}
use markov.Engine.Env.{Template}
use markov.Engine.Debug.Points.{Breakpoint, point_at, resolve_shorthand}
use markov.Engine.Debug.Points.Shorthand.{keep, is_labelled, all_points, resolve_shorthand_unique}
use markov.Engine.Debug.Places.{DebugPoint, matches, split_state_name}
use markov.Engine.Debug.Places.RoundTrip.{item, state_name_of, split_state_name-state_name_of}
use markov.Engine.Debug.Core.{Command, Debugger, new_debugger}
use markov.Engine.Debug.Asking.{match_point}
use markov.Engine.Debug.Asking.Counts.{HasOne, match_each, match_point-after}
use markov.Engine.Debug.Control.{close_control}
use markov.Engine.Debug.Pausing.{Request, enter_pause, arrive}
use markov.Engine.Debug.System.{
  DebugState, fresh_state, Progress, Runs, here, works, other, entered, commands, arrives, closes,
}
use markov.Engine.Debug.System.Drains.{load, calls, IsQuiet, closed-Drains}
use markov.Engine.Debug.System.Armed.{Runs-IsArmed}
use markov.Engine.Debug.System.Held.{IsArmed}
use markov.Examples.Setting.{quote, go, env, file, plain_step}

abbrev point : DebugPoint
point = record {
  run_id = "run1";
  workflow = "release";
  step = "build";
  step_type = "shell_exec";
  section = "steps";
  iteration = "";
  phase = "before";
}

abbrev command : String → Command
command cmd = record {
  cmd = cmd;
  breakpoints = point_at "release" "build" "" ∷ point_at "release" "absent" "" ∷ [];
  workflow = "release";
  step = "build";
  section = "";
  iteration = "";
  id = "";
  expression = "";
}

abbrev parse : String → Result Command
parse line = if line == "" then err (message "no JSON") else ok (command line)

abbrev encode : Vars → Result String
encode vars = ok "{}"

abbrev System : DebugState → ℕ → DebugState → Type 0
System = Runs go encode env.tmpl file parse

split_state_name-state_name_of_example :
    split_state_name (state_name_of (item "a]/b") (plain_step "deploy[x]" "shell_exec")) "deploy[x]"
    ≡ ("steps", "a]/b")
split_state_name-state_name_of_example =
    split_state_name-state_name_of (item "a]/b") (plain_step "deploy[x]" "shell_exec")
      (record { no_rescue = refl; no_always = refl })

resolve_shorthand_unique_example :
    (resolve_shorthand quote file "release.build" ≡ ok (point_at "release" "build" "steps")) ↔ (
      keep (is_labelled "release.build") (all_points file.workflows)
      ≡ point_at "release" "build" "steps" ∷ [])
resolve_shorthand_unique_example =
    resolve_shorthand_unique quote file "release.build" (point_at "release" "build" "steps")

-- The run is stepped, comes to a step, waits there, and then the channel is closed.
left_waiting :
    (s : DebugState) × System (fresh_state (record new_debugger { step_mode = true })) 1 s
    × (s.debugger.closed ≡ true)
unfolding arrive enter_pause match_point close_control
left_waiting =
    let r : Request = record {
      point = point;
      vars = [];
      output = none;
      reason = "step";
      extra = [];
    } in
    let asked = other here (arrives point [] none) in
    let held = works asked (entered r [] [] (record { ticket = 0; vars = [] }) _ refl refl refl) in
    (_, other held (closes refl refl), refl)

closed-Drains_example :
    (0 + load left_waiting.0 ≤ load left_waiting.0)
    × (IsQuiet left_waiting.0
        ⊎ ((u : DebugState) × Progress go encode env.tmpl file parse left_waiting.0 u))
    × (calls left_waiting.0 ≡ calls left_waiting.0)
closed-Drains_example =
    closed-Drains go encode env.tmpl file parse (record new_debugger { step_mode = true }) refl
      left_waiting.1 left_waiting.2 here

-- The user sets two breakpoints, one of them at no step of the file.
two_set : (s : DebugState) × System (fresh_state new_debugger) 0 s
two_set = (_, other here (commands "set_breakpoints" refl refl))

Runs-IsArmed_example : IsArmed file two_set.0.debugger
Runs-IsArmed_example = Runs-IsArmed file go encode env.tmpl parse new_debugger refl refl two_set.1

abbrev breakpoint : Breakpoint
breakpoint = record (point_at "release" "build" "steps") {
  phase = "before";
  skip = pos 1;
  when = "ready";
}

abbrev always_ready : Template
always_ready = record env.tmpl { eval_bool = λ e vars. ok true }

abbrev with_one : Debugger
with_one = record new_debugger { bps = breakpoint ∷ [] }

with_one-HasOne : HasOne quote always_ready breakpoint with_one
with_one-HasOne = record {
  still = refl;
  no_until = refl;
  running = refl;
  one = refl;
  pauses = refl;
}

match_point-after_example :
    (match_point quote always_ready point []
      (match_each quote always_ready ((point, []) ∷ []) with_one)).0
    ≡ some ("breakpoint", ("hits", int (pos 2)) ∷ [])
unfolding matches
match_point-after_example =
    match_point-after quote always_ready breakpoint with_one ((point, []) ∷ []) point []
      with_one-HasOne
