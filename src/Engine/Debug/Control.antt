-- ===== src/Engine/Debug/Control.antt =====
-- The control channel: what one command does to the debugger, and what its closing does. Each
-- function is what happens under the lock; a command for the step that waits is handed over after
-- it, so it is part of the result.
use markov.Prelude.{
  ℕ, String, Bool, true, false, ◌&&◌, Option, none, some, List, [], ◌∷◌, concat, contains,
  if◌then◌else◌, ◌==◌,
}
use markov.Failure.{Result, ok, err, message, error_text}
use markov.Workflow.{WorkflowFile}
use markov.Engine.Env.{Go, Template}
use markov.Engine.Debug.Points.{Breakpoint, point_at, resolve_breakpoint, sort_breakpoints}
use markov.Engine.Debug.Core.{
  Command, Debugger, DebugEvent, breakpoints_set, evaluated, invalid_command, refused_command,
  unknown_command, answer, emit_event,
}

-- What handling a command comes to: the debugger, the events, a command to hand to the pause of
-- that ticket, and whether the run's context is cancelled.
pub record Handled : Type 0 where
  pub debugger : Debugger
  pub events : List DebugEvent
  pub send : Option (ℕ × Command)
  pub cancel : Bool

abbrev only_events : Debugger → List DebugEvent → Handled
only_events d events = record { debugger = d; events = events; send = none; cancel = false }

-- the one-shot breakpoint of an `until` command
abbrev pub until_point : Command → String → Breakpoint
until_point c section = record (point_at c.workflow c.step section) {
  iteration = c.iteration;
  phase = "before";
}

abbrev pub or_steps : String → String
or_steps section = if section == "" then "steps" else section

-- a command while no step waits
unfoldable pub apply_running : Command → Debugger → Debugger
apply_running c d =
    if c.cmd == "continue"
    then record d { step_mode = false }
    else if c.cmd == "step"
    then record d { step_mode = true }
    else if c.cmd == "until"
    then record d { until = some (until_point c (or_steps c.section)) }
    else d

-- `dispatch`
unfoldable pub dispatch_command : Command → Debugger → Handled
unfolding apply_running
dispatch_command c d = elim d.paused [
  | none ↦ record {
    debugger = apply_running c d;
    events = [];
    send = none;
    cancel = c.cmd == "terminate" && d.can_cancel;
  }
  | some p ↦ record {
    debugger = d;
    events = [];
    send = some (p.ticket, record c { section = or_steps c.section });
    cancel = false;
  }
]

abbrev pub abort_command : Command
abort_command = record {
  cmd = "__abort";
  breakpoints = [];
  workflow = "";
  step = "";
  section = "";
  iteration = "";
  id = "";
  expression = "";
}

-- `closeControl`, up to the hand-over to the step that waits
unfoldable pub close_control : Debugger → Debugger × Option (ℕ × Command)
close_control d = (
  record d { bps = []; step_mode = false; until = none; closed = true },
  elim d.paused [ none ↦ none | some p ↦ some (p.ticket, abort_command) ],
)

abbrev is_resume : String → Bool
is_resume cmd =
    if cmd == "continue"
    then true
    else if cmd == "step"
    then true
    else if cmd == "until"
    then true
    else cmd == "terminate"

module _ (go : Go) (tmpl : Template) (file : WorkflowFile) (parse : String → Result Command) where
  -- `SetBreakpoints`, as the command answers it
  unfoldable pub set_breakpoints : List Breakpoint → Debugger → Handled
  unfolding sort_breakpoints emit_event
  set_breakpoints bps d =
      let (resolved, rejected) = sort_breakpoints go.quote file bps in
      let d' = record d { bps = resolved } in
      only_events d' (answer d' (breakpoints_set resolved rejected))

  abbrev in_braces : String → String
  in_braces e = if contains e "{{" then e else concat ("{{ " ∷ e ∷ " }}" ∷ [])

  -- `evaluate`; `safeRender` makes a panic an error, which `render` has already
  unfoldable pub evaluate : Command → Debugger → Handled
  unfolding emit_event
  evaluate c d =
      let result : Result String = elim d.paused [
        | none ↦ err (message "the run is not paused")
        | some p ↦
            if d.attached
            then tmpl.render (in_braces c.expression) p.vars
            else err (message "the run is not paused")
      ] in
      only_events d (answer d (evaluated c.id c.expression result))

  -- an `until` command must name a step of the file
  unfoldable pub resume_command : Command → Debugger → Handled
  unfolding dispatch_command emit_event resolve_breakpoint
  resume_command c d =
      if c.cmd == "until"
      then elim (resolve_breakpoint go.quote file (point_at c.workflow c.step c.section)) [
        | err e ↦ only_events d (answer d (refused_command e c.cmd))
        | ok b ↦ dispatch_command c d
      ]
      else dispatch_command c d

  -- `Handle`
  unfoldable pub handle : String → Debugger → Handled
  unfolding set_breakpoints evaluate resume_command emit_event
  handle line d = elim (parse line) [
    | err e ↦ only_events d (
        answer d (
          invalid_command (concat ("invalid control command: " ∷ error_text go.quote e ∷ [])) line))
    | ok c ↦
        if c.cmd == "set_breakpoints"
        then set_breakpoints c.breakpoints d
        else if is_resume c.cmd
        then resume_command c d
        else if c.cmd == "evaluate"
        then evaluate c d
        else only_events d (answer d (unknown_command c.cmd))
  ]

  -- The body of the loop of `Serve`: a line without its spaces, if anything is left.
  unfoldable pub serve_line : String → Debugger → Handled
  unfolding handle
  serve_line line d =
      let text = go.trim_space line in if text == "" then only_events d [] else handle text d
