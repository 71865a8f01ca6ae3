-- ===== src/Engine/Debug/Core.antt =====
-- The debugger's own state, the commands it takes and the events it reports.
use markov.Prelude.{ℕ, String, Bool, false, Option, none, List, [], ◌∷◌, if◌then◌else◌, ◌==◌}
use markov.Value.{Vars}
use markov.Failure.{Error, Result}
use markov.Engine.Debug.Points.{Breakpoint}

-- `DebugCommand`
pub record Command : Type 0 where
  pub cmd : String
  pub breakpoints : List Breakpoint
  pub workflow : String
  pub step : String
  pub section : String
  pub iteration : String
  pub id : String
  pub expression : String

-- `pausedState`. The ticket says which allocation it is, so that a pointer to a pause that has
-- ended differs from one to the next pause; its channel belongs to the step that waits.
pub record Paused : Type 0 where
  pub ticket : ℕ
  pub vars : Vars

-- `Debugger`. `attached` and `can_cancel` say whether `engine` and `cancel` are set; `tickets`
-- counts the pauses that were allocated.
pub record Debugger : Type 0 where
  pub bps : List Breakpoint
  pub step_mode : Bool
  pub until : Option Breakpoint
  pub paused : Option Paused
  pub closed : Bool
  pub run_id : String
  pub attached : Bool
  pub can_cancel : Bool
  pub tickets : ℕ

-- `NewDebugger`, attached to an engine by `SetDebugger`
abbrev pub new_debugger : Debugger
new_debugger = record {
  bps = [];
  step_mode = false;
  until = none;
  paused = none;
  closed = false;
  run_id = "";
  attached = Bool.true;
  can_cancel = false;
  tickets = 0;
}

-- The kinds of `DebugEvent`, with their data.
pub data Activity : Type 0 where
  run_held : Vars → Activity  -- "paused"
  logpoint : Vars → Activity
  resumed : String → Activity
  breakpoints_set : List Breakpoint → List (Breakpoint × Error) → Activity
  evaluated : String → String → Result String → Activity
  invalid_command : String → String → Activity  -- "error", with the line
  refused_command : Error → String → Activity  -- "error", with the command
  unknown_command : String → Activity  -- "error"

pub record DebugEvent : Type 0 where
  pub run_id : String
  pub workflow : String
  pub step : String
  pub activity : Activity

-- `emit`: nothing without an engine, and a run's id where none is given
unfoldable pub emit_event : Debugger → String → String → String → Activity → List DebugEvent
emit_event d run workflow step activity =
    if d.attached
    then record {
      run_id = if run == "" then d.run_id else run;
      workflow = workflow;
      step = step;
      activity = activity;
    }
      ∷ []
    else []

-- an event that concerns no step
abbrev pub answer : Debugger → Activity → List DebugEvent
answer d activity = emit_event d "" "" "" activity

-- `noteRun`
unfoldable pub note_run : String → Debugger → Debugger
note_run run d = record d { run_id = run }

-- `SetStepMode`
unfoldable pub set_step_mode : Bool → Debugger → Debugger
set_step_mode on d = record d { step_mode = on }

-- `SetCancel`
unfoldable pub set_cancel : Debugger → Debugger
set_cancel d = record d { can_cancel = Bool.true }
