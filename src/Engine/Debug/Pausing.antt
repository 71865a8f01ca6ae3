-- ===== src/Engine/Debug/Pausing.antt =====
-- `pause` and `debugPause`: what a step does at a boundary, one critical section at a time.
use markov.Prelude.{
  ◌+◌, String, Bool, true, false, ◌&&◌, not, Option, none, some, List, [], ◌∷◌, ◌++◌, merge,
  if◌then◌else◌, ◌==◌, ltb, ℕ,
}
use markov.Value.{Vars, str, object}
use markov.Failure.{Result}
use markov.Workflow.{Step}
use markov.State.{StepResult, StepStatus}
use markov.Engine.Env.{Go, Template}
use markov.Engine.Debug.Places.{DebugPoint, split_state_name}
use markov.Engine.Debug.Core.{
  Command, Paused, Debugger, DebugEvent, Activity, logpoint, resumed, emit_event,
}
use markov.Engine.Debug.Asking.{match_point, snapshot_vars}
use markov.Engine.Debug.Control.{until_point}

-- The arguments of a call of `pause`.
pub record Request : Type 0 where
  pub point : DebugPoint
  pub vars : Vars
  pub output : Option Vars
  pub reason : String
  pub extra : Vars

-- What a call of `debugPause` returns.
pub data PauseOutcome : Type 0 where
  carries_on : PauseOutcome  -- nil
  terminated : PauseOutcome  -- errTerminated
  aborted : PauseOutcome  -- the control channel closed
  context_done : PauseOutcome  -- ctx.Err()

-- The first critical section of `pause`: the call returns at once where the channel is closed, or
-- where a `continue` has ended the stepping that asked for it; else this pause is the debugger's.
unfoldable pub enter_pause : Request → Debugger → Option (Paused × Debugger)
enter_pause r d =
    let p : Paused = record { ticket = d.tickets; vars = r.vars } in
    if d.closed
    then none
    else if r.reason == "step" && not d.step_mode
    then none
    else some (p, record d { paused = some p; step_mode = false; tickets = d.tickets + 1 })

-- The second one, with the command that arrived.
unfoldable pub settle_pause : Command → Debugger → Debugger
settle_pause c d =
    let d' = record d { paused = none } in
    if c.cmd == "continue"
    then record d' { step_mode = false }
    else if c.cmd == "step"
    then record d' { step_mode = true }
    else if c.cmd == "until"
    then record d' { until = some (until_point c c.section); step_mode = false }
    else d'

-- The one of a call whose context is done.
unfoldable pub leave_pause : Debugger → Debugger
leave_pause d = record d { paused = none }

unfoldable pub outcome_of : Command → PauseOutcome
outcome_of c =
    if c.cmd == "terminate" then terminated else if c.cmd == "__abort" then aborted else carries_on

abbrev pub at_place : Debugger → DebugPoint → Activity → List DebugEvent
at_place d p activity = emit_event d p.run_id p.workflow p.step activity

-- the event after the command; an abort has none
unfoldable pub resumed_events : Command → DebugPoint → Debugger → List DebugEvent
unfolding emit_event
resumed_events c p d = if c.cmd == "__abort" then [] else at_place d p (resumed c.cmd)

module _ (go : Go) (encode : Vars → Result String) where
  -- the data of the `paused` event
  unfoldable pub pause_data : Request → Vars
  unfolding snapshot_vars
  pause_data r =
      let base =
        ("reason", str r.reason)
        ∷ ("phase", str r.point.phase)
        ∷ ("section", str r.point.section)
        ∷ ("iteration", str r.point.iteration)
        ∷ ("step_type", str r.point.step_type)
        ∷ ("variables", snapshot_vars go encode r.vars)
        ∷ [] in
      merge (elim r.output [ none ↦ base | some out ↦ base ++ ("output", object out) ∷ [] ]) r.extra

-- The place of a step, from its state name.
unfoldable pub place_of : String → String → Step → String → String → DebugPoint
unfolding split_state_name
place_of run workflow step state_name phase =
    let (section, iteration) = split_state_name state_name step.name in
    record {
      run_id = run;
      workflow = workflow;
      step = step.name;
      step_type = step.type;
      section = section;
      iteration = iteration;
      phase = phase;
    }

abbrev log_events : Debugger → DebugPoint → List Vars → List DebugEvent
log_events d p [] = []
log_events d p (l ∷ ls) = at_place d p (logpoint l) ++ log_events d p ls

module _ (quote : String → String) (tmpl : Template) where
  -- `debugPause` up to the call of `pause`: that call's arguments, if there is one, and the events
  -- of the logpoints
  unfoldable pub arrive :
      DebugPoint → Vars → Option Vars → Debugger → Option Request × List DebugEvent × Debugger
  unfolding match_point emit_event
  arrive p vars output d =
      let (verdict, logs, d') = match_point quote tmpl p vars d in
      (
        elim verdict [
          | none ↦ none
          | some (reason, extra) ↦
              some
                (record { point = p; vars = vars; output = output; reason = reason; extra = extra })
        ],
        log_events d' p logs,
        d',
      )

abbrev has_completed : StepStatus → Bool
has_completed StepStatus.completed = true
has_completed _ = false

-- `!after.CompletedAt.After(*before.CompletedAt)`, where both are there
abbrev not_later : Option ℕ → Option ℕ → Bool
not_later (some b) (some a) = not (ltb b a)
not_later (some b) none = false
not_later none a = false

abbrev was_completed : Option StepResult → StepResult → Bool
was_completed none a = false
was_completed (some b) a = has_completed b.status && not_later b.completed_at a.completed_at

-- The test of `executeStepWithOptions`: the call completed the step, by the records before and
-- after it, so a breakpoint after the step is asked for.
unfoldable pub completed_now : Option StepResult → Option StepResult → Bool
completed_now before none = false
completed_now before (some a) = has_completed a.status && not (was_completed before a)
