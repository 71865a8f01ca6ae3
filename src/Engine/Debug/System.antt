-- ===== src/Engine/Debug/System.antt =====
-- The debugger, the steps that call `pause` and the goroutine of `Serve`, interleaved: a transition
-- for each critical section, each hand-over on a channel and each event.
pub mod Attended
pub mod Drains
pub mod Held
pub mod Handling
pub mod Armed
use markov.Prelude.{
  ℕ, suc, String, Bool, true, false, ◌&&◌, Option, none, some, List, [], ◌∷◌, ◌++◌, ◌≡◌, ◌||◌,
  if◌then◌else◌, nat_eq,
}
use markov.Value.{Vars}
use markov.Failure.{Result}
use markov.Workflow.{WorkflowFile}
use markov.Engine.Env.{Go, Template}
use markov.Engine.Debug.Places.{DebugPoint}
use markov.Engine.Debug.Core.{Command, Paused, Debugger, DebugEvent, run_held}
use markov.Engine.Debug.Control.{Handled, serve_line, close_control}
use markov.Engine.Debug.Pausing.{
  Request, PauseOutcome, carries_on, context_done, enter_pause, settle_pause, leave_pause,
  outcome_of, at_place, resumed_events, pause_data, arrive,
}

-- Where the call stands that holds `queue`.
pub data Stage : Type 0 where
  announcing : Stage  -- before the `paused` event
  waiting : Stage  -- in the `select`
  woken : Command → Stage  -- the command is received
  reporting : Command → Stage  -- before the `resumed` event

-- That call, with the pause it allocated and the buffered channel of it.
pub record Holder : Type 0 where
  pub request : Request
  pub pause : Paused
  pub stage : Stage
  pub channel : Option Command

-- `queued` are the calls that wait for `queue`, `sending` is what `Serve` is about to put on a
-- channel, `cancelled` is the run's context, and `returned` the calls that have returned.
pub record DebugState : Type 0 where
  pub debugger : Debugger
  pub queued : List Request
  pub holder : Option Holder
  pub sending : Option (ℕ × Command)
  pub cancelled : Bool
  pub returned : List (Request × PauseOutcome)
  pub events : List DebugEvent

abbrev pub fresh_state : Debugger → DebugState
fresh_state d = record {
  debugger = d;
  queued = [];
  holder = none;
  sending = none;
  cancelled = false;
  returned = [];
  events = [];
}

-- a call that may be added to those that wait
abbrev pub enqueue : Option Request → List Request → List Request
enqueue none rs = rs
enqueue (some r) rs = rs ++ r ∷ []

-- `select { case p.resume <- cmd: default: }`: the channel takes one command
abbrev pub offer : Command → Option Command → Option Command
offer c none = some c
offer c (some first) = some first

-- the hand-over reaches the call only if its pause is the one that the command is for
abbrev pub deliver_to : ℕ → Command → Option Holder → Option Holder
deliver_to t c none = none
deliver_to t c (some h) =
    some (if nat_eq h.pause.ticket t then record h { channel = offer c h.channel } else h)

abbrev pub arrived : Option Request × List DebugEvent × Debugger → DebugState → DebugState
arrived (r, events, d) s = record s {
  debugger = d;
  queued = enqueue r s.queued;
  events = s.events ++ events;
}

abbrev pub handled : Handled → DebugState → DebugState
handled out s = record s {
  debugger = out.debugger;
  sending = out.send;
  cancelled = s.cancelled || out.cancel;
  events = s.events ++ out.events;
}

module _ (go : Go) (encode : Vars → Result String) (tmpl : Template) (file : WorkflowFile)
    (parse : String → Result Command) where
  -- What the goroutines do by themselves.
  pub data Progress (s : DebugState) : DebugState → Type 0 where
    -- a call has the queue, and returns at once
    declined :
        (r : Request) (before after : List Request)
        → s.holder ≡ none
        → s.queued ≡ before ++ r ∷ after
        → enter_pause r s.debugger ≡ none
        → Progress s
            (record s { queued = before ++ after; returned = s.returned ++ (r, carries_on) ∷ [] })
    -- a call has the queue, and the pause is its own
    entered :
        (r : Request) (before after : List Request) (p : Paused) (d : Debugger)
        → s.holder ≡ none
        → s.queued ≡ before ++ r ∷ after
        → enter_pause r s.debugger ≡ some (p, d)
        → Progress s (record s {
          queued = before ++ after;
          debugger = d;
          holder = some (record { request = r; pause = p; stage = announcing; channel = none });
        })
    announces :
        (h : Holder)
        → s.holder ≡ some h
        → h.stage ≡ announcing
        → Progress s (record s {
          holder = some (record h { stage = waiting });
          events =
              s.events
              ++ at_place s.debugger h.request.point (run_held (pause_data go encode h.request));
        })
    receives :
        (h : Holder) (c : Command)
        → s.holder ≡ some h
        → h.stage ≡ waiting
        → h.channel ≡ some c
        → Progress s (record s { holder = some (record h { stage = woken c; channel = none }) })
    gives_up :
        (h : Holder)
        → s.holder ≡ some h
        → h.stage ≡ waiting
        → s.cancelled ≡ true
        → Progress s (record s {
          holder = none;
          debugger = leave_pause s.debugger;
          returned = s.returned ++ (h.request, context_done) ∷ [];
        })
    settles :
        (h : Holder) (c : Command)
        → s.holder ≡ some h
        → h.stage ≡ woken c
        → Progress s (record s {
          holder = some (record h { stage = reporting c });
          debugger = settle_pause c s.debugger;
        })
    reports :
        (h : Holder) (c : Command)
        → s.holder ≡ some h
        → h.stage ≡ reporting c
        → Progress s (record s {
          holder = none;
          returned = s.returned ++ (h.request, outcome_of c) ∷ [];
          events = s.events ++ resumed_events c h.request.point s.debugger;
        })
    delivers :
        (t : ℕ) (c : Command)
        → s.sending ≡ some (t, c)
        → Progress s (record s { sending = none; holder = deliver_to t c s.holder })

  -- What the run and the user do.
  pub data External (s : DebugState) : DebugState → Type 0 where
    -- a step comes to a boundary
    arrives :
        (p : DebugPoint) (vars : Vars) (output : Option Vars)
        → External s (arrived (arrive go.quote tmpl p vars output s.debugger) s)
    -- `Serve` reads a line
    commands :
        (line : String)
        → s.debugger.closed ≡ false
        → s.sending ≡ none
        → External s (handled (serve_line go tmpl file parse line s.debugger) s)
    -- the reader is at its end
    closes :
        s.debugger.closed ≡ false
        → s.sending ≡ none
        → External s (record s {
          debugger = (close_control s.debugger).0;
          sending = (close_control s.debugger).1;
        })
    -- the run's context is cancelled from outside
    cancels : External s (record s { cancelled = true })

  -- A run of the system, with the number of its own steps.
  pub data Runs (s : DebugState) : ℕ → DebugState → Type 0 where
    here : Runs s 0 s
    works : {n : ℕ} {t u : DebugState} → Runs s n t → Progress t u → Runs s (suc n) u
    other : {n : ℕ} {t u : DebugState} → Runs s n t → External t u → Runs s n u
