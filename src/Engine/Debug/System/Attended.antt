-- ===== src/Engine/Debug/System/Attended.antt =====
-- In every reachable state the debugger's pause is that of the call that holds the queue, and once
-- the control channel is closed, that call has a command or is about to get one.
use markov.Prelude.{
  ℕ, String, true, Option, none, some, ◌≡◌, refl, ◌∙◌, subst, ◌⊎◌, inl, inr, arith, Bool-cases,
  nat_eq,
}
use markov.Value.{Vars}
use markov.Failure.{Result, Result-cases}
use markov.Workflow.{WorkflowFile}
use markov.Engine.Env.{Go, Template}
use markov.Engine.Debug.Places.{DebugPoint}
use markov.Engine.Debug.Core.{Command, Paused, Debugger}
use markov.Engine.Debug.Asking.{match_point}
use markov.Engine.Debug.Control.{
  abort_command, apply_running, dispatch_command, close_control, set_breakpoints, evaluate,
  resume_command, handle, serve_line,
}
use markov.Engine.Debug.Pausing.{enter_pause, settle_pause, leave_pause, arrive}
use markov.Engine.Debug.System.{
  Stage, announcing, waiting, woken, reporting, Holder, DebugState, fresh_state, deliver_to,
  Progress, External, Runs, here, works, other, declined, entered, announces, receives, gives_up,
  settles, reports, delivers, arrives, commands, closes, cancels,
}

-- Neither a question nor a command changes whose pause it is, or closes the channel.
pub record SamePause (d e : Debugger) : Type 0 where
  pub paused : e.paused ≡ d.paused
  pub closed : e.closed ≡ d.closed

match_point-SamePause :
    (quote : String → String) (tmpl : Template) (p : DebugPoint) (vars : Vars) (d : Debugger)
    → SamePause d (match_point quote tmpl p vars d).2
unfolding match_point
match_point-SamePause quote tmpl p vars d = ground arith

apply_running-SamePause : (c : Command) (d : Debugger) → SamePause d (apply_running c d)
unfolding apply_running
apply_running-SamePause c d = ground arith

dispatch_command-SamePause :
    (c : Command) (d : Debugger) → SamePause d (dispatch_command c d).debugger
unfolding dispatch_command
dispatch_command-SamePause c d = ground (arith, apply_running-SamePause c d)

arrive-SamePause :
    (quote : String → String) (tmpl : Template) (p : DebugPoint) (vars : Vars)
    (output : Option Vars) (d : Debugger)
    → SamePause d (arrive quote tmpl p vars output d).2
unfolding arrive
arrive-SamePause quote tmpl p vars output d = match_point-SamePause quote tmpl p vars d

module _ (go : Go) (tmpl : Template) (file : WorkflowFile) (parse : String → Result Command) where
  resume_command-SamePause :
      (c : Command) (d : Debugger) → SamePause d (resume_command go tmpl file parse c d).debugger
  unfolding resume_command
  resume_command-SamePause c d = ground (arith, dispatch_command-SamePause c d)

  handle-SamePause :
      (line : String) (d : Debugger) → SamePause d (handle go tmpl file parse line d).debugger
  unfolding handle set_breakpoints evaluate
  handle-SamePause line d = elim (Result-cases (parse line)) [
    | inl (c, e) ↦ rw (e, handle) (ground (arith, resume_command-SamePause c d))
    | inr (e, h) ↦ rw (h, handle) (ground arith)
  ]

  serve_line-SamePause :
      (line : String) (d : Debugger) → SamePause d (serve_line go tmpl file parse line d).debugger
  unfolding serve_line
  serve_line-SamePause line d = ground (arith, handle-SamePause (go.trim_space line) d)

-- The debugger's pause, by where the call stands that holds the queue.
abbrev owned : Stage → Paused → Option Paused
owned (reporting c) p = none
owned announcing p = some p
owned waiting p = some p
owned (woken c) p = some p

abbrev pause_of : Option Holder → Option Paused
pause_of none = none
pause_of (some h) = owned h.stage h.pause

-- A call that is not woken yet has a command in its channel, or `Serve` is about to abort it.
abbrev pub Called : Stage → Holder → Option (ℕ × Command) → Type 0
Called announcing h sending =
    ((c : Command) × (h.channel ≡ some c)) ⊎ (sending ≡ some (h.pause.ticket, abort_command))
Called waiting h sending =
    ((c : Command) × (h.channel ≡ some c)) ⊎ (sending ≡ some (h.pause.ticket, abort_command))
Called (woken c) h sending = Unit
Called (reporting c) h sending = Unit

abbrev pub AllCalled : Option Holder → Option (ℕ × Command) → Type 0
AllCalled none sending = Unit
AllCalled (some h) sending = Called h.stage h sending

pub record IsAttended (s : DebugState) : Type 0 where
  pub owned : s.debugger.paused ≡ pause_of s.holder
  pub called : s.debugger.closed ≡ true → AllCalled s.holder s.sending

pause_of-deliver_to :
    (t : ℕ) (c : Command) (holder : Option Holder)
    → pause_of holder ≡ pause_of (deliver_to t c holder)
pause_of-deliver_to t c none = refl
pause_of-deliver_to t c (some h) = ground arith

deliver_to-AllCalled :
    (t : ℕ) (c : Command) (holder : Option Holder)
    → AllCalled holder (some (t, c))
    → AllCalled (deliver_to t c holder) none
deliver_to-AllCalled t c none called = called
deliver_to-AllCalled t c (some h) called = elim (Bool-cases (nat_eq h.pause.ticket t)) [
  | inl same ↦ rw same (ground arith)
  | inr stale ↦ rw stale (ground arith)
]

close_control-AllCalled :
    (d : Debugger) (holder : Option Holder)
    → d.paused ≡ pause_of holder
    → AllCalled holder (close_control d).1
unfolding close_control
close_control-AllCalled d none e = tt
close_control-AllCalled d (some h) e = ground arith

module _ (go : Go) (encode : Vars → Result String) (tmpl : Template) (file : WorkflowFile)
    (parse : String → Result Command) where
  Progress-IsAttended :
      {s t : DebugState} → Progress go encode tmpl file parse s t → IsAttended s → IsAttended t
  unfolding enter_pause settle_pause leave_pause
  Progress-IsAttended (declined r before after free q e) inv = ground arith
  Progress-IsAttended (entered r before after p d free q e) inv = ground arith
  Progress-IsAttended (announces h e st) inv = ground arith
  Progress-IsAttended (receives h c e st got) inv = ground arith
  Progress-IsAttended (gives_up h e st k) inv = ground arith
  Progress-IsAttended (settles h c e st) inv = ground arith
  Progress-IsAttended (reports h c e st) inv = ground arith
  Progress-IsAttended {s} (delivers t c e) inv = record {
    owned = inv.owned ∙ pause_of-deliver_to t c s.holder;
    called = λ k. deliver_to-AllCalled t c s.holder (subst (AllCalled s.holder) e (inv.called k));
  }

  External-IsAttended :
      {s t : DebugState} → External go encode tmpl file parse s t → IsAttended s → IsAttended t
  unfolding close_control
  External-IsAttended {s} (arrives p vars output) inv =
      ground (arith, arrive-SamePause go.quote tmpl p vars output s.debugger)
  External-IsAttended {s} (commands line still idle) inv =
      ground (arith, serve_line-SamePause go tmpl file parse line s.debugger)
  External-IsAttended {s} (closes still idle) inv = record {
    owned = inv.owned;
    called = λ k. close_control-AllCalled s.debugger s.holder inv.owned;
  }
  External-IsAttended cancels inv = ground arith

  pub Runs-IsAttended :
      {s t : DebugState} {n : ℕ}
      → Runs go encode tmpl file parse s n t
      → IsAttended s
      → IsAttended t
  Runs-IsAttended here inv = inv
  Runs-IsAttended (works run st) inv = Progress-IsAttended st (Runs-IsAttended run inv)
  Runs-IsAttended (other run st) inv = External-IsAttended st (Runs-IsAttended run inv)

pub fresh_state-IsAttended : (d : Debugger) → d.paused ≡ none → IsAttended (fresh_state d)
fresh_state-IsAttended d none_yet = record { owned = none_yet; called = λ k. tt }
