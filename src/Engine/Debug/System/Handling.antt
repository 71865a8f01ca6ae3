-- ===== src/Engine/Debug/System/Handling.antt =====
-- The commands of the debugger leave it with breakpoints that can fire.
use markov.Prelude.{
  String, true, ◌≡◌, refl, sym, ap, ◌∙◌, inl, inr, arith, Bool-cases, Option-cases, ◌==◌,
}
use markov.Failure.{Result, Result-cases}
use markov.Workflow.{WorkflowFile, get_workflow}
use markov.Engine.Env.{Go, Template}
use markov.Engine.Debug.Points.{Breakpoint, point_at, has_name, section_list, resolve_breakpoint}
use markov.Engine.Debug.Points.Known.{IsKnown, resolve_breakpoint-ok}
use markov.Engine.Debug.Core.{Command, Debugger}
use markov.Engine.Debug.Control.{
  Handled, until_point, or_steps, dispatch_command, close_control, set_breakpoints, evaluate,
  resume_command, handle, serve_line,
}
use markov.Engine.Debug.System.Held.{
  Maybe, IsArmed, Carries, sort_breakpoints-Known, apply_running-IsArmed,
}

module _ (file : WorkflowFile) where
  -- What a command leaves to be sent, and the debugger.
  pub record Handles (out : Handled) : Type 0 where
    pub debugger : IsArmed file out.debugger
    pub sending : Maybe (Carries file) out.send

  dispatch_command-Handles :
      (c : Command) (d : Debugger)
      → ((c.cmd == "until") ≡ true → IsKnown file (until_point c (or_steps c.section)))
      → IsArmed file d
      → Handles (dispatch_command c d)
  unfolding dispatch_command
  dispatch_command-Handles c d known a = elim (Option-cases d.paused) [
    | inl running ↦
        rw (running, dispatch_command)
          (record { debugger = apply_running-IsArmed file c d known a; sending = tt })
    | inr (p, held) ↦ rw (held, dispatch_command) (record { debugger = a; sending = known })
  ]

  pub close_control-Handles :
      (d : Debugger)
      → IsArmed file d
      → IsArmed file (close_control d).0 × Maybe (Carries file) (close_control d).1
  unfolding close_control
  close_control-Handles d a = (
    record { bps = tt; until = tt },
    elim (Option-cases d.paused) [
      | inl running ↦ rw (running, close_control) tt
      | inr (p, held) ↦ rw (held, close_control) (λ h. cc)
    ],
  )

  module _ (go : Go) (tmpl : Template) (parse : String → Result Command) where
    resume_command-Handles :
        (c : Command) (d : Debugger)
        → IsArmed file d
        → Handles (resume_command go tmpl file parse c d)
    unfolding resume_command
    resume_command-Handles c d a = elim (Bool-cases (c.cmd == "until")) [
      | inr is_other ↦ rw (is_other, resume_command) (dispatch_command-Handles c d (λ h. cc) a)
      | inl is_until ↦
          elim (Result-cases
            (resolve_breakpoint go.quote file (point_at c.workflow c.step c.section))) [
              | inr (e, h) ↦
                  rw (is_until, h, resume_command) (record { debugger = a; sending = tt })
              | inl (b, h) ↦
                  let k =
                    resolve_breakpoint-ok go.quote file (point_at c.workflow c.step c.section) b
                      h in
                  rw (is_until, h, resume_command)
                    (dispatch_command-Handles c d (λ _. until_point-IsKnown c b k) a)
            ]
    ]
      where
        until_point-IsKnown :
            (c : Command) (b : Breakpoint)
            → IsKnown file b
              × (b.workflow ≡ c.workflow)
              × (b.step ≡ c.step)
              × (b.section ≡ or_steps c.section)
            → IsKnown file (until_point c (or_steps c.section))
        until_point-IsKnown c b (k, w, s, sec) = record {
          section = ground arith;
          phase = inl refl;
          step = record {
            wf = k.step.wf;
            found = ap (get_workflow file) (sym w) ∙ k.step.found;
            named = (λ i. has_name (sym s i) (section_list k.step.wf (sym sec i))) ∙ k.step.named;
          };
        }

    handle-Handles :
        (text : String) (d : Debugger) → IsArmed file d → Handles (handle go tmpl file parse text d)
    unfolding handle set_breakpoints evaluate
    handle-Handles text d a = elim (Result-cases (parse text)) [
      | inr (e, h) ↦ rw (h, handle) (record { debugger = a; sending = tt })
      | inl (c, h) ↦
          rw (h, handle)
            (ground (
              arith,
              sort_breakpoints-Known file go.quote c.breakpoints,
              resume_command-Handles c d a,
            ))
    ]

    pub serve_line-Handles :
        (line : String) (d : Debugger)
        → IsArmed file d
        → Handles (serve_line go tmpl file parse line d)
    unfolding serve_line
    serve_line-Handles line d a = elim (Bool-cases (go.trim_space line == "")) [
      | inl blank ↦ rw (blank, serve_line) (record { debugger = a; sending = tt })
      | inr text ↦ rw (text, serve_line) (handle-Handles (go.trim_space line) d a)
    ]
