-- ===== src/Engine/Lifecycle.antt =====
-- `executeWorkflow`, `executeSteps` and `executeTerminalSteps` of engine.go.
pub mod Sections
use markov.Prelude.{
  ℕ, zero, suc, String, Bool, true, false, List, [], ◌∷◌, ◌++◌, concat, if◌then◌else◌, none, some,
}
use markov.Failure.{Error, message, wrap, too_deep, is_paused, join_errors, Result, ok, err}
use markov.Workflow.{Step, Workflow}
use markov.Engine.Env.{Env}
use markov.Engine.World.{Exec, Done, pure, raise, attempt, ◌>>=◌}
use markov.Engine.Records.{Section, rescue_section, always_section, section_name}
use markov.Engine.StepTypes.{Place}
use markov.Engine.Step.{execute_step_core}

abbrev pub place : String → String → String → Place
place run workflow name = record { run = run; workflow = workflow; state_name = name }

-- the state name of a handler
abbrev pub handler_name : Section → Step → String
handler_name sec step = concat (section_name sec ∷ "/" ∷ step.name ∷ [])

-- The order of the steps of a workflow, for any way to run one step.
module _ (quote : String → String) (step_at : String → Step → Bool → Exec Done) where
  abbrev pub step_error : Step → Error → Error
  step_error step e = wrap (concat ("step " ∷ quote step.name ∷ [])) e

  -- `executeSteps`: the first error ends it
  unfoldable pub execute_steps : List Step → Exec Done
  execute_steps [] = pure tt
  execute_steps (step ∷ steps) = do
    r ← attempt (step_at step.name step false)
    elim r [ ok _ ↦ execute_steps steps | err e ↦ raise (step_error step e) ]

  -- a handler's error; a pause is not passed on as one
  abbrev pub handler_error : Section → Step → Error → Error
  handler_error sec step e =
      let which = concat (section_name sec ∷ " step " ∷ quote step.name ∷ []) in
      if is_paused e then message (concat (which ∷ " may not pause" ∷ [])) else wrap which e

  abbrev pub errors_of : Section → Step → Result Done → List Error
  errors_of sec step (ok _) = []
  errors_of sec step (err e) = handler_error sec step e ∷ []

  -- `executeTerminalSteps`: every handler runs, and the errors are collected
  unfoldable pub execute_terminal_steps : Section → List Step → Exec (List Error)
  execute_terminal_steps sec [] = pure []
  execute_terminal_steps sec (step ∷ steps) = do
    r ← attempt (step_at (handler_name sec step) step true)
    rest ← execute_terminal_steps sec steps
    pure (errors_of sec step r ++ rest)

  unfoldable pub raise_joined : List Error → Exec Done
  unfolding join_errors
  raise_joined es = elim (join_errors es) [ none ↦ pure tt | some e ↦ raise e ]

  -- what follows the steps: a pause ends the workflow at once, and else the handlers run
  unfoldable pub close_sections : Workflow → Result Done → Exec Done
  unfolding execute_terminal_steps raise_joined
  close_sections wf (ok _) = execute_terminal_steps always_section wf.always >>= raise_joined
  close_sections wf (err e) = if is_paused e then raise e else (do
    rescued ← execute_terminal_steps rescue_section wf.rescue
    closed ← execute_terminal_steps always_section wf.always
    raise_joined (e ∷ rescued ++ closed))

  -- `executeWorkflow`
  unfoldable pub run_sections : Workflow → Exec Done
  unfolding execute_steps close_sections
  run_sections wf = do r ← attempt (execute_steps wf.steps); close_sections wf r

module _ (env : Env) where
  -- A workflow may call itself; `depth` bounds the nesting that the model follows.
  unfoldable pub execute_workflow : ℕ → String → Workflow → Exec Done
  unfolding run_sections
  execute_workflow zero run wf = raise too_deep
  execute_workflow (suc depth) run wf =
      run_sections env.go.quote
        (λ name step force.
          execute_step_core env (execute_workflow depth) (place run wf.name name) step force)
        wf
