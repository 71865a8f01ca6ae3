-- ===== src/Engine/Framed/Workflows.antt =====
-- Whole workflows, at every depth.
use markov.Prelude.{ℕ, zero, suc, String, List, [], ◌∷◌, Bool, false}
use markov.Failure.{Result, ok, err, Error}
use markov.Workflow.{Step, Workflow}
use markov.State.{StepResult}
use markov.Engine.Env.{Env}
use markov.Engine.World.{World, Exec, Done}
use markov.Engine.Keeps.{Frame, Keeps, keeps_rules}
use markov.Engine.Records.{Section}
use markov.Engine.StepTypes.{Place}
use markov.Engine.Step.{
  replay, check_when, skip, announced, typed_step, run_step, guarded_step, step_core, single_step,
  execute_step_core,
}
use markov.Engine.Lifecycle.{
  place, execute_steps, execute_terminal_steps, raise_joined, close_sections, run_sections,
  execute_workflow,
}
use markov.Engine.Framed.Steps.{save-Keeps, fail_step-Keeps, eval_decision_bool-Keeps}
use markov.Engine.Framed.Typed.{
  set_fact_step-Keeps, assert_step-Keeps, gate_step-Keeps, load_artifact_step-Keeps,
  executor_step-Keeps,
}
use markov.Engine.Framed.Nested.{execute_sub_workflow-Keeps, execute_for_each-Keeps}

module _ {R : World → World → Type 0} (frame : Frame R) (env : Env) where
  replay-Keeps : (step : Step) (row : StepResult) → Keeps R (replay env step row)
  unfolding replay
  replay-Keeps step row = search keeps_rules

  check_when-Keeps : (at : Place) (step : Step) → Keeps R (check_when env at step)
  unfolding check_when
  check_when-Keeps at step = search (keeps_rules, eval_decision_bool-Keeps, fail_step-Keeps) depth 8

  skip-Keeps : (at : Place) (step : Step) → Keeps R (skip env at step)
  unfolding skip
  skip-Keeps at step = search (keeps_rules, save-Keeps)

  announced-Keeps :
      (at : Place) (step : Step) (kind : String) (m : Exec Done)
      → Keeps R m
      → Keeps R (announced env at step kind m)
  unfolding announced
  announced-Keeps at step kind m k = search keeps_rules depth 9

  typed_step-Keeps : (at : Place) (step : Step) → Keeps R (typed_step env at step)
  unfolding typed_step
  typed_step-Keeps at step =
      search
        (
          keeps_rules, set_fact_step-Keeps, assert_step-Keeps, gate_step-Keeps,
          load_artifact_step-Keeps, executor_step-Keeps,
        )
        depth 9

  module _ (call : String → Workflow → Exec Done)
      (call-Keeps : (run : String) (wf : Workflow) → Keeps R (call run wf)) where
    module _ (each : Place → Step → Exec Done)
        (each-Keeps : (at : Place) (step : Step) → Keeps R (each at step)) where
      run_step-Keeps : (at : Place) (step : Step) → Keeps R (run_step env call each at step)
      unfolding run_step
      run_step-Keeps at step =
          search (keeps_rules, announced-Keeps, typed_step-Keeps, execute_sub_workflow-Keeps)

      guarded_step-Keeps : (at : Place) (step : Step) → Keeps R (guarded_step env call each at step)
      unfolding guarded_step
      guarded_step-Keeps at step =
          search (keeps_rules, check_when-Keeps, run_step-Keeps, skip-Keeps)

      step_core-Keeps :
          (at : Place) (step : Step) (force : Bool)
          → Keeps R (step_core env call each at step force)
      unfolding step_core
      step_core-Keeps at step force = search (keeps_rules, replay-Keeps, guarded_step-Keeps)

    single_step-Keeps : (at : Place) (step : Step) → Keeps R (single_step env call at step)
    unfolding single_step
    single_step-Keeps at step = step_core-Keeps (λ _ _. _) (λ _ _. search keeps_rules) at step false

    pub execute_step_core-Keeps :
        (at : Place) (step : Step) (force : Bool)
        → Keeps R (execute_step_core env call at step force)
    unfolding execute_step_core
    execute_step_core-Keeps at step force =
        step_core-Keeps _
          (λ at' step'.
            execute_for_each-Keeps frame env call call-Keeps _
              (λ item name. single_step-Keeps (record at' { state_name = name }) item) at'.run
              step')
          at step force

  module _ (quote : String → String) (step_at : String → Step → Bool → Exec Done)
      (step_at-Keeps : (name : String) (step : Step) (force : Bool)
        → Keeps R (step_at name step force)) where
    execute_steps-Keeps : (steps : List Step) → Keeps R (execute_steps quote step_at steps)
    unfolding execute_steps
    execute_steps-Keeps [] = search keeps_rules
    execute_steps-Keeps (step ∷ steps) =
        search (keeps_rules, step_at-Keeps, λ (d : Done). execute_steps-Keeps steps)

    execute_terminal_steps-Keeps :
        (sec : Section) (steps : List Step)
        → Keeps R (execute_terminal_steps quote step_at sec steps)
    unfolding execute_terminal_steps
    execute_terminal_steps-Keeps sec [] = search keeps_rules
    execute_terminal_steps-Keeps sec (step ∷ steps) =
        search (keeps_rules, step_at-Keeps, λ (d : Done). execute_terminal_steps-Keeps sec steps)

    raise_joined-Keeps : (es : List Error) → Keeps R (raise_joined quote step_at es)
    unfolding raise_joined
    raise_joined-Keeps [] = search keeps_rules
    raise_joined-Keeps (e ∷ es) = search keeps_rules

    close_sections-Keeps :
        (wf : Workflow) (r : Result Done) → Keeps R (close_sections quote step_at wf r)
    unfolding close_sections
    close_sections-Keeps wf (ok d) =
        search (keeps_rules, execute_terminal_steps-Keeps, raise_joined-Keeps)
    close_sections-Keeps wf (err e) =
        search (keeps_rules, execute_terminal_steps-Keeps, raise_joined-Keeps) depth 8

    pub run_sections-Keeps : (wf : Workflow) → Keeps R (run_sections quote step_at wf)
    unfolding run_sections
    run_sections-Keeps wf = search (keeps_rules, execute_steps-Keeps, close_sections-Keeps)

  -- What every primitive change keeps, every execution of a workflow keeps.
  pub execute_workflow-Keeps :
      (depth : ℕ) (run : String) (wf : Workflow) → Keeps R (execute_workflow env depth run wf)
  unfolding execute_workflow
  execute_workflow-Keeps zero run wf = search keeps_rules
  execute_workflow-Keeps (suc depth) run wf =
      run_sections-Keeps env.go.quote
        (λ name step force.
          execute_step_core env (execute_workflow env depth) (place run wf.name name) step force)
        (λ name step force.
          execute_step_core-Keeps (execute_workflow env depth) (execute_workflow-Keeps depth)
            (place run wf.name name) step force)
        wf
