-- ===== src/Engine/Step.antt =====
-- `executeStepCore` of engine.go: a step from its record to its end. No debugger is attached, so
-- `executeStepWithOptions` is this function.
pub mod Replay
use markov.Prelude.{
  ℕ, String, Bool, true, false, not, ◌&&◌, Option, none, some, [], ◌∷◌, insert, merge, concat,
  lookup, if◌then◌else◌, ◌==◌,
}
use markov.Value.{Vars, map_value, as_map}
use markov.Failure.{wrap, is_paused, ok, err}
use markov.Workflow.{Step, Workflow, resolve_step_type}
use markov.State.{StepResult, StepStatus, get_step}
use markov.Engine.Env.{Env}
use markov.Engine.World.{
  step_started, step_completed, step_failed, step_skipped, Exec, Done, pure, raise, gets, attempt,
  now, fire, modify_vars, ◌>>=◌, ◌>>◌,
}
use markov.Engine.Context.{decode_state}
use markov.Engine.Decision.{eval_decision_bool, is_completed}
use markov.Engine.Records.{save, fail_step, text_of}
use markov.Engine.StepTypes.{Place, set_fact_step, assert_step, gate_step, load_artifact_step}
use markov.Engine.Execute.{executor_step}
use markov.Engine.SubWorkflow.{execute_sub_workflow}
use markov.Engine.ForEach.{execute_for_each}

abbrev pub facts_in : Vars → Option Vars
facts_in output = elim (lookup "facts" output) [ none ↦ none | some v ↦ as_map v ]

abbrev pub merge_some : Vars → Option Vars → Vars
merge_some ctx none = ctx
merge_some ctx (some m) = merge ctx m

-- What the record of a completed step puts back into the context.
unfoldable pub replayed : Step → Option Vars → Vars → Vars
replayed step output ctx =
    if step.type == "set_fact"
    then merge_some ctx output
    else if step.type == "gate"
    then merge_some ctx (elim output [ none ↦ none | some m ↦ facts_in m ])
    else if step.register == ""
    then ctx
    else insert step.register (map_value output) ctx

module _ (env : Env) where
  open env use {go, file}

  unfoldable pub replay : Step → StepResult → Exec Done
  unfolding replayed
  replay step row =
      if row.output_json == ""
      then pure tt
      else modify_vars (replayed step (decode_state go row.output_json))

  -- `when`: an error fails the step
  unfoldable pub check_when : Place → Step → Exec Bool
  check_when at step = if step.when == "" then pure true else (do
    r ← attempt (eval_decision_bool env at.run at.workflow at.state_name step.when)
    elim r [
      | ok b ↦ pure b
      | err e ↦ do
        t ← now
        fail_step env at.run at.workflow at.state_name step.type t (wrap "evaluating when" e)
    ])

  abbrev skipped_row : Place → ℕ → StepResult
  skipped_row at t = record {
    run_id = at.run;
    workflow_name = at.workflow;
    step_name = at.state_name;
    status = StepStatus.skipped;
    output_json = "";
    artifacts_json = "";
    error = "";
    started_at = some t;
    completed_at = some t;
    definition_hash = "";
  }

  unfoldable pub skip : Place → Step → Exec Done
  skip at step = do
    t ← now
    save env (skipped_row at t)
    fire (
        step_skipped at.run at.workflow step.name
          (concat ("when condition " ∷ go.quote step.when ∷ " evaluated to false" ∷ [])))

  -- The events round a for_each or a sub-workflow: a pause is neither a failure nor an end.
  unfoldable pub announced : Place → Step → String → Exec Done → Exec Done
  announced at step kind m = do
    now
    fire (step_started at.run at.workflow step.name step.type kind none)
    r ← attempt m
    now
    elim r [
      | ok _ ↦ fire (step_completed at.run at.workflow step.name step.type none)
      | err e ↦ if is_paused e then raise e else (do
        fire (step_failed at.run at.workflow step.name step.type (text_of env e))
        raise e)
    ]

  -- the type of a step decides what runs
  unfoldable pub typed_step : Place → Step → Exec Done
  unfolding set_fact_step assert_step gate_step load_artifact_step executor_step
  typed_step at step = do
    started ← now
    let base = (resolve_step_type file step).0
    let merged = (resolve_step_type file step).1
    fire (step_started at.run at.workflow step.name step.type base (some merged))
    if base == "set_fact"
        then set_fact_step env at step base started
        else if base == "assert"
        then assert_step env at step base started
        else if base == "gate"
        then gate_step env at step base started
        else if base == "load_artifact"
        then load_artifact_step env at step base started
        else executor_step env at step base started merged

  -- Of the two kinds of nested work: a sub-workflow runs by `call`, a for_each by `each`.
  module _ (call : String → Workflow → Exec Done) (each : Place → Step → Exec Done) where
    unfoldable pub run_step : Place → Step → Exec Done
    unfolding announced typed_step
    run_step at step =
        if not (step.for_each == "")
        then announced at step "for_each" (each at step)
        else if not (step.workflow == "")
        then announced at step "workflow" (execute_sub_workflow env call at.run step)
        else typed_step at step

    unfoldable pub guarded_step : Place → Step → Exec Done
    unfolding check_when skip run_step
    guarded_step at step = do
      chosen ← check_when at step
      if chosen then run_step at step else skip at step

    -- a completed record replays, unless the step is forced
    unfoldable pub step_core : Place → Step → Bool → Exec Done
    unfolding replay guarded_step
    step_core at step force = do
      existing ← gets (λ w. get_step w.db at.run at.workflow at.state_name)
      elim existing [
        | none ↦ guarded_step at step
        | some row ↦
            if not force && is_completed row.status then replay step row else guarded_step at step
      ]

  -- The step of an item has no `for_each`, so `each` is not reached in it.
  unfoldable pub single_step : (String → Workflow → Exec Done) → Place → Step → Exec Done
  unfolding step_core
  single_step call at step = step_core call (λ _ _. pure tt) at step false

  -- `executeStepCore`, with `executeWorkflow` given
  unfoldable pub execute_step_core :
      (String → Workflow → Exec Done) → Place → Step → Bool → Exec Done
  unfolding step_core execute_for_each
  execute_step_core call = step_core call (λ at step.
      execute_for_each env call
        (λ item name. single_step call (record at { state_name = name }) item) at.run step)
