-- ===== src/Engine/Records.antt =====
-- Step records: the definition that produced a record (pkg/engine/rewind.go), saving a record with
-- its definition's hash, and `failStep` of engine.go.
use Prim.Native.String.{len}
use markov.Prelude.{
  ℕ, String, Bool, true, ◌&&◌, ◌||◌, Option, none, some, List, [], ◌∷◌, lookup, concat, starts_with,
  has_suffix, trim_prefix, if◌then◌else◌, ◌==◌, ltb,
}
use markov.Failure.{Error, error_text}
use markov.Workflow.{Step, Workflow, get_workflow}
use markov.State.{StepResult, StepStatus, save_step}
use markov.Engine.Env.{Env}
use markov.Engine.World.{step_failed, Exec, Done, raise, now, fire, modify_db, ◌>>=◌, ◌>>◌}

pub data Section : Type 0 where
  steps_section rescue_section always_section : Section

abbrev pub section_name : Section → String
section_name steps_section = "steps"
section_name rescue_section = "rescue"
section_name always_section = "always"

-- `sectionOfStepList`
abbrev pub steps_of : Workflow → Section → List Step
steps_of wf steps_section = wf.steps
steps_of wf rescue_section = wf.rescue
steps_of wf always_section = wf.always

-- A step with its section, the best match so far.
abbrev pub Match : Type 0
Match = Option (Step × Section)

-- the state name is the step's, or an iteration of it
unfoldable pub names_step : String → Step → Bool
names_step rest st =
    rest == st.name || (starts_with rest (concat (st.name ∷ "[" ∷ [])) && has_suffix rest "]")

abbrev longer : Step → Match → Bool
longer st none = true
longer st (some (best, sec)) = ltb (len best.name) (len st.name)

unfoldable pub best_step : Section → String → List Step → Match → Match
unfolding names_step
best_step sec rest [] best = best
best_step sec rest (st ∷ steps) best =
    best_step sec rest steps (if names_step rest st && longer st best then some (st, sec) else best)

-- a handler's state name has its section before it
abbrev best_handler : Section → String → List Step → Match → Match
best_handler sec state_name steps best =
    let prefix = concat (section_name sec ∷ "/" ∷ []) in
    if starts_with state_name prefix
    then best_step sec (trim_prefix state_name prefix) steps best
    else best

abbrev pub is_receipt : String → Bool
is_receipt state_name = starts_with state_name "__jev__/"

module _ (env : Env) where
  open env use {go, file}

  -- `findStep`: the step with the longest name that a state name can stand for
  unfoldable pub find_step : String → String → Match
  unfolding best_step
  find_step workflow state_name = elim (get_workflow file workflow) [
    | none ↦ none
    | some wf ↦
        if is_receipt state_name
        then none
        else best_handler always_section state_name wf.always (
            best_handler rescue_section state_name wf.rescue
              (best_step steps_section state_name wf.steps none))
  ]

  -- `definitionHash`: the description does not count
  unfoldable pub definition_hash : Step → String
  definition_hash step =
      go.step_digest (record step { description = "" }) (lookup step.type file.step_types)

  abbrev pub stamped : StepResult → StepResult
  stamped row =
      if row.definition_hash == ""
      then elim (find_step row.workflow_name row.step_name) [
        | none ↦ row
        | some (st, sec) ↦ record row { definition_hash = definition_hash st }
      ]
      else row

  -- `SaveStep` of `hashingStore`
  unfoldable pub save : StepResult → Exec Done
  unfolding find_step definition_hash
  save row = modify_db (λ db. save_step db (stamped row))

  abbrev pub text_of : Error → String
  text_of = error_text go.quote

  -- `failStep`: the failure is recorded and returned
  unfoldable pub fail_step : {A : Type 0} → String → String → String → String → ℕ → Error → Exec A
  fail_step run workflow name type started e = do
    t ← now
    save (record {
      run_id = run;
      workflow_name = workflow;
      step_name = name;
      status = StepStatus.failed;
      output_json = "";
      artifacts_json = "";
      error = text_of e;
      started_at = some started;
      completed_at = some t;
      definition_hash = "";
    })
    fire (step_failed run workflow name type (text_of e))
    raise e
