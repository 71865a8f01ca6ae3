-- ===== src/Examples.antt =====
-- The engine on a small workflow file.
mod Setting
mod ForEach
mod Parser
mod Rewind
mod Layers
mod Depth
mod Names
mod Debug
mod Values
mod Loading
mod Decisions
use markov.Prelude.{
  ◌≡◌, refl, String, Bool, true, false, none, some, [], ◌∷◌, ◌++◌, negsuc, ◌⊎◌, if◌then◌else◌,
  length, ◌≤◌, lookup, ltb_int,
}
use markov.Value.{str, null}
use markov.Failure.{
  Error, too_deep, Result, ok, err, is_paused, joined, join_from, join_errors, error_of, find_pause,
}
use markov.Workflow.{Step, Workflow, resolve_step_type, get_workflow, get_rule}
use markov.State.{Run, RunStatus, StepResult, StepStatus, get_run, get_step, save_step}
use markov.Grl.Bytes.{Bytes, bytes}
use markov.Grl.Lexer.{tokenize, lexeme, emit}
use markov.Grl.Lexer.Fuel.{tokenize-loop}
use markov.Grl.Compile.{compile_rule}
use markov.Engine.FactStore.{new_fact_store, mark_fired}
use markov.Engine.World.{World, Exec, Done, ◌>>=◌, now, fire, modify_db, modify_vars}
use markov.Engine.Records.{rescue_section, always_section, save, fail_step}
use markov.Engine.Decision.{decision, saved_answer, resolve_decision_facts}
use markov.Engine.Gate.{settle_gate, evaluate_gate}
use markov.Engine.Gate.Salience.{settle_gate-action, fired_names, highest, NoneAbove, DecidedIn}
use markov.Engine.Step.{execute_step_core}
use markov.Engine.Step.Replay.{SameButVars, execute_workflow-replays}
use markov.Engine.Lifecycle.{
  place, execute_steps, execute_terminal_steps, run_sections, execute_workflow, step_error,
}
use markov.Engine.Lifecycle.Sections.{
  after_handlers, handler_errors, execute_terminal_steps_lem, run_sections-pause,
  run_sections-paused, run_sections-failure, run_sections-success, execute_steps-stops,
}
use markov.Engine.RunRows.{SameRun, execute_workflow-keeps_run}
use markov.Engine.Runs.{execute_run}
use markov.Engine.Outcome.{Settled, execute_run-Settled}
use markov.Engine.Resume.{resume_with_vars}
use markov.Engine.Resume.Overrides.{resume_with_vars-keeps_vars}
use markov.Examples.Setting.{
  quote, env, world, run_row, done_row, gated, release, broken, build, deploy, check, stop_rule,
  review, main_connection,
}

-- a step of the run `run2`, which no record is of
abbrev step_of : String → String → Step → Bool → Exec Done
step_of workflow name step force =
    execute_step_core env (execute_workflow env 0) (place "run2" workflow name) step force

abbrev error_in : Result Done → Error
error_in (ok d) = too_deep
error_in (err e) = e

-- what the gate returns
abbrev pause : Error
pause = error_in (execute_steps quote (step_of "gated") gated.steps world).0

-- what a step with no executor returns
abbrev failure : Error
failure = error_in (execute_steps quote (step_of "broken") broken.steps world).0

-- the step `deploy`, after `build`
abbrev after_build : Result Done × World
after_build =
    step_of "broken" "deploy" deploy false
      (execute_steps quote (step_of "broken") (build ∷ []) world).1

run_sections-paused_example :
    run_sections quote (step_of "gated") gated world
    ≡ execute_steps quote (step_of "gated") gated.steps world
unfolding execute_workflow find_pause ◌>>=◌ execute_step_core get_step now fire resolve_step_type
    save modify_db save_step get_workflow resolve_decision_facts evaluate_gate get_rule compile_rule
    modify_vars mark_fired fail_step
run_sections-paused_example =
    run_sections-paused quote (step_of "gated") gated world pause refl refl

run_sections-failure_example :
    let u = (execute_steps quote (step_of "broken") broken.steps world).1 in
    let v = after_handlers quote (step_of "broken") rescue_section broken.rescue u in
    run_sections quote (step_of "broken") broken world ≡ (
      err (
          joined (
            join_from failure (
              handler_errors quote (step_of "broken") rescue_section broken.rescue u
              ++ handler_errors quote (step_of "broken") always_section broken.always v))),
      after_handlers quote (step_of "broken") always_section broken.always v,
    )
unfolding execute_workflow find_pause ◌>>=◌ execute_step_core get_step now fire resolve_step_type
    save modify_db save_step get_workflow resolve_decision_facts evaluate_gate get_rule compile_rule
    modify_vars mark_fired fail_step
run_sections-failure_example =
    run_sections-failure quote (step_of "broken") broken world failure refl refl

run_sections-success_example :
    let u = (execute_steps quote (step_of "release") release.steps world).1 in
    ((run_sections quote (step_of "release") release world).1
      ≡ after_handlers quote (step_of "release") always_section release.always u)
    × (error_of (run_sections quote (step_of "release") release world).0
        ≡ join_errors (handler_errors quote (step_of "release") always_section release.always u))
unfolding execute_workflow find_pause ◌>>=◌ execute_step_core get_step now fire resolve_step_type
    save modify_db save_step get_workflow resolve_decision_facts evaluate_gate get_rule compile_rule
    modify_vars mark_fired fail_step
run_sections-success_example = run_sections-success quote (step_of "release") release world refl

execute_steps-stops_example :
    execute_steps quote (step_of "broken") (build ∷ deploy ∷ check ∷ []) world
    ≡ (err (step_error quote (step_of "broken") deploy (error_in after_build.0)), after_build.1)
unfolding execute_workflow find_pause ◌>>=◌ execute_step_core get_step now fire resolve_step_type
    save modify_db save_step get_workflow resolve_decision_facts evaluate_gate get_rule compile_rule
    modify_vars mark_fired fail_step
execute_steps-stops_example =
    execute_steps-stops quote (step_of "broken") (build ∷ []) deploy (check ∷ []) world
      (error_in after_build.0) refl refl

execute_run-Settled_example :
    let out = execute_run env 2 run_row gated world in
    (out.0 ≡ (execute_workflow env 2 "run1" gated world).0) × Settled run_row out.0 out.1.db
unfolding get_run
execute_run-Settled_example = execute_run-Settled env 2 run_row run_row gated world refl refl

execute_workflow-keeps_run_example :
    (b : Run) × (get_run (execute_workflow env 2 "run1" gated world).1.db "run1" ≡ some b)
    × SameRun run_row b
unfolding get_run
execute_workflow-keeps_run_example =
    execute_workflow-keeps_run env 2 "run1" gated world "run1" run_row refl

abbrev unattended : Workflow
unattended = record release { always = [] }

execute_workflow-replays_example :
    ((execute_workflow env 2 "run1" unattended world).0 ≡ ok tt)
    × SameButVars world (execute_workflow env 2 "run1" unattended world).1
unfolding get_step
execute_workflow-replays_example =
    execute_workflow-replays env 1 "run1" unattended world refl
      (record { row = done_row "release" "build"; found = refl; status = refl }, tt)

resume_with_vars-keeps_vars_example :
    (b : Run) × (get_run
        (resume_with_vars env 2 "run1" (("answer", str "yes") ∷ []) world).1.db
        "run1"
      ≡ some b)
    × (b.vars_json ≡ "{}")
unfolding get_run
resume_with_vars-keeps_vars_example =
    resume_with_vars-keeps_vars env 2 "run1" (("answer", str "yes") ∷ []) world "run1" run_row refl

settle_gate-action_example :
    let facts = mark_fired "stop" (new_fact_store world.vars) in
    let r = (settle_gate facts (stop_rule ∷ []) [] world.vars).0 in
    let top = highest facts (negsuc 0) (stop_rule ∷ []) in
    (r.fired_rules ≡ fired_names facts (stop_rule ∷ []))
    × NoneAbove facts top (stop_rule ∷ [])
    × (((r.action ≡ "continue") × (top ≡ negsuc 0))
        ⊎ ((ltb_int (negsuc 0) top ≡ true) × DecidedIn facts r.action top (stop_rule ∷ [])))
settle_gate-action_example =
    settle_gate-action (mark_fired "stop" (new_fact_store world.vars)) (stop_rule ∷ []) []
      world.vars

-- a condition, after its first byte, `r`
abbrev condition_rest : Bytes
condition_rest = bytes "eady and count > 3"

tokenize-loop_example :
    (tokenize (0x72 ∷ condition_rest)
      ≡ emit (lexeme 0x72 condition_rest).0 (tokenize (lexeme 0x72 condition_rest).1))
    × (length (lexeme 0x72 condition_rest).1 ≤ length condition_rest)
tokenize-loop_example = tokenize-loop 0x72 condition_rest
