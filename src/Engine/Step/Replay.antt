-- ===== src/Engine/Step/Replay.antt =====
-- Steps whose records are completed: a resumed run does not run them again.
use mathlib.Core.Path.{◌≡◌, refl}
use markov.Prelude.{ℕ, suc, String, ◌∙◌, Bool, false, some, List, [], ◌∷◌, arith}
use markov.Failure.{ok}
use markov.Workflow.{Step, Workflow}
use markov.State.{StepResult, completed, get_step, Db}
use markov.Engine.Env.{Env}
use markov.Engine.StepTypes.{Place}
use markov.Engine.World.{World, Exec, Done, ◌>>=◌, modify_vars}
use markov.Engine.Step.{replay, step_core, execute_step_core}
use markov.Engine.Lifecycle.{place, execute_steps, close_sections, run_sections, execute_workflow}

-- The same world, but for the variables.
pub record SameButVars (u w : World) : Type 0 where
  pub db : w.db ≡ u.db
  pub clock : w.clock ≡ u.clock
  pub events : w.events ≡ u.events
  pub digest : w.digest ≡ u.digest

-- The record of a step is there, and completed.
pub record HasRun (db : Db) (at : Place) : Type 0 where
  pub row : StepResult
  pub found : get_step db at.run at.workflow at.state_name ≡ some row
  pub status : row.status ≡ completed

abbrev pub AllRun : Db → String → String → List Step → Type 0
AllRun db run workflow [] = Unit
AllRun db run workflow (step ∷ steps) =
    HasRun db (place run workflow step.name) × AllRun db run workflow steps

module _ (env : Env) (call : String → Workflow → Exec Done) where
  -- A step whose record is completed, and that is not forced, succeeds without running: nothing is
  -- saved, no event is fired, and the clock stands; only variables may change.
  execute_step_core-replays :
      (at : Place) (step : Step) (w : World)
      → HasRun w.db at
      → ((execute_step_core env call at step false w).0 ≡ ok tt)
        × SameButVars w (execute_step_core env call at step false w).1
  unfolding execute_step_core step_core replay modify_vars ◌>>=◌
  execute_step_core-replays at step w h = ground (arith, h.found, h.status)

  steps-replay :
      (quote : String → String) (run workflow : String) (steps : List Step) (u w : World)
      → SameButVars u w
      → AllRun u.db run workflow steps
      → let step_at = λ (name : String) (step : Step) (force : Bool).
        execute_step_core env call (place run workflow name) step force in
        ((execute_steps quote step_at steps w).0 ≡ ok tt)
        × SameButVars u (execute_steps quote step_at steps w).1
  unfolding execute_steps ◌>>=◌
  steps-replay quote run workflow [] u w s h = (refl, s)
  steps-replay quote run workflow (step ∷ steps) u w s (h, hs) =
      let at = place run workflow step.name in
      let here =
        execute_step_core-replays at step w
          (record { row = h.row; found = rw s.db h.found; status = h.status }) in
      let next = (execute_step_core env call at step false w).1 in
      let later =
        steps-replay quote run workflow steps u next
          (record {
            db = here.1.db ∙ s.db;
            clock = here.1.clock ∙ s.clock;
            events = here.1.events ∙ s.events;
            digest = here.1.digest ∙ s.digest;
          })
          hs in
      rw here.0 later

-- Resuming a workflow that has no `always` handler and whose steps are all recorded as completed
-- runs nothing: it succeeds, and the tables, the clock and the events stay as they are.
pub execute_workflow-replays :
    (env : Env) (depth : ℕ) (run : String) (wf : Workflow) (w : World)
    → wf.always ≡ []
    → AllRun w.db run wf.name wf.steps
    → ((execute_workflow env (suc depth) run wf w).0 ≡ ok tt)
      × SameButVars w (execute_workflow env (suc depth) run wf w).1
unfolding execute_workflow run_sections close_sections ◌>>=◌
execute_workflow-replays env depth run wf w no_handler h =
    let done =
      steps-replay env (execute_workflow env depth) env.go.quote run wf.name wf.steps w w
        (record { db = refl; clock = refl; events = refl; digest = refl }) h in
    rw (done.0, no_handler) (refl, done.1)
