-- ===== src/Engine/Runs.antt =====
-- `Run` of engine.go, and what `Run` and `ResumeWithVars` share.
use markov.Prelude.{Option, ℕ, String, none, some, [], ◌∷◌, insert, concat, if◌then◌else◌, ◌==◌}
use markov.Value.{Vars, str, object}
use markov.Failure.{message, wrap, find_pause, Result, ok, err, map_error}
use markov.Workflow.{Workflow, get_workflow}
use markov.State.{Db, Run, RunStatus, create_run}
use markov.Engine.Env.{Env}
use markov.Engine.World.{
  run_started, run_paused, run_failed, run_completed, Exec, Done, pure, raise, lift, gets, attempt,
  now, fire, modify_db, modify_vars, set_digest, ◌>>=◌, ◌>>◌,
}
use markov.Engine.Context.{build_context}
use markov.Engine.Records.{text_of}
use markov.Engine.SubWorkflow.{set_run}
use markov.Engine.Lifecycle.{execute_workflow}

module _ (env : Env) where
  open env use {go, file, forks, source_path, source_tree, run_id, new_id}

  -- `currentSourceDigest`
  unfoldable pub current_source_digest : Exec String
  current_source_digest = if source_path == "" then pure "" else (do
    t ← gets (λ w. w.clock)
    lift (map_error (wrap "fingerprinting workflow source") (source_tree t)))

  -- The end of a run: its event, and its status in the table.
  unfoldable pub finish_run : Run → String → Result Done → Exec Done
  finish_run row workflow (ok _) = do
    t ← now
    fire (run_completed row.run_id workflow)
    set_run env row RunStatus.completed (some t)
  finish_run row workflow (err e) = do
    t ← now
    pause ← pure (find_pause e)
    elim pause [
      | some p ↦ do
        fire (run_paused row.run_id workflow p.step_name p.fired_rules p.facts)
        set_run env row RunStatus.paused none
      | none ↦ do
        fire (run_failed row.run_id workflow (text_of env e))
        set_run env row RunStatus.failed (some t)
    ]

  -- A run from its record on: its outcome is the workflow's.
  unfoldable pub execute_run : ℕ → Run → Workflow → Exec Done
  unfolding finish_run
  execute_run depth row wf = do
    r ← attempt (execute_workflow env depth row.run_id wf)
    finish_run row row.entrypoint r
    lift r

  abbrev new_run : String → String → String → Vars → ℕ → Run
  new_run id digest workflow vars started = record {
    run_id = id;
    workflow_file = source_path;
    source_digest = digest;
    entrypoint = workflow;
    status = RunStatus.running;
    vars_json = go.json_encode (object vars);
    parent_run_id = "";
    parent_step = "";
    for_each_key = "";
    started_at = started;
    completed_at = none;
  }

  abbrev store_run : Option Db → Exec Done
  store_run none = raise (wrap "creating run" (wrap "creating run" (message go.unique_violation)))
  store_run (some db) = modify_db (λ _. db)

  -- the run's record, which must be a new one, and its event
  unfoldable pub start_run : Run → Vars → Exec Done
  start_run row vars = do
    db ← gets (λ w. w.db)
    store_run (create_run db row)
    fire (
        run_started row.run_id row.entrypoint row.workflow_file row.source_digest vars forks
          file.namespace)

  abbrev entry : String → String
  entry name = if name == "" then file.entrypoint else name

  -- `Run`: the id of the run, and its error
  unfoldable pub run : ℕ → String → Vars → Exec (String × Result Done)
  unfolding current_source_digest start_run execute_run
  run depth name vars = elim (get_workflow file (entry name)) [
    | none ↦ raise (message (concat ("workflow " ∷ go.quote (entry name) ∷ " not found" ∷ [])))
    | some wf ↦ do
      digest ← current_source_digest
      set_digest digest
      fresh ← gets (λ w. new_id w.clock)
      let id = if run_id == "" then fresh else run_id
      let ctx = insert "markov_run_id" (str id) (build_context file.vars vars wf.vars)
      started ← now
      let row = new_run id digest (entry name) ctx started
      start_run row ctx
      modify_vars (λ _. ctx)
      r ← attempt (execute_run depth row wf)
      pure (id, r)
  ]
