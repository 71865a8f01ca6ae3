-- ===== src/Engine/SubWorkflow.antt =====
-- Sub-workflows of engine.go: `resolveSubWorkflow`, `checkSubRunWorkflow`, `executeSubWorkflow`.
use markov.Prelude.{
  ℕ, String, not, ◌&&◌, ◌||◌, Option, none, some, [], ◌∷◌, insert, merge, concat, join, is_empty,
  if◌then◌else◌, ◌==◌, or_else,
}
use markov.Value.{Vars, object, as_string}
use markov.Failure.{Error, message, wrap, Pause, find_pause, Result, ok, err}
use markov.Workflow.{Step, Workflow, get_workflow, is_templated, member}
use markov.State.{Db, Run, RunStatus, get_run, create_run, update_run}
use markov.Engine.Env.{Env}
use markov.Engine.World.{
  Event, run_paused, sub_run_started, sub_run_completed, sub_run_failed, Exec, Done, pure, raise,
  lift, gets, with_vars, now, fire, modify_db, modify_vars, ◌>>=◌, ◌>>◌,
}
use markov.Engine.Context.{merge_present, ignored_failure}
use markov.Engine.Facts.{coerce_string}
use markov.Engine.Records.{text_of}

module _ (env : Env) where
  open env use {go, file, tmpl, source_path}

  abbrev pub unexpected_name : Step → String → Error
  unexpected_name step name = message (
      concat (
        "workflow "
        ∷ go.quote step.workflow
        ∷ " resolved to "
        ∷ go.quote name
        ∷ "; expected one of "
        ∷ join ", " step.workflow_names
        ∷ " (workflow_names)"
        ∷ []))

  -- the name that a templated `workflow` renders to
  abbrev pub rendered_name : Step → Vars → Result String
  rendered_name step ctx = elim (tmpl.render step.workflow ctx) [
    | err e ↦ err (wrap (concat ("rendering workflow name " ∷ go.quote step.workflow ∷ [])) e)
    | ok text ↦
        let name = go.trim_space text in
        if not (is_empty step.workflow_names) && not (member name step.workflow_names)
        then err (unexpected_name step name)
        else ok name
  ]

  abbrev not_found : Step → String → Error
  not_found step name = message (
      if name == step.workflow
      then concat ("sub-workflow " ∷ go.quote name ∷ " not found" ∷ [])
      else concat (
          "sub-workflow "
          ∷ go.quote name
          ∷ " (from "
          ∷ go.quote step.workflow
          ∷ ") not found"
          ∷ []))

  abbrev pub named_workflow : Step → String → Result Workflow
  named_workflow step name = elim (get_workflow file name) [
    | some wf ↦ ok wf
    | none ↦ err (not_found step name)
  ]

  -- `resolveSubWorkflow`
  unfoldable pub resolve_sub_workflow : Step → Vars → Result Workflow
  resolve_sub_workflow step ctx =
      if is_templated step.workflow
      then elim (rendered_name step ctx) [ ok name ↦ named_workflow step name | err e ↦ err e ]
      else named_workflow step step.workflow

  abbrev other_workflow : String → Step → String → String → Error
  other_workflow sub step before name = message (
      concat (
        "sub-run "
        ∷ sub
        ∷ " ran workflow "
        ∷ go.quote before
        ∷ ", but "
        ∷ go.quote step.workflow
        ∷ " now resolves to "
        ∷ go.quote name
        ∷ "; it can't be resumed in place (start a new run, or rewind to before step "
        ∷ go.quote step.name
        ∷ ")"
        ∷ []))

  -- `checkSubRunWorkflow`
  unfoldable pub check_sub_run_workflow : Db → String → Step → String → Option Error
  check_sub_run_workflow db sub step name = elim (get_run db sub) [
    | none ↦ none
    | some before ↦
        if before.entrypoint == "" || before.entrypoint == name
        then none
        else some (other_workflow sub step before.entrypoint name)
  ]

  -- rendered variables, texts coerced
  unfoldable pub coerced : Vars → Vars → Vars
  coerced base [] = base
  coerced base ((k, v) ∷ vars) =
      coerced (insert k (elim (as_string v) [ some s ↦ coerce_string go s | none ↦ v ]) base) vars

  -- `step.Vars` on top of the variables of a sub-workflow
  unfoldable pub with_step_vars : Step → Vars → Vars → Result Vars
  unfolding coerced
  with_step_vars step ctx base =
      if is_empty step.vars then ok base else elim (tmpl.render_map step.vars ctx) [
        | err e ↦ err (wrap "rendering sub-workflow vars" e)
        | ok rendered ↦ ok (coerced base rendered)
      ]

  abbrev sub_run : String → String → Workflow → String → String → String → Vars → ℕ → Run
  sub_run sub digest wf run step key vars started = record {
    run_id = sub;
    workflow_file = source_path;
    source_digest = digest;
    entrypoint = wf.name;
    status = RunStatus.running;
    vars_json = go.json_encode (object vars);
    parent_run_id = run;
    parent_step = step;
    for_each_key = key;
    started_at = started;
    completed_at = none;
  }

  -- The record of a new sub-run, and its event. That the record is there already is ignored.
  unfoldable pub start_sub_run : String → Step → String → String → Workflow → Vars → Exec Run
  unfolding check_sub_run_workflow
  start_sub_run run step key sub wf vars = do
    refused ← gets (λ w. check_sub_run_workflow w.db sub step wf.name)
    elim refused [
      | some e ↦ raise e
      | none ↦ do
        started ← now
        digest ← gets (λ w. w.digest)
        let row = sub_run sub digest wf run step.name key vars started
        modify_db (λ db. or_else (create_run db row) db)
        fire (sub_run_started sub run step.name wf.name key)
        pure row
    ]

  abbrev pub ended : Run → RunStatus → Option ℕ → Run
  ended row status t = record row { status = status; completed_at = t }

  abbrev pub set_run : Run → RunStatus → Option ℕ → Exec Done
  set_run row status t = modify_db (λ db. update_run db (ended row status t))

  abbrev pub sub_run_paused : Run → Workflow → Pause → Event
  sub_run_paused row wf p = run_paused row.run_id wf.name p.step_name p.fired_rules p.facts

  abbrev register_vars : Step → Vars → Exec Done
  register_vars step vars =
      if step.register == "" then pure tt else modify_vars (insert step.register (object vars))

  -- what `executeSubWorkflow` does with the outcome of the sub-run
  unfoldable pub finish_sub_run : String → Step → Workflow → Run → Result Done → Vars → Exec Done
  unfolding ignored_failure
  finish_sub_run run step wf row (ok _) vars = do
    t ← now
    set_run row RunStatus.completed (some t)
    fire (sub_run_completed row.run_id run step.name wf.name "")
    register_vars step vars
  finish_sub_run run step wf row (err e) vars = do
    t ← now
    pause ← pure (find_pause e)
    elim pause [
      | some p ↦ do set_run row RunStatus.paused none; fire (sub_run_paused row wf p); raise e
      | none ↦ do
        set_run row RunStatus.failed (some t)
        fire (sub_run_failed row.run_id run step.name wf.name "" (text_of env e))
        if step.ignore_errors
            then register_vars step (ignored_failure (text_of env) vars e)
            else raise e
    ]

  -- `executeSubWorkflow`, with `executeWorkflow` given: it runs on the variables of the world
  module _ (call : String → Workflow → Exec Done) where
    unfoldable pub execute_sub_workflow : String → Step → Exec Done
    unfolding resolve_sub_workflow merge_present with_step_vars start_sub_run finish_sub_run
    execute_sub_workflow run step = do
      ctx ← gets (λ w. w.vars)
      wf ← lift (resolve_sub_workflow step ctx)
      vars ← lift (with_step_vars step ctx (merge_present (merge [] ctx) wf.vars))
      let sub = concat (run ∷ "-" ∷ step.name ∷ [])
      row ← start_sub_run run step "" sub wf vars
      out ← with_vars vars (call sub wf)
      finish_sub_run run step wf row out.0 out.1
