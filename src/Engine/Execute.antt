-- ===== src/Engine/Execute.antt =====
-- The last part of `executeStepCore` of engine.go: a step that an executor runs.
use markov.Prelude.{
  ℕ, String, Bool, true, false, Option, none, some, List, [], ◌∷◌, lookup, insert, merge, concat,
  is_empty, if◌then◌else◌, ◌==◌, or_else,
}
use markov.Value.{Vars, str, object, map_value, as_string, index}
use markov.Failure.{Error, message, wrap, Result, ok, err}
use markov.Workflow.{Step}
use markov.State.{StepStatus}
use markov.Engine.Env.{Env, Execution, Report, job, progress}
use markov.Engine.World.{
  Event, job_created, step_progress, Exec, Done, pure, lift, gets, now, fire, modify_vars, ◌>>=◌,
  ◌>>◌,
}
use markov.Engine.Context.{ignored_failure}
use markov.Engine.K8sName.{inject_job_meta}
use markov.Engine.Records.{save, text_of}
use markov.Engine.StepTypes.{Place, row, fail, or_fail, complete}

module _ (env : Env) where
  open env use {go, file, tmpl, executors, load_artifacts}

  -- The scope of `failed_when`: the context with the output, and the executor's error, as `result`.
  abbrev failure_scope : Step → Option Vars → Option Error → Vars → Vars
  failure_scope step output failure ctx =
      let shown = merge [] (or_else output []) in
      let result : Vars = elim failure [
        | none ↦ shown
        | some e ↦ insert "error" (str (text_of env e)) shown
      ] in
      let scope = insert "result" (object result) (merge [] ctx) in
      if step.register == "" then scope else insert step.register (object result) scope

  abbrev failed_message : Step → String
  failed_message step = concat ("failed_when " ∷ go.quote step.failed_when ∷ " is true" ∷ [])

  -- `evalFailedWhen`
  unfoldable pub eval_failed_when : Step → Option Vars → Option Error → Vars → Option Error
  eval_failed_when step output failure ctx =
      elim (tmpl.eval_bool step.failed_when (failure_scope step output failure ctx)) [
        | err e ↦ some (wrap "evaluating failed_when" e)
        | ok false ↦ none
        | ok true ↦ elim failure [
          | none ↦ some (message (failed_message step))
          | some e ↦ some (wrap (failed_message step) e)
        ]
      ]

module _ (env : Env) (at : Place) (step : Step) (base : String) where
  open env use {go, file, tmpl, executors, load_artifacts}

  abbrev created : String → String → Event
  created name namespace = job_created at.run at.workflow step.name step.type name namespace

  -- What an executor reports while it runs; the jobs of `k8s_job` alone.
  unfoldable pub report : Bool → Report → Exec Done
  report true (job name namespace) = fire (created name namespace)
  report false (job name namespace) = pure tt
  report is_k8s (progress kind fields) =
      fire (step_progress at.run at.workflow step.name step.type kind fields)

  unfoldable pub deliver : Bool → List Report → Exec Done
  unfolding report
  deliver is_k8s [] = pure tt
  deliver is_k8s (r ∷ reports) = report is_k8s r >> deliver is_k8s reports

  -- the parameters that the engine adds
  unfoldable pub prepared : Vars → Vars
  prepared params =
      if base == "script_exec"
      then insert "_script_dir" (str file.script_dir) params
      else if base == "k8s_job"
      then inject_job_meta go params at.run at.workflow step.name
      else params

  -- the job that `k8s_job_wait` watches
  unfoldable pub announce : Vars → Exec Done
  announce params =
      let name = or_else (as_string (index params "job_name")) "" in
      let given = or_else (as_string (index params "namespace")) "" in
      if base == "k8s_job_wait"
      then if name == ""
        then pure tt
        else fire (created name (if given == "" then file.namespace else given))
      else pure tt

  -- The output after a failure was judged: the step's own, the marked one of an ignored failure,
  -- or the error that fails the step.
  unfoldable pub judge : Execution → Vars → Result (Option Vars)
  unfolding eval_failed_when ignored_failure
  judge x ctx =
      let failure =
        if step.failed_when == ""
        then x.error
        else eval_failed_when env step x.output x.error ctx in
      elim failure [
        | none ↦ ok x.output
        | some e ↦
            if step.ignore_errors
            then ok (some (ignored_failure (text_of env) (or_else x.output []) e))
            else err e
      ]

  unfoldable pub register : Option Vars → Exec Done
  register output =
      if step.register == "" then pure tt else modify_vars (insert step.register (map_value output))

  unfoldable pub attach_artifacts : ℕ → Option Vars → Exec Done
  attach_artifacts started output = if is_empty step.artifacts then pure tt else (do
    ctx ← gets (λ w. w.vars)
    t ← gets (λ w. w.clock)
    artifacts ←
        or_fail env at step base started (wrap "loading artifacts")
          (lift (load_artifacts t step.artifacts ctx))
    modify_vars
        (insert step.name (object (merge (("artifacts", artifacts) ∷ []) (or_else output [])))))

  abbrev artifacts_json : Vars → String
  artifacts_json ctx = elim (lookup step.name ctx) [ none ↦ "" | some v ↦ go.json_encode v ]

  -- after the executor returned
  unfoldable pub conclude : ℕ → Execution → Exec Done
  unfolding judge register attach_artifacts
  conclude started x = do
    ctx ← gets (λ w. w.vars)
    output ← or_fail env at step base started (λ e. e) (lift (judge x ctx))
    register output
    attach_artifacts started output
    after ← gets (λ w. w.vars)
    complete env at step base started (go.json_encode (map_value output)) (artifacts_json after)
        output

  unfoldable pub executor_step : ℕ → Vars → Exec Done
  unfolding deliver prepared announce conclude
  executor_step started merged = do
    save env (row env at step base StepStatus.running "" "" started none)
    ctx ← gets (λ w. w.vars)
    rendered ←
        or_fail env at step base started (wrap "rendering params")
          (lift (tmpl.render_map merged ctx))
    let params = prepared rendered
    found ← pure (lookup base executors)
    elim found [
      | none ↦
          fail env at step base started
            (message (concat ("no executor for type " ∷ go.quote base ∷ [])))
      | some executor ↦ do
        announce params
        t ← now
        let x = executor.execute t params
        deliver executor.is_k8s_job x.reports
        conclude started x
    ]
