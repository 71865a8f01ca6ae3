-- ===== src/Engine/Framed/Typed.antt =====
-- The steps of each type, those of executors included.
use markov.Prelude.{ℕ, String, List, [], ◌∷◌, Bool, true, false, Option}
use markov.Value.{Vars}
use markov.Failure.{Error}
use markov.Workflow.{Step}
use markov.Engine.Env.{Env, Execution, Report, job, progress}
use markov.Engine.World.{World, Exec}
use markov.Engine.Keeps.{Frame, Keeps, keeps_rules, Keeps-bind, Keeps-bind-bool}
use markov.Engine.Gate.{GateResult}
use markov.Engine.StepTypes.{
  Place, or_fail, complete, set_fact_step, check_all, assert_step, gate_outcome, gate_step,
  load_artifact_step,
}
use markov.Engine.Execute.{
  report, deliver, announce, register, attach_artifacts, conclude, executor_step,
}
use markov.Engine.Framed.Steps.{
  save-Keeps, fail_step-Keeps, eval_facts-Keeps, eval_decision_bool-Keeps,
  resolve_decision_facts-Keeps,
}

module _ (env : Env) {R : World → World → Type 0} (frame : Frame R) (at : Place) (step : Step)
    (base : String) where
  or_fail-Keeps :
      {A : Type 0} (started : ℕ) (f : Error → Error) (m : Exec A)
      → Keeps R m
      → Keeps R (or_fail env at step base started f m)
  unfolding or_fail
  or_fail-Keeps started f m k = search (keeps_rules, fail_step-Keeps)

  complete-Keeps :
      (started : ℕ) (output artifacts : String) (result : Option Vars)
      → Keeps R (complete env at step base started output artifacts result)
  unfolding complete
  complete-Keeps started output artifacts result = search (keeps_rules, save-Keeps)

  pub set_fact_step-Keeps : (started : ℕ) → Keeps R (set_fact_step env at step base started)
  unfolding set_fact_step
  set_fact_step-Keeps started =
      search (keeps_rules, fail_step-Keeps, or_fail-Keeps, complete-Keeps, eval_facts-Keeps)

  check_all-Keeps :
      (started : ℕ) (exprs : List String) → Keeps R (check_all env at step base started exprs)
  unfolding check_all
  check_all-Keeps started [] = search keeps_rules
  check_all-Keeps started (expr ∷ exprs) =
      Keeps-bind-bool frame _ _
        (or_fail-Keeps started _ _ (eval_decision_bool-Keeps env frame _ _ _ expr))
        (check_all-Keeps started exprs) (search fail_step-Keeps)

  pub assert_step-Keeps : (started : ℕ) → Keeps R (assert_step env at step base started)
  unfolding assert_step
  assert_step-Keeps started = search (keeps_rules, fail_step-Keeps, check_all-Keeps, complete-Keeps)

  gate_outcome-Keeps :
      (started : ℕ) (g : GateResult) → Keeps R (gate_outcome env at step base started g)
  unfolding gate_outcome
  gate_outcome-Keeps started g = search (keeps_rules, save-Keeps) depth 8

  pub gate_step-Keeps : (started : ℕ) → Keeps R (gate_step env at step base started)
  unfolding gate_step
  gate_step-Keeps started =
      search (keeps_rules, or_fail-Keeps, resolve_decision_facts-Keeps, gate_outcome-Keeps) depth 8

  pub load_artifact_step-Keeps :
      (started : ℕ) → Keeps R (load_artifact_step env at step base started)
  unfolding load_artifact_step
  load_artifact_step-Keeps started =
      search (keeps_rules, fail_step-Keeps, or_fail-Keeps, complete-Keeps) depth 8

  report-Keeps : (is_k8s : Bool) (r : Report) → Keeps R (report env at step base is_k8s r)
  unfolding report
  report-Keeps true (job name namespace) = search keeps_rules
  report-Keeps false (job name namespace) = search keeps_rules
  report-Keeps is_k8s (progress kind fields) = search keeps_rules

  deliver-Keeps : (is_k8s : Bool) (rs : List Report) → Keeps R (deliver env at step base is_k8s rs)
  unfolding deliver
  deliver-Keeps is_k8s [] = search keeps_rules
  deliver-Keeps is_k8s (r ∷ rs) =
      Keeps-bind frame _ _ (report-Keeps is_k8s r) (λ _. deliver-Keeps is_k8s rs)

  announce-Keeps : (params : Vars) → Keeps R (announce env at step base params)
  unfolding announce
  announce-Keeps params = search keeps_rules

  register-Keeps : (output : Option Vars) → Keeps R (register env at step base output)
  unfolding register
  register-Keeps output = search keeps_rules

  attach_artifacts-Keeps :
      (started : ℕ) (output : Option Vars)
      → Keeps R (attach_artifacts env at step base started output)
  unfolding attach_artifacts
  attach_artifacts-Keeps started output = search (keeps_rules, or_fail-Keeps) depth 8

  conclude-Keeps : (started : ℕ) (x : Execution) → Keeps R (conclude env at step base started x)
  unfolding conclude
  conclude-Keeps started x =
      search (keeps_rules, or_fail-Keeps, register-Keeps, attach_artifacts-Keeps, complete-Keeps)
        depth 8

  pub executor_step-Keeps :
      (started : ℕ) (merged : Vars) → Keeps R (executor_step env at step base started merged)
  unfolding executor_step
  executor_step-Keeps started merged =
      search
        (
          keeps_rules, save-Keeps, fail_step-Keeps, or_fail-Keeps, announce-Keeps, deliver-Keeps,
          conclude-Keeps,
        )
        depth 12
