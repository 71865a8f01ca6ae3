-- ===== src/Engine/StepTypes.antt =====
-- The step types that `executeStepCore` of engine.go runs itself: set_fact, assert, gate,
-- load_artifact.
use markov.Prelude.{
  ℕ, String, Option, none, some, List, [], ◌∷◌, insert, concat, is_empty, if◌then◌else◌, ◌==◌, map,
}
use markov.Value.{Vars, str, object, slice, string_slice, items_of}
use markov.Failure.{Error, message, wrap, paused, ok, err}
use markov.Workflow.{Step}
use markov.State.{StepResult, StepStatus}
use markov.Engine.Env.{Env}
use markov.Engine.World.{
  step_completed, gate_evaluated, Exec, Done, pure, raise, lift, gets, attempt, now, fire,
  modify_vars, ◌>>=◌, ◌>>◌,
}
use markov.Engine.Facts.{eval_facts}
use markov.Engine.Gate.{GateResult, evaluate_gate}
use markov.Engine.Records.{save, fail_step}
use markov.Engine.Decision.{eval_decision_bool, resolve_decision_facts}

-- The state name of a step, with the run and the workflow that it stands in.
pub record Place : Type 0 where
  pub run : String
  pub workflow : String
  pub state_name : String

module _ (env : Env) (at : Place) (step : Step) (base : String) where
  open env use {go, load_artifacts}

  -- The record of the step; an error text is only `failStep`'s.
  abbrev pub row : StepStatus → String → String → ℕ → Option ℕ → StepResult
  row status output artifacts started ended = record {
    run_id = at.run;
    workflow_name = at.workflow;
    step_name = at.state_name;
    status = status;
    output_json = output;
    artifacts_json = artifacts;
    error = "";
    started_at = some started;
    completed_at = ended;
    definition_hash = "";
  }

  abbrev pub fail : {A : Type 0} → ℕ → Error → Exec A
  fail started e = fail_step env at.run at.workflow at.state_name base started e

  -- An action whose error fails the step.
  unfoldable pub or_fail : {A : Type 0} → ℕ → (Error → Error) → Exec A → Exec A
  or_fail started f m = do r ← attempt m; elim r [ ok a ↦ pure a | err e ↦ fail started (f e) ]

  -- the record and the event of a step that is done
  unfoldable pub complete : ℕ → String → String → Option Vars → Exec Done
  complete started output artifacts result = do
    ended ← now
    save env (row StepStatus.completed output artifacts started (some ended))
    fire (step_completed at.run at.workflow step.name step.type result)

  unfoldable pub set_fact_step : ℕ → Exec Done
  unfolding or_fail complete
  set_fact_step started =
      if is_empty step.vars then fail started (message "set_fact step has no vars defined") else (do
        facts ← or_fail started (wrap "evaluating facts") (eval_facts env [] step.vars)
        complete started (go.json_encode (object facts)) "" (some facts))

  -- the message of a condition that is false
  abbrev assertion_message : String → String
  assertion_message expr =
      if step.msg == "" then concat ("assertion failed: " ∷ expr ∷ []) else step.msg

  unfoldable pub check_all : ℕ → List String → Exec Done
  unfolding or_fail
  check_all started [] = pure tt
  check_all started (expr ∷ exprs) = do
    holds ←
        or_fail started (wrap (concat ("evaluating assertion " ∷ go.quote expr ∷ [])))
          (eval_decision_bool env at.run at.workflow at.state_name expr)
    if holds then check_all started exprs else fail started (message (assertion_message expr))

  unfoldable pub assert_step : ℕ → Exec Done
  unfolding check_all complete
  assert_step started =
      if is_empty step.that
      then fail started (message "assert step has no conditions defined")
      else (do check_all started step.that; complete started "" "" none)

  abbrev gate_output : GateResult → Vars
  gate_output g =
      ("action", str g.action)
      ∷ ("fired_rules", slice string_slice (items_of (map str g.fired_rules)))
      ∷ ("facts", object g.facts)
      ∷ []

  -- the gate asks for a pause, or the step is done
  unfoldable pub gate_outcome : ℕ → GateResult → Exec Done
  gate_outcome started g = do
    now
    fire (gate_evaluated at.run at.workflow step.name g.action g.fired_rules g.facts)
    ended ← now
    if g.action == "pause"
        then (do
          save env (
              row StepStatus.paused (go.json_encode (object (gate_output g))) "" started
                (some ended))
          raise (
              paused (record {
                workflow_name = at.workflow;
                step_name = step.name;
                fired_rules = g.fired_rules;
                facts = g.facts;
              })))
        else (do
          save env (
              row StepStatus.completed (go.json_encode (object (gate_output g))) "" started
                (some ended))
          fire (step_completed at.run at.workflow step.name step.type none))

  unfoldable pub gate_step : ℕ → Exec Done
  unfolding or_fail gate_outcome
  gate_step started = do
    facts ←
        or_fail started (λ e. e)
          (resolve_decision_facts env at.run at.workflow at.state_name step.facts)
    ctx ← gets (λ w. w.vars)
    found ← or_fail started (wrap "gate evaluation") (lift (evaluate_gate env step.rules facts ctx))
    modify_vars (λ _. found.1)
    gate_outcome started found.0

  unfoldable pub load_artifact_step : ℕ → Exec Done
  unfolding or_fail complete
  load_artifact_step started =
      if is_empty step.artifacts
      then fail started (message "load_artifact step has no artifacts defined")
      else (do
        ctx ← gets (λ w. w.vars)
        t ← gets (λ w. w.clock)
        artifacts ←
            or_fail started (wrap "loading artifacts") (lift (load_artifacts t step.artifacts ctx))
        modify_vars (insert step.name (object (("artifacts", artifacts) ∷ [])))
        complete started "" "" none)
