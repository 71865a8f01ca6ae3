-- ===== src/Engine/Framed/Steps.antt =====
-- The steps that the engine runs itself.
use markov.Prelude.{ℕ, String, List, [], ◌∷◌}
use markov.Value.{Value, Vars}
use markov.Failure.{Error, Result}
use markov.Workflow.{Decision}
use markov.State.{StepResult}
use markov.Engine.Env.{Env, Condition, answered, ask}
use markov.Engine.World.{World, modify_db}
use markov.Engine.Keeps.{Frame, Keeps, keeps_rules}
use markov.Engine.Records.{save, fail_step}
use markov.Engine.Facts.{eval_facts}
use markov.Engine.Decision.{
  ask_decision, recall, decision, decision_call, run_condition, eval_decision_bool, resolve_fact,
  resolve_facts, resolve_decision_facts,
}

module _ (env : Env) {R : World → World → Type 0} (frame : Frame R) where
  pub save-Keeps : (row : StepResult) → Keeps R (save env row)
  unfolding save modify_db
  save-Keeps row = record { at = λ w. frame.row w _ }

  pub fail_step-Keeps :
      {A : Type 0} (run workflow name type : String) (started : ℕ) (e : Error)
      → Keeps R (fail_step env {A = A} run workflow name type started e)
  unfolding fail_step
  fail_step-Keeps run workflow name type started e = search (keeps_rules, save-Keeps)

  pub eval_facts-Keeps : (result vars : Vars) → Keeps R (eval_facts env result vars)
  unfolding eval_facts
  eval_facts-Keeps result [] = search keeps_rules
  eval_facts-Keeps result ((k, v) ∷ vars) =
      search (keeps_rules, λ (result' : Vars). eval_facts-Keeps result' vars)

  pub ask_decision-Keeps :
      (run workflow step name : String) (d : Decision) (hash key : String) (input : Value)
      → Keeps R (ask_decision env run workflow step name d hash key input)
  unfolding ask_decision
  ask_decision-Keeps run workflow step name d hash key input =
      search (keeps_rules, save-Keeps, fail_step-Keeps) depth 14

  pub recall-Keeps :
      (run workflow step name : String) (d : Decision) (hash : String) (input : Value)
      → Keeps R (recall env run workflow step name d hash input)
  unfolding recall
  recall-Keeps run workflow step name d hash input = search (keeps_rules, ask_decision-Keeps)

  pub decision-Keeps :
      (run workflow step name : String) (input refresh : Value)
      → Keeps R (decision env run workflow step name input refresh)
  unfolding decision
  decision-Keeps run workflow step name input refresh = search (keeps_rules, recall-Keeps) depth 8

  pub decision_call-Keeps :
      (run workflow step kind name : String) (input : Value) (refresh : List Value)
      → Keeps R (decision_call env run workflow step kind name input refresh)
  unfolding decision_call
  decision_call-Keeps run workflow step kind name input refresh =
      search (keeps_rules, decision-Keeps) depth 8

  pub run_condition-Keeps :
      (run workflow step : String) (c : Condition) → Keeps R (run_condition env run workflow step c)
  unfolding run_condition
  run_condition-Keeps run workflow step (answered r) = search keeps_rules
  run_condition-Keeps run workflow step (ask kind name input refresh next) = search (
    keeps_rules,
    decision_call-Keeps,
    λ (r : Result Value). run_condition-Keeps run workflow step (next r),
  )

  pub eval_decision_bool-Keeps :
      (run workflow step expr : String) → Keeps R (eval_decision_bool env run workflow step expr)
  unfolding eval_decision_bool
  eval_decision_bool-Keeps run workflow step expr = search (keeps_rules, run_condition-Keeps)

  resolve_fact-Keeps :
      (run workflow step fact : String) (value : Value)
      → Keeps R (resolve_fact env run workflow step fact value)
  unfolding resolve_fact
  resolve_fact-Keeps run workflow step fact value = search (keeps_rules, decision-Keeps) depth 9

  resolve_facts-Keeps :
      (run workflow step : String) (facts : List String) (rendered : Vars)
      → Keeps R (resolve_facts env run workflow step facts rendered)
  unfolding resolve_facts
  resolve_facts-Keeps run workflow step [] rendered = search keeps_rules
  resolve_facts-Keeps run workflow step (fact ∷ facts) rendered = search (
    keeps_rules,
    resolve_fact-Keeps,
    λ (rest : Vars). resolve_facts-Keeps run workflow step facts rest,
  )

  pub resolve_decision_facts-Keeps :
      (run workflow step : String) (facts : Vars)
      → Keeps R (resolve_decision_facts env run workflow step facts)
  unfolding resolve_decision_facts
  resolve_decision_facts-Keeps run workflow step facts = search (keeps_rules, resolve_facts-Keeps)
