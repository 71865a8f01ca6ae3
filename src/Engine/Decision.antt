-- ===== src/Engine/Decision.antt =====
-- pkg/engine/jev.go: decisions, which are asked once and kept as records of their own.
pub mod Once
use markov.Prelude.{
  ℕ, String, Bool, true, false, Option, none, some, List, [], ◌∷◌, lookup, insert, merge, keys,
  concat, sort_texts, if◌then◌else◌, ◌==◌, or_else,
}
use markov.Value.{
  Value, Vars, null, str, object, as_map, as_string, index, decision_functions, is_null,
}
use markov.Failure.{message, wrap, Result, ok, err, map_error}
use markov.Workflow.{Decision}
use markov.State.{StepResult, StepStatus, completed, get_step}
use markov.Engine.Env.{Env, Execution, Condition, answered, ask}
use markov.Engine.World.{
  step_started, step_completed, Exec, pure, raise, lift, gets, attempt, now, fire, ◌>>=◌, ◌>>◌,
}
use markov.Engine.Records.{save, fail_step}

-- `decisionAnswer`
unfoldable pub decision_answer : Vars → Result Vars
decision_answer out = elim (as_map (index out "answers")) [
  | none ↦ err (message "decision receipt missing answers")
  | some answers ↦ elim (as_map (index answers "result")) [
    | none ↦ err (message "decision receipt missing result")
    | some answer ↦ ok answer
  ]
]

-- `d.Question()` as an executor's parameter
abbrev question_value : Decision → Value
question_value d =
    object (("type", str d.type) ∷ ("instructions", d.instructions) ∷ ("criteria", d.criteria) ∷ [])

abbrev pub is_completed : StepStatus → Bool
is_completed completed = true
is_completed _ = false

-- JSON text read into a map: `null` leaves it nil
abbrev as_record : Value → Option Vars
as_record null = some []
as_record v = as_map v

module _ (env : Env) where
  open env use {go, file, tmpl, executors}

  -- A record of a decision, while it runs and when it is done.
  abbrev pub receipt : String → String → String → ℕ → StepStatus → String → Option ℕ → StepResult
  receipt run workflow key started status output ended = record {
    run_id = run;
    workflow_name = workflow;
    step_name = key;
    status = status;
    output_json = output;
    artifacts_json = "";
    error = "";
    started_at = some started;
    completed_at = ended;
    definition_hash = "";
  }

  -- the answer that a completed record holds
  unfoldable pub saved_answer : StepResult → Result Vars
  unfolding decision_answer
  saved_answer row = elim (go.json_decode row.output_json) [
    | none ↦ err (wrap "reading decision receipt" (message (go.json_error row.output_json)))
    | some v ↦ elim (as_record v) [
      | some out ↦ decision_answer out
      | none ↦ err (wrap "reading decision receipt" (message (go.json_error row.output_json)))
    ]
  ]

  -- the parameters of the executor
  abbrev question : Decision → Value → Vars
  question d input =
      ("connection", str d.connection)
      ∷ ("state", input)
      ∷ ("questions", object (("result", question_value d) ∷ []))
      ∷ []

  -- the output with the decision's identity in it
  abbrev pub identified : String → Decision → String → String → Vars → Vars
  identified name d hash step output =
      insert "decision"
        (object (
          ("name", str name)
          ∷ ("version", str d.version)
          ∷ ("fingerprint", str hash)
          ∷ ("parent_step", str step)
          ∷ []))
        output

  -- The executor's outcome: its output, or the error that fails the record.
  abbrev outcome : Execution → Result Vars
  outcome x = elim x.error [
    | some e ↦ err e
    | none ↦
        let output = or_else x.output [] in
        elim (decision_answer output) [ err e ↦ err e | ok answer ↦ ok output ]
  ]

  -- what the executor left: an error fails the record, and an output completes it
  unfoldable pub keep_answer :
      String → String → String → String → Decision → String → String → ℕ → Result Vars → Exec Vars
  unfolding decision_answer
  keep_answer run workflow step name d hash key started (err e) =
      fail_step env run workflow key "jev" started e
  keep_answer run workflow step name d hash key started (ok output) = do
    let full = identified name d hash step output
    ended ← now
    save env
        (receipt run workflow key started completed (go.json_encode (object full)) (some ended))
    fire (step_completed run workflow key "jev" (some full))
    lift (decision_answer full)

  -- from `started := time.Now()` on: the decision is asked, and its record kept
  unfoldable pub ask_decision :
      String → String → String → String → Decision → String → String → Value → Exec Vars
  unfolding decision_answer keep_answer
  ask_decision run workflow step name d hash key input = do
    started ← now
    save env (receipt run workflow key started StepStatus.running "" none)
    fire (step_started run workflow key "jev" "jev" none)
    found ← pure (lookup "jev" executors)
    elim found [
      | none ↦ raise (message "Jev executor not registered")
      | some executor ↦ do
        t ← gets (λ w. w.clock)
        r ← attempt (lift (outcome (executor.execute t (question d input))))
        keep_answer run workflow step name d hash key started r
    ]

  -- a completed record answers; anything else is asked
  unfoldable pub recall : String → String → String → String → Decision → String → Value → Exec Vars
  unfolding saved_answer ask_decision
  recall run workflow step name d hash input = do
    let key = concat ("__jev__/" ∷ step ∷ "/" ∷ hash ∷ [])
    saved ← gets (λ w. get_step w.db run workflow key)
    elim saved [
      | none ↦ ask_decision run workflow step name d hash key input
      | some row ↦
          if is_completed row.status
          then lift (saved_answer row)
          else ask_decision run workflow step name d hash key input
    ]

  -- `decision`
  unfoldable pub decision : String → String → String → String → Value → Value → Exec Vars
  unfolding recall
  decision run workflow step name input refresh = do
    found ← pure (lookup name file.decisions)
    elim found [
      | none ↦ raise (message (concat ("unknown Jev decision " ∷ go.quote name ∷ [])))
      | some d ↦
          if is_null input
          then raise (message (concat ("decision " ∷ go.quote name ∷ ": state is required" ∷ [])))
          else (do
            connection ← pure (lookup d.connection file.connections)
            elim connection [
              | none ↦
                  raise (message (concat ("unknown Jev connection " ∷ go.quote d.connection ∷ [])))
              | some conn ↦ do
                identity ← lift (go.decision_json step name d conn input refresh)
                recall run workflow step name d (go.sha256_hex identity) input
            ])
    ]

  -- the refresh token of a call: at most one
  abbrev token_of : List Value → Result Value
  token_of [] = ok null
  token_of (v ∷ []) = ok v
  token_of (v ∷ u ∷ vs) = err (message "decision takes at most one refresh token")

  -- the functions that `evalDecisionBool` puts under `jev`
  unfoldable pub decision_call :
      String → String → String → String → String → Value → List Value → Exec Value
  unfolding decision
  decision_call run workflow step kind name input refresh = do
    found ← pure (lookup name file.decisions)
    elim found [
      | none ↦ raise (message (concat ("unknown Jev decision " ∷ go.quote name ∷ [])))
      | some d ↦
          if d.type == kind
          then (do
            token ← lift (token_of refresh)
            answer ← decision run workflow step name input token
            pure (index answer kind))
          else raise (
              message
                (concat ("decision " ∷ go.quote name ∷ " is " ∷ d.type ∷ ", not " ∷ kind ∷ [])))
    ]

  unfoldable pub run_condition : String → String → String → Condition → Exec Bool
  unfolding decision_call
  run_condition run workflow step (answered r) = lift r
  run_condition run workflow step (ask kind name input refresh next) =
      attempt (decision_call run workflow step kind name input refresh) >>= λ r.
      run_condition run workflow step (next r)

  -- `evalDecisionBool`; the time limit is the executor's
  unfoldable pub eval_decision_bool : String → String → String → String → Exec Bool
  unfolding run_condition
  eval_decision_bool run workflow step expr = do
    ctx ← gets (λ w. w.vars)
    run_condition run workflow step
        (tmpl.eval_condition expr (insert "jev" decision_functions (merge [] ctx)))

  -- the field of an answer that a fact selects
  abbrev selected : String → Vars → Vars → Result Value
  selected name spec answer =
      let given = or_else (as_string (index spec "select")) "" in
      let type : String = elim (lookup name file.decisions) [ none ↦ "" | some d ↦ d.type ] in
      let sel = if given == "" then type else given in
      elim (lookup sel answer) [
        | some v ↦ ok v
        | none ↦
            err (
              message (concat ("decision " ∷ go.quote name ∷ " has no field " ∷ go.quote sel ∷ [])))
      ]

  -- one fact: its value, if it is a decision's
  abbrev decide_fact : String → String → String → String → Vars → Value → Exec (Option Value)
  decide_fact run workflow step fact spec raw = do
    given ← pure (as_string raw)
    elim given [
      | none ↦ raise (message (concat ("fact " ∷ go.quote fact ∷ ": invalid decision name" ∷ [])))
      | some name ↦ do
        r ← attempt (decision run workflow step name (index spec "state") (index spec "refresh"))
        answer ← lift (map_error (wrap (concat ("fact " ∷ go.quote fact ∷ []))) r)
        value ← lift (selected name spec answer)
        pure (some value)
    ]

  -- the `decision` of a fact that is a map
  abbrev spec_of : Value → Option (Vars × Value)
  spec_of value = elim (as_map value) [
    | none ↦ none
    | some spec ↦ elim (lookup "decision" spec) [ none ↦ none | some raw ↦ some (spec, raw) ]
  ]

  unfoldable pub resolve_fact : String → String → String → String → Value → Exec (Option Value)
  unfolding decision
  resolve_fact run workflow step fact value = do
    spec ← pure (spec_of value)
    elim spec [ none ↦ pure none | some found ↦ decide_fact run workflow step fact found.0 found.1 ]

  abbrev put_fact : String → Option Value → Vars → Vars
  put_fact fact none rendered = rendered
  put_fact fact (some v) rendered = insert fact v rendered

  unfoldable pub resolve_facts : String → String → String → List String → Vars → Exec Vars
  unfolding resolve_fact
  resolve_facts run workflow step [] rendered = pure rendered
  resolve_facts run workflow step (fact ∷ facts) rendered = do
    value ← resolve_fact run workflow step fact (index rendered fact)
    resolve_facts run workflow step facts (put_fact fact value rendered)

  -- `resolveDecisionFacts`, in the order of the facts' names
  unfoldable pub resolve_decision_facts : String → String → String → Vars → Exec Vars
  unfolding resolve_facts
  resolve_decision_facts run workflow step facts = do
    ctx ← gets (λ w. w.vars)
    rendered ← lift (tmpl.render_map facts ctx)
    resolve_facts run workflow step (sort_texts (keys rendered)) rendered
