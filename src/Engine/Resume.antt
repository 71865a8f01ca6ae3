-- ===== src/Engine/Resume.antt =====
-- `ResumeWithVars` and `checkSourceIntegrity` of engine.go.
pub mod Overrides
pub mod Integrity
use markov.Prelude.{
  map, ℕ, ◌-◌, ◌+◌, String, Bool, true, false, not, ◌&&◌, ◌||◌, Option, none, some, List, [], ◌∷◌,
  insert, merge, concat, length, is_empty, leb, if◌then◌else◌, ◌==◌, or_else, ℤ, pos, negsuc,
}
use markov.Value.{Vars, object, map_value}
use markov.Failure.{Error, message, ok, err}
use markov.Workflow.{Workflow, get_workflow}
use markov.State.{
  Run, RunStatus, running, paused, completed, failed, StepResult, SourceCheck, get_run, get_steps,
  save_source_check,
}
use markov.Engine.Env.{Env, IntegrityMode, warn, strict, off}
use markov.Engine.World.{
  run_resumed, Exec, Done, pure, raise, lift, gets, attempt, now, fire, modify_db, modify_vars,
  set_digest, ◌>>=◌, ◌>>◌,
}
use markov.Engine.Context.{decode_state, step_type_is}
use markov.Engine.Decision.{is_completed}
use markov.Engine.Records.{is_receipt}
use markov.Engine.SubWorkflow.{set_run}
use markov.Engine.Step.{facts_in, merge_some}
use markov.Engine.Rewind.{ChangedStep, base_step_name, prepare_resume}
use markov.Engine.Runs.{current_source_digest, execute_run}

abbrev mode_name : IntegrityMode → String
mode_name warn = "warn"
mode_name strict = "strict"
mode_name off = "off"

abbrev pub is_off : IntegrityMode → Bool
is_off off = true
is_off _ = false

abbrev is_strict : IntegrityMode → Bool
is_strict strict = true
is_strict _ = false

abbrev status_text : RunStatus → String
status_text running = "running"
status_text paused = "paused"
status_text completed = "completed"
status_text failed = "failed"

-- Which runs can be resumed: failed and paused ones, and completed ones that are rewound.
unfoldable pub resumable : Bool → RunStatus → Bool
resumable rewinding failed = true
resumable rewinding paused = true
resumable rewinding completed = rewinding
resumable rewinding running = false

abbrev is_run_paused : RunStatus → Bool
is_run_paused paused = true
is_run_paused _ = false

module _ (env : Env) where
  open env use {go, file, integrity_mode, rewind, rewind_changed}

  abbrev pub check_row : Run → ℕ → String → Bool → SourceCheck
  check_row row t observed drifted = record {
    run_id = row.run_id;
    checked_at = t;
    mode = mode_name integrity_mode;
    expected_digest = row.source_digest;
    observed_digest = observed;
    source_drifted = drifted;
  }

  abbrev pub drift : Run → String → Bool
  drift row observed = not (row.source_digest == "") && not (observed == row.source_digest)

  -- what strict mode refuses
  unfoldable pub refusal : Run → SourceCheck → Option Error
  refusal row check =
      if is_strict integrity_mode
      then if row.source_digest == ""
        then some (
            message (
              concat (
                "cannot resume run "
                ∷ go.quote row.run_id
                ∷ " in strict source-integrity mode: it has no recorded source digest"
                ∷ [])))
        else if check.source_drifted
        then some (
            message (
              concat (
                "cannot resume run "
                ∷ go.quote row.run_id
                ∷ ": workflow source changed (recorded digest "
                ∷ row.source_digest
                ∷ ", current digest "
                ∷ check.observed_digest
                ∷ ")"
                ∷ [])))
        else none
      else none

  abbrev pub observe : Run → ℕ → Exec SourceCheck
  observe row t = if is_off integrity_mode then pure (check_row row t "" false) else (do
    r ← attempt (current_source_digest env)
    elim r [
      | ok observed ↦ pure (check_row row t observed (drift row observed))
      | err e ↦ do modify_db (λ db. save_source_check db (check_row row t "" false)); raise e
    ])

  -- `checkSourceIntegrity`: the check is recorded before it is judged
  unfoldable pub check_source_integrity : Run → Exec SourceCheck
  unfolding refusal
  check_source_integrity row = do
    t ← now
    check ← observe row t
    modify_db (λ db. save_source_check db check)
    refused ← pure (refusal row check)
    elim refused [ some e ↦ raise e | none ↦ pure check ]

  -- what the record of a completed step puts into the context of a resumed run
  unfoldable pub restored : Workflow → StepResult → Vars → Vars
  restored wf row ctx =
      if step_type_is "set_fact" wf.steps row.step_name && not (row.output_json == "")
      then merge_some ctx (decode_state go row.output_json)
      else if step_type_is "gate" wf.steps row.step_name && not (row.output_json == "")
      then merge_some ctx
          (elim (decode_state go row.output_json) [ none ↦ none | some m ↦ facts_in m ])
      else if not (row.artifacts_json == "")
      then insert row.step_name (map_value (decode_state go row.artifacts_json)) ctx
      else if not (row.output_json == "")
      then insert row.step_name (map_value (decode_state go row.output_json)) ctx
      else ctx

  -- the loop over the records, but for those of decisions
  unfoldable pub restore_rows : Workflow → List StepResult → Vars → Vars
  unfolding restored
  restore_rows wf [] ctx = ctx
  restore_rows wf (row ∷ rows) ctx = restore_rows wf rows (
      if is_receipt row.step_name
      then ctx
      else if is_completed row.status
      then restored wf row ctx
      else ctx)

  abbrev count_completed : List StepResult → ℕ
  count_completed [] = 0
  count_completed (row ∷ rows) =
      let rest = count_completed rows in if is_completed row.status then rest + 1 else rest

  -- `a - b` as an `int`
  abbrev minus : ℕ → ℕ → ℤ
  minus a b = if leb b a then pos (a - b) else negsuc (b - a - 1)

  abbrev not_resumable : Run → Error
  not_resumable row = message (
      concat (
        "run "
        ∷ go.quote row.run_id
        ∷ " has status "
        ∷ go.quote (status_text row.status)
        ∷ "; only failed or paused runs can be resumed (a completed run can be rewound with --rewind)"
        ∷ []))

  abbrev needs_override : Run → Error
  needs_override row = message (
      concat (
        "paused run "
        ∷ go.quote row.run_id
        ∷ " requires at least one --var override to resume"
        ∷ []))

  abbrev rewinding : Bool
  rewinding = not (is_empty rewind) || rewind_changed

  -- the tests at the start of `ResumeWithVars`
  unfoldable pub admit : Run → Vars → Option Error
  unfolding resumable
  admit row vars =
      if not (resumable rewinding row.status)
      then some (not_resumable row)
      else if is_run_paused row.status && is_empty vars
      then some (needs_override row)
      else none

  -- The run's record as `ResumeWithVars` writes it back: running again, with the overrides.
  abbrev reopened : Run → Vars → Run
  reopened row stored = record row { vars_json = go.json_encode (object stored) }

  -- from the context on: the run is marked as running, and executed
  unfoldable pub reopen :
      ℕ → Run → Workflow → SourceCheck → List ChangedStep → Bool → Vars → Exec Done
  unfolding restore_rows
  reopen depth row wf check changed rewound vars = do
    rows ← gets (λ w. get_steps w.db row.run_id)
    let stored = or_else (decode_state go row.vars_json) []
    let ctx = merge (restore_rows wf rows (merge [] stored)) vars
    let row' = reopened row (merge stored vars)
    set_run env row' running none
    fire (
        run_resumed row.run_id row.entrypoint (count_completed rows)
          (minus (length wf.steps) (count_completed rows)) check
          (map (λ (c : ChangedStep). (c.run_id, c.workflow, base_step_name env c)) changed) rewound)
    modify_vars (λ _. ctx)
    execute_run env depth row' wf

  -- `prepareResume`, and what it leaves in the tables
  unfoldable pub prepare : ℕ → Run → Exec (List ChangedStep × Bool)
  prepare depth row = do
    db ← gets (λ w. w.db)
    prepared ← lift (prepare_resume env depth db row)
    modify_db (λ _. prepared.2)
    pure (prepared.0, prepared.1)

  -- a run that was admitted
  unfoldable pub resume_admitted : ℕ → Run → Vars → Exec Done
  unfolding check_source_integrity prepare reopen
  resume_admitted depth row vars = do
    check ← check_source_integrity row
    set_digest row.source_digest
    found ← pure (get_workflow file row.entrypoint)
    elim found [
      | none ↦ raise (message (concat ("workflow " ∷ go.quote row.entrypoint ∷ " not found" ∷ [])))
      | some wf ↦ do
        prepared ← prepare depth row
        reopen depth row wf check prepared.0 prepared.1 vars
    ]

  -- `ResumeWithVars`
  unfoldable pub resume_with_vars : ℕ → String → Vars → Exec Done
  unfolding admit resume_admitted
  resume_with_vars depth id vars = do
    db ← gets (λ w. w.db)
    found ← pure (get_run db id)
    elim found [
      | none ↦ raise (message (concat ("run " ∷ go.quote id ∷ " not found" ∷ [])))
      | some row ↦ do
        refused ← pure (admit row vars)
        elim refused [ some e ↦ raise e | none ↦ resume_admitted depth row vars ]
    ]
