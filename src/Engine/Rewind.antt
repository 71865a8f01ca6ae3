-- ===== src/Engine/Rewind.antt =====
-- pkg/engine/rewind.go: completed steps whose definition changed, and the records that a rewind
-- clears. The tree of runs is followed to a given depth.
pub mod Clears
pub mod Forgets
pub mod Index
use markov.Prelude.{
  ℕ, zero, suc, ◌+◌, String, Bool, true, false, not, ◌&&◌, ◌||◌, Option, none, some, List, [], ◌∷◌,
  ◌++◌, concat, join, length, is_empty, ltb, sort_texts, if◌then◌else◌, ◌==◌, map,
}
use markov.Failure.{Error, message, Result, ok, err}
use markov.Workflow.{Step, Workflow, get_workflow, member}
use markov.State.{Db, Run, StepResult, get_run, get_steps, get_child_runs, delete_steps}
use markov.Engine.Env.{Env, RewindTarget}
use markov.Engine.Decision.{is_completed}
use markov.Engine.Records.{
  Section, steps_section, rescue_section, always_section, section_name, find_step, definition_hash,
}

pub record ChangedStep : Type 0 where
  pub run_id : String
  pub workflow : String
  pub state_name : String
  pub stored : String
  pub current : String

infixl 5 ◌then_result◌
abbrev pub ◌then_result◌ : {A B : Type 0} → Result A → (A → Result B) → Result B
ok a then_result f = f a
err e then_result f = err e

module _ (env : Env) where
  open env use {go, file, rewind, rewind_changed}

  -- a completed record that was saved with another definition than its step has now
  unfoldable pub changed_row : String → StepResult → List ChangedStep
  changed_row run row =
      if not (is_completed row.status) || row.definition_hash == ""
      then []
      else elim (find_step env row.workflow_name row.step_name) [
        | none ↦ []
        | some (st, sec) ↦
            if definition_hash env st == row.definition_hash
            then []
            else record {
              run_id = run;
              workflow = row.workflow_name;
              state_name = row.step_name;
              stored = row.definition_hash;
              current = definition_hash env st;
            }
              ∷ []
      ]

  abbrev changed_rows : String → List StepResult → List ChangedStep
  changed_rows run [] = []
  changed_rows run (row ∷ rows) = changed_row run row ++ changed_rows run rows

  abbrev of_runs : (String → List ChangedStep) → List Run → List ChangedStep
  of_runs f [] = []
  of_runs f (r ∷ rs) = f r.run_id ++ of_runs f rs

  -- `changedSteps`
  unfoldable pub changed_steps : ℕ → Db → String → List ChangedStep
  unfolding changed_row
  changed_steps zero db run = []
  changed_steps (suc depth) db run =
      changed_rows run (get_steps db run)
      ++ of_runs (changed_steps depth db) (get_child_runs db run)

  -- `baseStepName`
  unfoldable pub base_step_name : ChangedStep → String
  base_step_name c = elim (find_step env c.workflow c.state_name) [
    | none ↦ c.state_name
    | some (st, sec) ↦ st.name
  ]

  abbrev no_run : String → Error
  no_run id = message (concat ("run " ∷ go.quote id ∷ " not found" ∷ []))

  -- the ancestor of a run that is a child of the root
  unfoldable pub top_ancestor : ℕ → Db → Run → String → Run → Result Run
  top_ancestor zero db root id r = err (no_run id)
  top_ancestor (suc depth) db root id r =
      if r.parent_run_id == root.run_id
      then ok r
      else if r.parent_run_id == ""
      then err (
          message
            (concat ("run " ∷ go.quote id ∷ " is not part of run " ∷ go.quote root.run_id ∷ [])))
      else elim (get_run db r.parent_run_id) [
        | none ↦ err (no_run r.parent_run_id)
        | some parent ↦ top_ancestor depth db root id parent
      ]

  -- `rootTarget`
  unfoldable pub root_target : ℕ → Db → Run → ChangedStep → Result RewindTarget
  unfolding base_step_name top_ancestor
  root_target depth db root c =
      if c.run_id == root.run_id
      then ok (record { workflow = root.entrypoint; step = base_step_name c })
      else elim (get_run db c.run_id) [
        | none ↦ err (no_run c.run_id)
        | some r ↦ elim (top_ancestor depth db root c.run_id r) [
          | err e ↦ err e
          | ok top ↦ ok (record { workflow = root.entrypoint; step = top.parent_step })
        ]
      ]

  abbrev root_targets : ℕ → Db → Run → List ChangedStep → Result (List RewindTarget)
  root_targets depth db root [] = ok []
  root_targets depth db root (c ∷ cs) = elim (root_target depth db root c) [
    | err e ↦ err e
    | ok t ↦ elim (root_targets depth db root cs) [ err e ↦ err e | ok ts ↦ ok (t ∷ ts) ]
  ]

  abbrev callers : String → List Step → List String
  callers name [] = []
  callers name (s ∷ ss) =
      let rest = callers name ss in if s.workflow == name then go.quote s.name ∷ rest else rest

  abbrev hint : Workflow → RewindTarget → String
  hint wf t = concat (
      "rewind to a step of the entrypoint workflow "
      ∷ go.quote wf.name
      ∷ (if is_empty (callers t.workflow wf.steps)
          then ""
          else concat (
              ", for example the step that calls it: "
              ∷ join ", " (callers t.workflow wf.steps)
              ∷ []))
      ∷ [])

  abbrev position : String → List Step → Option ℕ
  position name [] = none
  position name (s ∷ ss) =
      let rest = position name ss in
      if s.name == name then some 0 else elim rest [ none ↦ none | some i ↦ some (suc i) ]

  abbrev has_step : String → List Step → Bool
  has_step name ss = elim (position name ss) [ none ↦ false | some i ↦ true ]

  -- `quoteList` of the names of steps
  abbrev step_names : List Step → String
  step_names ss = join ", " (map (λ (s : Step). go.quote s.name) ss)

  abbrev handler_target : RewindTarget → Section → Error
  handler_target t sec = message (
      concat (
        "step "
        ∷ go.quote t.step
        ∷ " is a "
        ∷ section_name sec
        ∷ " step; rescue and always steps run every time and cannot be a rewind target"
        ∷ []))

  -- `rewindIndex`
  unfoldable pub rewind_index : Workflow → RewindTarget → Result ℕ
  rewind_index wf t =
      if not (t.workflow == wf.name)
      then err (
          message (
            concat (
              "cannot rewind to step "
              ∷ go.quote t.step
              ∷ " of workflow "
              ∷ go.quote t.workflow
              ∷ ": it runs inside the run's sub-workflows; "
              ∷ hint wf t
              ∷ [])))
      else elim (position t.step wf.steps) [
        | some i ↦ ok i
        | none ↦
            if has_step t.step wf.rescue
            then err (handler_target t rescue_section)
            else if has_step t.step wf.always
            then err (handler_target t always_section)
            else err (
                message (
                  concat (
                    "workflow "
                    ∷ go.quote wf.name
                    ∷ " has no step "
                    ∷ go.quote t.step
                    ∷ " (steps: "
                    ∷ step_names wf.steps
                    ∷ ")"
                    ∷ [])))
      ]

  -- the first position among the targets
  unfoldable pub rewind_from_index : Workflow → ℕ → List RewindTarget → Result ℕ
  unfolding rewind_index
  rewind_from_index wf from [] = ok from
  rewind_from_index wf from (t ∷ ts) = elim (rewind_index wf t) [
    | err e ↦ err e
    | ok i ↦ rewind_from_index wf (if ltb i from then i else from) ts
  ]

  abbrev pub names_from : ℕ → List Step → List String
  names_from i [] = []
  names_from zero (s ∷ ss) = s.name ∷ names_from zero ss
  names_from (suc i) (s ∷ ss) = names_from i ss

  abbrev is_steps : Section → Bool
  is_steps steps_section = true
  is_steps _ = false

  -- a record of one of the steps that are rewound
  unfoldable pub is_rewound : String → List String → StepResult → Bool
  is_rewound workflow names row = elim (find_step env workflow row.step_name) [
    | none ↦ false
    | some (st, sec) ↦ is_steps sec && member st.name names
  ]

  abbrev pub rewound_rows : String → List String → List StepResult → List String
  rewound_rows workflow names [] = []
  rewound_rows workflow names (row ∷ rows) =
      let rest = rewound_rows workflow names rows in
      if is_rewound workflow names row then row.step_name ∷ rest else rest

  abbrev pub row_names : List StepResult → List String
  row_names [] = []
  row_names (row ∷ rows) = row.step_name ∷ row_names rows

  abbrev pub clear_each : (Db → String → Db × ℕ) → Db → List Run → Db × ℕ
  clear_each clear db [] = (db, 0)
  clear_each clear db (r ∷ rs) =
      let here = clear db r.run_id in
      let later = clear_each clear here.0 rs in (later.0, here.1 + later.1)

  -- `clearRun`: the tables, and how many records were deleted
  unfoldable pub clear_run : ℕ → Db → String → Db × ℕ
  clear_run zero db run = (db, 0)
  clear_run (suc depth) db run =
      let names = row_names (get_steps db run) in
      let db' = delete_steps db run names in
      let below = clear_each (clear_run depth) db' (get_child_runs db' run) in
      (below.0, length names + below.1)

  abbrev pub started_by : List String → List Run → List Run
  started_by names [] = []
  started_by names (r ∷ rs) =
      let rest = started_by names rs in if member r.parent_step names then r ∷ rest else rest

  -- `rewindFrom`
  unfoldable pub rewind_from : ℕ → Db → Run → Workflow → ℕ → Db × ℕ
  unfolding clear_run is_rewound
  rewind_from depth db run wf from =
      let names = names_from from wf.steps in
      let rows = sort_texts (rewound_rows run.entrypoint names (get_steps db run.run_id)) in
      let db' = delete_steps db run.run_id rows in
      let below =
        clear_each (clear_run depth) db' (started_by names (get_child_runs db' run.run_id)) in
      (below.0, length rows + below.1)

  -- all targets: those asked for, and those of changed steps
  abbrev pub targets : ℕ → Db → Run → List ChangedStep → Result (List RewindTarget)
  targets depth db run changed =
      if rewind_changed
      then root_targets depth db run changed then_result (λ ts. ok (rewind ++ ts))
      else ok rewind

  abbrev pub rewound_at :
      ℕ → Db → Run → List ChangedStep → Workflow → Result ℕ → Result (List ChangedStep × Bool × Db)
  rewound_at depth db run changed wf (err e) = err e
  rewound_at depth db run changed wf (ok from) =
      ok (changed, true, (rewind_from depth db run wf from).0)

  abbrev pub rewound_in :
      ℕ
      → Db
      → Run
      → List ChangedStep
      → List RewindTarget
      → Option Workflow
      → Result (List ChangedStep × Bool × Db)
  rewound_in depth db run changed ts none =
      err (message (concat ("workflow " ∷ go.quote run.entrypoint ∷ " not found" ∷ [])))
  rewound_in depth db run changed ts (some wf) =
      rewound_at depth db run changed wf (rewind_from_index wf (length wf.steps) ts)

  -- the rewind itself, where there is a target
  unfoldable pub rewind_to :
      ℕ → Db → Run → List ChangedStep → List RewindTarget → Result (List ChangedStep × Bool × Db)
  unfolding rewind_from_index rewind_from
  rewind_to depth db run changed [] = ok (changed, false, db)
  rewind_to depth db run changed (t ∷ ts) =
      rewound_in depth db run changed (t ∷ ts) (get_workflow file run.entrypoint)

  -- `prepareResume`: what changed, whether the run was rewound, and the tables
  unfoldable pub prepare_resume : ℕ → Db → Run → Result (List ChangedStep × Bool × Db)
  unfolding changed_steps root_target rewind_to
  prepare_resume depth db run =
      let changed = changed_steps depth db run.run_id in
      targets depth db run changed then_result (λ ts. rewind_to depth db run changed ts)
