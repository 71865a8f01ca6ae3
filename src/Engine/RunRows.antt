-- ===== src/Engine/RunRows.antt =====
-- The rows of runs while workflows execute: none is lost, and only its status and its end change.
use markov.Prelude.{
  ℕ, String, ◌≡◌, ◌∙◌, none, some, List, [], ◌∷◌, ◌++◌, arith, ◌==◌, or_else, Bool-cases, inl, inr,
}
use markov.Workflow.{Workflow}
use markov.State
use markov.State.{Db, Run, get_run, create_run, update_run, save_step, StepResult}
use markov.State.Rows.{get_run-update_run, with_status}
use markov.Engine.Env.{Env}
use markov.Engine.World.{World}
use markov.Engine.Keeps.{Frame}
use markov.Engine.Lifecycle.{execute_workflow}
use markov.Engine.Framed.Workflows.{execute_workflow-Keeps}

-- The row is that row, but for its status and the time of its end.
pub record SameRun (a b : Run) : Type 0 where
  pub run_id : b.run_id ≡ a.run_id
  pub workflow_file : b.workflow_file ≡ a.workflow_file
  pub entrypoint : b.entrypoint ≡ a.entrypoint
  pub source_digest : b.source_digest ≡ a.source_digest
  pub vars_json : b.vars_json ≡ a.vars_json
  pub parent_run_id : b.parent_run_id ≡ a.parent_run_id
  pub parent_step : b.parent_step ≡ a.parent_step
  pub for_each_key : b.for_each_key ≡ a.for_each_key
  pub started_at : b.started_at ≡ a.started_at

abbrev pub RunKept : Db → Db → Type 0
RunKept d e =
    (id : String) (a : Run)
    → get_run d id ≡ some a
    → (b : Run) × (get_run e id ≡ some b) × SameRun a b

pub SameRun-refl : (a : Run) → SameRun a a
SameRun-refl a = ground arith

pub SameRun-trans : {a b c : Run} → SameRun a b → SameRun b c → SameRun a c
SameRun-trans p q = ground arith

get_run-create_run :
    (db : Db) (run : Run) (id : String) (a : Run)
    → get_run db id ≡ some a
    → get_run (or_else (create_run db run) db) id ≡ some a
unfolding get_run create_run
get_run-create_run db run id a h =
    elim (State.find_run run.run_id db.runs)
      as (λ o.
        State.find_run id
          (or_else
            (elim o [
              | some old ↦ none
              | none ↦
                  some (record db { runs = db.runs ++ record run { completed_at = none } ∷ [] })
            ])
            db).runs
        ≡ some a) [ none ↦ go db.runs h | some old ↦ h ]
  where
    go :
        (rows : List Run)
        → State.find_run id rows ≡ some a
        → State.find_run id (rows ++ record run { completed_at = none } ∷ []) ≡ some a
    go [] e = cc
    go (r ∷ rows) e = ground (arith, go rows)

update_run-RunKept : (db : Db) (run : Run) → RunKept db (update_run db run)
update_run-RunKept db run id a h = elim (Bool-cases (run.run_id == id)) [
  | inl e ↦ (with_status run a, get_run-update_run db run id ∙ rw (e, h), ground arith)
  | inr e ↦ (a, get_run-update_run db run id ∙ rw (e, h), SameRun-refl a)
]

save_step-RunKept : (db : Db) (row : StepResult) → RunKept db (save_step db row)
unfolding get_run save_step
save_step-RunKept db row id a h = (a, h, SameRun-refl a)

pub RunKept-Frame : Frame (λ u w. RunKept u.db w.db)
RunKept-Frame = record {
  refl = λ w id a h. (a, h, SameRun-refl a);
  trans = λ u v w p q id a h.
      let first = p id a h in
      let second = q id first.0 first.1 in (second.0, second.1, SameRun-trans first.2 second.2);
  vars = λ w vars id a h. (a, h, SameRun-refl a);
  tick = λ w id a h. (a, h, SameRun-refl a);
  emit = λ w e id a h. (a, h, SameRun-refl a);
  row = λ w row. save_step-RunKept w.db row;
  status = λ w run. update_run-RunKept w.db run;
  new_run = λ w run id a h. (a, get_run-create_run w.db run id a h, SameRun-refl a);
}

pub execute_workflow-RunKept :
    (env : Env) (depth : ℕ) (run : String) (wf : Workflow) (w : World)
    → RunKept w.db (execute_workflow env depth run wf w).1.db
execute_workflow-RunKept env depth run wf w =
    (execute_workflow-Keeps RunKept-Frame env depth run wf).at w

-- While a workflow executes, its sub-workflows included, no row of a run is lost, and each keeps
-- its identifier, workflow file, entrypoint, source digest, stored variables, parent run, parent
-- step, for_each key and start: only its status and its end may change.
pub execute_workflow-keeps_run :
    (env : Env) (depth : ℕ) (run : String) (wf : Workflow) (w : World) (id : String) (a : Run)
    → get_run w.db id ≡ some a
    → (b : Run) × (get_run (execute_workflow env depth run wf w).1.db id ≡ some b) × SameRun a b
execute_workflow-keeps_run env depth run wf w id a h =
    execute_workflow-RunKept env depth run wf w id a h
