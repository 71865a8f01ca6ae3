-- ===== src/State/Rows.antt =====
-- What the reads of the tables give after the writes.
use markov.Prelude.{
  String, ◌≡◌, refl, Bool, ◌&&◌, Option, none, some, List, [], ◌∷◌, arith, eq_iff, ◌==◌,
  if◌then◌else◌,
}
use markov.State.{Db, Run, StepResult, get_run, update_run, get_step, save_step}
use markov.State

abbrev pub is_key : StepResult → String → String → String → Bool
is_key row run workflow name =
    row.run_id == run && (row.workflow_name == workflow && row.step_name == name)

-- A saved record is what its key reads, and every other key reads as before.
pub get_step-save_step :
    (db : Db) (row : StepResult) (run workflow name : String)
    → get_step (save_step db row) run workflow name
      ≡ (if is_key row run workflow name then some row else get_step db run workflow name)
unfolding get_step save_step
get_step-save_step db row run workflow name = go db.steps
  where
    go :
        (rows : List StepResult)
        → State.find_step_row run workflow name (State.upsert row rows) ≡ (
            if is_key row run workflow name
            then some row
            else State.find_step_row run workflow name rows)
    go [] = refl
    go (r ∷ rows) = ground (
      arith,
      go rows,
      eq_iff r.run_id row.run_id,
      eq_iff r.workflow_name row.workflow_name,
      eq_iff r.step_name row.step_name,
      eq_iff r.run_id run,
      eq_iff r.workflow_name workflow,
      eq_iff r.step_name name,
      eq_iff row.run_id run,
      eq_iff row.workflow_name workflow,
      eq_iff row.step_name name,
    )

abbrev pub with_status : Run → Run → Run
with_status run r = record r { status = run.status; completed_at = run.completed_at }

abbrev pub map_run : (Run → Run) → Option Run → Option Run
map_run f none = none
map_run f (some r) = some (f r)

-- An update of a run writes its status and its end, and nothing else of any run.
pub get_run-update_run :
    (db : Db) (run : Run) (id : String)
    → get_run (update_run db run) id
      ≡ (if run.run_id == id then map_run (with_status run) (get_run db id) else get_run db id)
unfolding get_run update_run
get_run-update_run db run id = go db.runs
  where
    go :
        (rows : List Run)
        → State.find_run id (State.set_status run rows) ≡ (
            if run.run_id == id
            then map_run (with_status run) (State.find_run id rows)
            else State.find_run id rows)
    go [] = ground arith
    go (r ∷ rows) =
        ground
          (arith, go rows, eq_iff r.run_id run.run_id, eq_iff r.run_id id, eq_iff run.run_id id)
