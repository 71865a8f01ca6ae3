-- ===== src/State.antt =====
-- pkg/state: the rows of store.go, and the operations of sqlite.go as functions on the three tables.
-- The empty text is stored as NULL and read back as the empty text, so a row is kept as written.
pub mod Rows
pub mod Deletes
pub mod Keys
use markov.Prelude.{
  ℕ, suc, String, Bool, ◌&&◌, Option, none, some, List, [], ◌∷◌, ◌++◌, ◌==◌, if◌then◌else◌, leb,
}

pub data RunStatus : Type 0 where
  running paused completed failed : RunStatus

pub data StepStatus : Type 0 where
  pending running paused completed failed skipped : StepStatus

-- Times are clock readings.
pub record Run : Type 0 where
  pub run_id : String
  pub workflow_file : String
  pub source_digest : String
  pub entrypoint : String
  pub status : RunStatus
  pub vars_json : String
  pub parent_run_id : String
  pub parent_step : String
  pub for_each_key : String
  pub started_at : ℕ
  pub completed_at : Option ℕ

pub record SourceCheck : Type 0 where
  pub run_id : String
  pub checked_at : ℕ
  pub mode : String
  pub expected_digest : String
  pub observed_digest : String
  pub source_drifted : Bool

pub record StepResult : Type 0 where
  pub run_id : String
  pub workflow_name : String
  pub step_name : String
  pub status : StepStatus
  pub output_json : String
  pub artifacts_json : String
  pub error : String
  pub started_at : Option ℕ
  pub completed_at : Option ℕ
  pub definition_hash : String

pub record Db : Type 0 where
  pub runs : List Run
  pub steps : List StepResult
  pub checks : List SourceCheck

abbrev pub empty : Db
empty = record { runs = []; steps = []; checks = [] }

-- `ORDER BY`: rows with equal keys stay in insertion order, and NULL comes first.
module _ {A : Type 0} (key : A → ℕ) where
  abbrev pub place : A → List A → List A
  place a [] = a ∷ []
  place a (b ∷ bs) = if leb (key a) (key b) then a ∷ b ∷ bs else b ∷ place a bs

  abbrev pub sort_by : List A → List A
  sort_by [] = []
  sort_by (a ∷ as') = place a (sort_by as')

abbrev time_key : Option ℕ → ℕ
time_key none = 0
time_key (some t) = suc t

abbrev pub find_run : String → List Run → Option Run
find_run id [] = none
find_run id (r ∷ rs) = if r.run_id == id then some r else find_run id rs

-- `none` where the source returns the error `run not found`
unfoldable pub get_run : Db → String → Option Run
get_run db id = find_run id db.runs

-- `CreateRun`; `none` is the violation of the primary key. `completed_at` is not among its columns.
unfoldable pub create_run : Db → Run → Option Db
create_run db run = elim (find_run run.run_id db.runs) [
  | some old ↦ none
  | none ↦ some (record db { runs = db.runs ++ record run { completed_at = none } ∷ [] })
]

-- `UPDATE runs SET status = ?, completed_at = ? WHERE run_id = ?`
abbrev pub set_status : Run → List Run → List Run
set_status run [] = []
set_status run (r ∷ rs) =
    (if r.run_id == run.run_id
      then record r { status = run.status; completed_at = run.completed_at }
      else r)
    ∷ set_status run rs

unfoldable pub update_run : Db → Run → Db
update_run db run = record db { runs = set_status run db.runs }

abbrev pub children : String → List Run → List Run
children parent [] = []
children parent (r ∷ rs) =
    let rest = children parent rs in if r.parent_run_id == parent then r ∷ rest else rest

unfoldable pub get_child_runs : Db → String → List Run
get_child_runs db parent = sort_by (λ r. r.started_at) (children parent db.runs)

unfoldable pub save_source_check : Db → SourceCheck → Db
save_source_check db check = record db { checks = db.checks ++ check ∷ [] }

abbrev pub same_key : StepResult → StepResult → Bool
same_key a b =
    a.run_id == b.run_id && (a.workflow_name == b.workflow_name && a.step_name == b.step_name)

-- `INSERT … ON CONFLICT (run_id, workflow_name, step_name) DO UPDATE`
abbrev pub upsert : StepResult → List StepResult → List StepResult
upsert row [] = row ∷ []
upsert row (r ∷ rs) = if same_key r row then row ∷ rs else r ∷ upsert row rs

unfoldable pub save_step : Db → StepResult → Db
save_step db row = record db { steps = upsert row db.steps }

abbrev pub find_step_row : String → String → String → List StepResult → Option StepResult
find_step_row run workflow name [] = none
find_step_row run workflow name (r ∷ rs) =
    if r.run_id == run && (r.workflow_name == workflow && r.step_name == name)
    then some r
    else find_step_row run workflow name rs

unfoldable pub get_step : Db → String → String → String → Option StepResult
get_step db run workflow name = find_step_row run workflow name db.steps

abbrev pub rows_of : String → List StepResult → List StepResult
rows_of run [] = []
rows_of run (r ∷ rs) = let rest = rows_of run rs in if r.run_id == run then r ∷ rest else rest

unfoldable pub get_steps : Db → String → List StepResult
get_steps db run = sort_by (λ r. time_key r.started_at) (rows_of run db.steps)

-- `DELETE FROM steps WHERE run_id = ? AND step_name = ?`
abbrev pub delete_rows : String → String → List StepResult → List StepResult
delete_rows run name [] = []
delete_rows run name (r ∷ rs) =
    let rest = delete_rows run name rs in
    if r.run_id == run && r.step_name == name then rest else r ∷ rest

abbrev pub delete_all : String → List String → List StepResult → List StepResult
delete_all run [] rows = rows
delete_all run (name ∷ names) rows = delete_all run names (delete_rows run name rows)

unfoldable pub delete_steps : Db → String → List String → Db
delete_steps db run names = record db { steps = delete_all run names db.steps }
