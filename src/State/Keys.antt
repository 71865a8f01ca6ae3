-- ===== src/State/Keys.antt =====
-- The primary keys of the tables: no two runs have one identifier, and no two records one key.
use markov.Prelude.{
  String, ◌≡◌, refl, ◌∙◌, Bool, true, false, ◌&&◌, Option, none, some, List, [], ◌∷◌, ◌++◌, arith,
  eq_iff, ◌==◌, if◌then◌else◌, or_else, Bool-cases, inl, inr,
}
use markov.State.{
  Db, Run, StepResult, save_step, get_step, create_run, get_run, update_run, delete_steps,
}
use markov.State
use markov.State.Rows.{is_key, get_step-save_step, map_run, with_status, get_run-update_run}
use markov.State.Deletes.{find-delete}

abbrev pub UniqueSteps : List StepResult → Type 0
UniqueSteps [] = Unit
UniqueSteps (r ∷ rs) =
    (State.find_step_row r.run_id r.workflow_name r.step_name rs ≡ none) × UniqueSteps rs

abbrev pub UniqueRuns : List Run → Type 0
UniqueRuns [] = Unit
UniqueRuns (r ∷ rs) = (State.find_run r.run_id rs ≡ none) × UniqueRuns rs

pub record IsKeyed (db : Db) : Type 0 where
  pub steps : UniqueSteps db.steps
  pub runs : UniqueRuns db.runs

find-upsert :
    (row : StepResult) (run workflow name : String) (rows : List StepResult)
    → State.find_step_row run workflow name (State.upsert row rows) ≡ (
        if is_key row run workflow name
        then some row
        else State.find_step_row run workflow name rows)
unfolding get_step save_step
find-upsert row run workflow name rows =
    get_step-save_step (record { runs = []; steps = rows; checks = [] }) row run workflow name

-- One key, one search.
find-same :
    (r row : StepResult) (rows : List StepResult)
    → State.same_key r row ≡ true
    → State.find_step_row row.run_id row.workflow_name row.step_name rows
      ≡ State.find_step_row r.run_id r.workflow_name r.step_name rows
find-same r row [] same = refl
find-same r row (q ∷ rows) same = ground (
  arith,
  same,
  find-same r row rows same,
  eq_iff r.run_id row.run_id,
  eq_iff r.workflow_name row.workflow_name,
  eq_iff r.step_name row.step_name,
)

other_key :
    (r row : StepResult)
    → State.same_key r row ≡ false
    → is_key row r.run_id r.workflow_name r.step_name ≡ false
other_key r row other = ground (
  arith,
  other,
  eq_iff r.run_id row.run_id,
  eq_iff r.workflow_name row.workflow_name,
  eq_iff r.step_name row.step_name,
  eq_iff row.run_id r.run_id,
  eq_iff row.workflow_name r.workflow_name,
  eq_iff row.step_name r.step_name,
)

upsert-Unique :
    (row : StepResult) (rows : List StepResult)
    → UniqueSteps rows
    → UniqueSteps (State.upsert row rows)
upsert-Unique row [] u = (refl, tt)
upsert-Unique row (r ∷ rows) (fresh, u) = elim (Bool-cases (State.same_key r row)) [
  | inl same ↦ rw same (find-same r row rows same ∙ fresh, u)
  | inr other ↦ rw other (
    find-upsert row r.run_id r.workflow_name r.step_name rows ∙ rw (other_key r row other) fresh,
    upsert-Unique row rows u,
  )
]

delete-Unique :
    (run gone : String) (rows : List StepResult)
    → UniqueSteps rows
    → UniqueSteps (State.delete_rows run gone rows)
delete-Unique run gone [] u = tt
delete-Unique run gone (r ∷ rows) (fresh, u) =
    elim (Bool-cases (r.run_id == run && r.step_name == gone)) [
      | inl deleted ↦ rw deleted (delete-Unique run gone rows u)
      | inr kept ↦ rw kept (
        find-delete run r.run_id r.workflow_name r.step_name gone rows ∙ rw kept fresh,
        delete-Unique run gone rows u,
      )
    ]

find-append :
    (run : Run) (id : String) (rows : List Run)
    → State.find_run id rows ≡ none
    → (run.run_id == id) ≡ false
    → State.find_run id (rows ++ run ∷ []) ≡ none
find-append run id [] h other = rw other refl
find-append run id (r ∷ rows) h other = ground (arith, h, find-append run id rows, other)

append-Unique :
    (run : Run) (rows : List Run)
    → State.find_run run.run_id rows ≡ none
    → UniqueRuns rows
    → UniqueRuns (rows ++ run ∷ [])
append-Unique run [] h u = (refl, tt)
append-Unique run (r ∷ rows) h (fresh, u) = elim (Bool-cases (r.run_id == run.run_id)) [
  | inl taken ↦ absurd (clash (rw taken at h))
  | inr free ↦
      (find-append run r.run_id rows fresh (swapped free), append-Unique run rows (rw free at h) u)
]
  where
    clash : ◌≡◌ {A = Option Run} (some r) none → ⊥
    clash e = cc

    swapped : (r.run_id == run.run_id) ≡ false → (run.run_id == r.run_id) ≡ false
    swapped free = ground (arith, free, eq_iff r.run_id run.run_id, eq_iff run.run_id r.run_id)

status-fresh :
    (run : Run) (id : String) (rows : List Run)
    → State.find_run id rows ≡ none
    → State.find_run id (State.set_status run rows) ≡ none
unfolding get_run update_run
status-fresh run id rows h =
    get_run-update_run (record { runs = rows; steps = []; checks = [] }) run id
    ∙ rw h (either (run.run_id == id))
  where
    either : (b : Bool) → (if b then map_run (with_status run) none else none) ≡ none
    either true = refl
    either false = refl

status-Unique :
    (run : Run) (rows : List Run) → UniqueRuns rows → UniqueRuns (State.set_status run rows)
status-Unique run [] u = tt
status-Unique run (r ∷ rows) (fresh, u) = elim (Bool-cases (r.run_id == run.run_id)) [
  | inl changed ↦ rw changed (status-fresh run r.run_id rows fresh, status-Unique run rows u)
  | inr other ↦ rw other (status-fresh run r.run_id rows fresh, status-Unique run rows u)
]

delete_all-Unique :
    (run : String) (names : List String) (rows : List StepResult)
    → UniqueSteps rows
    → UniqueSteps (State.delete_all run names rows)
delete_all-Unique run [] rows u = u
delete_all-Unique run (name ∷ names) rows u =
    delete_all-Unique run names (State.delete_rows run name rows) (delete-Unique run name rows u)

-- Every write to the tables keeps their primary keys: to save or delete records, and to create or
-- update a run, which refuses an identifier that is there.
pub writes-IsKeyed :
    (db : Db)
    → IsKeyed db
    → ((row : StepResult) → IsKeyed (save_step db row))
      × ((run : String) (names : List String) → IsKeyed (delete_steps db run names))
      × ((run : Run) → IsKeyed (update_run db run))
      × ((run : Run) → IsKeyed (or_else (create_run db run) db))
unfolding save_step delete_steps update_run create_run
writes-IsKeyed db k = (
  λ row. record { steps = upsert-Unique row db.steps k.steps; runs = k.runs },
  λ run names. record { steps = delete_all-Unique run names db.steps k.steps; runs = k.runs },
  λ run. record { steps = k.steps; runs = status-Unique run db.runs k.runs },
  λ run. created run (State.find_run run.run_id db.runs) refl,
)
  where
    created :
        (run : Run) (old : Option Run)
        → State.find_run run.run_id db.runs ≡ old
        → IsKeyed (
            or_else
              (elim old as (λ _. Option Db) [
                | some other ↦ none
                | none ↦
                    some (record db { runs = db.runs ++ record run { completed_at = none } ∷ [] })
              ])
              db)
    created run none h = record {
      steps = k.steps;
      runs = append-Unique (record run { completed_at = none }) db.runs h k.runs;
    }
    created run (some old) h = k
