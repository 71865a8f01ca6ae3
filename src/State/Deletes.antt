-- ===== src/State/Deletes.antt =====
-- What the reads of the tables give after records were deleted.
use markov.Prelude.{
  String, ◌≡◌, refl, ◌∙◌, ap, ◌&&◌, ◌||◌, none, List, [], ◌∷◌, arith, eq_iff, ◌==◌, if◌then◌else◌,
  sort_texts, place_text,
}
use markov.Workflow.{member}
use markov.State.{Db, Run, StepResult, get_step, get_steps, delete_steps}
use markov.State

pub find-delete :
    (run id workflow name gone : String) (rows : List StepResult)
    → State.find_step_row id workflow name (State.delete_rows run gone rows)
      ≡ (if (id == run && name == gone) then none else State.find_step_row id workflow name rows)
find-delete run id workflow name gone [] = ground arith
find-delete run id workflow name gone (r ∷ rows) = ground (
  arith,
  find-delete run id workflow name gone rows,
  eq_iff r.run_id run,
  eq_iff r.run_id id,
  eq_iff id run,
  eq_iff r.step_name name,
  eq_iff r.step_name gone,
  eq_iff name gone,
)

find-delete_all :
    (run id workflow name : String) (names : List String) (rows : List StepResult)
    → State.find_step_row id workflow name (State.delete_all run names rows) ≡ (
        if (id == run && member name names)
        then none
        else State.find_step_row id workflow name rows)
find-delete_all run id workflow name [] rows = ground arith
find-delete_all run id workflow name (gone ∷ names) rows = ground (
  arith,
  find-delete_all run id workflow name names (State.delete_rows run gone rows),
  find-delete run id workflow name gone rows,
)

-- A delete by names removes the records of those names of the run, and no other.
pub get_step-delete_steps :
    (db : Db) (run : String) (names : List String) (id workflow name : String)
    → get_step (delete_steps db run names) id workflow name
      ≡ (if (id == run && member name names) then none else get_step db id workflow name)
unfolding get_step delete_steps
get_step-delete_steps db run names id workflow name =
    find-delete_all run id workflow name names db.steps

member-place_text :
    (s t : String) (ts : List String) → member s (place_text t ts) ≡ (s == t || member s ts)
member-place_text s t [] = refl
member-place_text s t (u ∷ ts) = ground (arith, member-place_text s t ts)

pub member-sort_texts : (s : String) (ts : List String) → member s (sort_texts ts) ≡ member s ts
member-sort_texts s [] = refl
member-sort_texts s (t ∷ ts) =
    member-place_text s t (sort_texts ts) ∙ ap (λ b. s == t || b) (member-sort_texts s ts)
