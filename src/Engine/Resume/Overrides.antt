-- ===== src/Engine/Resume/Overrides.antt =====
-- The variables that a resume is given are not kept in the table of runs.
use markov.Prelude.{
  ℕ, zero, suc, String, ◌≡◌, refl, ◌∙◌, Bool, sort_texts, length, Option, none, some, List, [], ◌∷◌,
}
use markov.Value.{Vars}
use markov.Failure.{Result, ok, err}
use markov.Workflow.{Workflow, get_workflow}
use markov.State.{
  Db, Run, SourceCheck, get_run, delete_steps, get_child_runs, get_steps, save_source_check,
}
use markov.Engine.Env.{Env, RewindTarget}
use markov.Engine.World.{World, Exec, Done, ◌>>=◌, ◌>>◌, gets, lift, pure, modify_db, set_digest}
use markov.Engine.Keeps.{Keeps, keeps_rules}
use markov.Engine.RunRows.{RunKept, RunKept-Frame, SameRun-refl}
use markov.Engine.Rewind.{
  ChangedStep, changed_steps, ◌then_result◌, rewind_to, rewound_at, rewound_in, rewind_from_index,
  clear_run, row_names, names_from, rewound_rows, started_by, clear_each, rewind_from,
  prepare_resume, targets,
}
use markov.Engine.Framed.Nested.{set_run-Keeps}
use markov.Engine.Framed.Workflows.{execute_workflow-Keeps}
use markov.Engine.Runs.{current_source_digest, finish_run, execute_run}
use markov.Engine.Resume.{
  check_source_integrity, observe, prepare, reopen, resume_admitted, resume_with_vars,
}

module _ (env : Env) where
  runs-clear_each :
      (clear : Db → String → Db × ℕ)
      (keeps : (db : Db) (run : String) → (clear db run).0.runs ≡ db.runs) (db : Db) (rs : List Run)
      → (clear_each env clear db rs).0.runs ≡ db.runs
  runs-clear_each clear keeps db [] = refl
  runs-clear_each clear keeps db (r ∷ rs) =
      runs-clear_each clear keeps (clear db r.run_id).0 rs ∙ keeps db r.run_id

  runs-clear_run :
      (depth : ℕ) (db : Db) (run : String) → (clear_run env depth db run).0.runs ≡ db.runs
  unfolding clear_run delete_steps
  runs-clear_run zero db run = refl
  runs-clear_run (suc depth) db run =
      let cleared = delete_steps db run (row_names env (get_steps db run)) in
      runs-clear_each (clear_run env depth) (runs-clear_run depth) cleared
        (get_child_runs cleared run)

  runs-rewind_from :
      (depth : ℕ) (db : Db) (run : Run) (wf : Workflow) (from : ℕ)
      → (rewind_from env depth db run wf from).0.runs ≡ db.runs
  unfolding rewind_from delete_steps
  runs-rewind_from depth db run wf from =
      let names = names_from env from wf.steps in
      let rows = sort_texts (rewound_rows env run.entrypoint names (get_steps db run.run_id)) in
      let cleared = delete_steps db run.run_id rows in
      runs-clear_each (clear_run env depth) (runs-clear_run depth) cleared
        (started_by env names (get_child_runs cleared run.run_id))

  -- A rewind deletes records of steps, and no run.
  abbrev SameRuns : Db → Result (List ChangedStep × Bool × Db) → Type 0
  SameRuns db (ok prepared) = prepared.2.runs ≡ db.runs
  SameRuns db (err e) = Unit

  runs-rewound_at :
      (depth : ℕ) (db : Db) (run : Run) (changed : List ChangedStep) (wf : Workflow) (r : Result ℕ)
      → SameRuns db (rewound_at env depth db run changed wf r)
  runs-rewound_at depth db run changed wf (err e) = tt
  runs-rewound_at depth db run changed wf (ok from) = runs-rewind_from depth db run wf from

  runs-rewound_in :
      (depth : ℕ) (db : Db) (run : Run) (changed : List ChangedStep) (ts : List RewindTarget)
      (o : Option Workflow)
      → SameRuns db (rewound_in env depth db run changed ts o)
  runs-rewound_in depth db run changed ts none = tt
  runs-rewound_in depth db run changed ts (some wf) =
      runs-rewound_at depth db run changed wf (rewind_from_index env wf (length wf.steps) ts)

  runs-rewind_to :
      (depth : ℕ) (db : Db) (run : Run) (changed : List ChangedStep) (ts : List RewindTarget)
      → SameRuns db (rewind_to env depth db run changed ts)
  unfolding rewind_to
  runs-rewind_to depth db run changed [] = refl
  runs-rewind_to depth db run changed (t ∷ ts) =
      runs-rewound_in depth db run changed (t ∷ ts) (get_workflow env.file run.entrypoint)

  runs-prepare_resume :
      (depth : ℕ) (db : Db) (run : Run) → SameRuns db (prepare_resume env depth db run)
  unfolding prepare_resume
  runs-prepare_resume depth db run =
      let changed = changed_steps env depth db run.run_id in
      elim (targets env depth db run changed)
        as (λ r. SameRuns db (r then_result (λ ts. rewind_to env depth db run changed ts))) [
          | err e ↦ tt
          | ok ts ↦ runs-rewind_to depth db run changed ts
        ]

  SameRuns-RunKept : (d e : Db) → e.runs ≡ d.runs → RunKept d e
  unfolding get_run
  SameRuns-RunKept d e h id a found = (a, rw h found, SameRun-refl a)

  abbrev restore : Result (List ChangedStep × Bool × Db) → Exec (List ChangedStep × Bool)
  restore r = do p ← lift r; modify_db (λ _. p.2); pure (p.0, p.1)

  prepare-Keeps : (depth : ℕ) (row : Run) → Keeps (λ u w. RunKept u.db w.db) (prepare env depth row)
  unfolding prepare ◌>>=◌ gets lift modify_db pure
  prepare-Keeps depth row = record {
    at = λ w. kept w (prepare_resume env depth w.db row) (runs-prepare_resume depth w.db row);
  }
    where
      kept :
          (w : World) (r : Result (List ChangedStep × Bool × Db))
          → SameRuns w.db r
          → RunKept w.db (restore r w).1.db
      kept w (err e) h = RunKept-Frame.refl w
      kept w (ok p) h = SameRuns-RunKept w.db p.2 h

  set_digest-Keeps : (d : String) → Keeps (λ u w. RunKept u.db w.db) (set_digest d)
  unfolding set_digest
  set_digest-Keeps d = record { at = λ w. RunKept-Frame.refl w }

  save_check-Keeps :
      (c : SourceCheck)
      → Keeps (λ u w. RunKept u.db w.db) (modify_db (λ db. save_source_check db c))
  unfolding modify_db save_source_check
  save_check-Keeps c = record { at = λ w. SameRuns-RunKept w.db (save_source_check w.db c) refl }

  digest-Keeps : Keeps (λ u w. RunKept u.db w.db) (current_source_digest env)
  unfolding current_source_digest
  digest-Keeps = search (keeps_rules, RunKept-Frame)

  observe-Keeps : (row : Run) (t : ℕ) → Keeps (λ u w. RunKept u.db w.db) (observe env row t)
  observe-Keeps row t = search (keeps_rules, RunKept-Frame, save_check-Keeps, digest-Keeps) depth 9

  check-Keeps : (row : Run) → Keeps (λ u w. RunKept u.db w.db) (check_source_integrity env row)
  unfolding check_source_integrity
  check-Keeps row = search (keeps_rules, RunKept-Frame, save_check-Keeps, observe-Keeps) depth 9

  finish-Keeps :
      (row : Run) (workflow : String) (r : Result Done)
      → Keeps (λ u w. RunKept u.db w.db) (finish_run env row workflow r)
  unfolding finish_run
  finish-Keeps row workflow (ok d) =
      search (keeps_rules, RunKept-Frame, set_run-Keeps RunKept-Frame) depth 9
  finish-Keeps row workflow (err e) =
      search (keeps_rules, RunKept-Frame, set_run-Keeps RunKept-Frame) depth 9

  execute_run-Keeps :
      (depth : ℕ) (row : Run) (wf : Workflow)
      → Keeps (λ u w. RunKept u.db w.db) (execute_run env depth row wf)
  unfolding execute_run
  execute_run-Keeps depth row wf =
      search (keeps_rules, RunKept-Frame, finish-Keeps, execute_workflow-Keeps RunKept-Frame) depth
        9

  reopen-Keeps :
      (depth : ℕ) (row : Run) (wf : Workflow) (check : SourceCheck) (changed : List ChangedStep)
      (rewound : Bool) (vars : Vars)
      → Keeps (λ u w. RunKept u.db w.db) (reopen env depth row wf check changed rewound vars)
  unfolding reopen
  reopen-Keeps depth row wf check changed rewound vars =
      search (keeps_rules, RunKept-Frame, set_run-Keeps RunKept-Frame, execute_run-Keeps) depth 9

  resume_admitted-Keeps :
      (depth : ℕ) (row : Run) (vars : Vars)
      → Keeps (λ u w. RunKept u.db w.db) (resume_admitted env depth row vars)
  unfolding resume_admitted
  resume_admitted-Keeps depth row vars =
      search
        (keeps_rules, RunKept-Frame, check-Keeps, set_digest-Keeps, prepare-Keeps, reopen-Keeps)
        depth 9

  resume_with_vars-Keeps :
      (depth : ℕ) (id : String) (vars : Vars)
      → Keeps (λ u w. RunKept u.db w.db) (resume_with_vars env depth id vars)
  unfolding resume_with_vars
  resume_with_vars-Keeps depth id vars =
      search (keeps_rules, RunKept-Frame, resume_admitted-Keeps) depth 9

-- A resume, whatever its overrides and its outcome, leaves the stored variables of every run, the
-- resumed one included, as they were: the overrides are not kept for a later resume.
pub resume_with_vars-keeps_vars :
    (env : Env) (depth : ℕ) (id : String) (vars : Vars) (w : World) (other : String) (a : Run)
    → get_run w.db other ≡ some a
    → (b : Run) × (get_run (resume_with_vars env depth id vars w).1.db other ≡ some b)
      × (b.vars_json ≡ a.vars_json)
resume_with_vars-keeps_vars env depth id vars w other a h =
    let kept = (resume_with_vars-Keeps env depth id vars).at w other a h in
    (kept.0, kept.1, kept.2.vars_json)
