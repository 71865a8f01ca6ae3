-- ===== src/Engine/Rewind/Clears.antt =====
-- `clearRun` and `rewindFrom` of pkg/engine/rewind.go: which records they delete.
use markov.Prelude.{
  ℕ, zero, suc, String, ◌≡◌, refl, sym, ◌∙◌, ap, Bool, true, false, ◌&&◌, ◌||◌, Option, none, List,
  [], ◌∷◌, ◌++◌, arith, eq_iff, ◌==◌, if◌then◌else◌, sort_texts, Bool-cases, inl, inr,
}
use markov.Workflow.{Workflow, member}
use markov.State.{Db, Run, StepResult, get_step, get_steps, get_child_runs, delete_steps}
use markov.State
use markov.State.Deletes.{get_step-delete_steps, member-sort_texts}
use markov.Engine.Env.{Env}
use markov.Engine.Rewind.{
  names_from, rewound_rows, row_names, clear_each, clear_run, started_by, rewind_from,
}

-- The runs below a run, itself included, to a depth: what the parent's identifier says of them.
abbrev pub trees : (String → List String) → List Run → List String
trees below [] = []
trees below (r ∷ rs) = below r.run_id ++ trees below rs

unfoldable pub tree : ℕ → (String → List Run) → String → List String
tree zero children run = []
tree (suc depth) children run = run ∷ trees (tree depth children) (children run)

member-append :
    (s : String) (xs ys : List String) → member s (xs ++ ys) ≡ (member s xs || member s ys)
member-append s [] ys = refl
member-append s (x ∷ xs) ys = ground (arith, member-append s xs ys)

-- A record that the table has is one of its run's.
module _ (env : Env) (run workflow name : String) where
  find-rows_of :
      (rows : List StepResult)
      → member name (row_names env (State.rows_of run rows)) ≡ false
      → State.find_step_row run workflow name rows ≡ none
  find-rows_of [] h = refl
  find-rows_of (r ∷ rows) h = ground (
    arith,
    find-rows_of rows,
    eq_iff name r.step_name,
    eq_iff r.step_name name,
    eq_iff r.run_id run,
  )

  row_names-place :
      (key : StepResult → ℕ) (r : StepResult) (rows : List StepResult)
      → member name (row_names env (State.place key r rows))
        ≡ (name == r.step_name || member name (row_names env rows))
  row_names-place key r [] = refl
  row_names-place key r (q ∷ rows) = ground (arith, row_names-place key r rows)

  row_names-sort_by :
      (key : StepResult → ℕ) (rows : List StepResult)
      → member name (row_names env (State.sort_by key rows)) ≡ member name (row_names env rows)
  row_names-sort_by key [] = refl
  row_names-sort_by key (r ∷ rows) =
      row_names-place key r (State.sort_by key rows)
      ∙ ap (λ b. name == r.step_name || b) (row_names-sort_by key rows)

  get_step-get_steps :
      (db : Db)
      → member name (row_names env (get_steps db run)) ≡ false
      → get_step db run workflow name ≡ none
  unfolding get_step get_steps
  get_step-get_steps db h =
      find-rows_of db.steps (sym (row_names-sort_by _ (State.rows_of run db.steps)) ∙ h)

  -- clearing a run deletes its records, and no other run's
  emptied :
      (db : Db) (id : String)
      → get_step (delete_steps db run (row_names env (get_steps db run))) id workflow name
        ≡ (if id == run then none else get_step db id workflow name)
  emptied db id = elim (Bool-cases (id == run)) [
    | inl e ↦ elim (Bool-cases (member name (row_names env (get_steps db run)))) [
      | inl m ↦ get_step-delete_steps db run _ id workflow name ∙ rw (e, m) refl
      | inr m ↦
          get_step-delete_steps db run _ id workflow name
          ∙ rw (e, m)
              (ap (λ r. get_step db r workflow name) ((eq_iff id run).0 e)
                ∙ get_step-get_steps db m)
    ]
    | inr e ↦ get_step-delete_steps db run _ id workflow name ∙ rw e refl
  ]

same_children : (db db' : Db) → db'.runs ≡ db.runs → get_child_runs db' ≡ get_child_runs db
unfolding get_child_runs
same_children db db' h =
    ap
      (λ rs (parent : String). State.sort_by (λ (r : Run). r.started_at) (State.children parent rs))
      h

-- A way to clear a run that leaves the table of runs, and deletes the records of the runs `below`.
record Clears (clear : Db → String → Db × ℕ) (runs : List Run) (below : String → List String)
    : Type 0 where
  runs_stay : (db : Db) (run : String) → (clear db run).0.runs ≡ db.runs
  deletes :
      (db : Db) (run id workflow name : String)
      → db.runs ≡ runs
      → get_step (clear db run).0 id workflow name
        ≡ (if member id (below run) then none else get_step db id workflow name)

module _ (env : Env) where
  either :
      (a b : Bool) (o : Option StepResult)
      → (if b then none else if a then none else o) ≡ (if a || b then none else o)
  either true true o = refl
  either true false o = refl
  either false true o = refl
  either false false o = refl

  each-runs :
      {clear : Db → String → Db × ℕ} {runs : List Run} {below : String → List String}
      → Clears clear runs below
      → (db : Db) (rs : List Run) → (clear_each env clear db rs).0.runs ≡ db.runs
  each-runs c db [] = refl
  each-runs {clear} c db (r ∷ rs) = each-runs c (clear db r.run_id).0 rs ∙ c.runs_stay db r.run_id

  each-deletes :
      {clear : Db → String → Db × ℕ} {runs : List Run} {below : String → List String}
      → Clears clear runs below
      → (db : Db) (rs : List Run) (id workflow name : String) → db.runs ≡ runs
      → get_step (clear_each env clear db rs).0 id workflow name
        ≡ (if member id (trees below rs) then none else get_step db id workflow name)
  each-deletes c db [] id workflow name h = refl
  each-deletes {clear} {runs} {below} c db (r ∷ rs) id workflow name h =
      let db' = (clear db r.run_id).0 in
      each-deletes c db' rs id workflow name (c.runs_stay db r.run_id ∙ h)
      ∙ ap (λ o. if member id (trees below rs) then none else o)
          (c.deletes db r.run_id id workflow name h)
      ∙ either (member id (below r.run_id)) (member id (trees below rs))
          (get_step db id workflow name)
      ∙ ap (λ b. if b then none else get_step db id workflow name)
          (sym (member-append id (below r.run_id) (trees below rs)))

  clear_run-Clears :
      (depth : ℕ) (start : Db)
      → Clears (clear_run env depth) start.runs (tree depth (get_child_runs start))
  unfolding clear_run tree delete_steps
  clear_run-Clears zero start = record {
    runs_stay = λ db run. refl;
    deletes = λ db run id workflow name h. refl;
  }
  clear_run-Clears (suc depth) start =
      let c = clear_run-Clears depth start in
      record {
        runs_stay = λ db run.
            let db' = delete_steps db run (row_names env (get_steps db run)) in
            each-runs c db' (get_child_runs db' run);
        deletes = λ db run id workflow name h.
            let db' = delete_steps db run (row_names env (get_steps db run)) in
            let below = tree depth (get_child_runs start) in
            let inside = member id (trees below (get_child_runs start run)) in
            each-deletes c db' (get_child_runs db' run) id workflow name h
            ∙ ap
                (λ (children : String → List Run).
                  if member id (trees below (children run))
                  then none
                  else get_step db' id workflow name)
                (same_children start db' h)
            ∙ ap (λ o. if inside then none else o) (emptied env run workflow name db id)
            ∙ either (id == run) inside (get_step db id workflow name);
      }

  -- A rewind deletes exactly these records: those of the rewound steps of the run itself, and all
  -- records of the sub-runs that a rewound step started and of the runs below these, as deep as the
  -- tree of runs is followed. Every other record of the table stays as it is.
  pub rewind_from-deletes :
      (depth : ℕ) (db : Db) (row : Run) (wf : Workflow) (from : ℕ) (id workflow name : String)
      → get_step (rewind_from env depth db row wf from).0 id workflow name ≡ (
          if (id == row.run_id
              && member name (
                  rewound_rows env row.entrypoint
                    (names_from env from wf.steps)
                    (get_steps db row.run_id)))
            || member id (
                trees
                  (tree depth (get_child_runs db))
                  (started_by env (names_from env from wf.steps) (get_child_runs db row.run_id)))
          then none
          else get_step db id workflow name)
  unfolding rewind_from delete_steps
  rewind_from-deletes depth db row wf from id workflow name =
      let names = names_from env from wf.steps in
      let rewound = rewound_rows env row.entrypoint names (get_steps db row.run_id) in
      let db' = delete_steps db row.run_id (sort_texts rewound) in
      let below = tree depth (get_child_runs db) in
      let inside = member id (trees below (started_by env names (get_child_runs db row.run_id))) in
      each-deletes (clear_run-Clears depth db) db'
        (started_by env names (get_child_runs db' row.run_id)) id workflow name refl
      ∙ ap
          (λ (children : String → List Run).
            if member id (trees below (started_by env names (children row.run_id)))
            then none
            else get_step db' id workflow name)
          (same_children db db' refl)
      ∙ ap (λ o. if inside then none else o)
          (get_step-delete_steps db row.run_id (sort_texts rewound) id workflow name
            ∙ ap (λ b. if (id == row.run_id && b) then none else get_step db id workflow name)
                (member-sort_texts name rewound))
      ∙ either (id == row.run_id && member name rewound) inside (get_step db id workflow name)
