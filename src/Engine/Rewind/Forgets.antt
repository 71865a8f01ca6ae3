-- ===== src/Engine/Rewind/Forgets.antt =====
-- A rewind of pkg/engine/rewind.go forgets the steps that it rewinds.
use markov.Prelude.{
  ℕ, String, ◌≡◌, refl, ◌∙◌, true, none, some, List, [], ◌∷◌, arith, eq_iff, eq_refl,
}
use markov.Workflow.{Workflow, member}
use markov.State.{Db, Run, StepResult, get_step, get_steps, get_child_runs, delete_steps}
use markov.State
use markov.Engine.Env.{Env}
use markov.Engine.Rewind.{names_from, rewound_rows, is_rewound, rewind_from}
use markov.Engine.Rewind.Clears.{rewind_from-deletes}

module _ (env : Env) (workflow : String) (names : List String) where
  rewound_rows-place :
      (name : String) (key : StepResult → ℕ) (r : StepResult) (rows : List StepResult)
      → member name (rewound_rows env workflow names (State.place key r rows))
        ≡ member name (rewound_rows env workflow names (r ∷ rows))
  rewound_rows-place name key r [] = refl
  rewound_rows-place name key r (q ∷ rows) = ground (arith, rewound_rows-place name key r rows)

  rewound_rows-sort_by :
      (name : String) (key : StepResult → ℕ) (rows : List StepResult)
      → member name (rewound_rows env workflow names (State.sort_by key rows))
        ≡ member name (rewound_rows env workflow names rows)
  rewound_rows-sort_by name key [] = refl
  rewound_rows-sort_by name key (r ∷ rows) =
      rewound_rows-place name key r (State.sort_by key rows)
      ∙ ground (arith, rewound_rows-sort_by name key rows)

  rewound-found :
      (run step_workflow name : String) (rows : List StepResult) (row : StepResult)
      → State.find_step_row run step_workflow name rows ≡ some row
      → is_rewound env workflow names row ≡ true
      → member name (rewound_rows env workflow names (State.rows_of run rows)) ≡ true
  rewound-found run step_workflow name [] row found rewound = cc
  rewound-found run step_workflow name (r ∷ rows) row found rewound = ground (
    arith,
    rewound-found run step_workflow name rows row,
    found,
    rewound,
    eq_iff r.run_id run,
    eq_iff r.step_name name,
    eq_iff name r.step_name,
  )

module _ (env : Env) where
  -- A rewind leaves no record of a step that it rewinds: where the run had one, reading it finds
  -- nothing, so that the step runs again.
  pub rewind_from-forgets :
      (depth : ℕ) (db : Db) (row : Run) (wf : Workflow) (from : ℕ) (workflow name : String)
      (saved : StepResult)
      → get_step db row.run_id workflow name ≡ some saved
      → is_rewound env row.entrypoint (names_from env from wf.steps) saved ≡ true
      → get_step (rewind_from env depth db row wf from).0 row.run_id workflow name ≡ none
  unfolding get_step get_steps
  rewind_from-forgets depth db row wf from workflow name saved found rewound =
      let names = names_from env from wf.steps in
      let listed : member name (rewound_rows env row.entrypoint names (get_steps db row.run_id))
          ≡ true =
        rewound_rows-sort_by env row.entrypoint names name _ (State.rows_of row.run_id db.steps)
        ∙ rewound-found env row.entrypoint names row.run_id workflow name db.steps saved found
            rewound in
      rewind_from-deletes env depth db row wf from row.run_id workflow name
      ∙ rw (eq_refl row.run_id, listed) refl
