-- ===== src/Engine/Outcome.antt =====
-- How a run ends: its row says what its workflow returned.
use markov.Prelude.{
  ℕ, String, ◌≡◌, refl, ◌∙◌, Bool, true, false, Option, none, some, arith, eq_refl, is_some,
  Option-cases, inl, inr,
}
use markov.Failure.{Result, ok, err, find_pause}
use markov.Workflow.{Workflow}
use markov.State.{Db, Run, RunStatus, get_run, update_run}
use markov.State.Rows.{get_run-update_run, with_status}
use markov.Engine.Env.{Env}
use markov.Engine.World.{World, continue, Done, ◌>>=◌, now, fire, modify_db}
use markov.Engine.RunRows.{SameRun, execute_workflow-RunKept}
use markov.Engine.Lifecycle.{execute_workflow}
use markov.Engine.SubWorkflow.{ended}
use markov.Engine.Runs.{finish_run, execute_run}

-- The status that a run should have after its workflow returned.
abbrev pub status_of : Result Done → RunStatus
status_of (ok d) = RunStatus.completed
status_of (err e) = elim (find_pause e) [ none ↦ RunStatus.failed | some p ↦ RunStatus.paused ]

abbrev pub is_terminal : RunStatus → Bool
is_terminal RunStatus.completed = true
is_terminal RunStatus.failed = true
is_terminal _ = false

-- The row of the run, with the status that fits the outcome: an end only if it is terminal.
pub record Settled (a : Run) (r : Result Done) (db : Db) : Type 0 where
  pub row : Run
  pub found : get_run db a.run_id ≡ some row
  pub status : row.status ≡ status_of r
  pub end_time : is_some row.completed_at ≡ is_terminal row.status
  pub same : SameRun a row

updated :
    (env : Env) (db : Db) (run b : Run) (status : RunStatus) (t : Option ℕ)
    → get_run db run.run_id ≡ some b
    → get_run (update_run db (ended env run status t)) run.run_id
      ≡ some (with_status (ended env run status t) b)
updated env db run b status t h =
    get_run-update_run db (ended env run status t) run.run_id
    ∙ ground (arith, h, eq_refl run.run_id)

finish_run-Settled :
    (env : Env) (run a b : Run) (workflow : String) (r : Result Done) (w : World)
    → run.run_id ≡ a.run_id
    → get_run w.db run.run_id ≡ some b
    → SameRun a b
    → Settled a r (finish_run env run workflow r w).1.db
unfolding finish_run ◌>>=◌ now fire modify_db
finish_run-Settled env run a b workflow (ok d) w i h s = record {
  row = with_status (ended env run RunStatus.completed (some w.clock)) b;
  found = ground (arith, updated env w.db run b RunStatus.completed (some w.clock) h);
  status = refl;
  end_time = refl;
  same = ground arith;
}
finish_run-Settled env run a b workflow (err e) w i h s = elim (Option-cases (find_pause e)) [
  | inl q ↦ record {
    row = with_status (ended env run RunStatus.failed (some w.clock)) b;
    found = ground (arith, updated env w.db run b RunStatus.failed (some w.clock) h);
    status = ground arith;
    end_time = refl;
    same = ground arith;
  }
  | inr q ↦ record {
    row = with_status (ended env run RunStatus.paused none) b;
    found = ground (arith, updated env w.db run b RunStatus.paused none h);
    status = ground (arith, q.1);
    end_time = refl;
    same = ground arith;
  }
]

finish_run-ok :
    (env : Env) (run : Run) (workflow : String) (r : Result Done) (w : World)
    → (finish_run env run workflow r w).0 ≡ ok tt
unfolding finish_run ◌>>=◌ now fire modify_db
finish_run-ok env run workflow (ok d) w = refl
finish_run-ok env run workflow (err e) w = ground arith

-- When a run whose row is in the table has executed, its row has the status of what its workflow
-- returned: completed, paused at a gate, or failed; it has an end if and only if the status is
-- completed or failed; the rest of the row is as it was; and the outcome is the workflow's.
pub execute_run-Settled :
    (env : Env) (depth : ℕ) (run a : Run) (wf : Workflow) (w : World)
    → get_run w.db run.run_id ≡ some a
    → run.run_id ≡ a.run_id
    → let out = execute_run env depth run wf w in
      (out.0 ≡ (execute_workflow env depth run.run_id wf w).0) × Settled a out.0 out.1.db
unfolding execute_run ◌>>=◌
execute_run-Settled env depth run a wf w h i =
    let u = (execute_workflow env depth run.run_id wf w).1 in
    let r = (execute_workflow env depth run.run_id wf w).0 in
    let kept = execute_workflow-RunKept env depth run.run_id wf w run.run_id a h in
    let finished = finish_run-ok env run run.entrypoint r u in
    (
      rw (finished, continue),
      rw (finished, continue)
          (finish_run-Settled env run a kept.0 run.entrypoint r u i kept.1 kept.2),
    )
