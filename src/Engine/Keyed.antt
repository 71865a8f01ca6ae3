-- ===== src/Engine/Keyed.antt =====
-- The primary keys of the tables while a workflow executes.
use markov.Prelude.{ℕ, String}
use markov.Workflow.{Workflow}
use markov.State.Keys.{IsKeyed, writes-IsKeyed}
use markov.Engine.Env.{Env}
use markov.Engine.World.{World}
use markov.Engine.Keeps.{Frame}
use markov.Engine.Framed.Workflows.{execute_workflow-Keeps}
use markov.Engine.Lifecycle.{execute_workflow}

IsKeyed-Frame : Frame (λ u w. IsKeyed u.db → IsKeyed w.db)
IsKeyed-Frame = record {
  refl = λ w k. k;
  trans = λ u v w p q k. q (p k);
  vars = λ w vars k. k;
  tick = λ w k. k;
  emit = λ w e k. k;
  row = λ w row k. (writes-IsKeyed w.db k).0 row;
  status = λ w run k. (writes-IsKeyed w.db k).2 run;
  new_run = λ w run k. (writes-IsKeyed w.db k).3 run;
}

-- The execution of a workflow, with all of its sub-workflows and items, keeps the tables keyed:
-- if no two runs have one identifier and no two records one key, this is so when it ends, in
-- whatever way it ends.
pub execute_workflow-IsKeyed :
    (env : Env) (depth : ℕ) (run : String) (wf : Workflow) (w : World)
    → IsKeyed w.db
    → IsKeyed (execute_workflow env depth run wf w).1.db
execute_workflow-IsKeyed env depth run wf w =
    (execute_workflow-Keeps IsKeyed-Frame env depth run wf).at w
