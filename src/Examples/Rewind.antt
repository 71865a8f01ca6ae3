-- ===== src/Examples/Rewind.antt =====
-- A run with two completed steps, rewound and resumed.
use markov.Prelude.{◌≡◌, refl, none, [], ◌∷◌, ◌+◌}
use markov.Failure.{Error, ok, err}
use markov.State.Keys.{IsKeyed}
use markov.Engine.Keyed.{execute_workflow-IsKeyed}
use markov.Engine.Lifecycle.{execute_workflow}
use markov.State.{SourceCheck, get_step, get_steps, get_run}
use markov.Workflow.{get_workflow}
use markov.Engine.Env.{Env, IntegrityMode, RewindTarget, strict}
use markov.Engine.World.{◌>>=◌}
use markov.Engine.Records.{find_step}
use markov.Engine.Rewind.{rewind_from, rewind_from_index, is_rewound}
use markov.Engine.Rewind.Clears.{rewind_from-deletes}
use markov.Engine.Rewind.Forgets.{rewind_from-forgets}
use markov.Engine.Rewind.Index.{Least, rewind_from_index-Least}
use markov.Engine.Runs.{current_source_digest}
use markov.Engine.Resume.{admit, resume_with_vars}
use markov.Engine.Resume.Integrity.{recorded, resume_with_vars-strict}
use markov.Examples.Setting.{env, world, run_row, done_row, release, gated}

rewind_from-deletes_example :
    get_step (rewind_from env 3 world.db run_row release 0).0 "run1" "release" "build" ≡ none
unfolding get_steps is_rewound find_step get_workflow
rewind_from-deletes_example =
    rewind_from-deletes env 3 world.db run_row release 0 "run1" "release" "build"

rewind_from-forgets_example :
    get_step (rewind_from env 3 world.db run_row release 0).0 "run1" "release" "build" ≡ none
unfolding get_step is_rewound find_step get_workflow
rewind_from-forgets_example =
    rewind_from-forgets env 3 world.db run_row release 0 "release" "build"
      (done_row "release" "build") refl refl

-- the gate of the workflow `gated`
abbrev at_check : RewindTarget
at_check = record { workflow = "gated"; step = "check" }

rewind_from_index-Least_example : Least env gated 2 1 (at_check ∷ [])
unfolding rewind_from_index
rewind_from_index-Least_example = rewind_from_index-Least env gated 2 1 (at_check ∷ []) refl

abbrev strict_env : Env
strict_env = record env { integrity_mode = IntegrityMode.strict; source_tree = λ t. ok "another" }

resume_with_vars-strict_example :
    (e : Error) × (c : SourceCheck) × (c.run_id ≡ "run1")
    × (resume_with_vars strict_env 2 "run1" [] world ≡ (err e, recorded world c (world.clock + 1)))
unfolding get_run admit current_source_digest ◌>>=◌
resume_with_vars-strict_example =
    resume_with_vars-strict strict_env 2 "run1" [] world run_row "another" refl refl refl refl
      (λ e. cc)

-- the two records differ in their names
world-IsKeyed : IsKeyed world.db
world-IsKeyed = record { steps = (refl, (refl, tt)); runs = (refl, tt) }

execute_workflow-IsKeyed_example : IsKeyed (execute_workflow env 2 "run1" gated world).1.db
execute_workflow-IsKeyed_example = execute_workflow-IsKeyed env 2 "run1" gated world world-IsKeyed
