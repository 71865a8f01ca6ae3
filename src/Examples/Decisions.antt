-- ===== src/Examples/Decisions.antt =====
-- A decision that a model answers.
use markov.Prelude.{String, false, ◌≡◌, refl, lookup, insert, none, some, [], ◌∷◌}
use markov.Value.{Vars, str, object, null, index}
use markov.State.{StepResult, get_step, save_step}
use markov.Workflow.{Decision, get_workflow}
use markov.Engine.Records.{save}
use markov.Engine.Env.{Env, Executor}
use markov.Engine.World.{World, ◌>>=◌, now, fire, modify_db}
use markov.Engine.Decision.{decision, saved_answer}
use markov.Engine.Decision.Once.{IsIdentity, AnswerKept, receipt_key, decision-asked_once}
use markov.Examples.Setting.{env, world}

abbrev verdict : Vars
verdict = ("choice", str "safe") ∷ []

-- it answers every question the same
abbrev model : Executor
model = record {
  execute = λ t params. record {
    output = some (("answers", object (("result", object verdict) ∷ [])) ∷ []);
    error = none;
    reports = [];
  };
  is_k8s_job = false;
}

abbrev asking_env : Env
asking_env = record env { executors = ("jev", model) ∷ [] }

-- the step `deploy` has asked for a review
abbrev reviewed : World
reviewed = (decision asking_env "run1" "release" "deploy" "review" (str "diff") null world).1

decision-asked_once_example :
    (d : Decision) × (hash : String) × (row : StepResult) × IsIdentity asking_env "run1" "release"
      "deploy" "review" d
      (str "diff")
      null
      hash
    × AnswerKept asking_env "run1" "release" (receipt_key "deploy" hash) verdict row reviewed.db
    × (decision asking_env "run1" "release" "deploy" "review" (str "diff") null reviewed
        ≡ (saved_answer asking_env row, reviewed))
unfolding decision get_step ◌>>=◌ now save fire modify_db save_step index get_workflow lookup insert
decision-asked_once_example =
    decision-asked_once asking_env "run1" "release" "deploy" "review" (str "diff") null verdict
      world reviewed refl
