-- ===== src/Examples/Parser.antt =====
-- A file with a workflow that calls the others by a template.
use markov.Prelude.{◌≡◌, refl, String, pos, false, true, some, [], ◌∷◌, is_empty}
use mathlib.Core.List.Memᴰ
use markov.Failure.{ok, err, message}
use markov.Workflow.{Step, Workflow, WorkflowFile, is_templated}
use markov.Engine.Env.{Env}
use markov.Engine.SubWorkflow.{resolve_sub_workflow, rendered_name}
use markov.Parser.Jev.{Library}
use markov.Parser.{validate}
use markov.Parser.Resolves.{in_rescue, resolve_sub_workflow-Found}
use markov.Examples.Setting.{env, file, plain_step, workflow}

abbrev pub library : Library
library = record {
  parse_url = λ s.
      some (record {
        scheme = "http";
        host = "model";
        has_user = false;
        raw_query = "";
        fragment = "";
      });
  read_questions = λ v. err (message "no questions");
}

abbrev calling : Step
calling = record (plain_step "calling" "") { workflow = "release"; workflow_names = [] }

abbrev caller : Workflow
caller = record (workflow "caller" (plain_step "start" "shell_exec" ∷ [])) { rescue = calling ∷ [] }

-- no number of forks is given
abbrev calling_file : WorkflowFile
calling_file = record file { forks = pos 0; workflows = caller ∷ file.workflows }

abbrev accepted_file : WorkflowFile
accepted_file = record calling_file { forks = pos 5 }

abbrev calling_env : Env
calling_env = record env { file = accepted_file }

resolve_sub_workflow-Found_example :
    (is_templated "release" ≡ false
      → (callee : Workflow) × (resolve_sub_workflow calling_env calling [] ≡ ok callee))
    × (is_empty calling.workflow_names ≡ false
        → is_templated "release" ≡ true
        → (name : String) → rendered_name calling_env calling [] ≡ ok name
        → (callee : Workflow) × (resolve_sub_workflow calling_env calling [] ≡ ok callee))
unfolding validate
resolve_sub_workflow-Found_example =
    resolve_sub_workflow-Found calling_env library calling_file caller calling [] refl
      (Memᴰ.head refl) (in_rescue (Memᴰ.head refl)) (λ e. cc)
