-- ===== src/Examples/Setting.antt =====
-- A small workflow file and an environment to run it in: a step type that fails, one that
-- succeeds, and a gate whose rule asks for a pause.
use markov.Prelude.{String, true, false, none, some, List, [], ◌∷◌, concat, pos}
use markov.Value.{null, str, bool, object}
use markov.Failure.{ok}
use markov.Workflow.{Step, Workflow, WorkflowFile, Rule, Decision, Connection}
use markov.State.{Run, RunStatus, StepResult, StepStatus}
use markov.Engine.FactStore.{mark_fired}
use markov.Engine.Env.{Env, Go, Executor, IntegrityMode, answered}
use markov.Engine.World.{World}

abbrev pub quote : String → String
quote s = concat ("\"" ∷ s ∷ "\"" ∷ [])

abbrev pub go : Go
go = record {
  quote = quote;
  show = λ v. "value";
  one_decimal = λ n. "0.0";
  trim_space = λ s. s;
  to_lower = λ s. s;
  parse_int = λ s. none;
  parse_float = λ s. none;
  float_of_int = λ n. "0";
  json_encode = λ v. "{}";
  json_decode = λ s. none;
  json_error = λ s. "no JSON";
  json_decode_numbers = λ s. none;
  sha256_hex = λ s. s;
  step_digest = λ step type. step.name;
  decision_json = λ step name d conn input refresh. ok name;
  type_name = λ v. "string";
  quote_bytes = λ b. "bytes";
  unique_violation = "UNIQUE constraint failed: runs.run_id";
}

abbrev pub plain_step : String → String → Step
plain_step name type = record {
  name = name;
  description = "";
  type = type;
  params = [];
  when = "";
  register = "";
  timeout = pos 0;
  for_each = "";
  for_each_key = "";
  for_each_sort = "";
  for_each_when = "";
  item_name = "";
  concurrency = pos 0;
  workflow = "";
  workflow_names = [];
  vars = [];
  artifacts = [];
  that = [];
  msg = "";
  rules = [];
  facts = [];
  ignore_errors = false;
  failed_when = "";
}

abbrev pub build : Step
build = plain_step "build" "shell_exec"

-- its executor is not registered
abbrev pub deploy : Step
deploy = plain_step "deploy" "k8s_job"

abbrev pub check : Step
check = record (plain_step "check" "gate") { rules = "stop" ∷ [] }

abbrev pub cleanup : Step
cleanup = plain_step "cleanup" "shell_exec"

abbrev pub notify : Step
notify = plain_step "notify" "shell_exec"

abbrev pub workflow : String → List Step → Workflow
workflow name steps = record {
  name = name;
  description = "";
  vars = [];
  steps = steps;
  rescue = notify ∷ [];
  always = cleanup ∷ [];
}

abbrev pub release : Workflow
release = workflow "release" (build ∷ [])

abbrev pub gated : Workflow
gated = workflow "gated" (build ∷ check ∷ [])

abbrev pub broken : Workflow
broken = workflow "broken" (build ∷ deploy ∷ [])

abbrev pub stop_rule : Rule
stop_rule = record {
  name = "stop";
  file = "";
  description = "";
  salience = pos 10;
  when = "ready";
  action = "pause";
  set_fact = ("reason", str "checked") ∷ [];
}

abbrev pub review : Decision
review = record {
  connection = "main";
  type = "choice";
  instructions = str "Is it safe?";
  criteria = object (("safe", str "It is") ∷ ("unsafe", str "It is not") ∷ []);
  version = "1";
}

abbrev pub main_connection : Connection
main_connection = record {
  type = "jev";
  base_url = "http://model";
  model = "small";
  api_key_env = "";
  api_key_file = "";
  timeout = pos 0;
  concurrency = pos 0;
}

abbrev pub file : WorkflowFile
file = record {
  connections = ("main", main_connection) ∷ [];
  decisions = ("review", review) ∷ [];
  entrypoint = "release";
  namespace = "";
  forks = pos 1;
  vars = [];
  rules = stop_rule ∷ [];
  step_types = [];
  workflows = release ∷ gated ∷ broken ∷ [];
  script_dir = "";
}

abbrev shell : Executor
shell = record {
  execute = λ t params. record {
    output = some (("stdout", str "done") ∷ []);
    error = none;
    reports = [];
  };
  is_k8s_job = false;
}

abbrev pub env : Env
env = record {
  go = go;
  file = file;
  tmpl = record {
    render = λ text vars. ok text;
    render_map = λ params vars. ok params;
    eval = λ text vars. ok (str text);
    eval_bool = λ text vars. ok true;
    eval_condition = λ text vars. answered (ok true);
  };
  executors = ("shell_exec", shell) ∷ [];
  forks = 1;
  run_id = "";
  new_id = λ t. "run1";
  source_path = "release.yaml";
  integrity_mode = IntegrityMode.warn;
  source_tree = λ t. ok "digest";
  rewind = [];
  rewind_changed = false;
  load_artifacts = λ t artifacts vars. ok null;
  run_rules = λ text facts. ok (mark_fired "stop" facts);
  schedule = λ t. [];
}

abbrev pub run_row : Run
run_row = record {
  run_id = "run1";
  workflow_file = "release.yaml";
  source_digest = "digest";
  entrypoint = "release";
  status = RunStatus.failed;
  vars_json = "{}";
  parent_run_id = "";
  parent_step = "";
  for_each_key = "";
  started_at = 0;
  completed_at = none;
}

abbrev pub done_row : String → String → StepResult
done_row workflow step = record {
  run_id = "run1";
  workflow_name = workflow;
  step_name = step;
  status = StepStatus.completed;
  output_json = "";
  artifacts_json = "";
  error = "";
  started_at = some 0;
  completed_at = some 1;
  definition_hash = "";
}

-- one run, two completed steps
abbrev pub world : World
world = record {
  db = record {
    runs = run_row ∷ [];
    steps = done_row "release" "build" ∷ done_row "release" "__jev__/build/review" ∷ [];
    checks = [];
  };
  clock = 5;
  events = [];
  digest = "digest";
  vars = ("ready", bool true) ∷ [];
}
