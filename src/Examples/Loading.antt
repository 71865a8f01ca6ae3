-- ===== src/Examples/Loading.antt =====
-- A workflow file in a directory.
use markov.Prelude.{
  String, Bool, subst, lookup, ◌≡◌, refl, ◌↔◌, ◌++◌, List, [], ◌∷◌, pos, false, true, is_positive,
  concat, ◌==◌, if◌then◌else◌,
}
use markov.Prelude.Layers.{UniqueKeys}
use markov.Value.{Vars, str, int}
use markov.Failure.{Result, ok, err, message}
use markov.Workflow.{WorkflowFile, StepType}
use markov.Parser.Accepted.{ValidFile}
use markov.Parser.Reading.{Disk, Yaml, Entry, merge_files}
use markov.Parser.Loading.{parse_file, duplicate_variable}
use markov.Parser.Loading.Merging.{Reads, together, merge_files_iff}
use markov.Parser.Loading.Loaded.{FromFiles, parse_file-Loaded}
use markov.Examples.Setting.{go, file, release, stop_rule}
use markov.Examples.Parser.{library}

abbrev entry : String → Entry
entry name = record { name = name; is_dir = false }

-- Each file holds its own path.
abbrev disk : Disk
disk = record {
  stat = λ path.
      if path == "flow"
      then ok true
      else if path == "flow/step_types.yaml"
      then ok false
      else err (message "file does not exist");
  read_file = λ path. ok path;
  read_dir = λ path.
      if path == "flow/workflows"
      then ok (entry "release.yaml" ∷ entry "README.md" ∷ [])
      else if path == "flow/vars"
      then ok (entry "b.yaml" ∷ entry "a.yaml" ∷ [])
      else err (message "file does not exist");
  is_not_exist = λ e. true;
  join = λ folder name. concat (folder ∷ "/" ∷ name ∷ []);
  ext = λ name. if name == "README.md" then ".md" else ".yaml";
  dir = λ path. "flow";
  is_abs = λ path. false;
}

abbrev shell : StepType
shell = record { base = "shell_exec"; description = ""; defaults = []; job = []; params = [] }

-- the variables of the file at a path
abbrev variables : String → Vars
variables path =
    if path == "flow/vars/a.yaml"
    then ("image", str "tools") ∷ []
    else if path == "flow/vars/b.yaml"
    then ("count", int (pos 3)) ∷ []
    else ("owner", str "team") ∷ []

abbrev yaml : Yaml
yaml = record {
  decode_file = λ text. ok file;
  decode_meta = λ text. ok (record { entrypoint = "release"; namespace = ""; forks = pos 0 });
  decode_vars = λ text. ok (variables text);
  decode_rules = λ text. ok (record stop_rule { file = "stop.yaml" } ∷ []);
  decode_rule_file = λ text. ok (stop_rule ∷ []);
  decode_step_types = λ text. ok (("build", shell) ∷ []);
  decode_connections = λ text. ok [];
  decode_decisions = λ text. ok [];
  decode_workflow = λ text. ok release;
}

abbrev loaded : WorkflowFile
loaded = record {
  connections = [];
  decisions = [];
  entrypoint = "release";
  namespace = "";
  forks = pos 5;
  vars = ("owner", str "team") ∷ ("image", str "tools") ∷ ("count", int (pos 3)) ∷ [];
  rules = stop_rule ∷ [];
  step_types = ("build", shell) ∷ [];
  workflows = release ∷ [];
  script_dir = "flow/scripts";
}

variables-Unique : (path : String) (m : Vars) → ok (variables path) ≡ ok m → UniqueKeys m
unfolding lookup
variables-Unique path m h =
    let same : variables path ≡ m = cc in
    subst UniqueKeys same (one_entry (path == "flow/vars/a.yaml") (path == "flow/vars/b.yaml"))
  where
    one_entry :
        (first second : Bool)
        → UniqueKeys (
            if first
            then ("image", str "tools") ∷ []
            else if second
            then ("count", int (pos 3)) ∷ []
            else ("owner", str "team") ∷ [])
    one_entry true second = (refl, tt)
    one_entry false true = (refl, tt)
    one_entry false false = (refl, tt)

parse_file-Loaded_example :
    ValidFile loaded
    × (is_positive loaded.forks ≡ true)
    × (disk.stat "flow" ≡ ok true → FromFiles go library disk yaml "flow" loaded)
unfolding parse_file
parse_file-Loaded_example =
    parse_file-Loaded go library disk yaml "flow" loaded variables-Unique refl

abbrev read_variables : String → Result Vars
read_variables path = ok (variables path)

abbrev var_files : List String
var_files = "flow/vars/a.yaml" ∷ "flow/vars/b.yaml" ∷ []

abbrev owner : Vars
owner = ("owner", str "team") ∷ []

merge_files_iff_example :
    (merge_files read_variables (duplicate_variable go library disk yaml) owner var_files
      ≡ ok loaded.vars)
    ↔ ((files : List Vars) × Reads read_variables var_files files
        × (loaded.vars ≡ owner ++ together files)
        × UniqueKeys loaded.vars)
unfolding merge_files lookup
merge_files_iff_example =
    merge_files_iff read_variables (duplicate_variable go library disk yaml) owner var_files
      loaded.vars (refl, tt)

-- a name that two files define is refused
twice :
    merge_files read_variables
      (duplicate_variable go library disk yaml)
      owner
      ("flow/vars.yaml" ∷ [])
    ≡ err (duplicate_variable go library disk yaml "flow/vars.yaml" "owner")
unfolding merge_files
twice = refl
