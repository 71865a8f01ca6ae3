-- ===== src/Parser/Loading.antt =====
-- `ParseFile`, `ParseDir` and `Parse` of pkg/parser/parser.go: a workflow file put together from the
-- files of a directory, before it is validated.
pub mod Merging
pub mod Defaults
pub mod Sources
pub mod Loaded
use markov.Prelude.{
  String, Bool, true, false, not, ◌&&◌, ◌==◌, List, [], ◌∷◌, ◌++◌, Dict, ℤ, pos, insert, has_key,
  is_empty, if◌then◌else◌, concat, sort_texts, Option, none, some,
}
use markov.Value.{Value, Vars}
use markov.Failure.{Error, message, wrap, Result, ok, err, returning, map_result, map_error}
use markov.Workflow.{Workflow, WorkflowFile, Rule, StepType, Decision, Connection}
use markov.Engine.Env.{Go}
use markov.Parser.Jev.{Library}
use markov.Parser.{validate}
use markov.Parser.Reading.{
  Disk, Entry, Meta, Yaml, add_new, merge_files, read_all, no_workflow, no_meta, stop_if, at,
  read_yaml, read_optional, yaml_files,
}

module _ (go : Go) (lib : Library) (disk : Disk) (yaml : Yaml) where
  abbrev pub duplicate_variable : String → String → Error
  duplicate_variable path name =
      message (concat ("duplicate variable " ∷ go.quote name ∷ " in " ∷ go.quote path ∷ []))

  -- the variables of the files of vars, given what `os.ReadDir` said of it
  abbrev pub vars_of_dir : String → Vars → Result (List Entry) → Result Vars
  vars_of_dir folder vars (err e) =
      if disk.is_not_exist e then ok vars else err (at go disk "reading vars directory" folder e)
  vars_of_dir folder vars (ok entries) =
      merge_files (read_yaml go disk yaml.decode_vars []) duplicate_variable vars
        (yaml_files go disk folder entries)

  -- `readVars`
  unfoldable pub read_vars : String → Result Vars
  unfolding read_yaml merge_files
  read_vars path =
      let folder = disk.join path "vars" in
      returning (read_yaml go disk yaml.decode_vars [] (disk.join path "vars.yaml"))
        (λ vars. vars_of_dir folder vars (disk.read_dir folder))

  abbrev pub duplicate_type : String → String → Error
  duplicate_type path name =
      message (concat ("duplicate step type " ∷ go.quote name ∷ " in " ∷ go.quote path ∷ []))

  -- the calls of `mergeStepTypesFile`
  abbrev pub merge_types : Dict StepType → List String → Result (Dict StepType)
  merge_types = merge_files (read_yaml go disk yaml.decode_step_types []) duplicate_type

  abbrev pub stat_error : String → Option Error
  stat_error path = elim (disk.stat path) [
    | ok is_dir ↦ none
    | err e ↦ if disk.is_not_exist e then none else some (at go disk "reading" path e)
  ]

  abbrev pub is_missing : String → Bool
  is_missing path = elim (disk.stat path) [ ok is_dir ↦ false | err e ↦ disk.is_not_exist e ]

  -- step_types.yaml, given what `os.Stat` said of it
  abbrev pub types_of_file : String → Result Bool → Result (Dict StepType)
  types_of_file path (err e) = ok []
  types_of_file path (ok true) =
      err (message (concat ("reading " ∷ go.quote path ∷ ": expected file, got directory" ∷ [])))
  types_of_file path (ok false) = merge_types [] (path ∷ [])

  -- the files of step_types, given what `os.Stat` said of it
  abbrev pub types_of_dir : String → Result Bool → Dict StepType → Result (Dict StepType)
  types_of_dir path (err e) types = ok types
  types_of_dir path (ok false) types =
      err (message (concat ("reading " ∷ go.quote path ∷ ": expected directory, got file" ∷ [])))
  types_of_dir path (ok true) types =
      returning (map_error (at go disk "reading step_types directory" path) (disk.read_dir path))
        (λ entries. merge_types types (yaml_files go disk path entries))

  abbrev pub no_types : String → String → Error
  no_types file folder = message (
      concat (
        "reading "
        ∷ go.quote file
        ∷ " or "
        ∷ go.quote folder
        ∷ ": step types category not found"
        ∷ []))

  -- `readStepTypes`
  unfoldable pub read_step_types : String → Result (Dict StepType)
  unfolding merge_files read_yaml
  read_step_types path =
      let file = disk.join path "step_types.yaml" in
      let folder = disk.join path "step_types" in
      stop_if (stat_error file) (
        stop_if (stat_error folder) (
          if is_missing file && is_missing folder
          then err (no_types file folder)
          else returning (types_of_file file (disk.stat file))
              (types_of_dir folder (disk.stat folder))))

  -- the rules that an entry of the list of rules stands for
  abbrev pub expand_rule : String → Rule → Result (List Rule)
  expand_rule base r =
      if r.file == ""
      then ok (r ∷ [])
      else returning
          (map_error (at go disk "loading rule file" r.file)
            (disk.read_file (if disk.is_abs r.file then r.file else disk.join base r.file)))
          (λ text. map_error (at go disk "parsing rule file" r.file) (yaml.decode_rule_file text))

  unfoldable pub expand_rules : String → List Rule → Result (List Rule)
  expand_rules base [] = ok []
  expand_rules base (r ∷ rs) =
      let rest = expand_rules base rs in
      returning (expand_rule base r) (λ loaded. map_result (λ others. loaded ++ others) rest)

  -- `loadRuleFiles` and `validate`, at the end of `ParseDir` and of `parse`
  unfoldable pub expand_and_validate : String → WorkflowFile → Result WorkflowFile
  unfolding expand_rules validate
  expand_and_validate base file =
      returning (expand_rules base file.rules)
        (λ rules. validate go lib (record file { rules = rules }))

  -- the workflows of a directory
  unfoldable pub read_workflows : String → Result (List Workflow)
  unfolding read_all read_yaml
  read_workflows path =
      let folder = disk.join path "workflows" in
      returning (map_error (at go disk "reading workflows directory" folder) (disk.read_dir folder))
        (λ entries.
          let files = yaml_files go disk folder entries in
          if is_empty files
          then err (
              message (
                concat (
                  "directory workflow "
                  ∷ go.quote path
                  ∷ ": no workflow files found in workflows/*.yaml"
                  ∷ [])))
          else read_all (read_yaml go disk yaml.decode_workflow no_workflow) files)

  -- `ParseDir` before `loadRuleFiles`
  unfoldable pub collect : String → Result WorkflowFile
  unfolding read_yaml read_optional read_vars read_step_types read_workflows
  collect path =
      returning (read_yaml go disk yaml.decode_meta no_meta (disk.join path "meta.yaml")) (λ meta.
        returning (read_vars path) (λ vars.
          returning (read_yaml go disk yaml.decode_rules [] (disk.join path "rules.yaml")) (λ rules.
            returning (read_step_types path) (λ step_types.
              returning
                (read_optional go disk yaml.decode_connections []
                  (disk.join path "connections.yaml"))
                (λ connections.
                  returning
                    (read_optional go disk yaml.decode_decisions []
                      (disk.join path "decisions.yaml"))
                    (λ decisions.
                      map_result
                        (λ workflows. record {
                          connections = connections;
                          decisions = decisions;
                          entrypoint = meta.entrypoint;
                          namespace = meta.namespace;
                          forks = meta.forks;
                          vars = vars;
                          rules = rules;
                          step_types = step_types;
                          workflows = workflows;
                          script_dir = disk.join path "scripts";
                        })
                        (read_workflows path)))))))

  -- `ParseDir`
  unfoldable pub parse_dir : String → Result WorkflowFile
  unfolding collect expand_and_validate
  parse_dir path = returning (collect path) (expand_and_validate path)

  -- `parse`
  unfoldable pub parse_text : String → String → Result WorkflowFile
  unfolding expand_and_validate
  parse_text text script_dir =
      returning (map_error (wrap "parsing workflow YAML") (yaml.decode_file text))
        (λ file. expand_and_validate "." (record file { script_dir = script_dir }))

  -- `ParseFile`
  unfoldable pub parse_file : String → Result WorkflowFile
  unfolding parse_text parse_dir
  parse_file path = returning (map_error (wrap "stat workflow path") (disk.stat path)) (λ is_dir.
      if is_dir
      then parse_dir path
      else returning (map_error (wrap "reading workflow file") (disk.read_file path))
          (λ text. parse_text text (disk.join (disk.dir path) "scripts")))
