-- ===== src/Parser/Loading/Loaded.antt =====
-- What `ParseDir` of pkg/parser/parser.go returns: the parts of the directory, put together, checked
-- and with the defaults set.
use markov.Prelude.{
  String, true, false, ◌≡◌, sym, subst, inl, inr, Bool, List, [], ◌∷◌, ℤ, is_positive, is_empty,
  pos, Bool-cases, if◌then◌else◌,
}
use markov.Prelude.Layers.{UniqueKeys}
use markov.Value.{Vars}
use markov.Failure.{wrap, Result, ok, returning, returning-ok, map_result-ok, map_error}
use markov.Workflow.{Workflow, WorkflowFile, Rule}
use markov.Engine.Env.{Go}
use markov.Parser.Jev.{Library}
use markov.Parser.{validate, with_defaults}
use markov.Parser.Accepted.{ValidFile, validate-Valid}
use markov.Parser.Reading.{
  Disk, Yaml, read_yaml, read_optional, read_all, yaml_files, no_workflow, no_meta,
}
use markov.Parser.Loading.{
  read_vars, read_step_types, read_workflows, collect, expand_and_validate, expand_rules, parse_dir,
  parse_text, parse_file,
}
use markov.Parser.Loading.Defaults.{with_defaults-Valid}
use markov.Parser.Loading.Sources.{
  YamlPaths, yaml_files-YamlPaths, VarsFrom, TypesFrom, read_vars-VarsFrom,
  read_step_types-TypesFrom, mapped_error,
}
use markov.Parser.Loading.Merging.{Reads, not_refused}

read_all-Reads :
    {A : Type 0} (read : String → Result A) (paths : List String) (as' : List A)
    → read_all read paths ≡ ok as'
    → Reads read paths as'
unfolding read_all
read_all-Reads read [] as' h = let same : as' ≡ [] = cc in rw same tt
read_all-Reads read (p ∷ ps) as' h =
    let (a, is_read, rest) = returning-ok (read p) _ h in
    let (later, reads, same) = map_result-ok (λ as'. a ∷ as') _ rest in
    subst (Reads read (p ∷ ps)) same (is_read, read_all-Reads read ps later reads)

module _ (go : Go) (lib : Library) (disk : Disk) (yaml : Yaml) where
  -- The workflows are those of the YAML files of workflows, in the order of their names.
  pub record WorkflowsFrom (path : String) (workflows : List Workflow) : Type 0 where
    pub paths : List String
    pub listed : YamlPaths go disk (disk.join path "workflows") paths
    pub reads : Reads (read_yaml go disk yaml.decode_workflow no_workflow) paths workflows

  -- From which files of a directory the parts of a workflow file are.
  pub record FromFiles (path : String) (file : WorkflowFile) : Type 0 where
    pub vars : VarsFrom go lib disk yaml path file.vars
    pub types : TypesFrom go lib disk yaml path file.step_types
    pub workflows : WorkflowsFrom path file.workflows

  read_workflows-WorkflowsFrom :
      (path : String) (workflows : List Workflow)
      → read_workflows go lib disk yaml path ≡ ok workflows
      → WorkflowsFrom path workflows
  unfolding read_workflows
  read_workflows-WorkflowsFrom path workflows h =
      let folder = disk.join path "workflows" in
      let (entries, listed, rest) = returning-ok (map_error _ (disk.read_dir folder)) _ h in
      let paths = yaml_files go disk folder entries in
      record {
        paths = paths;
        listed =
            yaml_files-YamlPaths go disk folder entries
              (mapped_error _ (disk.read_dir folder) listed);
        reads = read_all-Reads _ paths workflows (not_refused (is_empty paths) _ _ rest).1;
      }

  module _ (maps : (text : String) (m : Vars) → yaml.decode_vars text ≡ ok m → UniqueKeys m) where
    collect-FromFiles :
        (path : String) (file : WorkflowFile)
        → collect go lib disk yaml path ≡ ok file
        → FromFiles path file
    unfolding collect
    collect-FromFiles path file h =
        let (meta, got_meta, h1) =
          returning-ok (read_yaml go disk yaml.decode_meta no_meta _) _ h in
        let (vars, got_vars, h2) = returning-ok (read_vars go lib disk yaml path) _ h1 in
        let (rules, got_rules, h3) = returning-ok (read_yaml go disk yaml.decode_rules [] _) _ h2 in
        let (types, got_types, h4) = returning-ok (read_step_types go lib disk yaml path) _ h3 in
        let (connections, got_connections, h5) =
          returning-ok (read_optional go disk yaml.decode_connections [] _) _ h4 in
        let (decisions, got_decisions, h6) =
          returning-ok (read_optional go disk yaml.decode_decisions [] _) _ h5 in
        let (workflows, got_workflows, same) =
          map_result-ok _ (read_workflows go lib disk yaml path) h6 in
        subst (FromFiles path) same (record {
          vars = read_vars-VarsFrom go lib disk yaml maps path vars got_vars;
          types = read_step_types-TypesFrom go lib disk yaml path types got_types;
          workflows = read_workflows-WorkflowsFrom path workflows got_workflows;
        })

  -- the rules and the number of forks come from elsewhere
  kept :
      (path : String) (file : WorkflowFile) (rules : List Rule) (n : ℤ)
      → FromFiles path file
      → FromFiles path (record file { rules = rules; forks = n })
  kept path file rules n from = record {
    vars = from.vars;
    types = from.types;
    workflows = from.workflows;
  }

  completed :
      (path : String) (file : WorkflowFile) (rules : List Rule)
      → FromFiles path file
      → FromFiles path (with_defaults go lib (record file { rules = rules }))
  completed path file rules from = elim (Bool-cases (is_positive file.forks)) [
    | inl given ↦ rw given (kept path file rules file.forks from)
    | inr absent ↦ rw absent (kept path file rules (pos 5) from)
  ]

  expand_and_validate-ok :
      (base : String) (parts file : WorkflowFile)
      → expand_and_validate go lib disk yaml base parts ≡ ok file
      → (rules : List Rule) × (validate go lib (record parts { rules = rules }) ≡ ok file)
  unfolding expand_and_validate
  expand_and_validate-ok base parts file h =
      let (rules, expanded, accepted) =
        returning-ok (expand_rules go lib disk yaml base parts.rules) _ h in
      (rules, accepted)

  expand_and_validate-Valid :
      (base : String) (parts file : WorkflowFile)
      → expand_and_validate go lib disk yaml base parts ≡ ok file
      → ValidFile file × (is_positive file.forks ≡ true)
  expand_and_validate-Valid base parts file h =
      let (rules, accepted) = expand_and_validate-ok base parts file h in
      let whole = record parts { rules = rules } in
      let (same, positive, valid) = validate-Valid go lib whole file accepted in
      (subst ValidFile (sym same) (with_defaults-Valid go lib whole valid), positive)

  expand_and_validate-FromFiles :
      (path base : String) (parts file : WorkflowFile)
      → FromFiles path parts
      → expand_and_validate go lib disk yaml base parts ≡ ok file
      → FromFiles path file
  expand_and_validate-FromFiles path base parts file from h =
      let (rules, accepted) = expand_and_validate-ok base parts file h in
      let (same, positive, valid) =
        validate-Valid go lib (record parts { rules = rules }) file accepted in
      subst (FromFiles path) (sym same) (completed path parts rules from)

  parse_text-Valid :
      (text script_dir : String) (file : WorkflowFile)
      → parse_text go lib disk yaml text script_dir ≡ ok file
      → ValidFile file × (is_positive file.forks ≡ true)
  unfolding parse_text
  parse_text-Valid text script_dir file h =
      let (parts, decoded, rest) = returning-ok (map_error _ (yaml.decode_file text)) _ h in
      expand_and_validate-Valid "." (record parts { script_dir = script_dir }) file rest

  parse_dir-FromFiles :
      (path : String) (file : WorkflowFile)
      → ((text : String) (m : Vars) → yaml.decode_vars text ≡ ok m → UniqueKeys m)
      → parse_dir go lib disk yaml path ≡ ok file
      → ValidFile file × (is_positive file.forks ≡ true) × FromFiles path file
  unfolding parse_dir
  parse_dir-FromFiles path file maps h =
      let (parts, collected, rest) = returning-ok (collect go lib disk yaml path) _ h in
      let (valid, positive) = expand_and_validate-Valid path parts file rest in
      (
        valid,
        positive,
        expand_and_validate-FromFiles path path parts file
            (collect-FromFiles maps path parts collected) rest,
      )

  -- A path that is parsed gives a valid file with a positive number of forks. If it is a directory,
  -- its variables are the entries of vars.yaml and then of every YAML file of vars, put one after
  -- another, and its step types those of step_types.yaml and then of every YAML file of step_types,
  -- where these are there: no entry is lost or replaced, and no name occurs in two of the files. The
  -- workflows are those of the YAML files of workflows. The files of a directory are taken in the
  -- ascending order of their paths. The condition is that YAML decodes no map of variables with a
  -- name twice.
  pub parse_file-Loaded :
      (path : String) (file : WorkflowFile)
      → ((text : String) (m : Vars) → yaml.decode_vars text ≡ ok m → UniqueKeys m)
      → parse_file go lib disk yaml path ≡ ok file
      → ValidFile file
        × (is_positive file.forks ≡ true)
        × (disk.stat path ≡ ok true → FromFiles path file)
  unfolding parse_file
  parse_file-Loaded path file maps h =
      let (is_dir, found, rest) = returning-ok (map_error _ (disk.stat path)) _ h in
      loaded is_dir (mapped_error _ (disk.stat path) found) rest
    where
      loaded :
          (is_dir : Bool)
          → disk.stat path ≡ ok is_dir
          → (if is_dir
              then parse_dir go lib disk yaml path
              else returning
                  (map_error (wrap "reading workflow file") (disk.read_file path))
                  (λ text. parse_text go lib disk yaml text (disk.join (disk.dir path) "scripts")))
            ≡ ok file
          → ValidFile file
            × (is_positive file.forks ≡ true)
            × (disk.stat path ≡ ok true → FromFiles path file)
      loaded true found h =
          let (valid, positive, from) = parse_dir-FromFiles path file maps h in
          (valid, positive, λ e. from)
      loaded false found h =
          let (text, is_read, rest) =
            returning-ok (map_error (wrap "reading workflow file") (disk.read_file path)) _ h in
          let (valid, positive) =
            parse_text-Valid text (disk.join (disk.dir path) "scripts") file rest in
          (valid, positive, λ e. cc)
