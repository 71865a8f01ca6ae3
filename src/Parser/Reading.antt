-- ===== src/Parser/Reading.antt =====
-- How pkg/parser/parser.go reads its files: `readYAML`, `readOptionalYAML`, the YAML files of a
-- directory, and the loops over them.
use markov.Prelude.{
  String, Bool, not, ◌&&◌, ◌==◌, List, [], ◌∷◌, Dict, ℤ, pos, insert, has_key, if◌then◌else◌,
  concat, sort_texts, Option, none, some,
}
use markov.Value.{Vars}
use markov.Failure.{Error, wrap, Result, ok, err, returning, map_result, map_error}
use markov.Workflow.{Workflow, WorkflowFile, Rule, StepType, Decision, Connection}
use markov.Engine.Env.{Go}

-- `os.DirEntry`
pub record Entry : Type 0 where
  pub name : String
  pub is_dir : Bool

-- os and path/filepath: `stat` tells whether a path is a directory.
pub record Disk : Type 0 where
  pub stat : String → Result Bool
  pub read_file : String → Result String
  pub read_dir : String → Result (List Entry)
  pub is_not_exist : Error → Bool
  pub join : String → String → String
  pub ext : String → String
  pub dir : String → String
  pub is_abs : String → Bool

-- meta.yaml
pub record Meta : Type 0 where
  pub entrypoint : String
  pub namespace : String
  pub forks : ℤ

-- `decodeStrict` into each of the types that are read; the order of a map stands for the order in
-- which Go goes over it.
pub record Yaml : Type 0 where
  pub decode_file : String → Result WorkflowFile
  pub decode_meta : String → Result Meta
  pub decode_vars : String → Result Vars
  pub decode_rules : String → Result (List Rule)
  pub decode_rule_file : String → Result (List Rule)
  pub decode_step_types : String → Result (Dict StepType)
  pub decode_connections : String → Result (Dict Connection)
  pub decode_decisions : String → Result (Dict Decision)
  pub decode_workflow : String → Result Workflow

-- the loop that adds the entries of one file to those of the files before it
unfoldable pub add_new {ℓ} : {A : Type ℓ} → (String → Error) → Dict A → Dict A → Result (Dict A)
unfolding insert has_key
add_new duplicate old [] = ok old
add_new duplicate old ((name, value) ∷ entries) =
    let rest = add_new duplicate (insert name value old) entries in
    if has_key name old then err (duplicate name) else rest

-- the loop over the files, each read by `read`
unfoldable pub merge_files {ℓ} :
    {A : Type ℓ}
    → (String → Result (Dict A))
    → (String → String → Error)
    → Dict A
    → List String
    → Result (Dict A)
unfolding add_new
merge_files read duplicate old [] = ok old
merge_files read duplicate old (path ∷ paths) =
    returning (returning (read path) (add_new (duplicate path) old))
      (λ entries. merge_files read duplicate entries paths)

-- the loop over the workflow files
unfoldable pub read_all {ℓ} : {A : Type ℓ} → (String → Result A) → List String → Result (List A)
read_all read [] = ok []
read_all read (path ∷ paths) =
    let rest = read_all read paths in returning (read path) (λ a. map_result (λ as'. a ∷ as') rest)

-- the value of a YAML file that says nothing
abbrev pub no_workflow : Workflow
no_workflow = record {
  name = "";
  description = "";
  vars = [];
  steps = [];
  rescue = [];
  always = [];
}

abbrev pub no_meta : Meta
no_meta = record { entrypoint = ""; namespace = ""; forks = pos 0 }

-- the early return of an error that there may be
abbrev pub stop_if : {A : Type 0} → Option Error → Result A → Result A
stop_if (some e) r = err e
stop_if none r = r

module _ (go : Go) (disk : Disk) where
  -- `fmt.Errorf("<verb> %q: %w", path, err)`
  abbrev pub at : String → String → Error → Error
  at verb path e = wrap (concat (verb ∷ " " ∷ go.quote path ∷ [])) e

  -- `readYAML`; `absent` is what `out` holds before
  unfoldable pub read_yaml {ℓ} : {A : Type ℓ} → (String → Result A) → A → String → Result A
  read_yaml decode absent path =
      returning (map_error (at "reading" path) (disk.read_file path))
        (λ text. if text == "" then ok absent else map_error (at "parsing" path) (decode text))

  -- `readOptionalYAML`
  unfoldable pub read_optional {ℓ} : {A : Type ℓ} → (String → Result A) → A → String → Result A
  unfolding read_yaml
  read_optional decode absent path = elim (disk.stat path) [
    | err e ↦ if disk.is_not_exist e then ok absent else err e
    | ok is_dir ↦ read_yaml decode absent path
  ]

  abbrev pub named_yaml : String → List Entry → List String
  named_yaml folder [] = []
  named_yaml folder (entry ∷ entries) =
      let rest = named_yaml folder entries in
      if not entry.is_dir && disk.ext entry.name == ".yaml"
      then disk.join folder entry.name ∷ rest
      else rest

  -- the YAML files of a directory, in the order of their names
  abbrev pub yaml_files : String → List Entry → List String
  yaml_files folder entries = sort_texts (named_yaml folder entries)
