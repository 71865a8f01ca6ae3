-- ===== src/Parser/Loading/Sources.antt =====
-- From which files of a directory `readVars` and `readStepTypes` of pkg/parser/parser.go take the
-- variables and the step types.
use mathlib.Core.List.{map, Perm, append-nil}
use markov.Prelude.{
  String, true, false, not, ◌≡◌, refl, sym, ◌∙◌, ap, subst, ◌⊎◌, ◌==◌, ◌&&◌, inl, inr, Option, none,
  some, Bool, Bool-cases, List, [], ◌∷◌, ◌++◌, Dict, if◌then◌else◌, sort_texts,
}
use markov.Prelude.Layers.{UniqueKeys}
use markov.Prelude.Sorted.{AscendingTexts, sort_texts-Perm, sort_texts-AscendingTexts}
use markov.Value.{Vars}
use markov.Failure.{Error, Result, ok, err, returning, returning-ok, map_error}
use markov.Workflow.{StepType}
use markov.Engine.Env.{Go}
use markov.Parser.Jev.{Library}
use markov.Parser.Reading.{Disk, Yaml, Entry, read_yaml, yaml_files, named_yaml, stop_if}
use markov.Parser.Loading.{
  read_vars, read_step_types, types_of_file, types_of_dir, vars_of_dir, stat_error, is_missing,
  no_types,
}
use markov.Parser.Loading.Merging.{Reads, together, merge_files_iff, not_refused}

chosen :
    {A : Type 0} (b : Bool) (a : A) (r : Result A) {c : A}
    → (if b then ok a else r) ≡ ok c
    → (c ≡ a) ⊎ (r ≡ ok c)
chosen true a r h = inl cc
chosen false a r h = inr h

pub mapped_error :
    {A : Type 0} (f : Error → Error) (r : Result A) {a : A} → map_error f r ≡ ok a → r ≡ ok a
mapped_error f (ok a) h = h
mapped_error f (err e) h = cc

not_stopped : {A : Type 0} (c : Option Error) (r : Result A) {a : A} → stop_if c r ≡ ok a → r ≡ ok a
not_stopped (some e) r h = cc
not_stopped none r h = h

module _ (go : Go) (disk : Disk) where
  abbrev pub is_yaml : Entry → Bool
  is_yaml entry = not entry.is_dir && disk.ext entry.name == ".yaml"

  abbrev pub yaml_entries : List Entry → List Entry
  yaml_entries [] = []
  yaml_entries (entry ∷ entries) =
      let rest = yaml_entries entries in if is_yaml entry then entry ∷ rest else rest

  -- The paths are those of the YAML files of a directory, in ascending order.
  pub record YamlPaths (folder : String) (paths : List String) : Type 0 where
    pub entries : List Entry
    pub listed : disk.read_dir folder ≡ ok entries
    pub same : Perm paths (map (λ (e : Entry). disk.join folder e.name) (yaml_entries entries))
    pub ascending : AscendingTexts paths

  named_yaml_lem :
      (folder : String) (entries : List Entry)
      → named_yaml go disk folder entries
        ≡ map (λ (e : Entry). disk.join folder e.name) (yaml_entries entries)
  named_yaml_lem folder [] = refl
  named_yaml_lem folder (entry ∷ entries) = elim (Bool-cases (is_yaml entry)) [
    | inl chosen ↦
        rw chosen (ap (λ ps. disk.join folder entry.name ∷ ps) (named_yaml_lem folder entries))
    | inr other ↦ rw other (named_yaml_lem folder entries)
  ]

  pub yaml_files-YamlPaths :
      (folder : String) (entries : List Entry)
      → disk.read_dir folder ≡ ok entries
      → YamlPaths folder (yaml_files go disk folder entries)
  yaml_files-YamlPaths folder entries h =
      let named = named_yaml go disk folder entries in
      record {
        entries = entries;
        listed = h;
        same =
            subst (λ ps. Perm (sort_texts named) ps) (named_yaml_lem folder entries)
              (sort_texts-Perm named);
        ascending = sort_texts-AscendingTexts named;
      }

module _ (go : Go) (lib : Library) (disk : Disk) (yaml : Yaml) where
  -- The variables are those of vars.yaml and then those of the YAML files of vars, if it is there,
  -- each as often as the files have it; no name has two.
  pub record VarsFrom (path : String) (vars : Vars) : Type 0 where
    pub own : Vars
    pub is_own : read_yaml go disk yaml.decode_vars [] (disk.join path "vars.yaml") ≡ ok own
    pub paths : List String
    pub files : List Vars
    pub listed :
        ((paths ≡ [])
          × ((e : Error) × (disk.read_dir (disk.join path "vars") ≡ err e)
              × (disk.is_not_exist e ≡ true)))
        ⊎ YamlPaths go disk (disk.join path "vars") paths
    pub reads : Reads (read_yaml go disk yaml.decode_vars []) paths files
    pub all : vars ≡ own ++ together files
    pub unique : UniqueKeys vars

  -- The step types are those of step_types.yaml, if it is there, and then those of the YAML files of
  -- step_types, if it is there; no name has two.
  pub record TypesFrom (path : String) (types : Dict StepType) : Type 0 where
    pub own_paths : List String
    pub own_files : List (Dict StepType)
    pub own_listed :
        ((own_paths ≡ []) × ((e : Error) × (disk.stat (disk.join path "step_types.yaml") ≡ err e)))
        ⊎ ((own_paths ≡ disk.join path "step_types.yaml" ∷ [])
            × (disk.stat (disk.join path "step_types.yaml") ≡ ok false))
    pub own_reads : Reads (read_yaml go disk yaml.decode_step_types []) own_paths own_files
    pub paths : List String
    pub files : List (Dict StepType)
    pub listed :
        ((paths ≡ []) × ((e : Error) × (disk.stat (disk.join path "step_types") ≡ err e)))
        ⊎ ((disk.stat (disk.join path "step_types") ≡ ok true)
            × YamlPaths go disk (disk.join path "step_types") paths)
    pub reads : Reads (read_yaml go disk yaml.decode_step_types []) paths files
    pub all : types ≡ together own_files ++ together files
    pub unique : UniqueKeys types

  -- what step_types.yaml gives
  record OwnTypes (path : String) (types : Dict StepType) : Type 0 where
    paths : List String
    files : List (Dict StepType)
    listed :
        ((paths ≡ []) × ((e : Error) × (disk.stat path ≡ err e)))
        ⊎ ((paths ≡ path ∷ []) × (disk.stat path ≡ ok false))
    reads : Reads (read_yaml go disk yaml.decode_step_types []) paths files
    all : types ≡ together files
    unique : UniqueKeys types

  types_of_file-OwnTypes :
      (path : String) (s : Result Bool) (types : Dict StepType)
      → disk.stat path ≡ s
      → types_of_file go lib disk yaml path s ≡ ok types
      → OwnTypes path types
  types_of_file-OwnTypes path (err e) types found h =
      let same : types ≡ [] = cc in
      record {
        paths = [];
        files = [];
        listed = inl (refl, (e, found));
        reads = tt;
        all = same;
        unique = rw same tt;
      }
  types_of_file-OwnTypes path (ok true) types found h = cc
  types_of_file-OwnTypes path (ok false) types found h =
      let (files, reads, same, unique) = (merge_files_iff _ _ [] (path ∷ []) types tt).0 h in
      record {
        paths = path ∷ [];
        files = files;
        listed = inr (refl, found);
        reads = reads;
        all = same;
        unique = unique;
      }

  types_of_dir-TypesFrom :
      (path : String) (s : Result Bool) (old types : Dict StepType)
      → disk.stat (disk.join path "step_types") ≡ s
      → OwnTypes (disk.join path "step_types.yaml") old
      → types_of_dir go lib disk yaml (disk.join path "step_types") s old ≡ ok types
      → TypesFrom path types
  types_of_dir-TypesFrom path (err e) old types found own h =
      let same : types ≡ old = cc in
      record {
        own_paths = own.paths;
        own_files = own.files;
        own_listed = own.listed;
        own_reads = own.reads;
        paths = [];
        files = [];
        listed = inl (refl, (e, found));
        reads = tt;
        all = same ∙ own.all ∙ sym (append-nil (together own.files));
        unique = rw same own.unique;
      }
  types_of_dir-TypesFrom path (ok false) old types found own h = cc
  types_of_dir-TypesFrom path (ok true) old types found own h =
      let folder = disk.join path "step_types" in
      let (entries, listed, merged) = returning-ok (map_error _ (disk.read_dir folder)) _ h in
      let paths = yaml_files go disk folder entries in
      let (files, reads, same, unique) =
        (merge_files_iff _ _ old paths types own.unique).0 merged in
      record {
        own_paths = own.paths;
        own_files = own.files;
        own_listed = own.listed;
        own_reads = own.reads;
        paths = paths;
        files = files;
        listed = inr (
          found,
          yaml_files-YamlPaths go disk folder entries
              (mapped_error _ (disk.read_dir folder) listed),
        );
        reads = reads;
        all = same ∙ ap (λ ts. ts ++ together files) own.all;
        unique = unique;
      }

  pub read_step_types-TypesFrom :
      (path : String) (types : Dict StepType)
      → read_step_types go lib disk yaml path ≡ ok types
      → TypesFrom path types
  unfolding read_step_types
  read_step_types-TypesFrom path types h =
      let file = disk.join path "step_types.yaml" in
      let folder = disk.join path "step_types" in
      let error_at = stat_error go lib disk yaml in
      let missing = is_missing go lib disk yaml in
      let load = types_of_file go lib disk yaml file (disk.stat file) in
      let extend = types_of_dir go lib disk yaml folder (disk.stat folder) in
      let found =
        if missing file && missing folder
        then err (no_types go lib disk yaml file folder)
        else returning load extend in
      let passed =
        not_stopped (error_at folder) found
          (not_stopped (error_at file) (stop_if (error_at folder) found) h) in
      let (first, from_file, from_dir) =
        returning-ok load extend (not_refused (missing file && missing folder) _ _ passed).1 in
      types_of_dir-TypesFrom path (disk.stat folder) first types refl
        (types_of_file-OwnTypes file (disk.stat file) first refl from_file) from_dir

  -- A YAML file that is read is empty, or is decoded.
  read_yaml-decoded :
      {A : Type 0} (decode : String → Result A) (absent : A) (path : String) (a : A)
      → read_yaml go disk decode absent path ≡ ok a
      → (a ≡ absent) ⊎ ((text : String) × (decode text ≡ ok a))
  unfolding read_yaml
  read_yaml-decoded decode absent path a h =
      let (text, is_read, rest) = returning-ok (map_error _ (disk.read_file path)) _ h in
      elim (chosen (text == "") absent (map_error _ (decode text)) rest) [
        | inl empty ↦ inl empty
        | inr full ↦ inr (text, mapped_error _ (decode text) full)
      ]

  module _ (maps : (text : String) (m : Vars) → yaml.decode_vars text ≡ ok m → UniqueKeys m) where
    vars_of_dir-VarsFrom :
        (path : String) (listed : Result (List Entry)) (own vars : Vars)
        → disk.read_dir (disk.join path "vars") ≡ listed
        → read_yaml go disk yaml.decode_vars [] (disk.join path "vars.yaml") ≡ ok own
        → UniqueKeys own
        → vars_of_dir go lib disk yaml (disk.join path "vars") own listed ≡ ok vars
        → VarsFrom path vars
    vars_of_dir-VarsFrom path (ok entries) own vars found is_own u h =
        let paths = yaml_files go disk (disk.join path "vars") entries in
        let (files, reads, same, unique) = (merge_files_iff _ _ own paths vars u).0 h in
        record {
          own = own;
          is_own = is_own;
          paths = paths;
          files = files;
          listed = inr (yaml_files-YamlPaths go disk (disk.join path "vars") entries found);
          reads = reads;
          all = same;
          unique = unique;
        }
    vars_of_dir-VarsFrom path (err e) own vars found is_own u h =
        elim (Bool-cases (disk.is_not_exist e)) [
          | inr other ↦ absurd (refused (rw other at h))
          | inl missing ↦
              let same = same_value (rw missing at h) in
              record {
                own = own;
                is_own = is_own;
                paths = [];
                files = [];
                listed = inl (refl, (e, found, missing));
                reads = tt;
                all = sym same ∙ sym (append-nil own);
                unique = subst UniqueKeys same u;
              }
        ]
      where
        refused : {e : Error} → ◌≡◌ {A = Result Vars} (err e) (ok vars) → ⊥
        refused h = cc

        same_value : ok own ≡ ok vars → own ≡ vars
        same_value h = cc

    pub read_vars-VarsFrom :
        (path : String) (vars : Vars)
        → read_vars go lib disk yaml path ≡ ok vars
        → VarsFrom path vars
    unfolding read_vars
    read_vars-VarsFrom path vars h =
        let (own, from_file, from_dir) =
          returning-ok (read_yaml go disk yaml.decode_vars [] _) _ h in
        vars_of_dir-VarsFrom path (disk.read_dir (disk.join path "vars")) own vars refl from_file
          (elim (read_yaml-decoded yaml.decode_vars [] _ own from_file) [
            | inl same ↦ rw same tt
            | inr (text, decoded) ↦ maps text own decoded
          ])
          from_dir
