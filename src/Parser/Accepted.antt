-- ===== src/Parser/Accepted.antt =====
-- What `validate` of pkg/parser/parser.go ensures of a file as a whole, and what the engine gains.
use markov.Prelude.{
  String, true, false, ◌≡◌, refl, sym, ◌∙◌, ap, subst, ◌≢◌, inl, inr, Option, none, some, List, [],
  ◌∷◌, ◌++◌, eq_iff, All, is_positive, arith, Bool-cases,
}
use mathlib.Core.List.{map, Mem, Nodup, Pairwise, Perm, perm_middle, append-nil, append_assoc, Memᴰ}
use mathlib.Core.List.Perm
use mathlib.Core.List.Permᴰ
use mathlib.Core.Logic.{∥∥₁_elim}
use mathlib.Core.HLevel.{⊥_prop}
use markov.Failure.{Error, Result, ok, err}
use markov.Workflow.{Step, Workflow, WorkflowFile, Rule, member}
use markov.Engine.Env.{Go}
use markov.Parser.Checks.{first_of, or_next-none, refuse_if-none, first_of-none}
use markov.Parser.Jev.{Library}
use markov.Parser.{
  validate_step, validate_steps, validate_workflow_steps, validate_rules, validate_workflows,
  and_then, failure_of, with_defaults, file_checks, validate,
}
use markov.Parser.Valid.{HasWorkflow, ValidStep, differs, workflow-found, validate_step-Valid}

member-Mem : (s : String) (ts : List String) → Memᴰ s ts → member s ts ≡ true
member-Mem s [] m = elim m [ ]
member-Mem s (t ∷ ts) (Memᴰ.head e) = ground (arith, eq_iff s t)
member-Mem s (t ∷ ts) (Memᴰ.tail m) = ground (arith, member-Mem s ts m)

fresh : (s : String) (ts : List String) → member s ts ≡ false → (t : String) → Mem t ts → s ≢ t
fresh s ts h t m e =
    ∥∥₁_elim m ⊥_prop (λ d. clash (member-Mem s ts (subst (λ u. Memᴰ u ts) (sym e) d)))
  where
    clash : member s ts ≡ true → ⊥
    clash g = cc

-- What a workflow of an accepted file is: its steps are valid, and no two of the steps and handlers
-- share a name, which keys their records.
pub record ValidWorkflow (file : WorkflowFile) (w : Workflow) : Type 0 where
  pub named : w.name ≢ ""
  pub steps : All (ValidStep file) w.steps
  pub rescue : All (ValidStep file) w.rescue
  pub always : All (ValidStep file) w.always
  pub distinct : Nodup (map (λ s. s.name) (w.steps ++ (w.rescue ++ w.always)))

-- What an accepted file is.
pub record ValidFile (file : WorkflowFile) : Type 0 where
  pub entrypoint : HasWorkflow file file.entrypoint
  pub rules_named : All (λ (r : Rule). r.name ≢ "") file.rules
  pub rules_distinct : Nodup (map (λ r. r.name) file.rules)
  pub workflows : All (ValidWorkflow file) file.workflows
  pub workflows_distinct : Nodup (map (λ w. w.name) file.workflows)

map-append :
    {A : Type 0} (f : A → String) (xs ys : List A) → map f (xs ++ ys) ≡ map f xs ++ map f ys
map-append f [] ys = refl
map-append f (x ∷ xs) ys = ap (λ zs. f x ∷ zs) (map-append f xs ys)

append-comm : (xs ys : List String) → Perm (xs ++ ys) (ys ++ xs)
append-comm xs ys = ∣ Permᴰ.append_comm xs ys ∣₁

-- The names of three sections, collected from the last to the first.
rotated : (a r s : List String) → Perm (a ++ (r ++ (s ++ []))) (s ++ (r ++ a))
rotated a r s = rw (append-nil s) (
    Perm.trans (append-comm a (r ++ s))
      (Perm.trans (Perm.append_right a (append-comm r s)) (rw (append_assoc s r a) Perm.rfl)))

-- Each name differs from those seen before it.
abbrev Fresh : List String → List String → Type 0
Fresh [] seen = Unit
Fresh (n ∷ ns) seen = (member n seen ≡ false) × Fresh ns (n ∷ seen)

Fresh-Nodup : (ns seen : List String) → Fresh ns seen → Nodup seen → Nodup (ns ++ seen)
Fresh-Nodup [] seen f d = d
Fresh-Nodup (n ∷ ns) seen f d =
    Perm.nodup (perm_middle ns seen)
      (Fresh-Nodup ns (n ∷ seen) f.1 (Pairwise.cons (fresh n seen f.0) d))

all_distinct : (ns : List String) → Fresh ns [] → Nodup ns
all_distinct ns f = subst Nodup (append-nil ns) (Fresh-Nodup ns [] f Pairwise.nil)

module _ (go : Go) (lib : Library) where
  steps-Valid :
      (file : WorkflowFile) (workflow part : String) (ss : List Step) (seen seen' : List String)
      → validate_steps go lib file workflow part ss seen ≡ ok seen'
      → All (ValidStep file) ss
        × (Nodup seen → Nodup seen')
        × Perm seen' (map (λ s. s.name) ss ++ seen)
  unfolding validate_steps
  steps-Valid file workflow part [] seen seen' h =
      let same : seen' ≡ seen = cc in (tt, λ d. rw same d, rw same Perm.rfl)
  steps-Valid file workflow part (s ∷ ss) seen seen' h =
      go_on (validate_step go lib file workflow part seen s)
        (validate_step-Valid go lib file workflow part seen s)
        (steps-Valid file workflow part ss (s.name ∷ seen) seen') h
    where
      go_on :
          (c : Option Error)
          → (c ≡ none → ValidStep file s × (member s.name seen ≡ false))
          → (validate_steps go lib file workflow part ss (s.name ∷ seen) ≡ ok seen'
              → All (ValidStep file) ss
                × (Nodup (s.name ∷ seen) → Nodup seen')
                × Perm seen' (map (λ s. s.name) ss ++ s.name ∷ seen))
          → elim c as (λ _. Result (List String)) [
            | some e ↦ err e
            | none ↦ validate_steps go lib file workflow part ss (s.name ∷ seen)
          ]
            ≡ ok seen'
          → All (ValidStep file) (s ∷ ss)
            × (Nodup seen → Nodup seen')
            × Perm seen' (s.name ∷ (map (λ s. s.name) ss ++ seen))
      go_on (some e) valid rest e2 = cc
      go_on none valid rest e2 =
          let (all, distinct, same) = rest e2 in
          (
            ((valid refl).0, all),
            λ d. distinct (Pairwise.cons (fresh s.name seen (valid refl).1) d),
            Perm.trans same (perm_middle (map (λ s. s.name) ss) seen),
          )

  workflow-Valid :
      (file : WorkflowFile) (w : Workflow) (seen : List String)
      → validate_workflow_steps go lib file w ≡ ok seen
      → w.name ≢ ""
      → ValidWorkflow file w
  unfolding validate_workflow_steps
  workflow-Valid file w seen h named =
      first (validate_steps go lib file w.name "steps" w.steps []) refl h
    where
      steps : List String
      steps = map (λ s. s.name) w.steps

      rescue : List String
      rescue = map (λ s. s.name) w.rescue

      always : List String
      always = map (λ s. s.name) w.always

      names : map (λ s. s.name) (w.steps ++ (w.rescue ++ w.always)) ≡ steps ++ (rescue ++ always)
      names =
          map-append (λ s. s.name) w.steps (w.rescue ++ w.always)
          ∙ ap (λ ns. steps ++ ns) (map-append (λ s. s.name) w.rescue w.always)

      last :
          (a b : List String)
          → validate_steps go lib file w.name "steps" w.steps [] ≡ ok a
          → validate_steps go lib file w.name "rescue" w.rescue a ≡ ok b
          → validate_steps go lib file w.name "always" w.always b ≡ ok seen
          → ValidWorkflow file w
      last a b h1 h2 h3 =
          let (v1, d1, p1) = steps-Valid file w.name "steps" w.steps [] a h1 in
          let (v2, d2, p2) = steps-Valid file w.name "rescue" w.rescue a b h2 in
          let (v3, d3, p3) = steps-Valid file w.name "always" w.always b seen h3 in
          let collected = Perm.trans p3 (
            Perm.trans (Perm.append_left always (Perm.trans p2 (Perm.append_left rescue p1)))
              (rotated always rescue steps)) in
          record {
            named = named;
            steps = v1;
            rescue = v2;
            always = v3;
            distinct = subst Nodup (sym names) (Perm.nodup collected (d3 (d2 (d1 Pairwise.nil))));
          }

      second :
          (a : List String) (r : Result (List String))
          → validate_steps go lib file w.name "steps" w.steps [] ≡ ok a
          → validate_steps go lib file w.name "rescue" w.rescue a ≡ r
          → and_then go lib r (validate_steps go lib file w.name "always" w.always) ≡ ok seen
          → ValidWorkflow file w
      second a (ok b) h1 h2 h3 = last a b h1 h2 h3
      second a (err e) h1 h2 h3 = cc

      first :
          (r : Result (List String))
          → validate_steps go lib file w.name "steps" w.steps [] ≡ r
          → and_then go lib
              (and_then go lib r (validate_steps go lib file w.name "rescue" w.rescue))
              (validate_steps go lib file w.name "always" w.always)
            ≡ ok seen
          → ValidWorkflow file w
      first (ok a) h1 h2 =
          second a (validate_steps go lib file w.name "rescue" w.rescue a) h1 refl h2
      first (err e) h1 h2 = cc

  rules-Valid :
      (rs : List Rule) (seen : List String)
      → validate_rules go lib rs seen ≡ none
      → All (λ (r : Rule). r.name ≢ "") rs × Fresh (map (λ r. r.name) rs) seen
  unfolding validate_rules
  rules-Valid [] seen h = (tt, tt)
  rules-Valid (r ∷ rs) seen h =
      let p = or_next-none _ _ h in
      let q = or_next-none _ _ p.1 in
      let (valid, names) = rules-Valid rs (r.name ∷ seen) (or_next-none _ _ q.1).0 in
      ((differs r.name "" (refuse_if-none _ _ p.0), valid), (refuse_if-none _ _ q.0, names))

  workflows-Valid :
      (file : WorkflowFile) (ws : List Workflow) (seen : List String)
      → validate_workflows go lib file ws seen ≡ none
      → All (ValidWorkflow file) ws × Fresh (map (λ w. w.name) ws) seen
  unfolding validate_workflows
  workflows-Valid file [] seen h = (tt, tt)
  workflows-Valid file (w ∷ ws) seen h =
      let p = or_next-none _ _ h in
      let q = or_next-none _ _ p.1 in
      let r = or_next-none _ _ q.1 in
      let (valid, names) = workflows-Valid file ws (w.name ∷ seen) (or_next-none _ _ r.1).0 in
      (
        (
          returned (validate_workflow_steps go lib file w) refl r.0
              (differs w.name "" (refuse_if-none _ _ p.0)),
          valid,
        ),
        (refuse_if-none _ _ q.0, names),
      )
    where
      returned :
          (r : Result (List String))
          → validate_workflow_steps go lib file w ≡ r
          → failure_of go lib r ≡ none
          → w.name ≢ ""
          → ValidWorkflow file w
      returned (ok names) h1 h2 = workflow-Valid file w names h1
      returned (err e) h1 h2 = cc

  file-Valid : (file : WorkflowFile) → first_of (file_checks go lib file) ≡ none → ValidFile file
  unfolding file_checks
  file-Valid file passed =
      let p = first_of-none (file_checks go lib file) passed in
      let (rules_ok, rule_names) = rules-Valid file.rules [] p.1.1.1.1.0 in
      let (workflows_ok, workflow_names) = workflows-Valid file file.workflows [] p.1.1.1.1.1.0 in
      record {
        entrypoint = workflow-found file file.entrypoint _ p.1.1.1.0;
        rules_named = rules_ok;
        rules_distinct = all_distinct (map (λ r. r.name) file.rules) rule_names;
        workflows = workflows_ok;
        workflows_distinct = all_distinct (map (λ w. w.name) file.workflows) workflow_names;
      }

  positive_forks : (file : WorkflowFile) → is_positive (with_defaults go lib file).forks ≡ true
  positive_forks file = elim (Bool-cases (is_positive file.forks)) [
    | inl given ↦ rw given given
    | inr absent ↦ rw absent refl
  ]

  -- A file that `validate` accepts is returned with its defaults, with a positive number of forks,
  -- and is valid: its entrypoint is one of its workflows; rules, workflows, and the steps and
  -- handlers of a workflow have distinct names that are not empty; every step calls a workflow or
  -- has a type, and the workflows, step types and rules that it names are there.
  pub validate-Valid :
      (file file' : WorkflowFile)
      → validate go lib file ≡ ok file'
      → (file' ≡ with_defaults go lib file) × (is_positive file'.forks ≡ true) × ValidFile file
  unfolding validate
  validate-Valid file file' h = accepted (first_of (file_checks go lib file)) refl h
    where
      accepted :
          (c : Option Error)
          → first_of (file_checks go lib file) ≡ c
          → elim c as (λ _. Result WorkflowFile) [
            | some e ↦ err e
            | none ↦ ok (with_defaults go lib file)
          ]
            ≡ ok file'
          → (file' ≡ with_defaults go lib file) × (is_positive file'.forks ≡ true) × ValidFile file
      accepted none passed e =
          let same : file' ≡ with_defaults go lib file = cc in
          (same, rw same (positive_forks file), file-Valid file passed)
      accepted (some f) failed e = cc
