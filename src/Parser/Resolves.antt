-- ===== src/Parser/Resolves.antt =====
-- The engine's lookups in a file that `validate` accepted.
use markov.Prelude.{
  String, Bool, true, false, not, ◌&&◌, ◌≡◌, refl, sym, ◌∙◌, ap, subst, ◌≢◌, is_empty, concat,
  if◌then◌else◌, List, [], ◌∷◌, ◌==◌, eq_iff, All, Bool-cases, inl, inr, is_positive,
}
use mathlib.Core.List.{Memᴰ}
use markov.Value.{Vars}
use markov.Failure.{wrap, Result, ok, err}
use markov.Workflow.{Step, Workflow, WorkflowFile, get_workflow, is_templated, member}
use markov.Engine.Env.{Env, Go}
use markov.Engine.SubWorkflow.{resolve_sub_workflow, rendered_name, named_workflow, unexpected_name}
use markov.Parser.Jev.{Library}
use markov.Parser.{with_defaults, validate}
use markov.Parser.Valid.{HasWorkflow, ValidStep}
use markov.Parser.Accepted.{ValidWorkflow, validate-Valid}

All-at : {A : Type 0} (P : A → Type 0) (x : A) (xs : List A) → All P xs → Memᴰ x xs → P x
All-at P x [] h m = elim m [ ]
All-at P x (y ∷ ys) h (Memᴰ.head e) = subst P (sym e) h.0
All-at P x (y ∷ ys) h (Memᴰ.tail m) = All-at P x ys h.1 m

All-member :
    (P : String → Type 0) (s : String) (xs : List String) → All P xs → member s xs ≡ true → P s
All-member P s [] h m = cc
All-member P s (t ∷ ts) h m = elim (Bool-cases (s == t)) [
  | inl e ↦ subst P (sym ((eq_iff s t).0 e)) h.0
  | inr e ↦ All-member P s ts h.1 (rw e at m)
]

-- a section of the steps of a workflow
pub data InWorkflow (s : Step) (w : Workflow) : Type 0 where
  in_steps : Memᴰ s w.steps → InWorkflow s w
  in_rescue : Memᴰ s w.rescue → InWorkflow s w
  in_always : Memᴰ s w.always → InWorkflow s w

step-Valid :
    {file : WorkflowFile} {s : Step} {w : Workflow}
    → ValidWorkflow file w
    → InWorkflow s w
    → ValidStep file s
step-Valid {file} {s} {w} v (in_steps m) = All-at (ValidStep file) s w.steps v.steps m
step-Valid {file} {s} {w} v (in_rescue m) = All-at (ValidStep file) s w.rescue v.rescue m
step-Valid {file} {s} {w} v (in_always m) = All-at (ValidStep file) s w.always v.always m

module _ (go : Go) (lib : Library) where
  same_workflows : (file : WorkflowFile) → (with_defaults go lib file).workflows ≡ file.workflows
  same_workflows file = elim (Bool-cases (is_positive file.forks)) [
    | inl given ↦ rw given refl
    | inr absent ↦ rw absent refl
  ]

  same_lookup :
      (file : WorkflowFile) (name : String)
      → get_workflow (with_defaults go lib file) name ≡ get_workflow file name
  unfolding get_workflow
  same_lookup file name = rw (same_workflows file) refl

module _ (env : Env) where
  -- A rendered name is in the list, where there is one.
  rendered-listed :
      (s : Step) (ctx : Vars) (name : String)
      → is_empty s.workflow_names ≡ false
      → rendered_name env s ctx ≡ ok name
      → member name s.workflow_names ≡ true
  rendered-listed s ctx name listed h = go_on (env.tmpl.render s.workflow ctx) h
    where
      checked :
          (n : String) (b : Bool)
          → member n s.workflow_names ≡ b
          → (if not (is_empty s.workflow_names) && not b
              then err (unexpected_name env s n)
              else ok n)
            ≡ ok name
          → member name s.workflow_names ≡ true
      checked n true e h1 =
          let plain : ◌≡◌ {A = Result String} (ok n) (ok name) = rw listed at h1 in
          let same : n ≡ name = cc in subst (λ m. member m s.workflow_names ≡ true) same e
      checked n false e h1 =
          let refused : err (unexpected_name env s n) ≡ ok name = rw listed at h1 in cc

      go_on :
          (r : Result String)
          → elim r as (λ _. Result String) [
            | err e ↦
                err (wrap (concat ("rendering workflow name " ∷ env.go.quote s.workflow ∷ [])) e)
            | ok text ↦
                let n = env.go.trim_space text in
                if not (is_empty s.workflow_names) && not (member n s.workflow_names)
                then err (unexpected_name env s n)
                else ok n
          ]
            ≡ ok name
          → member name s.workflow_names ≡ true
      go_on (err e) h1 = cc
      go_on (ok text) h1 =
          checked (env.go.trim_space text) (member (env.go.trim_space text) s.workflow_names) refl
            h1

  named_workflow-Found :
      (s : Step) (name : String)
      → HasWorkflow env.file name
      → (callee : Workflow) × (named_workflow env s name ≡ ok callee)
  named_workflow-Found s name (callee, e) = (callee, rw (e, named_workflow) refl)

module _ (env : Env) (lib : Library) where
  -- A step of an accepted file that calls a workflow finds it: a name that is no template always
  -- resolves, and with a list of `workflow_names` a template fails to resolve only by the error of
  -- its rendering, or because it renders to a name outside the list.
  pub resolve_sub_workflow-Found :
      (file : WorkflowFile) (w : Workflow) (s : Step) (ctx : Vars)
      → validate env.go lib file ≡ ok env.file
      → Memᴰ w env.file.workflows
      → InWorkflow s w
      → s.workflow ≢ ""
      → (is_templated s.workflow ≡ false
          → (callee : Workflow) × (resolve_sub_workflow env s ctx ≡ ok callee))
        × (is_empty s.workflow_names ≡ false
            → is_templated s.workflow ≡ true
            → (name : String) → rendered_name env s ctx ≡ ok name
            → (callee : Workflow) × (resolve_sub_workflow env s ctx ≡ ok callee))
  unfolding resolve_sub_workflow
  resolve_sub_workflow-Found file w s ctx accepted at_w at_s calls =
      let (same, _, valid) = validate-Valid env.go lib file env.file accepted in
      let listed = ap (λ (f : WorkflowFile). f.workflows) same ∙ same_workflows env.go lib file in
      let v =
        step-Valid
          (All-at (ValidWorkflow file) w file.workflows valid.workflows
            (subst (Memᴰ w) listed at_w))
          at_s in
      let has : (name : String) → HasWorkflow file name → HasWorkflow env.file name =
        λ name (callee, e).
          (callee, ap (λ f. get_workflow f name) same ∙ same_lookup env.go lib file name ∙ e) in
      (
        λ fixed.
            rw fixed (named_workflow-Found env s s.workflow (has s.workflow (v.calls calls fixed))),
        λ some_listed templated name rendered. rw templated (
            rw rendered (
              named_workflow-Found env s name (
                has name (
                  All-member (HasWorkflow file) name s.workflow_names v.candidates
                    (rendered-listed env s ctx name some_listed rendered))))),
      )
