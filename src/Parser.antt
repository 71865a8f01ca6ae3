-- ===== src/Parser.antt =====
-- `validate` of pkg/parser/parser.go: what a workflow file must be before it is run.
pub mod Checks
pub mod Jev
pub mod Valid
pub mod Accepted
pub mod Resolves
pub mod Reading
pub mod Loading
use markov.Prelude.{
  String, Bool, not, ◌&&◌, ◌||◌, Option, none, some, List, [], ◌∷◌, ◌==◌, starts_with, concat,
  is_empty, is_some, lookup, has_key, if◌then◌else◌, is_positive, pos,
}
use markov.Failure.{Error, message, wrap, Result, ok, err}
use markov.Workflow.{
  Step, Workflow, WorkflowFile, Rule, has_workflow, get_rule, is_templated, is_primitive, member,
}
use markov.Engine.Env.{Go}
use markov.Parser.Checks.{refuse_if, first_of, each}
use markov.Parser.Jev.{Library, validate_jev, validate_jev_step}

-- `resolveType`: whether it finds the type
unfoldable pub is_known_type : WorkflowFile → String → Bool
unfolding is_primitive has_key
is_known_type file type = is_primitive type || has_key type file.step_types

module _ (go : Go) (lib : Library) where
  abbrev pub say : List String → Error
  say parts = message (concat parts)

  -- an error in a step
  abbrev in_step : String → Step → List String → Error
  in_step workflow s parts =
      say ("workflow " ∷ go.quote workflow ∷ ", step " ∷ go.quote s.name ∷ ": " ∷ parts)

  abbrev pub wrap_in_step : String → Step → Option Error → Option Error
  wrap_in_step workflow s none = none
  wrap_in_step workflow s (some e) =
      some (wrap (concat ("workflow " ∷ go.quote workflow ∷ ", step " ∷ go.quote s.name ∷ [])) e)

  abbrev pub check_workflow_name : WorkflowFile → String → Step → String → Option Error
  check_workflow_name file workflow s name =
      refuse_if (not (has_workflow file name))
        (in_step workflow s ("workflow_names lists unknown workflow " ∷ go.quote name ∷ []))

  abbrev pub not_templated : String → Step → Option Error
  not_templated workflow s = refuse_if (not (is_templated s.workflow)) (
      in_step workflow s
        ("workflow_names needs a templated workflow (one with {{ }}) to choose between them" ∷ []))

  -- `workflow_names`
  unfoldable pub check_workflow_names : WorkflowFile → String → Step → Option Error
  unfolding is_templated has_workflow
  check_workflow_names file workflow s =
      if is_empty s.workflow_names
      then none
      else first_of (
          not_templated workflow s
          ∷ each (check_workflow_name file workflow s) s.workflow_names
          ∷ [])

  -- the workflow that the step calls, or its type
  unfoldable pub check_work : WorkflowFile → String → Step → Option Error
  unfolding is_templated has_workflow
  check_work file workflow s =
      if not (s.workflow == "")
      then refuse_if (not (is_templated s.workflow) && not (has_workflow file s.workflow))
          (in_step workflow s ("references unknown workflow " ∷ go.quote s.workflow ∷ []))
      else refuse_if (s.type == "") (in_step workflow s ("must have type or workflow" ∷ []))

  -- the conditions and the loop of the step
  unfoldable pub modifier_checks : String → Step → List (Option Error)
  modifier_checks workflow s =
      refuse_if (not (s.failed_when == "") && not (s.workflow == ""))
        (in_step workflow s ("failed_when applies to step types, not sub-workflows" ∷ []))
      ∷ refuse_if (not (s.for_each_when == "") && s.for_each == "")
          (in_step workflow s ("for_each_when requires for_each" ∷ []))
      ∷ refuse_if (not (s.for_each == "") && s.item_name == "")
          (in_step workflow s ("for_each requires as" ∷ []))
      ∷ []

  unfoldable pub check_modifiers : String → Step → Option Error
  unfolding modifier_checks
  check_modifiers workflow s = first_of (modifier_checks workflow s)

  unfoldable pub check_type : WorkflowFile → String → Step → Option Error
  unfolding is_known_type
  check_type file workflow s =
      if s.type == ""
      then none
      else wrap_in_step workflow s (
          refuse_if (not (is_known_type file s.type))
            (say ("unknown type " ∷ go.quote s.type ∷ " (not a primitive or step_type)" ∷ [])))

  abbrev pub check_rule_name : WorkflowFile → String → Step → String → Option Error
  check_rule_name file workflow s name =
      refuse_if (not (is_some (get_rule file name)))
        (in_step workflow s ("references unknown rule " ∷ go.quote name ∷ []))

  abbrev pub no_rules : String → Step → Option Error
  no_rules workflow s =
      refuse_if (is_empty s.rules)
        (in_step workflow s ("gate must reference at least one rule" ∷ []))

  -- the rules of a gate
  unfoldable pub check_rules : WorkflowFile → String → Step → Option Error
  unfolding get_rule
  check_rules file workflow s =
      if s.type == "gate"
      then first_of (no_rules workflow s ∷ each (check_rule_name file workflow s) s.rules ∷ [])
      else none

  -- the body of the loop in `validateSteps`; `seen` is `stepNames`
  unfoldable pub step_checks :
      WorkflowFile → String → String → List String → Step → List (Option Error)
  unfolding check_workflow_names check_work check_modifiers check_type check_rules validate_jev_step
  step_checks file workflow part seen s =
      refuse_if (starts_with s.name "__jev__/") (message "step name prefix __jev__/ is reserved")
      ∷ refuse_if (s.name == "")
          (say ("workflow " ∷ go.quote workflow ∷ ", " ∷ part ∷ ": step missing name" ∷ []))
      ∷ refuse_if (member s.name seen) (
          say (
            "workflow "
            ∷ go.quote workflow
            ∷ ": duplicate step name "
            ∷ go.quote s.name
            ∷ " across steps, rescue, and always"
            ∷ []))
      ∷ check_workflow_names file workflow s
      ∷ check_work file workflow s
      ∷ check_modifiers workflow s
      ∷ check_type file workflow s
      ∷ wrap_in_step workflow s (validate_jev_step go lib file s)
      ∷ check_rules file workflow s
      ∷ []

  unfoldable pub validate_step : WorkflowFile → String → String → List String → Step → Option Error
  unfolding step_checks
  validate_step file workflow part seen s = first_of (step_checks file workflow part seen s)

  -- `validateSteps`, and the names that it adds
  unfoldable pub validate_steps :
      WorkflowFile → String → String → List Step → List String → Result (List String)
  unfolding validate_step
  validate_steps file workflow part [] seen = ok seen
  validate_steps file workflow part (s ∷ ss) seen =
      let rest = validate_steps file workflow part ss (s.name ∷ seen) in
      elim (validate_step file workflow part seen s) [ some e ↦ err e | none ↦ rest ]

  abbrev pub and_then :
      Result (List String) → (List String → Result (List String)) → Result (List String)
  and_then (err e) f = err e
  and_then (ok seen) f = f seen

  -- `validateWorkflowSteps`
  unfoldable pub validate_workflow_steps : WorkflowFile → Workflow → Result (List String)
  unfolding validate_steps
  validate_workflow_steps file w =
      and_then
        (and_then (validate_steps file w.name "steps" w.steps [])
          (validate_steps file w.name "rescue" w.rescue))
        (validate_steps file w.name "always" w.always)

  -- the loop over the rules
  unfoldable pub validate_rules : List Rule → List String → Option Error
  validate_rules [] seen = none
  validate_rules (r ∷ rs) seen =
      let rest = validate_rules rs (r.name ∷ seen) in
      first_of (
        refuse_if (r.name == "") (message "rule missing name")
        ∷ refuse_if (member r.name seen) (say ("duplicate rule name " ∷ go.quote r.name ∷ []))
        ∷ rest
        ∷ [])

  abbrev pub failure_of : Result (List String) → Option Error
  failure_of (ok seen) = none
  failure_of (err e) = some e

  -- the loop over the workflows
  unfoldable pub validate_workflows : WorkflowFile → List Workflow → List String → Option Error
  unfolding validate_workflow_steps
  validate_workflows file [] seen = none
  validate_workflows file (w ∷ ws) seen =
      let rest = validate_workflows file ws (w.name ∷ seen) in
      first_of (
        refuse_if (w.name == "") (message "workflow missing name")
        ∷ refuse_if (member w.name seen) (say ("duplicate workflow name " ∷ go.quote w.name ∷ []))
        ∷ failure_of (validate_workflow_steps file w)
        ∷ rest
        ∷ [])

  -- `validate` sets what the file leaves out; a map that is absent is empty in the model
  abbrev pub with_defaults : WorkflowFile → WorkflowFile
  with_defaults file = if is_positive file.forks then file else record file { forks = pos 5 }

  -- the checks of `validate`, in their order
  unfoldable pub file_checks : WorkflowFile → List (Option Error)
  unfolding validate_jev has_workflow validate_rules validate_workflows
  file_checks file =
      validate_jev go lib file
      ∷ refuse_if (is_empty file.workflows) (message "no workflows defined")
      ∷ refuse_if (file.entrypoint == "") (message "entrypoint is required")
      ∷ refuse_if (not (has_workflow file file.entrypoint))
          (say ("entrypoint " ∷ go.quote file.entrypoint ∷ " not found in workflows" ∷ []))
      ∷ validate_rules file.rules []
      ∷ validate_workflows file file.workflows []
      ∷ []

  -- `validate`, with the file as it leaves it
  unfoldable pub validate : WorkflowFile → Result WorkflowFile
  unfolding file_checks
  validate file = elim (first_of (file_checks file)) [
    | some e ↦ err e
    | none ↦ ok (with_defaults file)
  ]
