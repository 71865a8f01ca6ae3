-- ===== src/Workflow.antt =====
-- pkg/parser/types.go: the parsed workflow file, and the lookups of pkg/parser/parser.go.
mod Types
pub mod Layers
pub use Types.*
use markov.Prelude.{
  String, Bool, Option, none, some, List, [], ◌∷◌, ◌==◌, if◌then◌else◌, is_some, contains, ◌||◌,
  lookup, insert, merge, is_empty,
}
use markov.Value.{Vars, as_map, object}

-- `GetWorkflow`: the first workflow of that name
abbrev find_workflow : String → List Workflow → Option Workflow
find_workflow name [] = none
find_workflow name (w ∷ ws) = if w.name == name then some w else find_workflow name ws

unfoldable pub get_workflow : WorkflowFile → String → Option Workflow
get_workflow file name = find_workflow name file.workflows

unfoldable pub has_workflow : WorkflowFile → String → Bool
unfolding get_workflow
has_workflow file name = is_some (find_workflow name file.workflows)

abbrev find_rule : String → List Rule → Option Rule
find_rule name [] = none
find_rule name (r ∷ rs) = if r.name == name then some r else find_rule name rs

unfoldable pub get_rule : WorkflowFile → String → Option Rule
get_rule file name = find_rule name file.rules

-- `IsTemplated`
unfoldable pub is_templated : String → Bool
is_templated s = contains s "{{" || contains s "{%"

-- the table `primitives`
abbrev pub primitives : List String
primitives =
    "jev" ∷ "k8s_job" ∷ "k8s_job_wait" ∷ "http_request" ∷ "llm_invoke" ∷ "shell_exec"
    ∷ "script_exec" ∷ "write_file" ∷ "claude" ∷ "ansible" ∷ "ansible_playbook" ∷ "prompt" ∷ "gate"
    ∷ "load_artifact" ∷ "set_fact" ∷ "assert" ∷ []

abbrev pub member : String → List String → Bool
member s [] = Bool.false
member s (t ∷ ts) = s == t || member s ts

unfoldable pub is_primitive : String → Bool
is_primitive name = member name primitives

-- `mapAny` of a layer's headers; the case `map[string]string` does not occur in parsed YAML
abbrev layer_headers : Vars → Option Vars
layer_headers layer = elim (lookup "headers" layer) [ none ↦ none | some v ↦ as_map v ]

abbrev pub collect_headers : Vars → List Vars → Vars
collect_headers headers [] = headers
collect_headers headers (layer ∷ layers) =
    collect_headers (elim (layer_headers layer) [ none ↦ headers | some h ↦ merge headers h ])
      layers

unfoldable pub merge_header_params : Vars → List Vars → Vars
merge_header_params merged layers =
    let headers = collect_headers [] layers in
    if is_empty headers then merged else insert "headers" (object headers) merged

-- `ResolveStepType`: the base type and the parameters, a later layer over an earlier one
unfoldable pub resolve_step_type : WorkflowFile → Step → String × Vars
unfolding is_primitive merge_header_params
resolve_step_type file step =
    if is_primitive step.type
    then (step.type, step.params)
    else elim (lookup step.type file.step_types) [
      | none ↦ (step.type, step.params)
      | some st ↦
          let merged = merge (merge (merge (merge [] st.job) st.defaults) st.params) step.params in
          (
            st.base,
            merge_header_params merged (st.job ∷ st.defaults ∷ st.params ∷ step.params ∷ []),
          )
    ]
