-- ===== src/Workflow/Layers.antt =====
-- `ResolveStepType` of pkg/parser/parser.go: of which layer a parameter has its value.
use markov.Prelude.{
  String, ◌≡◌, refl, ◌∙◌, ap, false, some, List, [], ◌∷◌, ◌==◌, lookup, merge, lookup-insert,
  is_empty, Bool-cases, inl, inr,
}
use markov.Prelude.Layers.{UniqueKeys, prefer, lookup-layers, lookup-copied}
use markov.Value.{Vars, object}
use markov.Workflow.{
  Step, StepType, WorkflowFile, is_primitive, collect_headers, merge_header_params,
  resolve_step_type,
}

-- The maps of a step type and of its step are maps.
pub record UniqueLayers (st : StepType) (step : Step) : Type 0 where
  pub job : UniqueKeys st.job
  pub defaults : UniqueKeys st.defaults
  pub params : UniqueKeys st.params
  pub own : UniqueKeys step.params

headers-apart :
    (k : String) (merged : Vars) (layers : List Vars)
    → ("headers" == k) ≡ false
    → lookup k (merge_header_params merged layers) ≡ lookup k merged
unfolding merge_header_params
headers-apart k merged layers other = elim (Bool-cases (is_empty (collect_headers [] layers))) [
  | inl none_given ↦ rw none_given refl
  | inr given ↦
      rw given
        (lookup-insert "headers" k (object (collect_headers [] layers)) merged ∙ rw other refl)
]

-- A step of a defined type has that type's base, and each parameter but the headers has the value
-- that the step gives it, else the type's parameters, else its defaults, else its job.
pub lookup-resolve_step_type :
    (file : WorkflowFile) (step : Step) (st : StepType) (k : String)
    → is_primitive step.type ≡ false
    → lookup step.type file.step_types ≡ some st
    → UniqueLayers st step
    → ("headers" == k) ≡ false
    → ((resolve_step_type file step).0 ≡ st.base)
      × (lookup k (resolve_step_type file step).1
          ≡ prefer
              (lookup k step.params)
              (prefer (lookup k st.params) (prefer (lookup k st.defaults) (lookup k st.job))))
unfolding resolve_step_type
lookup-resolve_step_type file step st k custom known u other =
    rw (custom, known)
      (
        refl,
        headers-apart k _ (st.job ∷ st.defaults ∷ st.params ∷ step.params ∷ []) other
            ∙ lookup-layers k (merge (merge (merge [] st.job) st.defaults) st.params) step.params
                u.own
            ∙ ap (prefer (lookup k step.params)) (
                lookup-layers k (merge (merge [] st.job) st.defaults) st.params u.params
                ∙ ap (prefer (lookup k st.params)) (
                    lookup-layers k (merge [] st.job) st.defaults u.defaults
                    ∙ ap (prefer (lookup k st.defaults)) (lookup-copied k st.job u.job))),
      )
