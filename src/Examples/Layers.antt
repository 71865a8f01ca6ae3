-- ===== src/Examples/Layers.antt =====
-- A variable that every source gives, and a step of a type defined in the file.
use markov.Prelude.{String, ◌≡◌, refl, [], ◌∷◌, lookup}
use markov.Prelude.Layers.{prefer}
use markov.Value.{Value, Vars, null, str}
use markov.Workflow.{Step, StepType, WorkflowFile, is_primitive, resolve_step_type}
use markov.Workflow.Layers.{lookup-resolve_step_type}
use markov.Engine.Context.{build_context}
use markov.Engine.Context.Layers.{present, lookup-build_context}
use markov.Examples.Setting.{file, plain_step}

abbrev regions : String → Vars
regions name = ("region", str name) ∷ []

lookup-build_context_example :
    lookup "region" (build_context (regions "file") [] (("region", null) ∷ []))
    ≡ prefer (lookup {V = Value} "region" []) (
        prefer
          (present (lookup "region" (("region", null) ∷ [])))
          (lookup "region" (regions "file")))
unfolding lookup
lookup-build_context_example =
    lookup-build_context "region" (regions "file") [] (("region", null) ∷ []) (refl, tt) tt
      (refl, tt)

abbrev notify_type : StepType
notify_type = record {
  base = "http_request";
  description = "";
  defaults = ("url", str "http://default") ∷ ("method", str "POST") ∷ [];
  job = [];
  params = [];
}

abbrev typed_file : WorkflowFile
typed_file = record file { step_types = ("notify", notify_type) ∷ [] }

abbrev notifying : Step
notifying = record (plain_step "tell" "notify") { params = ("url", str "http://here") ∷ [] }

lookup-resolve_step_type_example :
    ((resolve_step_type typed_file notifying).0 ≡ "http_request")
    × (lookup "url" (resolve_step_type typed_file notifying).1
        ≡ prefer (lookup "url" notifying.params) (
            prefer
              (lookup {V = Value} "url" [])
              (prefer (lookup "url" notify_type.defaults) (lookup {V = Value} "url" []))))
unfolding lookup is_primitive
lookup-resolve_step_type_example =
    lookup-resolve_step_type typed_file notifying notify_type "url" refl refl
      (record { job = tt; defaults = (refl, (refl, tt)); params = tt; own = (refl, tt) }) refl
