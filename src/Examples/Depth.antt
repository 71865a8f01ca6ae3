-- ===== src/Examples/Depth.antt =====
-- A file of two workflows, of which one calls the other.
use markov.Prelude.{
  ℕ, ◌<◌, ◌≡◌, refl, subst, String, Option, none, some, [], ◌∷◌, ◌==◌, if◌then◌else◌, All, arith,
  Bool-cases, inl, inr,
}
use markov.Workflow.{Step, Workflow, get_workflow, is_templated}
use markov.Engine.Env.{Env}
use markov.Engine.SubWorkflow.{resolve_sub_workflow}
use markov.Engine.Lifecycle.{execute_workflow}
use markov.Engine.Depth.{IsKnown, IsRanked, CallsBelow, execute_workflow-enough}
use markov.Examples.Setting.{env, world, file, plain_step, release}

abbrev calling : Step
calling = record (plain_step "calling" "") { workflow = "release" }

abbrev caller : Workflow
caller = record {
  name = "caller";
  description = "";
  vars = [];
  steps = calling ∷ [];
  rescue = [];
  always = [];
}

abbrev two_env : Env
two_env = record env { file = record file { workflows = caller ∷ release ∷ [] } }

abbrev rank : Workflow → ℕ
rank w = if w.name == "caller" then 1 else 0

-- the known workflows are the two of the file
two_known :
    (P : Workflow → Type 0) → P caller → P release → (w : Workflow) → IsKnown two_env w → P w
unfolding get_workflow
two_known P first second w (name, h) = elim (Bool-cases ("caller" == name)) [
  | inl e ↦ subst P (found caller (rw e at h)) first
  | inr e ↦ elim (Bool-cases ("release" == name)) [
    | inl f ↦ subst P (found release (rw (e, f) at h)) second
    | inr f ↦ absurd (clash (rw (e, f) at h))
  ]
]
  where
    found : (v : Workflow) → ◌≡◌ {A = Option Workflow} (some v) (some w) → v ≡ w
    found v e = cc

    clash : ◌≡◌ {A = Option Workflow} none (some w) → ⊥
    clash e = cc

-- a step that calls nothing
quiet : (name type : String) (bound : ℕ) → CallsBelow two_env rank bound (plain_step name type)
unfolding resolve_sub_workflow is_templated get_workflow
quiet name type bound ctx callee h = cc

calls_release : CallsBelow two_env rank 1 calling
unfolding resolve_sub_workflow is_templated get_workflow
calls_release ctx callee h =
    let e : release ≡ callee = cc in subst (λ w. rank w < 1) e (omega arith)

two-IsRanked : IsRanked two_env rank
two-IsRanked = record {
  steps =
      two_known (λ w. All (CallsBelow two_env rank (rank w)) w.steps) (calls_release, tt)
        (quiet "build" "shell_exec" 0, tt);
  rescue =
      two_known (λ w. All (CallsBelow two_env rank (rank w)) w.rescue) tt
        (quiet "notify" "shell_exec" 0, tt);
  always =
      two_known (λ w. All (CallsBelow two_env rank (rank w)) w.always) tt
        (quiet "cleanup" "shell_exec" 0, tt);
}

execute_workflow-enough_example :
    execute_workflow two_env 2 "run1" caller world ≡ execute_workflow two_env 9 "run1" caller world
unfolding get_workflow
execute_workflow-enough_example =
    execute_workflow-enough two_env rank 2 9 "run1" caller world two-IsRanked ("caller", refl)
      (omega arith) (omega arith)
