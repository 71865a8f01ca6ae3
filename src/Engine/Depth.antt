-- ===== src/Engine/Depth.antt =====
-- The depth of nested workflows: where workflows do not call one another in a circle, the depth that
-- the execution follows does not matter once it is large enough.
pub mod Calls
use markov.Prelude.{
  ℕ, zero, suc, ◌<◌, String, ◌≡◌, refl, sym, ◌∙◌, ap, Bool, true, false, Option, none, some, List,
  [], ◌∷◌, ◌++◌, All, if◌then◌else◌, arith, Bool-cases, Option-cases, inl, inr,
}
use markov.Value.{Vars}
use markov.Failure.{Error, is_paused, Result, ok, err}
use markov.Workflow.{Step, Workflow, get_workflow, is_templated}
use markov.Engine.Env.{Env}
use markov.Engine.World.{World, Exec, Done, ◌>>=◌, ◌>>◌, pure, raise, attempt}
use markov.Engine.SubWorkflow.{resolve_sub_workflow, rendered_name, named_workflow}
use markov.Engine.Step.{execute_step_core}
use markov.Engine.Records.{Section, always_section, rescue_section}
use markov.Engine.Lifecycle.{
  place, execute_steps, execute_terminal_steps, raise_joined, close_sections, run_sections,
  execute_workflow, step_error, handler_name, errors_of,
}
use markov.Engine.Depth.Calls.{Agrees, execute_step_core-same}

-- Two ways to execute steps that are the same for each step of a list.
module _ (quote : String → String) (one two : String → Step → Bool → Exec Done) where
  SameAt : Step → Type 0
  SameAt s = (name : String) (force : Bool) → one name s force ≡ two name s force

  execute_steps-same :
      (ss : List Step) → All SameAt ss → execute_steps quote one ss ≡ execute_steps quote two ss
  unfolding execute_steps SameAt
  execute_steps-same [] same = refl
  execute_steps-same (s ∷ ss) (here, rest) = λ i. attempt (here s.name false i) >>= λ r.
      elim r as (λ _. Exec Done) [
        | ok _ ↦ execute_steps-same ss rest i
        | err e ↦ raise (step_error quote one s e)
      ]

  terminal-same :
      (sec : Section) (ss : List Step)
      → All SameAt ss
      → execute_terminal_steps quote one sec ss ≡ execute_terminal_steps quote two sec ss
  unfolding execute_terminal_steps SameAt
  terminal-same sec [] same = refl
  terminal-same sec (s ∷ ss) (here, rest) = λ i. attempt (here (handler_name sec s) true i) >>= λ r.
      terminal-same sec ss rest i >>= λ es. pure (errors_of quote one sec s r ++ es)

  close_sections-same :
      (wf : Workflow) (r : Result Done)
      → All SameAt wf.rescue
      → All SameAt wf.always
      → close_sections quote one wf r ≡ close_sections quote two wf r
  unfolding close_sections
  close_sections-same wf (ok d) rescue always =
      λ i. terminal-same always_section wf.always always i >>= raise_joined quote one
  close_sections-same wf (err e) rescue always = λ i.
      if is_paused e
      then raise e
      else terminal-same rescue_section wf.rescue rescue i >>= λ rescued.
          terminal-same always_section wf.always always i >>= λ closed.
          raise_joined quote one (e ∷ rescued ++ closed)

  run_sections-same :
      (wf : Workflow)
      → All SameAt wf.steps
      → All SameAt wf.rescue
      → All SameAt wf.always
      → run_sections quote one wf ≡ run_sections quote two wf
  unfolding run_sections
  run_sections-same wf steps rescue always = λ i.
      attempt (execute_steps-same wf.steps steps i) >>= λ r.
      close_sections-same wf r rescue always i

module _ (env : Env) where
  -- A workflow of the file.
  abbrev pub IsKnown : Workflow → Type 0
  IsKnown w = (name : String) × (get_workflow env.file name ≡ some w)

  named-IsKnown :
      (s : Step) (name : String) (callee : Workflow)
      → named_workflow env s name ≡ ok callee
      → IsKnown callee
  named-IsKnown s name callee h = elim (Option-cases (get_workflow env.file name)) [
    | inl missing ↦ absurd (clash (rw (missing, named_workflow) at h))
    | inr (w, e) ↦
        let same : ◌≡◌ {A = Result Workflow} (ok w) (ok callee) = rw (e, named_workflow) at h in
        let one : w ≡ callee = cc in (name, e ∙ ap (λ u. some u) one)
  ]
    where
      clash : {e : Error} → ◌≡◌ {A = Result Workflow} (err e) (ok callee) → ⊥
      clash e = cc

  resolved-IsKnown :
      (s : Step) (ctx : Vars) (callee : Workflow)
      → resolve_sub_workflow env s ctx ≡ ok callee
      → IsKnown callee
  unfolding resolve_sub_workflow
  resolved-IsKnown s ctx callee h = elim (Bool-cases (is_templated s.workflow)) [
    | inl templated ↦ rendered (rendered_name env s ctx) (rw templated at h)
    | inr fixed ↦ named-IsKnown s s.workflow callee (rw fixed at h)
  ]
    where
      rendered :
          (r : Result String)
          → elim r as (λ _. Result Workflow) [ ok name ↦ named_workflow env s name | err e ↦ err e ]
            ≡ ok callee
          → IsKnown callee
      rendered (ok name) e = named-IsKnown s name callee e
      rendered (err f) e = cc

  module _ (rank : Workflow → ℕ) where
    -- what a step calls is below a bound
    abbrev pub CallsBelow : ℕ → Step → Type 0
    CallsBelow bound s =
        (ctx : Vars) (callee : Workflow)
        → resolve_sub_workflow env s ctx ≡ ok callee
        → rank callee < bound

    -- The workflows of the file do not call one another in a circle.
    pub record IsRanked : Type 0 where
      pub steps : (w : Workflow) → IsKnown w → All (CallsBelow (rank w)) w.steps
      pub rescue : (w : Workflow) → IsKnown w → All (CallsBelow (rank w)) w.rescue
      pub always : (w : Workflow) → IsKnown w → All (CallsBelow (rank w)) w.always

    Settles : ℕ → ℕ → Type 0
    Settles depth other =
        (run : String) (w : Workflow)
        → IsKnown w
        → rank w < depth
        → rank w < other
        → execute_workflow env depth run w ≡ execute_workflow env other run w

    same_at :
        (depth other : ℕ) (w : Workflow) (run : String) (ss : List Step)
        → Settles depth other
        → rank w < suc depth
        → rank w < suc other
        → All (CallsBelow (rank w)) ss
        → All
            (SameAt env.go.quote
              (λ name step force.
                execute_step_core env
                  (execute_workflow env depth)
                  (place run w.name name)
                  step
                  force)
              (λ name step force.
                execute_step_core env
                  (execute_workflow env other)
                  (place run w.name name)
                  step
                  force))
            ss
    unfolding SameAt Settles
    same_at depth other w run [] settles low high below = tt
    same_at depth other w run (s ∷ ss) settles low high (here, rest) = (
      λ name force.
          execute_step_core-same env (execute_workflow env depth) (execute_workflow env other)
            (place run w.name name) s force
            (λ ctx callee h sub.
              settles sub callee (resolved-IsKnown s ctx callee h)
                (omega (arith, here ctx callee h, low)) (omega (arith, here ctx callee h, high))),
      same_at depth other w run ss settles low high rest,
    )

    Settles-all : IsRanked → (depth other : ℕ) → Settles depth other
    unfolding execute_workflow Settles
    Settles-all ranked zero other run w known low high = absurd (omega (arith, low))
    Settles-all ranked (suc depth) zero run w known low high = absurd (omega (arith, high))
    Settles-all ranked (suc depth) (suc other) run w known low high =
        run_sections-same env.go.quote
          (λ name step force.
            execute_step_core env (execute_workflow env depth) (place run w.name name) step force)
          (λ name step force.
            execute_step_core env (execute_workflow env other) (place run w.name name) step force)
          w
          (same_at depth other w run w.steps (Settles-all ranked depth other) low high
            (ranked.steps w known))
          (same_at depth other w run w.rescue (Settles-all ranked depth other) low high
            (ranked.rescue w known))
          (same_at depth other w run w.always (Settles-all ranked depth other) low high
            (ranked.always w known))

    -- Where the workflows of a file call only workflows of a lower rank, a depth above the rank of
    -- a workflow is enough to execute it: at every such depth the execution is the same, in its
    -- outcome and in the world that it leaves.
    pub execute_workflow-enough :
        (depth other : ℕ) (run : String) (w : Workflow) (world : World)
        → IsRanked
        → IsKnown w
        → rank w < depth
        → rank w < other
        → execute_workflow env depth run w world ≡ execute_workflow env other run w world
    unfolding Settles
    execute_workflow-enough depth other run w world ranked known low high =
        ap (λ (m : Exec Done). m world) (Settles-all ranked depth other run w known low high)
