-- ===== src/Engine/Depth/Calls.antt =====
-- A step's execution depends on the ways to run workflows only at the workflow that the step calls.
use markov.Prelude.{
  String, ◌≡◌, refl, ap, Bool, false, none, some, [], ◌∷◌, ◌==◌, ◌&&◌, not, concat, merge, insert,
  if◌then◌else◌,
}
use markov.Value.{Vars}
use markov.Failure.{Result, ok, err}
use markov.Workflow.{Step, Workflow}
use markov.Engine.Env.{Env}
use markov.Engine.World.{Exec, Done, ◌>>=◌, pure, gets, lift, attempt, with_vars}
use markov.Engine.Context.{merge_present}
use markov.State.{get_step}
use markov.Engine.Decision.{is_completed}
use markov.Engine.SubWorkflow.{
  with_step_vars, start_sub_run, finish_sub_run, resolve_sub_workflow, execute_sub_workflow,
}
use markov.Engine.ForEach.{
  Item, Outcome, dispatch, selects, slots_of, numbered, start, finish_for_each, item_step,
  with_item, key_text, only_error, finish_item_run, run_item_workflow, run_item_step, run_item,
  execute_for_each,
}
use markov.Engine.ForEach.Items.{prepare_items}
use markov.Engine.StepTypes.{Place}
use markov.Engine.Step.{
  announced, typed_step, check_when, skip, replay, run_step, guarded_step, step_core, single_step,
  execute_step_core,
}

-- Two continuations that are the same at what a lifted result holds.
lift-same :
    {A B : Type 0} (r : Result A) (f g : A → Exec B)
    → ((a : A) → r ≡ ok a → f a ≡ g a)
    → lift r >>= f ≡ lift r >>= g
unfolding ◌>>=◌ lift
lift-same (ok a) f g same = same a refl
lift-same (err e) f g same = refl

module _ (env : Env) where
  -- a sub-workflow, from its variables on, with the way to run it
  enter : String → Step → Vars → Workflow → Exec Done → Exec Done
  enter run s ctx callee m = do
    vars ← lift (with_step_vars env s ctx (merge_present (merge [] ctx) callee.vars))
    row ← start_sub_run env run s "" (concat (run ∷ "-" ∷ s.name ∷ [])) callee vars
    out ← with_vars vars m
    finish_sub_run env run s callee row out.0 out.1

  -- an item's sub-workflow
  enter_item : String → Step → Item → Vars → Workflow → Exec Done → Exec Outcome
  enter_item run step (i, item) ctx wf m = do
    vars ← lift (
        with_step_vars env step (with_item env step item ctx)
          (insert step.item_name item (merge (merge [] ctx) wf.vars)))
    let key = key_text env step (i, item)
    let sub = concat (run ∷ "-" ∷ step.name ∷ "-" ∷ key ∷ [])
    row ← start_sub_run env run step key sub wf vars
    out ← with_vars vars m
    finish_item_run env run step key wf row out.0 out.1

module _ (env : Env) (one two : String → Workflow → Exec Done) where
  -- the two ways are the same for the workflow that the step calls
  abbrev pub Agrees : Step → Type 0
  Agrees s =
      (ctx : Vars) (callee : Workflow)
      → resolve_sub_workflow env s ctx ≡ ok callee
      → (run : String) → one run callee ≡ two run callee

  sub_workflow-same :
      (run : String) (s : Step)
      → Agrees s
      → execute_sub_workflow env one run s ≡ execute_sub_workflow env two run s
  unfolding execute_sub_workflow ◌>>=◌ gets enter
  sub_workflow-same run s agrees =
      let sub = concat (run ∷ "-" ∷ s.name ∷ []) in
      λ i w.
        lift-same (resolve_sub_workflow env s w.vars) (λ wf. enter env run s w.vars wf (one sub wf))
          (λ wf. enter env run s w.vars wf (two sub wf))
          (λ callee h. ap (enter env run s w.vars callee) (agrees w.vars callee h sub)) i w

  item_workflow-same :
      (run : String) (s : Step) (x : Item)
      → Agrees s
      → run_item_workflow env one run s x ≡ run_item_workflow env two run s x
  unfolding run_item_workflow ◌>>=◌ gets enter_item
  item_workflow-same run s (n, item) agrees =
      let sub = concat (run ∷ "-" ∷ s.name ∷ "-" ∷ key_text env s (n, item) ∷ []) in
      λ i w.
        let ctx = with_item env s item w.vars in
        lift-same (resolve_sub_workflow env s ctx)
          (λ wf. enter_item env run s (n, item) w.vars wf (one sub wf))
          (λ wf. enter_item env run s (n, item) w.vars wf (two sub wf))
          (λ callee h. ap (enter_item env run s (n, item) w.vars callee) (agrees ctx callee h sub))
          i w

  run_step-same :
      (each1 each2 : Place → Step → Exec Done) (at : Place) (s : Step)
      → each1 at s ≡ each2 at s
      → Agrees s
      → run_step env one each1 at s ≡ run_step env two each2 at s
  unfolding run_step
  run_step-same each1 each2 at s each_same agrees = λ i.
      if not (s.for_each == "")
      then announced env at s "for_each" (each_same i)
      else if not (s.workflow == "")
      then announced env at s "workflow" (sub_workflow-same at.run s agrees i)
      else typed_step env at s

  step_core-same :
      (each1 each2 : Place → Step → Exec Done) (at : Place) (s : Step) (force : Bool)
      → each1 at s ≡ each2 at s
      → Agrees s
      → step_core env one each1 at s force ≡ step_core env two each2 at s force
  unfolding step_core guarded_step
  step_core-same each1 each2 at s force each_same agrees =
      let guarded : guarded_step env one each1 at s ≡ guarded_step env two each2 at s =
        ap
          (λ (m : Exec Done). check_when env at s >>= λ chosen. if chosen then m else skip env at s)
          (run_step-same each1 each2 at s each_same agrees) in
      ap
        (λ (m : Exec Done).
          gets (λ w. get_step w.db at.run at.workflow at.state_name) >>= λ existing.
          elim existing as (λ _. Exec Done) [
            | none ↦ m
            | some row ↦ if not force && is_completed row.status then replay env s row else m
          ])
        guarded

  run_item-same :
      (single1 single2 : Step → String → Exec Done) (run : String) (s : Step) (x : Item)
      → single1 (item_step env s) ≡ single2 (item_step env s)
      → Agrees s
      → run_item env one single1 run s x ≡ run_item env two single2 run s x
  unfolding run_item run_item_step
  run_item-same single1 single2 run s x single_same agrees =
      let alone : run_item_step env one single1 s x ≡ run_item_step env two single2 s x =
        ap (λ (f : String → Exec Done). run_item_step env one (λ _. f) s x) single_same in
      λ i.
        if s.workflow == ""
        then alone i
        else attempt (item_workflow-same run s x agrees i) >>= λ r. elim r as (λ _. Exec Outcome) [
          | ok o ↦ pure o
          | err e ↦ pure (only_error env e)
        ]

  for_each-same :
      (single1 single2 : Step → String → Exec Done) (run : String) (s : Step)
      → single1 (item_step env s) ≡ single2 (item_step env s)
      → Agrees s
      → execute_for_each env one single1 run s ≡ execute_for_each env two single2 run s
  unfolding execute_for_each
  for_each-same single1 single2 run s single_same agrees =
      ap
        (λ (body : Item → Exec Outcome). prepare_items env s >>= λ items.
          dispatch body env.schedule (selects env s) (slots_of env one single1 s) (numbered 0 items)
            start
          >>= finish_for_each env s)
        (λ i x. run_item-same single1 single2 run s x single_same agrees i)

  -- A step is executed the same way by two ways to run workflows that are the same for the workflow
  -- that it calls.
  pub execute_step_core-same :
      (at : Place) (s : Step) (force : Bool)
      → Agrees s
      → execute_step_core env one at s force ≡ execute_step_core env two at s force
  unfolding execute_step_core single_step resolve_sub_workflow
  execute_step_core-same at s force agrees =
      let item1 : Step → String → Exec Done =
        λ item name. single_step env one (record at { state_name = name }) item in
      let item2 : Step → String → Exec Done =
        λ item name. single_step env two (record at { state_name = name }) item in
      step_core-same
        (λ at step.
          execute_for_each env one
            (λ item name. single_step env one (record at { state_name = name }) item) at.run step)
        (λ at step.
          execute_for_each env two
            (λ item name. single_step env two (record at { state_name = name }) item) at.run step)
        at s force
        (for_each-same item1 item2 at.run s
          (λ i name.
            step_core-same (λ _ _. pure tt) (λ _ _. pure tt) (record at { state_name = name })
              (item_step env s) false refl agrees i)
          agrees)
        agrees
