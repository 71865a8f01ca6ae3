-- ===== src/Engine/ForEach.antt =====
-- `executeForEach` and `resolveForEachList` of engine.go. The body of an item is one action; the
-- environment's schedule says which of the running items end before the dispatcher goes on.
pub mod Items
pub mod System
pub mod Bounds
pub mod Runs
pub mod Drains
pub mod Acquires
pub mod Refines
pub mod Account
pub mod Order
pub mod Complete
pub mod Returns
pub mod Whole
pub mod Turns
pub mod Sorting
pub mod Keys
use markov.Prelude.{
  ℕ, zero, suc, String, Bool, true, Option, none, some, List, [], ◌∷◌, ◌++◌, insert, merge, concat,
  length, is_some, ltb, if◌then◌else◌, ◌==◌, pos, is_positive, pos_part, map,
}
use markov.Value.{Value, Vars, int, object, slice, map_slice, items_of}
use markov.Failure.{Error, wrap, is_paused, find_pause, Result, ok, err}
use markov.Workflow.{Step, Workflow}
use markov.State.{Run, RunStatus}
use markov.Engine.Env.{Env}
use markov.Engine.World.{
  sub_run_completed, sub_run_failed, Exec, Done, pure, raise, lift, gets, attempt, with_vars, now,
  fire, modify_vars, ◌>>=◌, ◌>>◌,
}
use markov.Engine.Context.{extract_item_field, ignored_failure}
use markov.Engine.Records.{text_of}
use markov.Engine.SubWorkflow.{
  resolve_sub_workflow, with_step_vars, start_sub_run, set_run, sub_run_paused,
}
use markov.Engine.ForEach.Items.{prepare_items}

-- An item with its index.
abbrev pub Item : Type 0
Item = ℕ × Value

-- What the body of an item leaves: an entry of `results`, and an error for `firstErr`.
pub record Outcome : Type 0 where
  pub result : Option Vars
  pub error : Option Error

-- The dispatcher's variables: the items that run, `results`, and `firstErr` with its flag.
pub record Loop : Type 0 where
  pub running : List Item
  pub results : List Vars
  pub first_err : Option Error

abbrev pub start : Loop
start = record { running = []; results = []; first_err = none }

abbrev pub has_failed : Loop → Bool
has_failed l = is_some l.first_err

-- `errOnce.Do`
abbrev pub once : Option Error → Option Error → Option Error
once none e = e
once (some e) _ = some e

abbrev pub add_result : Option Vars → List Vars → List Vars
add_result none rs = rs
add_result (some r) rs = rs ++ r ∷ []

-- An item ends: its outcome enters the shared variables.
unfoldable pub record_outcome : Loop → Outcome → Loop
record_outcome l o = record l {
  results = add_result o.result l.results;
  first_err = once l.first_err o.error;
}

unfoldable pub take_at : ℕ → List Item → Option (Item × List Item)
take_at n [] = none
take_at zero (x ∷ xs) = some (x, xs)
take_at (suc n) (x ∷ xs) = elim (take_at n xs) [ none ↦ none | some (y, ys) ↦ some (y, x ∷ ys) ]

-- the state name of an item that runs the step itself
abbrev pub iteration_name : Step → String → String
iteration_name step key = concat (step.name ∷ "[" ∷ key ∷ "]" ∷ [])

-- The dispatcher, for any body of an item, any test of `for_each_when` and any schedule.
module _ (body : Item → Exec Outcome) (schedule : ℕ → List ℕ) where
  -- a running item runs to its end
  unfoldable pub settle : Item → Loop → Exec Loop
  unfolding record_outcome
  settle x l = do o ← body x; pure (record_outcome l o)

  abbrev pub settle_at : Option (Item × List Item) → Loop → Exec Loop
  settle_at none l = pure l
  settle_at (some (x, rest)) l = settle x (record l { running = rest })

  unfoldable pub finish : List ℕ → Loop → Exec Loop
  unfolding settle take_at
  finish [] l = pure l
  finish (p ∷ ps) l = do l' ← settle_at (take_at p l.running) l; finish ps l'

  -- time passes for the running items
  unfoldable pub pass : Loop → Exec Loop
  unfolding finish
  pass l = do t ← now; finish (schedule t) l

  unfoldable pub settle_all : List Item → Loop → Exec Loop
  unfolding settle
  settle_all [] l = pure l
  settle_all (x ∷ xs) l = settle x l >>= λ l'. settle_all xs l'

  -- `wg.Wait()`
  unfoldable pub drain : Loop → Exec Loop
  unfolding pass settle_all
  drain l = do l' ← pass l; settle_all l'.running (record l' { running = [] })

  -- `sem <- struct{}{}`: waits for a slot, and if the schedule frees none the oldest item ends
  unfoldable pub acquire : ℕ → Loop → Exec Loop
  unfolding pass finish
  acquire slots l = do
    l' ← pass l
    if ltb (length l'.running) slots then pure l' else finish (0 ∷ []) l'

  -- an item that is selected waits for its slot and starts, unless one failed meanwhile
  unfoldable pub start_item : (Loop → Exec Loop) → ℕ → Item → Loop → Exec Loop
  unfolding drain acquire
  start_item rest slots x l = do
    l' ← acquire slots l
    if has_failed l' then drain l' else rest (record l' { running = l'.running ++ x ∷ [] })

  -- an error of `for_each_when`
  unfoldable pub stop_dispatch : Error → Loop → Exec Loop
  unfolding drain
  stop_dispatch e l = drain (record l { first_err = once l.first_err (some e) })

  module _ (selects : Item → Exec Bool) where
    -- the body of the loop over the items, before the `rest` of the loop
    unfoldable pub dispatch_item : (Loop → Exec Loop) → ℕ → Item → Loop → Exec Loop
    unfolding start_item stop_dispatch
    dispatch_item rest slots x l = do
      chosen ← attempt (selects x)
      elim chosen [
        | err e ↦ stop_dispatch e l
        | ok selected ↦ if selected then start_item rest slots x l else rest l
      ]

    -- the loop over the items
    unfoldable pub dispatch : ℕ → List Item → Loop → Exec Loop
    unfolding pass drain dispatch_item
    dispatch slots [] l = drain l
    dispatch slots (x ∷ xs) l = do
      l' ← pass l
      if has_failed l' then drain l' else dispatch_item (dispatch slots xs) slots x l'

-- the items with their indices
abbrev pub numbered : ℕ → List Value → List Item
numbered n [] = []
numbered n (v ∷ vs) = (n, v) ∷ numbered (suc n) vs

module _ (env : Env) where
  open env use {go, file, tmpl, forks}

  abbrev pub with_item : Step → Value → Vars → Vars
  with_item step item ctx = insert step.item_name item (merge [] ctx)

  -- `for_each_when` of an item
  unfoldable pub selects : Step → Item → Exec Bool
  selects step (i, item) = if step.for_each_when == "" then pure true else (do
    ctx ← gets (λ w. w.vars)
    r ← pure (tmpl.eval_bool step.for_each_when (with_item step item ctx))
    elim r [
      | ok b ↦ pure b
      | err e ↦
          raise
            (wrap (concat ("evaluating for_each_when for item " ∷ go.show (int (pos i)) ∷ [])) e)
    ])

  abbrev pub key_text : Step → Item → String
  key_text step (i, item) =
      if step.for_each_key == ""
      then go.show (int (pos i))
      else go.show (extract_item_field item step.for_each_key)

  abbrev pub only_error : Error → Outcome
  only_error e = record { result = none; error = some e }

  abbrev only_result : Vars → Outcome
  only_result vars = record { result = some vars; error = none }

  -- the end of an item's sub-run
  unfoldable pub finish_item_run :
      String → Step → String → Workflow → Run → Result Done → Vars → Exec Outcome
  unfolding ignored_failure
  finish_item_run run step key wf row (ok _) vars = do
    t ← now
    fire (sub_run_completed row.run_id run step.name wf.name key)
    set_run env row RunStatus.completed (some t)
    pure (only_result vars)
  finish_item_run run step key wf row (err e) vars = do
    t ← now
    pause ← pure (find_pause e)
    elim pause [
      | some p ↦ do
        fire (sub_run_paused env row wf p)
        set_run env row RunStatus.paused none
        pure (record { result = some vars; error = some e })
      | none ↦ do
        fire (sub_run_failed row.run_id run step.name wf.name key (text_of env e))
        set_run env row RunStatus.failed (some t)
        pure (
            if step.ignore_errors
            then only_result (ignored_failure (text_of env) vars e)
            else record { result = some vars; error = some e })
    ]

  -- after the loop: the results, then the error that is recorded
  unfoldable pub finish_for_each : Step → Loop → Exec Done
  finish_for_each step l = do
    if step.register == ""
        then pure tt
        else modify_vars (insert step.register (slice map_slice (items_of (map object l.results))))
    failure ← pure l.first_err
    elim failure [ none ↦ pure tt | some e ↦ raise e ]

  module _ (call : String → Workflow → Exec Done) where
    -- an item that calls a sub-workflow, whose variables may be null
    unfoldable pub run_item_workflow : String → Step → Item → Exec Outcome
    unfolding resolve_sub_workflow with_step_vars start_sub_run finish_item_run
    run_item_workflow run step (i, item) = do
      ctx ← gets (λ w. w.vars)
      wf ← lift (resolve_sub_workflow env step (with_item step item ctx))
      vars ← lift (
          with_step_vars env step (with_item step item ctx)
            (insert step.item_name item (merge (merge [] ctx) wf.vars)))
      let key = key_text step (i, item)
      let sub = concat (run ∷ "-" ∷ step.name ∷ "-" ∷ key ∷ [])
      row ← start_sub_run env run step key sub wf vars
      out ← with_vars vars (call sub wf)
      finish_item_run run step key wf row out.0 out.1

  -- the step of an item: the loop's, without the loop and without `register`
  abbrev pub item_step : Step → Step
  item_step step = record step { for_each = ""; register = "" }

  module _ (call : String → Workflow → Exec Done) (single : Step → String → Exec Done) where
    -- an item that runs the step itself, under a state name of its own
    unfoldable pub run_item_step : Step → Item → Exec Outcome
    unfolding ignored_failure
    run_item_step step (i, item) = do
      ctx ← gets (λ w. w.vars)
      let name = iteration_name step (key_text step (i, item))
      out ← with_vars (with_item step item ctx) (single (item_step step) name)
      r ← pure out.0
      elim r [
        | ok _ ↦ pure (only_result out.1)
        | err e ↦
            if is_paused e
            then pure (only_error e)
            else if step.ignore_errors
            then pure (only_result (ignored_failure (text_of env) out.1 e))
            else pure (only_error e)
      ]

    -- the body of an item; an error before its sub-run starts is `firstErr` too
    unfoldable pub run_item : String → Step → Item → Exec Outcome
    unfolding run_item_workflow run_item_step
    run_item run step x = if step.workflow == "" then run_item_step step x else (do
      r ← attempt (run_item_workflow call run step x)
      elim r [ ok o ↦ pure o | err e ↦ pure (only_error e) ])

    abbrev pub slots_of : Step → ℕ
    slots_of step = if is_positive step.concurrency then pos_part step.concurrency else forks

    -- `executeForEach`
    unfoldable pub execute_for_each : String → Step → Exec Done
    unfolding prepare_items run_item dispatch selects finish_for_each
    execute_for_each run step = do
      items ← prepare_items env step
      l ←
          dispatch (run_item run step) env.schedule (selects step) (slots_of step)
            (numbered 0 items) start
      finish_for_each step l
