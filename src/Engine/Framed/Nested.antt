-- ===== src/Engine/Framed/Nested.antt =====
-- Sub-workflows and for_each, for any way to run a workflow.
use markov.Prelude.{ℕ, String, List, [], ◌∷◌, Bool, Option, none, some, or_else}
use markov.Value.{Value, Vars}
use markov.Failure.{Error, Result, ok, err}
use markov.Workflow.{Step, Workflow}
use markov.State.{Run, RunStatus, create_run, update_run}
use markov.Engine.Env.{Env}
use markov.Engine.World.{World, Exec, Done, modify_db}
use markov.Engine.Keeps.{Frame, Keeps, keeps_rules}
use markov.Engine.SubWorkflow.{start_sub_run, set_run, ended, finish_sub_run, execute_sub_workflow}
use markov.Engine.ForEach.Items.{order_items, prepare_items}
use markov.Engine.ForEach.{
  Item, Outcome, Loop, settle, settle_at, finish, pass, settle_all, drain, acquire, start_item,
  stop_dispatch, dispatch_item, dispatch, once, selects, finish_item_run, run_item_workflow,
  run_item_step, run_item, finish_for_each, execute_for_each,
}

module _ {R : World → World → Type 0} (frame : Frame R) where
  set_status-Keeps : (run : Run) → Keeps R (modify_db (λ db. update_run db run))
  unfolding modify_db
  set_status-Keeps run = record { at = λ w. frame.status w run }

  new_run-Keeps : (run : Run) → Keeps R (modify_db (λ db. or_else (create_run db run) db))
  unfolding modify_db
  new_run-Keeps run = record { at = λ w. frame.new_run w run }

  module _ (env : Env) where
    pub set_run-Keeps :
        (run : Run) (status : RunStatus) (t : Option ℕ) → Keeps R (set_run env run status t)
    set_run-Keeps run status t = set_status-Keeps (ended env run status t)

    start_sub_run-Keeps :
        (run : String) (step : Step) (key sub : String) (wf : Workflow) (vars : Vars)
        → Keeps R (start_sub_run env run step key sub wf vars)
    unfolding start_sub_run
    start_sub_run-Keeps run step key sub wf vars = search (keeps_rules, new_run-Keeps) depth 9

    finish_sub_run-Keeps :
        (run : String) (step : Step) (wf : Workflow) (row : Run) (r : Result Done) (vars : Vars)
        → Keeps R (finish_sub_run env run step wf row r vars)
    unfolding finish_sub_run
    finish_sub_run-Keeps run step wf row (ok d) vars = search (keeps_rules, set_run-Keeps)
    finish_sub_run-Keeps run step wf row (err e) vars = search (keeps_rules, set_run-Keeps) depth 9

    finish_item_run-Keeps :
        (run : String) (step : Step) (key : String) (wf : Workflow) (row : Run) (r : Result Done)
        (vars : Vars)
        → Keeps R (finish_item_run env run step key wf row r vars)
    unfolding finish_item_run
    finish_item_run-Keeps run step key wf row (ok d) vars = search (keeps_rules, set_run-Keeps)
    finish_item_run-Keeps run step key wf row (err e) vars =
        search (keeps_rules, set_run-Keeps) depth 9

    order_items-Keeps : (step : Step) (vs : List Value) → Keeps R (order_items env step vs)
    unfolding order_items
    order_items-Keeps step vs = search keeps_rules depth 8

    prepare_items-Keeps : (step : Step) → Keeps R (prepare_items env step)
    unfolding prepare_items
    prepare_items-Keeps step = search (keeps_rules, order_items-Keeps) depth 8

    selects-Keeps : (step : Step) (x : Item) → Keeps R (selects env step x)
    unfolding selects
    selects-Keeps step (i, item) = search keeps_rules

    module _ (call : String → Workflow → Exec Done)
        (call-Keeps : (run : String) (wf : Workflow) → Keeps R (call run wf)) where
      pub execute_sub_workflow-Keeps :
          (run : String) (step : Step) → Keeps R (execute_sub_workflow env call run step)
      unfolding execute_sub_workflow
      execute_sub_workflow-Keeps run step =
          search (keeps_rules, start_sub_run-Keeps, finish_sub_run-Keeps) depth 10

      run_item_workflow-Keeps :
          (run : String) (step : Step) (x : Item) → Keeps R (run_item_workflow env call run step x)
      unfolding run_item_workflow
      run_item_workflow-Keeps run step (i, item) =
          search (keeps_rules, start_sub_run-Keeps, finish_item_run-Keeps) depth 10

      module _ (single : Step → String → Exec Done)
          (single-Keeps : (step : Step) (name : String) → Keeps R (single step name)) where
        run_item_step-Keeps :
            (step : Step) (x : Item) → Keeps R (run_item_step env call single step x)
        unfolding run_item_step
        run_item_step-Keeps step (i, item) = search (keeps_rules, single-Keeps) depth 9

        run_item-Keeps :
            (run : String) (step : Step) (x : Item) → Keeps R (run_item env call single run step x)
        unfolding run_item
        run_item-Keeps run step x =
            search (keeps_rules, run_item_workflow-Keeps, run_item_step-Keeps) depth 8

  module _ (body : Item → Exec Outcome) (schedule : ℕ → List ℕ)
      (body-Keeps : (x : Item) → Keeps R (body x)) where
    settle-Keeps : (x : Item) (l : Loop) → Keeps R (settle body schedule x l)
    unfolding settle
    settle-Keeps x l = search keeps_rules

    settle_at-Keeps :
        (found : Option (Item × List Item)) (l : Loop) → Keeps R (settle_at body schedule found l)
    settle_at-Keeps none l = search keeps_rules
    settle_at-Keeps (some (x, rest)) l = settle-Keeps x (record l { running = rest })

    finish-Keeps : (ps : List ℕ) (l : Loop) → Keeps R (finish body schedule ps l)
    unfolding finish
    finish-Keeps [] l = search keeps_rules
    finish-Keeps (p ∷ ps) l =
        search (keeps_rules, settle_at-Keeps, λ (l' : Loop). finish-Keeps ps l')

    pass-Keeps : (l : Loop) → Keeps R (pass body schedule l)
    unfolding pass
    pass-Keeps l = search (keeps_rules, finish-Keeps)

    settle_all-Keeps : (xs : List Item) (l : Loop) → Keeps R (settle_all body schedule xs l)
    unfolding settle_all
    settle_all-Keeps [] l = search keeps_rules
    settle_all-Keeps (x ∷ xs) l =
        search (keeps_rules, settle-Keeps, λ (l' : Loop). settle_all-Keeps xs l')

    drain-Keeps : (l : Loop) → Keeps R (drain body schedule l)
    unfolding drain
    drain-Keeps l = search (keeps_rules, pass-Keeps, settle_all-Keeps)

    acquire-Keeps : (slots : ℕ) (l : Loop) → Keeps R (acquire body schedule slots l)
    unfolding acquire
    acquire-Keeps slots l = search (keeps_rules, pass-Keeps, finish-Keeps)

    start_item-Keeps :
        (rest : Loop → Exec Loop) (rest-Keeps : (l : Loop) → Keeps R (rest l)) (slots : ℕ)
        (x : Item) (l : Loop)
        → Keeps R (start_item body schedule rest slots x l)
    unfolding start_item
    start_item-Keeps rest rest-Keeps slots x l =
        search (keeps_rules, acquire-Keeps, drain-Keeps, rest-Keeps)

    stop_dispatch-Keeps : (e : Error) (l : Loop) → Keeps R (stop_dispatch body schedule e l)
    unfolding stop_dispatch
    stop_dispatch-Keeps e l = drain-Keeps (record l { first_err = once l.first_err (some e) })

    module _ (chooses : Item → Exec Bool) (chooses-Keeps : (x : Item) → Keeps R (chooses x)) where
      dispatch_item-Keeps :
          (rest : Loop → Exec Loop) (rest-Keeps : (l : Loop) → Keeps R (rest l)) (slots : ℕ)
          (x : Item) (l : Loop)
          → Keeps R (dispatch_item body schedule chooses rest slots x l)
      unfolding dispatch_item
      dispatch_item-Keeps rest rest-Keeps slots x l = search (
        keeps_rules,
        chooses-Keeps,
        rest-Keeps,
        stop_dispatch-Keeps,
        start_item-Keeps rest rest-Keeps,
      )

      pub dispatch-Keeps :
          (slots : ℕ) (xs : List Item) (l : Loop)
          → Keeps R (dispatch body schedule chooses slots xs l)
      unfolding dispatch
      dispatch-Keeps slots [] l = drain-Keeps l
      dispatch-Keeps slots (x ∷ xs) l = search (
        keeps_rules,
        pass-Keeps,
        drain-Keeps,
        dispatch_item-Keeps (dispatch body schedule chooses slots xs) (dispatch-Keeps slots xs)
            slots x,
      )

  module _ (env : Env) (call : String → Workflow → Exec Done)
      (call-Keeps : (run : String) (wf : Workflow) → Keeps R (call run wf))
      (single : Step → String → Exec Done)
      (single-Keeps : (step : Step) (name : String) → Keeps R (single step name)) where
    pub execute_for_each-Keeps :
        (run : String) (step : Step) → Keeps R (execute_for_each env call single run step)
    unfolding execute_for_each finish_for_each
    execute_for_each-Keeps run step =
        search
          (
            keeps_rules,
            prepare_items-Keeps,
            λ (slots : ℕ) (xs : List Item) (l : Loop).
                dispatch-Keeps (run_item env call single run step) env.schedule
                  (run_item-Keeps env call call-Keeps single single-Keeps run step)
                  (selects env step) (selects-Keeps env step) slots xs l,
          )
          depth 9
