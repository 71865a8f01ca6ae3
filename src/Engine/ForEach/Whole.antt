-- ===== src/Engine/ForEach/Whole.antt =====
-- `executeForEach` as a whole: its loop takes the steps of the loop's system.
use markov.Prelude.{
  ◌<◌, ◌≡◌, refl, ◌∙◌, String, true, none, some, Option, List, [], ◌⊎◌, inl, inr, Bool-cases,
  insert, map, if◌then◌else◌, ◌==◌,
}
use markov.Value.{Value, Vars, object, slice, map_slice, items_of}
use markov.Failure.{Error, Result, ok, err}
use markov.Workflow.{Step, Workflow}
use markov.Engine.Env.{Env}
use markov.Engine.World.{World, Exec, Done, pure, raise, modify_vars, ◌>>=◌}
use markov.Engine.ForEach.Items.{prepare_items}
use markov.Engine.ForEach.{
  Item, Loop, start, has_failed, dispatch, selects, run_item, slots_of, numbered, finish_for_each,
  execute_for_each,
}
use markov.Engine.ForEach.System.{State, Reach, initial}
use markov.Engine.ForEach.Refines.{dispatch-Reach}
use markov.Engine.ForEach.Returns.{bind_ok, run_item-Returns}

-- What a for_each returns at the end of its loop.
abbrev pub report : Option Error → Result Done
report none = ok tt
report (some e) = err e

-- Where it leaves its results.
abbrev pub register_results : Step → List Vars → Vars → Vars
register_results step results vars =
    if step.register == ""
    then vars
    else insert step.register (slice map_slice (items_of (map object results))) vars

finish_for_each_lem :
    (env : Env) (step : Step) (l : Loop) (w : World)
    → finish_for_each env step l w
      ≡ (report l.first_err, record w { vars = register_results step l.results w.vars })
unfolding finish_for_each ◌>>=◌ pure raise modify_vars
finish_for_each_lem env step l w = elim (Bool-cases (step.register == "")) [
  | inl none_named ↦ rw none_named (reported l.first_err w)
  | inr named ↦ rw named (reported l.first_err _)
]
  where
    reported :
        (failure : Option Error) (v : World)
        → (elim failure as (λ _. Exec Done) [ none ↦ pure tt | some e ↦ raise e ]) v
          ≡ (report failure, v)
    reported none v = refl
    reported (some e) v = refl

module _ (env : Env) (call : String → Workflow → Exec Done)
    (single : Step → String → Exec Done) where
  abbrev looping : String → Step → List Value → Exec Done
  looping run step items =
      dispatch (run_item env call single run step) env.schedule (selects env step)
        (slots_of env call single step) (numbered 0 items) start
      >>= finish_for_each env step

  -- A for_each whose list could be prepared and that has a slot returns: its loop takes a path of
  -- the loop's system over the prepared items, to a state where nothing runs and every item had its
  -- turn unless an error is recorded. The step returns the error that is recorded first, or none,
  -- and the register has the results.
  pub execute_for_each-Reach :
      (run : String) (step : Step) (w w' : World) (items : List Value)
      → 0 < slots_of env call single step
      → prepare_items env step w ≡ (ok items, w')
      → (s : State) × (v : World) × Reach
          (run_item env call single run step)
          (selects env step)
          (slots_of env call single step)
          (initial (numbered 0 items))
          s
        × (s.loop.running ≡ [])
        × ((s.waiting ≡ []) ⊎ (has_failed s.loop ≡ true))
        × (execute_for_each env call single run step w ≡ (
          report s.loop.first_err,
          record v { vars = register_results step s.loop.results v.vars },
        ))
  unfolding execute_for_each
  execute_for_each-Reach run step w w' items some_slot h =
      let (s, v, e, path, idle, over) =
        dispatch-Reach (run_item env call single run step) (selects env step)
          (slots_of env call single step) env.schedule
          (λ (x : Item). (run_item-Returns env call single run step x).at) (numbered 0 items) w'
          some_slot in
      (
        s,
        v,
        path,
        idle,
        over,
        bind_ok (prepare_items env step) (looping run step) items w w' h
            ∙ bind_ok
                (dispatch (run_item env call single run step) env.schedule (selects env step)
                  (slots_of env call single step) (numbered 0 items) start)
                (finish_for_each env step) s.loop w' v e
            ∙ finish_for_each_lem env step s.loop v,
      )
