-- ===== src/Examples/ForEach.antt =====
-- A for_each over three hosts with one slot, whose items run a step of a registered executor.
use markov.Prelude.{All, false, ◌≡◌, refl, String, true, false, List, [], ◌∷◌, ◌⊎◌, pos, arith}
use mathlib.Core.List.{map, Nodup, Perm}
use markov.Value.{object, is_null, Value, str, slice, any_slice, items_of}
use markov.Failure.{Result, ok, err}
use markov.Workflow.{Step, resolve_step_type, get_workflow}
use markov.Engine.World.{World, Exec, Done, ◌>>=◌, now, fire, modify_db, modify_vars}
use markov.Engine.Records.{save}
use markov.State.{get_step, save_step}
use markov.Engine.Lifecycle.{place, execute_workflow}
use markov.Engine.Step.{execute_step_core}
use markov.Engine.ForEach.Items.{prepare_items, sort_items, sort_key, check_keys}
use markov.Engine.ForEach.Sorting.{Ascending, items_with, sort_items-Ascending}
use markov.Engine.ForEach.Keys.{check_keys-Distinct}
use markov.Engine.Context.{extract_item_field}
use markov.Engine.Env.{Env}
use markov.Engine.ForEach.{
  Item, Outcome, Loop, start, has_failed, dispatch, selects, run_item, numbered, execute_for_each,
}
use markov.Engine.ForEach.System.{State, Reach, initial}
use markov.Engine.ForEach.Complete.{Finished, dispatch-Finished}
use markov.Engine.ForEach.Returns.{run_item-Returns}
use markov.Engine.ForEach.Whole.{report, register_results, execute_for_each-Reach}
use markov.Examples.Setting.{env, world, plain_step}

abbrev each : Step
each = record (plain_step "each" "shell_exec") {
  for_each = "hosts";
  item_name = "host";
  concurrency = pos 1;
}

abbrev hosts : List Value
hosts = str "a" ∷ str "b" ∷ str "c" ∷ []

abbrev with_hosts : World
with_hosts = record world { vars = ("hosts", slice any_slice (items_of hosts)) ∷ [] }

abbrev single : Step → String → Exec Done
single step name =
    execute_step_core env (execute_workflow env 0) (place "run2" "release" name) step false

abbrev body : Item → Exec Outcome
body = run_item env (execute_workflow env 0) single "run2" each

abbrev returns : (x : Item) (w : World) → (o : Outcome) × (w' : World) × (body x w ≡ (ok o, w'))
returns x = (run_item-Returns env (execute_workflow env 0) single "run2" each x).at

abbrev items : List Item
items = numbered 0 hosts

abbrev end_of : Result Loop × World → Loop
end_of (ok l, w) = l
end_of (err e, w) = start

execute_for_each-Reach_example :
    (s : State) × (v : World) × Reach
      (run_item env (execute_workflow env 0) single "run2" each)
      (selects env each)
      1
      (initial (numbered 0 hosts))
      s
    × (s.loop.running ≡ [])
    × ((s.waiting ≡ []) ⊎ (has_failed s.loop ≡ true))
    × (execute_for_each env (execute_workflow env 0) single "run2" each with_hosts ≡ (
      report s.loop.first_err,
      record v { vars = register_results each s.loop.results v.vars },
    ))
unfolding prepare_items ◌>>=◌
execute_for_each-Reach_example =
    execute_for_each-Reach env (execute_workflow env 0) single "run2" each with_hosts with_hosts
      hosts (omega arith) refl

dispatch-Finished_example :
    Finished body
      (selects env each)
      items
      (end_of (dispatch body env.schedule (selects env each) 1 items start with_hosts))
unfolding dispatch ◌>>=◌ now selects run_item execute_step_core get_step fire resolve_step_type save
    modify_db save_step get_workflow modify_vars
dispatch-Finished_example =
    dispatch-Finished body (selects env each) 1 env.schedule returns items with_hosts
      (dispatch body env.schedule (selects env each) 1 items start with_hosts).1
      (end_of (dispatch body env.schedule (selects env each) 1 items start with_hosts))
      (omega arith) refl refl

-- items that are objects, of which two have one text
abbrev machines : List Value
machines =
    object (("name", str "b") ∷ [])
    ∷ object (("name", str "a") ∷ ("port", str "1") ∷ [])
    ∷ object (("name", str "a") ∷ ("port", str "2") ∷ [])
    ∷ []

-- a value is shown as its text
abbrev show_text : Value → String
show_text (str s) = s
show_text v = "value"

abbrev showing_env : Env
showing_env = record env { go = record env.go { show = show_text } }

sort_items-Ascending_example :
    Perm (sort_items showing_env "name" machines) machines
    × Ascending showing_env "name" (sort_items showing_env "name" machines)
    × ((text : String)
        → items_with showing_env "name" text (sort_items showing_env "name" machines)
          ≡ items_with showing_env "name" text machines)
sort_items-Ascending_example = sort_items-Ascending showing_env "name" machines

abbrev ports : List Value
ports = object (("port", str "1") ∷ []) ∷ object (("port", str "2") ∷ []) ∷ []

check_keys-Distinct_example :
    All (λ (v : Value). is_null (extract_item_field v "port") ≡ false) ports
    × Nodup (map (sort_key showing_env "port") ports)
unfolding check_keys extract_item_field
check_keys-Distinct_example = check_keys-Distinct showing_env "port" ports refl
