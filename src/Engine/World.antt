-- ===== src/Engine/World.antt =====
-- The state that a run changes, and the actions on it: functions that mutate the state and may
-- return an error. What was written before an error stays written.
use markov.Prelude.{ℕ, ◌+◌, String, Bool, Option, List, [], ◌∷◌, ◌++◌, ℤ}
use markov.Value.{Vars}
use markov.Failure.{Error, Result, ok, err}
use markov.State.{Db, SourceCheck}

-- The callback events of pkg/callback/callback.go, in the order of their fields, without the time
-- stamps, durations and the pod selector, which is the job's name. A run comes first, then the workflow, then the step and its type.
pub data Event : Type 0 where
  run_started : String → String → String → String → Vars → ℕ → String → Event
  run_resumed :
      String → String → ℕ → ℤ → SourceCheck → List (String × String × String) → Bool → Event
  run_paused : String → String → String → List String → Vars → Event
  run_failed : String → String → String → Event
  run_completed : String → String → Event
  step_started : String → String → String → String → String → Option Vars → Event
  step_completed : String → String → String → String → Option Vars → Event
  step_failed : String → String → String → String → String → Event
  step_skipped : String → String → String → String → Event
  gate_evaluated : String → String → String → String → List String → Vars → Event
  job_created : String → String → String → String → String → String → Event
  step_progress : String → String → String → String → String → Vars → Event
  sub_run_started : String → String → String → String → String → Event
  sub_run_completed : String → String → String → String → String → Event
  sub_run_failed : String → String → String → String → String → String → Event

-- `vars` is `runCtx` of the workflow that runs, `digest` is `Engine.sourceDigest`, and `clock`
-- is what the next `time.Now()` returns.
pub record World : Type 0 where
  pub db : Db
  pub clock : ℕ
  pub events : List Event
  pub digest : String
  pub vars : Vars

abbrev pub Exec : Type 0 → Type 0
Exec A = World → Result A × World

module _ {A : Type 0} where
  unfoldable pub pure : A → Exec A
  pure a w = (ok a, w)

  unfoldable pub raise : Error → Exec A
  raise e w = (err e, w)

  unfoldable pub lift : Result A → Exec A
  lift r w = (r, w)

  unfoldable pub gets : (World → A) → Exec A
  gets f w = (ok (f w), w)

  -- The outcome of an action as a value.
  unfoldable pub attempt : Exec A → Exec (Result A)
  attempt m w = let (r, w') = m w in (ok r, w')

  -- An action on another variable context: its outcome, and the context that it leaves.
  unfoldable pub with_vars : Vars → Exec A → Exec (Result A × Vars)
  with_vars vars m w =
      let (r, w') = m (record w { vars = vars }) in (ok (r, w'.vars), record w' { vars = w.vars })

module _ {A B : Type 0} where
  abbrev pub continue : Result A → (A → Exec B) → Exec B
  continue (ok a) f w = f a w
  continue (err e) f w = (err e, w)

  infixl 10 ◌>>=◌ ◌>>◌
  -- opening this opens the actions of this module too
  unfoldable pub ◌>>=◌ : Exec A → (A → Exec B) → Exec B
  unfolding pure raise lift gets attempt with_vars
  ◌>>=◌ m f w = let (r, w') = m w in continue r f w'

  abbrev pub ◌>>◌ : Exec A → Exec B → Exec B
  m >> n = m >>= λ _. n

abbrev pub Done : Type 0
Done = Unit {0}

-- `time.Now()`
unfoldable pub now : Exec ℕ
now w = (ok w.clock, record w { clock = w.clock + 1 })

-- `fireEvent`; the errors of callbacks are only logged
unfoldable pub fire : Event → Exec Done
fire e w = (ok tt, record w { events = w.events ++ e ∷ [] })

unfoldable pub modify_db : (Db → Db) → Exec Done
modify_db f w = (ok tt, record w { db = f w.db })

unfoldable pub modify_vars : (Vars → Vars) → Exec Done
modify_vars f w = (ok tt, record w { vars = f w.vars })

unfoldable pub set_digest : String → Exec Done
set_digest d w = (ok tt, record w { digest = d })
