-- ===== src/Engine/ForEach/Returns.antt =====
-- The body of a for_each's item returns: what goes wrong in it is a value, which the loop records.
use markov.Prelude.{◌≡◌, refl, String, Bool, true, false, none, some, Option, if◌then◌else◌}
use markov.Value.{Vars}
use markov.Failure.{Error, Result, ok, err}
use markov.Workflow.{Step, Workflow}
use markov.Engine.Env.{Env}
use markov.Engine.World.{
  World, Event, Exec, Done, pure, gets, attempt, with_vars, now, fire, modify_db, ◌>>=◌,
}
use markov.State.{Db}
use markov.Engine.ForEach.{Item, run_item_step, run_item}

pub record Returns {A : Type 0} (m : Exec A) : Type 0 where
  pub at : (w : World) → (a : A) × (w' : World) × (m w ≡ (ok a, w'))

module _ {A : Type 0} where
  Returns-pure : (a : A) → Returns (pure a)
  unfolding pure
  Returns-pure a = record { at = λ w. (a, w, refl) }

  Returns-gets : (f : World → A) → Returns (gets f)
  unfolding gets
  Returns-gets f = record { at = λ w. (f w, w, refl) }

  Returns-attempt : (m : Exec A) → Returns (attempt m)
  unfolding attempt
  Returns-attempt m = record { at = λ w. ((m w).0, (m w).1, refl) }

  Returns-with_vars : (vars : Vars) (m : Exec A) → Returns (with_vars vars m)
  unfolding with_vars
  Returns-with_vars vars m = record { at = λ w. (_, _, refl) }

  Returns-if : (b : Bool) (m n : Exec A) → Returns m → Returns n → Returns (if b then m else n)
  Returns-if true m n km kn = km
  Returns-if false m n km kn = kn

module _ {A B : Type 0} where
  Returns-bind :
      (m : Exec A) (f : A → Exec B) → Returns m → ((a : A) → Returns (f a)) → Returns (m >>= f)
  unfolding ◌>>=◌
  Returns-bind m f km kf = record {
    at = λ w. let (a, v, e) = km.at w in let (b, u, d) = (kf a).at v in (b, u, rw e d);
  }

  -- An action after one that returns.
  pub bind_ok :
      (m : Exec A) (f : A → Exec B) (a : A) (w v : World) → m w ≡ (ok a, v) → (m >>= f) w ≡ f a v
  unfolding ◌>>=◌
  bind_ok m f a w v h = rw h refl

-- What is bound is split on, so that a match in the rest computes.
module _ {A B : Type 0} where
  Returns-bind-result :
      (m : Exec (Result A)) (f : Result A → Exec B)
      → Returns m
      → ((a : A) → Returns (f (ok a)))
      → ((e : Error) → Returns (f (err e)))
      → Returns (m >>= f)
  Returns-bind-result m f km kf kg = Returns-bind m f km (elim [ ok a ↦ kf a | err e ↦ kg e ])

  Returns-bind-option :
      (m : Exec (Option A)) (f : Option A → Exec B)
      → Returns m
      → Returns (f none)
      → ((a : A) → Returns (f (some a)))
      → Returns (m >>= f)
  Returns-bind-option m f km kf kg = Returns-bind m f km (elim [ none ↦ kf | some a ↦ kg a ])

Returns-now : Returns now
unfolding now
Returns-now = record { at = λ w. (_, _, refl) }

Returns-fire : (e : Event) → Returns (fire e)
unfolding fire
Returns-fire e = record { at = λ w. (_, _, refl) }

Returns-modify_db : (f : Db → Db) → Returns (modify_db f)
unfolding modify_db
Returns-modify_db f = record { at = λ w. (_, _, refl) }

ruleset returns_rules = (
  Returns-pure, Returns-gets, Returns-attempt, Returns-with_vars, Returns-if, Returns-bind-result,
  Returns-bind-option, Returns-bind, Returns-now, Returns-fire, Returns-modify_db,
)

module _ (env : Env) (call : String → Workflow → Exec Done)
    (single : Step → String → Exec Done) where
  run_item_step-Returns : (step : Step) (x : Item) → Returns (run_item_step env call single step x)
  unfolding run_item_step
  run_item_step-Returns step (i, item) = search returns_rules depth 9

  pub run_item-Returns :
      (run : String) (step : Step) (x : Item) → Returns (run_item env call single run step x)
  unfolding run_item
  run_item-Returns run step x = search (returns_rules, run_item_step-Returns) depth 8
