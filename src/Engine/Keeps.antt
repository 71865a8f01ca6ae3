-- ===== src/Engine/Keeps.antt =====
-- What actions do to the world, one rule for each way to build an action: `Keeps R m` says that the
-- worlds before and after `m` are related by `R`, whether `m` returns or raises.
use markov.Prelude.{
  ◌+◌, ◌++◌, [], ◌∷◌, Bool, true, false, Option, none, some, if◌then◌else◌, or_else,
}
use markov.Value.{Vars}
use markov.Failure.{Error, Result, ok, err}
use markov.State.{Run, StepResult, save_step, create_run, update_run}
use markov.Engine.World
use markov.Engine.World.{
  World, Event, Exec, pure, raise, lift, gets, attempt, with_vars, now, fire, modify_vars, ◌>>=◌,
}

pub record Keeps {A : Type 0} (R : World → World → Type 0) (m : Exec A) : Type 0 where
  pub at : (w : World) → R w (m w).1

-- A relation that holds of every change which the execution of a workflow makes to the world.
pub record Frame (R : World → World → Type 0) : Type 0 where
  pub refl : (w : World) → R w w
  pub trans : (u v w : World) → R u v → R v w → R u w
  pub vars : (w : World) (vars : Vars) → R w (record w { vars = vars })
  pub tick : (w : World) → R w (record w { clock = w.clock + 1 })
  pub emit : (w : World) (e : Event) → R w (record w { events = w.events ++ e ∷ [] })
  pub row : (w : World) (row : StepResult) → R w (record w { db = save_step w.db row })
  pub status : (w : World) (run : Run) → R w (record w { db = update_run w.db run })
  pub new_run : (w : World) (run : Run) → R w (record w { db = or_else (create_run w.db run) w.db })

module _ {R : World → World → Type 0} (frame : Frame R) where
  module _ {A : Type 0} where
    pub Keeps-pure : (a : A) → Keeps R (pure a)
    unfolding pure
    Keeps-pure a = record { at = λ w. frame.refl w }

    pub Keeps-raise : (e : Error) → Keeps R (raise {A = A} e)
    unfolding raise
    Keeps-raise e = record { at = λ w. frame.refl w }

    pub Keeps-lift : (r : Result A) → Keeps R (lift r)
    unfolding lift
    Keeps-lift r = record { at = λ w. frame.refl w }

    pub Keeps-gets : (f : World → A) → Keeps R (gets f)
    unfolding gets
    Keeps-gets f = record { at = λ w. frame.refl w }

    pub Keeps-attempt : (m : Exec A) → Keeps R m → Keeps R (attempt m)
    unfolding attempt
    Keeps-attempt m k = record { at = k.at }

    pub Keeps-with_vars : (vars : Vars) (m : Exec A) → Keeps R m → Keeps R (with_vars vars m)
    unfolding with_vars
    Keeps-with_vars vars m k = record {
      at = λ w.
          let u = record w { vars = vars } in
          let v = (m u).1 in
          frame.trans w v (record v { vars = w.vars })
            (frame.trans w u v (frame.vars w vars) (k.at u)) (frame.vars v w.vars);
    }

    pub Keeps-if : (b : Bool) (m n : Exec A) → Keeps R m → Keeps R n → Keeps R (if b then m else n)
    Keeps-if true m n km kn = km
    Keeps-if false m n km kn = kn

  module _ {A B : Type 0} where
    Keeps-continue :
        (r : Result A) (f : A → Exec B) (u w : World)
        → R u w
        → ((a : A) → Keeps R (f a))
        → R u (World.continue r f w).1
    Keeps-continue (ok a) f u w k kf = frame.trans u w (f a w).1 k ((kf a).at w)
    Keeps-continue (err e) f u w k kf = k

    pub Keeps-bind :
        (m : Exec A) (f : A → Exec B) → Keeps R m → ((a : A) → Keeps R (f a)) → Keeps R (m >>= f)
    unfolding ◌>>=◌
    Keeps-bind m f km kf = record { at = λ w. Keeps-continue (m w).0 f w (m w).1 (km.at w) kf }

  -- What is bound is split on, so that a match in the rest computes.
  module _ {A B : Type 0} where
    pub Keeps-bind-result :
        (m : Exec (Result A)) (f : Result A → Exec B)
        → Keeps R m
        → ((a : A) → Keeps R (f (ok a)))
        → ((e : Error) → Keeps R (f (err e)))
        → Keeps R (m >>= f)
    Keeps-bind-result m f km kf kg = Keeps-bind m f km (elim [ ok a ↦ kf a | err e ↦ kg e ])

    pub Keeps-bind-option :
        (m : Exec (Option A)) (f : Option A → Exec B)
        → Keeps R m
        → Keeps R (f none)
        → ((a : A) → Keeps R (f (some a)))
        → Keeps R (m >>= f)
    Keeps-bind-option m f km kf kg = Keeps-bind m f km (elim [ none ↦ kf | some a ↦ kg a ])

  pub Keeps-bind-bool :
      {B : Type 0} (m : Exec Bool) (f : Bool → Exec B)
      → Keeps R m
      → Keeps R (f true)
      → Keeps R (f false)
      → Keeps R (m >>= f)
  Keeps-bind-bool m f km kf kg = Keeps-bind m f km (elim [ true ↦ kf | false ↦ kg ])

  pub Keeps-now : Keeps R now
  unfolding now
  Keeps-now = record { at = frame.tick }

  pub Keeps-fire : (e : Event) → Keeps R (fire e)
  unfolding fire
  Keeps-fire e = record { at = λ w. frame.emit w e }

  pub Keeps-modify_vars : (f : Vars → Vars) → Keeps R (modify_vars f)
  unfolding modify_vars
  Keeps-modify_vars f = record { at = λ w. frame.vars w (f w.vars) }

pub ruleset keeps_rules = (
  Keeps-pure, Keeps-raise, Keeps-lift, Keeps-gets, Keeps-attempt, Keeps-with_vars, Keeps-if,
  Keeps-bind-result, Keeps-bind-option, Keeps-bind-bool, Keeps-bind, Keeps-now, Keeps-fire,
  Keeps-modify_vars,
)
