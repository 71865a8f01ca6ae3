-- ===== src/Engine/ForEach/Turns.antt =====
-- The turns of a for_each's dispatcher: with what it goes on, whatever the schedule.
use markov.Prelude.{ℕ, ◌≤◌, ◌≡◌, none, List, [], ◌∷◌, Bool, true, length, ◌⊎◌}
use markov.Failure.{ok}
use markov.Engine.World.{World, Exec}
use markov.Engine.ForEach.{Item, Outcome, Loop, drain, dispatch, has_failed}
use markov.Engine.ForEach.System.{State}

module _ (body : Item → Exec Outcome) (selects : Item → Exec Bool) (slots : ℕ)
    (schedule : ℕ → List ℕ) where
  abbrev run : List Item → Loop → Exec Loop
  run = dispatch body schedule selects slots

  -- The loop over the items from here: each turn is its last one, and a failure is recorded; or it
  -- goes on to the next item with no failure recorded and at most as many running items as there are
  -- slots.
  pub Guarded : List Item → Loop → World → Type 0
  Guarded [] l w = Unit
  Guarded (x ∷ xs) l w =
      (l' : Loop) × (v : World) × (((has_failed l' ≡ true)
          × (run (x ∷ xs) l w ≡ drain body schedule l' v))
        ⊎ ((l'.first_err ≡ none)
            × (length l'.running ≤ slots)
            × (run (x ∷ xs) l w ≡ run xs l' v)
            × Guarded xs l' v))

  module _
      (returns : (x : Item) (w : World)
        → (o : Outcome) × (w' : World) × (body x w ≡ (ok o, w'))) where
    abbrev at : Loop → State
    at l = record { waiting = []; loop = l; ended = []; skipped = [] }

    -- a turn that comes to a state from which the loop is guarded
    Continues : List Item → Type 0
    Continues xs = (l : Loop) (v : World) → length l.running ≤ slots → Guarded xs l v

    -- what an action of the dispatcher comes to
    abbrev Ends : List Item → Exec Loop → World → Type 0
    Ends xs m w =
        (l' : Loop) × (v : World) × (((has_failed l' ≡ true) × (m w ≡ drain body schedule l' v))
          ⊎ ((l'.first_err ≡ none)
              × (length l'.running ≤ slots)
              × (m w ≡ run xs l' v)
              × Guarded xs l' v))
