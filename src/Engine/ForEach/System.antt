-- ===== src/Engine/ForEach/System.antt =====
-- An abstract specification of the loop of `executeForEach`, in which items start in the order of the
-- list while a slot is free and none has failed, and end in any order. It is not a translation: a
-- check and what it guards are one step, and the slots in use are the items that run.
use markov.Prelude.{ℕ, ◌<◌, ◌≡◌, none, some, List, [], ◌∷◌, ◌++◌, Bool, false, length}
use markov.Failure.{Error, ok, err}
use markov.Engine.World.{World, Exec}
use markov.Engine.ForEach.{Item, Outcome, Loop, start, take_at, record_outcome}

-- The loop's variables, the items that wait for their turn, and the history: what ended, in order,
-- and what `for_each_when` left out.
pub record State : Type 0 where
  pub waiting : List Item
  pub loop : Loop
  pub ended : List (Item × Outcome)
  pub skipped : List Item

abbrev pub initial : List Item → State
initial items = record { waiting = items; loop = start; ended = []; skipped = [] }

module _ (body : Item → Exec Outcome) (selects : Item → Exec Bool) (slots : ℕ) where
  pub data Transition (s : State) : State → Type 0 where
    starts :
        (x : Item) (xs : List Item)
        → s.waiting ≡ x ∷ xs
        → s.loop.first_err ≡ none
        → length s.loop.running < slots
        → Transition s
            (record s { waiting = xs; loop = record s.loop { running = s.loop.running ++ x ∷ [] } })
    skips :
        (x : Item) (xs : List Item) (v v' : World)
        → s.waiting ≡ x ∷ xs
        → s.loop.first_err ≡ none
        → selects x v ≡ (ok false, v')
        → Transition s (record s { waiting = xs; skipped = s.skipped ++ x ∷ [] })
    stops :
        (x : Item) (xs : List Item) (v v' : World) (e : Error)
        → s.waiting ≡ x ∷ xs
        → s.loop.first_err ≡ none
        → selects x v ≡ (err e, v')
        → Transition s (record s { loop = record s.loop { first_err = some e } })
    ends :
        (n : ℕ) (x : Item) (rest : List Item) (v v' : World) (o : Outcome)
        → take_at n s.loop.running ≡ some (x, rest)
        → body x v ≡ (ok o, v')
        → Transition s (record s {
          loop = record_outcome (record s.loop { running = rest }) o;
          ended = s.ended ++ (x, o) ∷ [];
        })

  pub data Reach (s : State) : State → Type 0 where
    here : Reach s s
    next : {t u : State} → Reach s t → Transition t u → Reach s u

  pub Reach-trans : {s t u : State} → Reach s t → Reach t u → Reach s u
  Reach-trans r here = r
  Reach-trans r (next q st) = next (Reach-trans r q) st
