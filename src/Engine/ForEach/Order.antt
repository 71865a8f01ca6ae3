-- ===== src/Engine/ForEach/Order.antt =====
-- The order of a for_each's items: with one slot they run in the order of the list.
use markov.Prelude.{◌<◌, ◌≡◌, refl, List, [], ◌∷◌, ◌++◌, length, arith}
use mathlib.Core.List.{map, Sublist}
use mathlib.Core.List.Sublist
use markov.Engine.ForEach.{Item}
use markov.Engine.ForEach.System.{State}

idle : (xs : List Item) → length xs < 1 → xs ≡ []
idle [] b = refl
idle (x ∷ xs) b = absurd (omega (arith, b))

-- the items that were started, then those that wait
abbrev in_turn : State → List Item
in_turn s = map (λ e. e.0) s.ended ++ (s.loop.running ++ s.waiting)
