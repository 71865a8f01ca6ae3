-- ===== src/Engine/ForEach/Bounds.antt =====
-- What holds in every state of a for_each's loop.
use markov.Prelude.{
  ℕ, suc, ◌≤◌, ◌≡◌, refl, none, some, List, [], ◌∷◌, ◌++◌, Bool, true, length, arith, Option-cases,
  inl, inr,
}
use markov.Engine.World.{Exec}
use markov.Engine.ForEach.{Item, Outcome, take_at, has_failed, record_outcome}
use markov.Engine.ForEach.System.{State, Transition, starts, skips, stops, ends, Reach, here, next}

pub length-append_one : {A : Type 0} (xs : List A) (a : A) → length (xs ++ a ∷ []) ≡ suc (length xs)
length-append_one [] a = refl
length-append_one (x ∷ xs) a = omega (arith, length-append_one xs a)

-- Taking an item out leaves one less.
pub length-take_at :
    (n : ℕ) (xs : List Item) (x : Item) (rest : List Item)
    → take_at n xs ≡ some (x, rest)
    → length xs ≡ suc (length rest)
unfolding take_at
length-take_at n [] x rest h = cc
length-take_at ℕ.zero (y ∷ ys) x rest h = ground arith
length-take_at (suc n) (y ∷ ys) x rest h = elim (Option-cases (take_at n ys)) [
  | inl e ↦ ground arith
  | inr p ↦ ground (arith, p.1, length-take_at n ys p.0.0 p.0.1 p.1)
]

pub length-take_at-none : (xs : List Item) → take_at 0 xs ≡ none → length xs ≡ 0
unfolding take_at
length-take_at-none [] h = refl
length-take_at-none (x ∷ xs) h = cc

module _ {body : Item → Exec Outcome} {selects : Item → Exec Bool} {slots : ℕ} where
  pub Transition-bound :
      {s t : State}
      → Transition body selects slots s t
      → length s.loop.running ≤ slots
      → length t.loop.running ≤ slots
  unfolding record_outcome
  Transition-bound {s} (starts x xs h k l) b = omega (arith, length-append_one s.loop.running x)
  Transition-bound (skips x xs v v' h k e) b = b
  Transition-bound (stops x xs v v' e h k f) b = b
  Transition-bound {s} (ends n x rest v v' o h e) b =
      omega (arith, length-take_at n s.loop.running x rest h)

  pub Reach-bound :
      {s t : State}
      → Reach body selects slots s t
      → length s.loop.running ≤ slots
      → length t.loop.running ≤ slots
  Reach-bound here b = b
  Reach-bound (next r st) b = Transition-bound st (Reach-bound r b)

  pub Transition-failed :
      {s t : State}
      → Transition body selects slots s t
      → has_failed s.loop ≡ true
      → has_failed t.loop ≡ true
  unfolding record_outcome
  Transition-failed (starts x xs h k l) b = b
  Transition-failed (skips x xs v v' h k e) b = b
  Transition-failed (stops x xs v v' e h k f) b = refl
  Transition-failed (ends n x rest v v' o h e) b = ground arith

  pub Reach-failed :
      {s t : State}
      → Reach body selects slots s t
      → has_failed s.loop ≡ true
      → has_failed t.loop ≡ true
  Reach-failed here b = b
  Reach-failed (next r st) b = Transition-failed st (Reach-failed r b)
