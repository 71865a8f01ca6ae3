-- ===== src/Engine/ForEach/Account.antt =====
-- What a for_each's loop makes of its items: none is lost, and none starts after a failure.
use markov.Prelude.{
  ℕ, zero, suc, ◌≡◌, refl, ◌∙◌, ap, subst, Option, none, some, List, [], ◌∷◌, ◌++◌, Bool, false,
}
use mathlib.Core.List.{append-nil, append_assoc, perm_middle, map, Perm}
use mathlib.Core.List.Perm
use markov.Value.{Vars}
use markov.Failure.{Error, ok}
use markov.Engine.World.{World, Exec}
use markov.Engine.ForEach.{Item, Outcome, take_at, once, add_result, record_outcome}
use markov.Engine.ForEach.System.{
  State, Transition, starts, skips, stops, ends, Reach, here, next, initial,
}

module _ {A : Type 0} where
  pub map-append_one :
      {B : Type 0} (f : A → B) (xs : List A) (a : A) → map f (xs ++ a ∷ []) ≡ map f xs ++ f a ∷ []
  map-append_one f [] a = refl
  map-append_one f (x ∷ xs) a = ap (λ ys. f x ∷ ys) (map-append_one f xs a)

  -- the last element of the first part moves to the front
  moved : (xs ys : List A) (a : A) → Perm ((xs ++ a ∷ []) ++ ys) (a ∷ (xs ++ ys))
  moved xs ys a = rw (append_assoc xs (a ∷ []) ys) (perm_middle xs ys)

cons-Perm :
    {x y : Item} {xs ys : List Item}
    → ◌≡◌ {A = Option (Item × List Item)} (some (y, ys)) (some (x, xs))
    → Perm (x ∷ xs) (y ∷ ys)
cons-Perm {x} {y} {xs} {ys} h =
    let head : x ≡ y = cc in let tail : xs ≡ ys = cc in rw head (rw tail Perm.rfl)

-- an item moves from the end of the last part to the front
ending :
    {A : Type 0} (xs ys zs : List A) (a : A)
    → Perm (xs ++ (ys ++ (zs ++ a ∷ []))) ((a ∷ xs) ++ (ys ++ zs))
ending xs ys zs a =
    Perm.trans
      (Perm.append_left xs (
        Perm.trans
          (Perm.append_left ys
            (subst (λ r. Perm (zs ++ a ∷ []) (a ∷ r)) (append-nil zs) (perm_middle zs [])))
          (perm_middle ys zs)))
      (perm_middle xs (ys ++ zs))

pub take_at-Perm :
    (n : ℕ) (xs : List Item) (x : Item) (rest : List Item)
    → take_at n xs ≡ some (x, rest)
    → Perm (x ∷ rest) xs
unfolding take_at
take_at-Perm n [] x rest h = cc
take_at-Perm zero (y ∷ ys) x rest h = cons-Perm h
take_at-Perm (suc n) (y ∷ ys) x rest h = go (take_at n ys) (take_at-Perm n ys) h
  where
    go :
        (found : Option (Item × List Item))
        → ((x : Item) (rest : List Item) → found ≡ some (x, rest) → Perm (x ∷ rest) ys)
        → elim found as (λ _. Option (Item × List Item)) [
          | none ↦ none
          | some (z, zs) ↦ some (z, y ∷ zs)
        ]
          ≡ some (x, rest)
        → Perm (x ∷ rest) (y ∷ ys)
    go none hyp e = cc
    go (some (z, zs)) hyp e =
        Perm.trans (cons-Perm e) (Perm.trans (Perm.swap y z zs) (Perm.cons y (hyp z zs refl)))

-- Every item of the list, in the part of the state where it is.
abbrev pub items_in : State → List Item
items_in s = s.waiting ++ (s.loop.running ++ (s.skipped ++ map (λ e. e.0) s.ended))

abbrev in_front : Option Vars → List Vars → List Vars
in_front none rs = rs
in_front (some r) rs = r ∷ rs

-- The entries of `results`, in the order in which the items ended.
unfoldable pub results_of : List (Item × Outcome) → List Vars
results_of [] = []
results_of ((_, o) ∷ es) = in_front o.result (results_of es)

-- The first error of the items that ended.
unfoldable pub first_error : List (Item × Outcome) → Option Error
first_error [] = none
first_error ((_, o) ∷ es) = once o.error (first_error es)

-- Each item that ended did so as its body ends.
pub data Ran (body : Item → Exec Outcome) : List (Item × Outcome) → Type 0 where
  none_ran : Ran body []
  one_more :
      {es : List (Item × Outcome)}
      → Ran body es
      → (x : Item) (o : Outcome) (v v' : World) → body x v ≡ (ok o, v')
      → Ran body (es ++ (x, o) ∷ [])

-- Each item that was left out is one for which `for_each_when` is false.
pub data LeftOut (selects : Item → Exec Bool) : List Item → Type 0 where
  none_out : LeftOut selects []
  one_out :
      {xs : List Item}
      → LeftOut selects xs
      → (x : Item) (v v' : World) → selects x v ≡ (ok false, v')
      → LeftOut selects (xs ++ x ∷ [])

in_front-add_result :
    (p q : Option Vars) (rs : List Vars)
    → in_front p (add_result q rs) ≡ add_result q (in_front p rs)
in_front-add_result none q rs = refl
in_front-add_result (some r) none rs = refl
in_front-add_result (some r) (some q) rs = refl

once_assoc : (a b c : Option Error) → once a (once b c) ≡ once (once a b) c
once_assoc none b c = refl
once_assoc (some e) b c = refl

results_of-append_one :
    (es : List (Item × Outcome)) (x : Item) (o : Outcome)
    → results_of (es ++ (x, o) ∷ []) ≡ add_result o.result (results_of es)
unfolding results_of
results_of-append_one [] x o = added o.result
  where
    added : (r : Option Vars) → in_front r [] ≡ add_result r []
    added none = refl
    added (some r) = refl
results_of-append_one ((y, q) ∷ es) x o =
    ap (in_front q.result) (results_of-append_one es x o)
    ∙ in_front-add_result q.result o.result (results_of es)

first_error-append_one :
    (es : List (Item × Outcome)) (x : Item) (o : Outcome)
    → first_error (es ++ (x, o) ∷ []) ≡ once (first_error es) o.error
unfolding first_error
first_error-append_one [] x o = first o.error
  where
    first : (e : Option Error) → once e none ≡ once none e
    first none = refl
    first (some e) = refl
first_error-append_one ((y, q) ∷ es) x o =
    ap (once q.error) (first_error-append_one es x o) ∙ once_assoc q.error (first_error es) o.error

-- The shared variables say what the items that ended left.
pub record Accounted (body : Item → Exec Outcome) (selects : Item → Exec Bool) (s : State)
    : Type 0 where
  pub ran : Ran body s.ended
  pub left_out : LeftOut selects s.skipped
  pub results : s.loop.results ≡ results_of s.ended
  pub no_error : s.loop.first_err ≡ none → first_error s.ended ≡ none

once-none : (e f : Option Error) → once e f ≡ none → (e ≡ none) × (f ≡ none)
once-none none f h = (refl, h)
once-none (some e) f h = cc

module _ {body : Item → Exec Outcome} {selects : Item → Exec Bool} {slots : ℕ} where
  Transition-Perm :
      {s t : State} → Transition body selects slots s t → Perm (items_in t) (items_in s)
  unfolding record_outcome
  Transition-Perm {s} (starts x xs h k l) =
      let others = s.skipped ++ map (λ e. e.0) s.ended in
      rw h (
        Perm.trans (Perm.append_left xs (moved s.loop.running others x))
          (perm_middle xs (s.loop.running ++ others)))
  Transition-Perm {s} (skips x xs v v' h k e) =
      let gone = map (λ e. e.0) s.ended in
      let others = s.loop.running ++ (s.skipped ++ gone) in
      rw h (
        Perm.trans
          (Perm.append_left xs (
            Perm.trans (Perm.append_left s.loop.running (moved s.skipped gone x))
              (perm_middle s.loop.running (s.skipped ++ gone))))
          (perm_middle xs others))
  Transition-Perm (stops x xs v v' e h k f) = Perm.rfl
  Transition-Perm {s} (ends n x rest v v' o h e) =
      let gone = map (λ e. e.0) s.ended in
      rw (map-append_one (λ e. e.0) s.ended (x, o)) (
        Perm.append_left s.waiting (
          Perm.trans (ending rest s.skipped gone x)
            (Perm.append_right (s.skipped ++ gone) (take_at-Perm n s.loop.running x rest h))))

  pub Reach-Perm : {s t : State} → Reach body selects slots s t → Perm (items_in t) (items_in s)
  Reach-Perm here = Perm.rfl
  Reach-Perm (next r st) = Perm.trans (Transition-Perm st) (Reach-Perm r)

  Transition-Accounted :
      {s t : State}
      → Transition body selects slots s t
      → Accounted body selects s
      → Accounted body selects t
  unfolding record_outcome
  Transition-Accounted (starts x xs h k l) a = record {
    ran = a.ran;
    left_out = a.left_out;
    results = a.results;
    no_error = a.no_error;
  }
  Transition-Accounted (skips x xs v v' h k e) a = record {
    ran = a.ran;
    left_out = one_out a.left_out x v v' e;
    results = a.results;
    no_error = a.no_error;
  }
  Transition-Accounted (stops x xs v v' e h k f) a = record {
    ran = a.ran;
    left_out = a.left_out;
    results = a.results;
    no_error = λ none_yet. a.no_error k;
  }
  Transition-Accounted {s} (ends n x rest v v' o h e) a = record {
    ran = one_more a.ran x o v v' e;
    left_out = a.left_out;
    results = rw (results_of-append_one s.ended x o) (ap (add_result o.result) a.results);
    no_error = λ none_yet.
        let parts = once-none s.loop.first_err o.error none_yet in
        rw (first_error-append_one s.ended x o) (rw (a.no_error parts.0) parts.1);
  }

  pub Reach-Accounted :
      (items : List Item) {s : State}
      → Reach body selects slots (initial items) s
      → Accounted body selects s
  unfolding results_of first_error
  Reach-Accounted items here = record {
    ran = none_ran;
    left_out = none_out;
    results = refl;
    no_error = λ _. refl;
  }
  Reach-Accounted items (next r st) = Transition-Accounted st (Reach-Accounted items r)
