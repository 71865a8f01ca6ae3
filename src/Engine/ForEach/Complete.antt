-- ===== src/Engine/ForEach/Complete.antt =====
-- What the dispatcher of a for_each has done when it returns.
use markov.Prelude.{
  ℕ, ◌<◌, ◌≡◌, sym, ◌∙◌, ap, subst, none, Bool, List, [], ◌++◌, ◌⊎◌, inl, inr, true,
}
use mathlib.Core.List.{append-nil, map, Perm}
use markov.Failure.{ok}
use markov.Engine.World.{World, Exec}
use markov.Engine.ForEach.{Item, Outcome, Loop, start, has_failed, dispatch}
use markov.Engine.ForEach.System.{State, Reach, initial}
use markov.Engine.ForEach.Account.{
  results_of, first_error, Ran, LeftOut, Reach-Perm, Reach-Accounted,
}
use markov.Engine.ForEach.Refines.{dispatch-Reach}

-- The history of a loop that went through all of its items.
pub record Finished (body : Item → Exec Outcome) (selects : Item → Exec Bool) (items : List Item)
    (l : Loop) : Type 0 where
  pub ended : List (Item × Outcome)
  pub skipped : List Item
  pub all_items : Perm (skipped ++ map (λ e. e.0) ended) items
  pub ran : Ran body ended
  pub left_out : LeftOut selects skipped
  pub results : l.results ≡ results_of ended
  pub no_error : first_error ended ≡ none

module _ (body : Item → Exec Outcome) (selects : Item → Exec Bool) (slots : ℕ)
    (schedule : ℕ → List ℕ)
    (returns : (x : Item) (w : World)
      → (o : Outcome) × (w' : World) × (body x w ≡ (ok o, w'))) where
  over_fine :
      (s : State)
      → (s.waiting ≡ []) ⊎ (has_failed s.loop ≡ true)
      → s.loop.first_err ≡ none
      → s.waiting ≡ []
  over_fine s (inl h) fine = h
  over_fine s (inr failed) fine = cc

  everywhere :
      (items : List Item) (s : State)
      → Reach body selects slots (initial items) s
      → s.loop.running ≡ []
      → s.waiting ≡ []
      → Perm (s.skipped ++ map (λ e. e.0) s.ended) items
  everywhere items s path idle done =
      subst (λ xs. Perm (s.skipped ++ map (λ e. e.0) s.ended) xs) (append-nil items)
        (subst (λ xs. Perm (xs ++ (s.skipped ++ map (λ e. e.0) s.ended)) (items ++ [])) idle
          (subst
            (λ xs.
              Perm (xs ++ (s.loop.running ++ (s.skipped ++ map (λ e. e.0) s.ended))) (items ++ []))
            done (Reach-Perm path)))

  -- When the dispatcher of a for_each ends without an error, every item of the list has either run
  -- exactly once, its outcome without an error, or was left out by `for_each_when`, and the list of
  -- results has the results of the items that ran in the order in which they ended, whatever the
  -- schedule.
  pub dispatch-Finished :
      (items : List Item) (w w' : World) (l : Loop)
      → 0 < slots
      → dispatch body schedule selects slots items start w ≡ (ok l, w')
      → l.first_err ≡ none
      → Finished body selects items l
  dispatch-Finished items w w' l some_slot h fine =
      let (s, v, e, path, idle, over) =
        dispatch-Reach body selects slots schedule returns items w some_slot in
      let same : s.loop ≡ l = cc in
      let a = Reach-Accounted items path in
      record {
        ended = s.ended;
        skipped = s.skipped;
        all_items =
            everywhere items s path idle
              (over_fine s over (ap (λ (k : Loop). k.first_err) same ∙ fine));
        ran = a.ran;
        left_out = a.left_out;
        results = ap (λ (k : Loop). k.results) (sym same) ∙ a.results;
        no_error = a.no_error (ap (λ (k : Loop). k.first_err) same ∙ fine);
      }
