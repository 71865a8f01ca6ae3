-- ===== src/Engine/ForEach/Drains.antt =====
-- Once no further item is started, the dispatcher waits for those that run, and is at its end.
use markov.Prelude.{ℕ, ◌≡◌, refl, ◌∙◌, subst, some, List, [], ◌∷◌, ◌++◌, Bool, true, ◌⊎◌, inl, inr}
use markov.Failure.{ok}
use markov.Engine.World.{World, Exec, ◌>>=◌, pure}
use markov.Engine.ForEach.{
  Item, Outcome, Loop, take_at, record_outcome, settle, pass, settle_all, drain, has_failed,
}
use markov.Engine.ForEach.Runs.{pass-Runs}
use markov.Engine.ForEach.Bounds.{Reach-failed}
use markov.Engine.ForEach.System.{State, ends, Reach, here, next, Reach-trans}

module _ (body : Item → Exec Outcome) (selects : Item → Exec Bool) (slots : ℕ)
    (schedule : ℕ → List ℕ)
    (returns : (x : Item) (w : World)
      → (o : Outcome) × (w' : World) × (body x w ≡ (ok o, w'))) where
  -- The loop is at its end: nothing runs, and what waits does so because of an error.
  pub record Completes (m : Exec Loop) (s : State) (w : World) : Type 0 where
    pub state : State
    pub world : World
    pub result : m w ≡ (ok state.loop, world)
    pub path : Reach body selects slots s state
    pub idle : state.loop.running ≡ []
    pub over : (state.waiting ≡ []) ⊎ (has_failed state.loop ≡ true)

  pub Completes-bind :
      {A : Type 0} (m : Exec A) (f : A → Exec Loop) (a : A) (s t : State) (w v : World)
      → m w ≡ (ok a, v)
      → Reach body selects slots s t
      → Completes (f a) t v
      → Completes (m >>= f) s w
  unfolding ◌>>=◌
  Completes-bind m f a s t w v h path c = record {
    state = c.state;
    world = c.world;
    result = rw h c.result;
    path = Reach-trans body selects slots path c.path;
    idle = c.idle;
    over = c.over;
  }

  first_taken :
      (x : Item) (xs : List Item) (s : State)
      → s.loop.running ≡ x ∷ xs
      → take_at 0 s.loop.running ≡ some (x, xs)
  unfolding take_at
  first_taken x xs s h = rw h

  settled :
      (x : Item) (l : Loop) (w : World) (o : Outcome) (w' : World)
      → body x w ≡ (ok o, w')
      → settle body schedule x l w ≡ (ok (record_outcome l o), w')
  unfolding settle ◌>>=◌ pure
  settled x l w o w' e = rw e

  still :
      (s t : State)
      → t.waiting ≡ s.waiting
      → Reach body selects slots s t
      → (s.waiting ≡ []) ⊎ (has_failed s.loop ≡ true)
      → (t.waiting ≡ []) ⊎ (has_failed t.loop ≡ true)
  still s t same path (inl h) = inl (same ∙ h)
  still s t same path (inr h) = inr (Reach-failed path h)

  settle_all-Completes :
      (xs : List Item) (s : State) (w : World)
      → s.loop.running ≡ xs
      → (s.waiting ≡ []) ⊎ (has_failed s.loop ≡ true)
      → Completes (settle_all body schedule xs (record s.loop { running = [] })) s w
  unfolding settle_all pure record_outcome
  settle_all-Completes [] s w h over = record {
    state = record s { loop = record s.loop { running = [] } };
    world = w;
    result = refl;
    path =
        subst (Reach body selects slots s)
          (λ i. record s { loop = record s.loop { running = h i } }) here;
    idle = refl;
    over = over;
  }
  settle_all-Completes (x ∷ xs) s w h over =
      let (o, w', e) = returns x w in
      let t = record s {
        loop = record_outcome (record s.loop { running = xs }) o;
        ended = s.ended ++ (x, o) ∷ [];
      } in
      let path = next here (ends 0 x xs w w' o (first_taken x xs s h) e) in
      Completes-bind (settle body schedule x (record s.loop { running = [] }))
        (settle_all body schedule xs) (record_outcome (record s.loop { running = [] }) o) s t w w'
        (settled x (record s.loop { running = [] }) w o w' e) path
        (settle_all-Completes xs t w' refl (still s t refl path over))

  pub drain-Completes :
      (s : State) (w : World)
      → (s.waiting ≡ []) ⊎ (has_failed s.loop ≡ true)
      → Completes (drain body schedule s.loop) s w
  unfolding drain
  drain-Completes s w over =
      let first = pass-Runs body selects slots schedule returns s w in
      let t = first.state in
      Completes-bind (pass body schedule s.loop)
        (λ l'. settle_all body schedule l'.running (record l' { running = [] })) t.loop s t w
        first.world first.result first.path
        (settle_all-Completes t.loop.running t first.world refl
          (still s t first.waiting first.path over))
