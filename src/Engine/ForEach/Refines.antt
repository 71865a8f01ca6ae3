-- ===== src/Engine/ForEach/Refines.antt =====
-- The dispatcher of a for_each takes only steps of the loop's system, and comes to its end.
use markov.Prelude.{
  ℕ, ◌<◌, ◌≤◌, ◌≡◌, refl, ◌∙◌, none, some, Option, List, [], ◌∷◌, ◌++◌, Bool, true, false, length,
  arith, ◌⊎◌, inl, inr, is_some, Bool-cases, if◌then◌else◌,
}
use markov.Failure.{Error, Result, ok, err}
use markov.Engine.World.{World, Exec, ◌>>=◌, attempt}
use markov.Engine.ForEach.{
  Item, Outcome, Loop, start, pass, drain, acquire, start_item, stop_dispatch, dispatch_item,
  dispatch, has_failed,
}
use markov.Engine.ForEach.Runs.{Runs, pass-Runs}
use markov.Engine.ForEach.Bounds.{Reach-bound}
use markov.Engine.ForEach.System.{
  State, starts, skips, stops, Reach, here, next, Reach-trans, initial,
}
use markov.Engine.ForEach.Drains.{Completes, Completes-bind, drain-Completes}
use markov.Engine.ForEach.Acquires.{acquire-Acquires}

module _ (body : Item → Exec Outcome) (selects : Item → Exec Bool) (slots : ℕ)
    (schedule : ℕ → List ℕ)
    (returns : (x : Item) (w : World)
      → (o : Outcome) × (w' : World) × (body x w ≡ (ok o, w'))) where
  -- A step of the dispatcher, from one that ends there.
  resume :
      (m : Exec Loop) (f : Loop → Exec Loop) (s : State) (w : World)
      (first : Runs body selects slots schedule returns m s w)
      → Completes body selects slots schedule returns (f first.state.loop) first.state first.world
      → Completes body selects slots schedule returns (m >>= f) s w
  resume m f s w first c =
      Completes-bind body selects slots schedule returns m f first.state.loop s first.state w
        first.world first.result first.path c

  -- The remainder of the dispatcher, from a state where `xs` wait.
  Continues : (Loop → Exec Loop) → List Item → Type 0
  Continues rest xs =
      (t : State) (v : World)
      → t.waiting ≡ xs
      → length t.loop.running ≤ slots
      → Completes body selects slots schedule returns (rest t.loop) t v

  started :
      (rest : Loop → Exec Loop) (x : Item) (xs : List Item)
      → Continues rest xs
      → (t : State) (v : World) → t.waiting ≡ x ∷ xs
      → length t.loop.running < slots
      → t.loop.first_err ≡ none
      → Completes body selects slots schedule returns
          (rest (record t.loop { running = t.loop.running ++ x ∷ [] }))
          t
          v
  unfolding Continues
  started rest x xs continues t v waits free fine =
      let u = record t {
        waiting = xs;
        loop = record t.loop { running = t.loop.running ++ x ∷ [] };
      } in
      let path = next here (starts x xs waits fine free) in
      let c = continues u v refl (Reach-bound path (omega arith)) in
      record {
        state = c.state;
        world = c.world;
        result = c.result;
        path = Reach-trans body selects slots path c.path;
        idle = c.idle;
        over = c.over;
      }

  not_failed : (e : Option Error) → is_some e ≡ false → e ≡ none
  not_failed none h = refl
  not_failed (some e) h = cc

  start_item-Completes :
      (rest : Loop → Exec Loop) (x : Item) (xs : List Item)
      → Continues rest xs
      → 0 < slots
      → (s : State) (w : World) → s.waiting ≡ x ∷ xs
      → length s.loop.running ≤ slots
      → Completes body selects slots schedule returns
          (start_item body schedule rest slots x s.loop)
          s
          w
  unfolding start_item
  start_item-Completes rest x xs continues some_slot s w waits bound =
      let got = acquire-Acquires body selects slots schedule returns s w some_slot bound in
      resume (acquire body schedule slots s.loop)
        (λ l'.
          if has_failed l'
          then drain body schedule l'
          else rest (record l' { running = l'.running ++ x ∷ [] }))
        s w got.runs (go got.runs.state got.runs.world (got.runs.waiting ∙ waits) got.free)
    where
      go :
          (t : State) (v : World)
          → t.waiting ≡ x ∷ xs
          → length t.loop.running < slots
          → Completes body selects slots schedule returns
              (if has_failed t.loop
                then drain body schedule t.loop
                else rest (record t.loop { running = t.loop.running ++ x ∷ [] }))
              t
              v
      go t v h free = elim (Bool-cases (has_failed t.loop)) [
        | inl failed ↦
            rw failed (drain-Completes body selects slots schedule returns t v (inr failed))
        | inr fine ↦
            rw fine (started rest x xs continues t v h free (not_failed t.loop.first_err fine))
      ]

  attempted :
      (x : Item) (w v : World) (r : Result Bool)
      → selects x w ≡ (r, v)
      → attempt (selects x) w ≡ (ok r, v)
  unfolding attempt
  attempted x w v r h = rw h refl

  dispatch_item-Completes :
      (rest : Loop → Exec Loop) (x : Item) (xs : List Item)
      → Continues rest xs
      → 0 < slots
      → (s : State) (w : World) → s.waiting ≡ x ∷ xs
      → length s.loop.running ≤ slots
      → s.loop.first_err ≡ none
      → Completes body selects slots schedule returns
          (dispatch_item body schedule selects rest slots x s.loop)
          s
          w
  unfolding dispatch_item stop_dispatch Continues
  dispatch_item-Completes rest x xs continues some_slot s w waits bound fine =
      go (selects x w).0 (selects x w).1 refl
    where
      chosen : Result Bool → Exec Loop
      chosen r = elim r [
        | err e ↦ stop_dispatch body schedule e s.loop
        | ok selected ↦
            if selected then start_item body schedule rest slots x s.loop else rest s.loop
      ]

      stopped :
          (e : Error) (v : World)
          → Completes body selects slots schedule returns
              (stop_dispatch body schedule e s.loop)
              (record s { loop = record s.loop { first_err = some e } })
              v
      stopped e v = rw fine (
          drain-Completes body selects slots schedule returns
            (record s { loop = record s.loop { first_err = some e } }) v (inr refl))

      go :
          (r : Result Bool) (v : World)
          → selects x w ≡ (r, v)
          → Completes body selects slots schedule returns (attempt (selects x) >>= chosen) s w
      go (ok true) v e =
          Completes-bind body selects slots schedule returns (attempt (selects x)) chosen (ok true)
            s s w v (attempted x w v (ok true) e) here
            (start_item-Completes rest x xs continues some_slot s v waits bound)
      go (ok false) v e =
          let t = record s { waiting = xs; skipped = s.skipped ++ x ∷ [] } in
          Completes-bind body selects slots schedule returns (attempt (selects x)) chosen (ok false)
            s t w v (attempted x w v (ok false) e) (next here (skips x xs w v waits fine e))
            (continues t v refl bound)
      go (err e) v h =
          let t = record s { loop = record s.loop { first_err = some e } } in
          Completes-bind body selects slots schedule returns (attempt (selects x)) chosen (err e) s
            t w v (attempted x w v (err e) h) (next here (stops x xs w v e waits fine h))
            (stopped e v)

  -- One turn of the loop over the items.
  turn-Completes :
      (x : Item) (xs : List Item)
      → Continues (dispatch body schedule selects slots xs) xs
      → 0 < slots
      → Continues (dispatch body schedule selects slots (x ∷ xs)) (x ∷ xs)
  unfolding dispatch Continues
  turn-Completes x xs continues some_slot t v waits bound =
      let rest = dispatch body schedule selects slots xs in
      let first = pass-Runs body selects slots schedule returns t v in
      resume (pass body schedule t.loop)
        (λ l'.
          if has_failed l'
          then drain body schedule l'
          else dispatch_item body schedule selects rest slots x l')
        t v first
        (go first.state first.world (first.waiting ∙ waits) (Reach-bound first.path bound))
    where
      go :
          (t : State) (v : World)
          → t.waiting ≡ x ∷ xs
          → length t.loop.running ≤ slots
          → Completes body selects slots schedule returns
              (if has_failed t.loop
                then drain body schedule t.loop
                else dispatch_item body schedule selects
                    (dispatch body schedule selects slots xs)
                    slots
                    x
                    t.loop)
              t
              v
      go t v h b = elim (Bool-cases (has_failed t.loop)) [
        | inl failed ↦
            rw failed (drain-Completes body selects slots schedule returns t v (inr failed))
        | inr fine ↦ rw fine (
            dispatch_item-Completes (dispatch body schedule selects slots xs) x xs continues
              some_slot t v h b (not_failed t.loop.first_err fine))
      ]

  dispatch-Completes :
      (xs : List Item) → 0 < slots → Continues (dispatch body schedule selects slots xs) xs
  unfolding dispatch Continues
  dispatch-Completes [] some_slot t v waits bound =
      drain-Completes body selects slots schedule returns t v (inl waits)
  dispatch-Completes (x ∷ xs) some_slot t v waits bound =
      let first = pass-Runs body selects slots schedule returns t v in
      turn-Completes x xs (dispatch-Completes xs some_slot) some_slot t v waits bound

  -- The dispatcher of a for_each returns whenever the items' bodies do, having taken a path of the
  -- loop's system from the initial state; then nothing runs, and every item has had its turn unless
  -- an error is recorded.
  pub dispatch-Reach :
      (items : List Item) (w : World)
      → 0 < slots
      → (s : State) × (w' : World) × (dispatch body schedule selects slots items start w
          ≡ (ok s.loop, w'))
        × Reach body selects slots (initial items) s
        × (s.loop.running ≡ [])
        × ((s.waiting ≡ []) ⊎ (has_failed s.loop ≡ true))
  unfolding Continues
  dispatch-Reach items w some_slot =
      let c = dispatch-Completes items some_slot (initial items) w refl (omega arith) in
      (c.state, c.world, c.result, c.path, c.idle, c.over)
