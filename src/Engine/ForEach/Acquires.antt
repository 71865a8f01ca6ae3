-- ===== src/Engine/ForEach/Acquires.antt =====
-- The wait for a slot of the semaphore ends with one that is free.
use markov.Prelude.{
  ℕ, ◌<◌, ◌≤◌, ◌≡◌, refl, none, some, Option, List, [], ◌∷◌, Bool, length, arith, inl, inr, ltb,
  Bool-cases, if◌then◌else◌,
}
use markov.Failure.{ok}
use markov.Engine.World.{World, Exec, ◌>>=◌, pure}
use markov.Engine.ForEach.{
  Item, Outcome, Loop, take_at, record_outcome, settle, settle_at, finish, pass, acquire,
}
use markov.Engine.ForEach.Runs.{Runs, stay, after, settle-Runs, pass-Runs}
use markov.Engine.ForEach.Bounds.{length-take_at, length-take_at-none, Reach-bound}
use markov.Engine.ForEach.System.{State}

module _ (body : Item → Exec Outcome) (selects : Item → Exec Bool) (slots : ℕ)
    (schedule : ℕ → List ℕ)
    (returns : (x : Item) (w : World)
      → (o : Outcome) × (w' : World) × (body x w ≡ (ok o, w'))) where
  -- A free slot.
  pub record Acquires (m : Exec Loop) (s : State) (w : World) : Type 0 where
    pub runs : Runs body selects slots schedule returns m s w
    pub free : length runs.state.loop.running < slots

  oldest-Acquires :
      (s : State) (w : World)
      → 0 < slots
      → length s.loop.running ≤ slots
      → Acquires (finish body schedule (0 ∷ []) s.loop) s w
  unfolding finish settle-Runs after stay record_outcome
  oldest-Acquires s w some_slot bound = go (take_at 0 s.loop.running) refl
    where
      go :
          (found : Option (Item × List Item))
          → take_at 0 s.loop.running ≡ found
          → Acquires (settle_at body schedule found s.loop >>= finish body schedule []) s w
      go none e = record {
        runs =
            after body selects slots schedule returns (pure s.loop) (finish body schedule []) s w
              (stay body selects slots schedule returns s w)
              (stay body selects slots schedule returns s w);
        free = omega (arith, length-take_at-none s.loop.running e);
      }
      go (some (x, rest)) e =
          let first = settle-Runs body selects slots schedule returns 0 x rest s w e in
          record {
            runs =
                after body selects slots schedule returns
                  (settle body schedule x (record s.loop { running = rest }))
                  (finish body schedule []) s w first
                  (stay body selects slots schedule returns first.state first.world);
            free = omega (arith, length-take_at 0 s.loop.running x rest e);
          }

  -- `sem <- struct{}{}` returns with a slot that is free.
  pub acquire-Acquires :
      (s : State) (w : World)
      → 0 < slots
      → length s.loop.running ≤ slots
      → Acquires (acquire body schedule slots s.loop) s w
  unfolding acquire after
  acquire-Acquires s w some_slot bound =
      let first = pass-Runs body selects slots schedule returns s w in
      let t = first.state in
      let waited = λ (l' : Loop).
        if ltb (length l'.running) slots then pure l' else finish body schedule (0 ∷ []) l' in
      let second = go t first.world (Reach-bound first.path bound) in
      record {
        runs =
            after body selects slots schedule returns (pass body schedule s.loop) waited s w first
              second.runs;
        free = second.free;
      }
    where
      go :
          (t : State) (v : World)
          → length t.loop.running ≤ slots
          → Acquires
              (if ltb (length t.loop.running) slots
                then pure t.loop
                else finish body schedule (0 ∷ []) t.loop)
              t
              v
      go t v b = elim (Bool-cases (ltb (length t.loop.running) slots)) [
        | inl less ↦
            rw less
              (record { runs = stay body selects slots schedule returns t v; free = ground arith })
        | inr full ↦ rw full (oldest-Acquires t v some_slot b)
      ]
