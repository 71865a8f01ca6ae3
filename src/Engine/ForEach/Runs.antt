-- ===== src/Engine/ForEach/Runs.antt =====
-- The parts of a for_each's dispatcher as steps of the loop's system.
use markov.Prelude.{ℕ, ◌≡◌, refl, ◌∙◌, ◌+◌, none, some, Option, List, [], ◌∷◌, ◌++◌, Bool}
use markov.Failure.{ok}
use markov.Engine.World.{World, Exec, ◌>>=◌, pure, now}
use markov.Engine.ForEach.{
  Item, Outcome, Loop, take_at, record_outcome, settle, settle_at, finish, pass,
}
use markov.Engine.ForEach.System.{State, ends, Reach, here, next, Reach-trans}

module _ (body : Item → Exec Outcome) (selects : Item → Exec Bool) (slots : ℕ)
    (schedule : ℕ → List ℕ)
    (returns : (x : Item) (w : World)
      → (o : Outcome) × (w' : World) × (body x w ≡ (ok o, w'))) where
  -- An action on the loop's variables, as steps of the system.
  pub record Runs (m : Exec Loop) (s : State) (w : World) : Type 0 where
    pub state : State
    pub world : World
    pub result : m w ≡ (ok state.loop, world)
    pub path : Reach body selects slots s state
    pub waiting : state.waiting ≡ s.waiting

  unfoldable pub settle-Runs :
      (n : ℕ) (x : Item) (rest : List Item) (s : State) (w : World)
      → take_at n s.loop.running ≡ some (x, rest)
      → Runs (settle body schedule x (record s.loop { running = rest })) s w
  unfolding settle ◌>>=◌ pure
  settle-Runs n x rest s w h =
      let (o, w', e) = returns x w in
      record {
        state = record s {
          loop = record_outcome (record s.loop { running = rest }) o;
          ended = s.ended ++ (x, o) ∷ [];
        };
        world = w';
        result = rw e;
        path = next here (ends n x rest w w' o h e);
        waiting = refl;
      }

  unfoldable pub stay : (s : State) (w : World) → Runs (pure s.loop) s w
  unfolding pure
  stay s w = record { state = s; world = w; result = refl; path = here; waiting = refl }

  -- The path of a bind.
  unfoldable pub after :
      (m : Exec Loop) (f : Loop → Exec Loop) (s : State) (w : World) (first : Runs m s w)
      → Runs (f first.state.loop) first.state first.world
      → Runs (m >>= f) s w
  unfolding ◌>>=◌
  after m f s w first second = record {
    state = second.state;
    world = second.world;
    result = rw first.result second.result;
    path = Reach-trans body selects slots first.path second.path;
    waiting = second.waiting ∙ first.waiting;
  }

  settle_at-Runs :
      (n : ℕ) (s : State) (w : World)
      → Runs (settle_at body schedule (take_at n s.loop.running) s.loop) s w
  settle_at-Runs n s w = go (take_at n s.loop.running) refl
    where
      go :
          (found : Option (Item × List Item))
          → take_at n s.loop.running ≡ found
          → Runs (settle_at body schedule found s.loop) s w
      go none e = stay s w
      go (some (x, rest)) e = settle-Runs n x rest s w e

  pub finish-Runs :
      (ps : List ℕ) (s : State) (w : World) → Runs (finish body schedule ps s.loop) s w
  unfolding finish
  finish-Runs [] s w = stay s w
  finish-Runs (p ∷ ps) s w =
      let first = settle_at-Runs p s w in
      after (settle_at body schedule (take_at p s.loop.running) s.loop) (finish body schedule ps) s
        w first (finish-Runs ps first.state first.world)

  pub pass-Runs : (s : State) (w : World) → Runs (pass body schedule s.loop) s w
  unfolding pass ◌>>=◌ now
  pass-Runs s w =
      let later = finish-Runs (schedule w.clock) s (record w { clock = w.clock + 1 }) in
      record {
        state = later.state;
        world = later.world;
        result = later.result;
        path = later.path;
        waiting = later.waiting;
      }
