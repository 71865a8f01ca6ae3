-- ===== src/Engine/Debug/System/Held.antt =====
-- Debuggers that hold only breakpoints that can fire, and what keeps them so.
use markov.Prelude.{
  ℕ, String, true, Option, none, some, List, [], ◌∷◌, ◌≡◌, inl, inr, arith, Bool-cases, All, ◌==◌,
}
use markov.Value.{Vars}
use markov.Failure.{Result-cases}
use markov.Workflow.{WorkflowFile}
use markov.Engine.Env.{Template}
use markov.Engine.Debug.Places.{DebugPoint}
use markov.Engine.Debug.Points.{Breakpoint, resolve_breakpoint, sort_breakpoints}
use markov.Engine.Debug.Points.Known.{
  IsKnown, SameSelector, SameSelector-IsKnown, resolve_breakpoint-ok,
}
use markov.Engine.Debug.Core.{Command, Debugger}
use markov.Engine.Debug.Asking.{
  Visit, passed, logged, stopped, Verdict, count_hit, visit, extend, visit_all, match_point,
}
use markov.Engine.Debug.Control.{until_point, or_steps, apply_running}
use markov.Engine.Debug.Pausing.{settle_pause}
use markov.Engine.Debug.System.{Stage, announcing, waiting, woken, reporting, Holder, DebugState}

-- A predicate at the value, if there is one.
abbrev pub Maybe {ℓ} : {A : Type ℓ} → (A → Type 0) → Option A → Type 0
Maybe P none = Unit
Maybe P (some a) = P a

-- The breakpoint that a visit leaves.
abbrev left_by : Visit → Breakpoint
left_by (passed b) = b
left_by (logged b l) = b
left_by (stopped b r d) = b

module _ (quote : String → String) (tmpl : Template) (p : DebugPoint) (vars : Vars) where
  count_hit-SameSelector :
      (b : Breakpoint) → SameSelector b (left_by (count_hit quote tmpl p vars b))
  unfolding count_hit
  count_hit-SameSelector b = ground arith

  visit-SameSelector : (b : Breakpoint) → SameSelector b (left_by (visit quote tmpl p vars b))
  unfolding visit
  visit-SameSelector b = ground (arith, count_hit-SameSelector b)

module _ (file : WorkflowFile) where
  -- Every breakpoint and the one-shot one can fire.
  pub record IsArmed (d : Debugger) : Type 0 where
    pub bps : All (IsKnown file) d.bps
    pub until : Maybe (IsKnown file) d.until

  -- The step of an `until` command can be reached.
  abbrev pub Reachable : Command → Type 0
  Reachable c = (c.cmd == "until") ≡ true → IsKnown file (until_point c c.section)

  abbrev pub Carries : ℕ × Command → Type 0
  Carries (t, c) = Reachable c

  abbrev pub StageCarries : Stage → Type 0
  StageCarries announcing = Unit
  StageCarries waiting = Unit
  StageCarries (woken c) = Reachable c
  StageCarries (reporting c) = Unit

  abbrev pub HolderCarries : Holder → Type 0
  HolderCarries h = StageCarries h.stage × Maybe Reachable h.channel

  pub record AllArmed (s : DebugState) : Type 0 where
    pub debugger : IsArmed s.debugger
    pub sending : Maybe Carries s.sending
    pub holder : Maybe HolderCarries s.holder

  extend-Known :
      (v : Visit) (later : List Breakpoint) (rest : List Breakpoint × List Vars × Verdict)
      → IsKnown file (left_by v)
      → All (IsKnown file) later
      → All (IsKnown file) rest.0
      → All (IsKnown file) (extend v later rest).0
  unfolding extend
  extend-Known (passed b) later rest k known after = (k, after)
  extend-Known (logged b entry) later rest k known after = (k, after)
  extend-Known (stopped b reason extra) later rest k known after = (k, known)

  visit_all-Known :
      (quote : String → String) (tmpl : Template) (p : DebugPoint) (vars : Vars)
      (bps : List Breakpoint)
      → All (IsKnown file) bps
      → All (IsKnown file) (visit_all quote tmpl p vars bps).0
  unfolding visit_all
  visit_all-Known quote tmpl p vars [] known = tt
  visit_all-Known quote tmpl p vars (b ∷ bs) (first, known) =
      extend-Known (visit quote tmpl p vars b) bs (visit_all quote tmpl p vars bs)
        (SameSelector-IsKnown file (visit-SameSelector quote tmpl p vars b) first) known
        (visit_all-Known quote tmpl p vars bs known)

  pub match_point-IsArmed :
      (quote : String → String) (tmpl : Template) (p : DebugPoint) (vars : Vars) (d : Debugger)
      → IsArmed d
      → IsArmed (match_point quote tmpl p vars d).2
  unfolding match_point
  match_point-IsArmed quote tmpl p vars d a =
      ground (arith, visit_all-Known quote tmpl p vars d.bps a.bps)

  pub sort_breakpoints-Known :
      (quote : String → String) (bps : List Breakpoint)
      → All (IsKnown file) (sort_breakpoints quote file bps).0
  unfolding sort_breakpoints
  sort_breakpoints-Known quote [] = tt
  sort_breakpoints-Known quote (b ∷ bs) = elim (Result-cases (resolve_breakpoint quote file b)) [
    | inr (e, h) ↦ rw (h, sort_breakpoints) (sort_breakpoints-Known quote bs)
    | inl (r, h) ↦
        rw (h, sort_breakpoints)
          (
            SameSelector-IsKnown file {a = r} (ground arith)
                ((resolve_breakpoint-ok quote file b r h).0),
            sort_breakpoints-Known quote bs,
          )
  ]

  pub apply_running-IsArmed :
      (c : Command) (d : Debugger)
      → ((c.cmd == "until") ≡ true → IsKnown file (until_point c (or_steps c.section)))
      → IsArmed d
      → IsArmed (apply_running c d)
  unfolding apply_running
  apply_running-IsArmed c d known a = elim (Bool-cases (c.cmd == "until")) [
    | inl is_until ↦ let k = known is_until in ground arith
    | inr is_other ↦ ground arith
  ]

  pub settle_pause-IsArmed :
      (c : Command) (d : Debugger) → Reachable c → IsArmed d → IsArmed (settle_pause c d)
  unfolding settle_pause
  settle_pause-IsArmed c d known a = elim (Bool-cases (c.cmd == "until")) [
    | inl is_until ↦ let k = known is_until in ground arith
    | inr is_other ↦ ground arith
  ]
