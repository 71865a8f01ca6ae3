-- ===== src/Engine/Debug/Asking/Counts.antt =====
-- The count of a breakpoint's hits over a sequence of places, and when it pauses the run.
use markov.Prelude.{
  ℕ, suc, ◌+◌, String, Bool, true, false, ◌&&◌, ◌||◌, not, Option, none, some, List, [], ◌∷◌, ◌≡◌,
  refl, sym, ap, ◌∙◌, subst, arith, if◌then◌else◌, Bool-cases, inl, inr, ◌==◌, pos, eq_iff,
}
use markov.Value.{Vars, int, str}
use markov.Failure.{Error, Result, ok, err, error_of, error_text}
use markov.Engine.Env.{Template}
use markov.Engine.Debug.Points.{Breakpoint}
use markov.Engine.Debug.Places.{DebugPoint, matches}
use markov.Engine.Debug.Core.{Debugger}
use markov.Engine.Debug.Asking.{
  Visit, passed, stopped, is_skipped, count_hit, report_log, or_step, is_until, visit, extend,
  visit_all, match_point, Verdict,
}

module _ (quote : String → String) (tmpl : Template) where
  -- The debugger after the run has come to these places, one after another.
  pub match_each : List (DebugPoint × Vars) → Debugger → Debugger
  match_each [] d = d
  match_each ((p, vars) ∷ points) d = match_each points (match_point quote tmpl p vars d).2

  abbrev is_true : Result Bool → Bool
  is_true (ok true) = true
  is_true _ = false

  -- The breakpoint is for this place, and its condition holds there.
  abbrev pub holds_at : Breakpoint → DebugPoint → Vars → Bool
  holds_at b p vars = matches b p && (b.when == "" || is_true (tmpl.eval_bool b.when vars))

  abbrev pub hits_in : Breakpoint → List (DebugPoint × Vars) → ℕ
  hits_in b [] = 0
  hits_in b ((p, vars) ∷ points) = (if holds_at b p vars then 1 else 0) + hits_in b points

  -- A debugger that is not closed, does not step and has no one-shot breakpoint, with one breakpoint,
  -- which is no logpoint.
  pub record HasOne (b : Breakpoint) (d : Debugger) : Type 0 where
    pub still : d.closed ≡ false
    pub no_until : d.until ≡ none
    pub running : d.step_mode ≡ false
    pub one : d.bps ≡ b ∷ []
    pub pauses : b.log ≡ ""

  -- the breakpoint after some more hits, and after one
  abbrev counted : ℕ → Breakpoint → Breakpoint
  counted n b = record b { hits = n + b.hits }

  abbrev hit : Breakpoint → Breakpoint
  hit b = record b { hits = suc b.hits }

  abbrev at_hit : Breakpoint → Visit
  at_hit b =
      if is_skipped (suc b.hits) b.skip
      then passed (hit b)
      else stopped (hit b) "breakpoint" (("hits", int (pos (suc b.hits))) ∷ [])

  count_hit-pauses :
      (b : Breakpoint) (p : DebugPoint) (vars : Vars)
      → b.log ≡ ""
      → count_hit quote tmpl p vars b ≡ at_hit b
  unfolding count_hit
  count_hit-pauses b p vars plain = λ i.
      if is_skipped (suc b.hits) b.skip
      then passed (hit b)
      else if test i
      then stopped (hit b) "breakpoint" (("hits", int (pos (suc b.hits))) ∷ [])
      else report_log quote tmpl p vars (hit b) (tmpl.render b.log vars)
    where
      test : (b.log == "") ≡ true
      test = (eq_iff b.log "").1 plain

  -- The error of a condition that cannot be evaluated at this place.
  abbrev pub condition_error : Breakpoint → DebugPoint → Vars → Option Error
  condition_error b p vars =
      if matches b p && not (b.when == "") then error_of (tmpl.eval_bool b.when vars) else none

  -- the reason to pause at a place, where this is the n-th hit if it is one
  abbrev pub reason_at : Breakpoint → DebugPoint → Vars → ℕ → Verdict
  reason_at b p vars n = elim (condition_error b p vars) [
    | some e ↦
        some
          ("condition_error", ("condition", str b.when) ∷ ("error", str (error_text quote e)) ∷ [])
    | none ↦
        if holds_at b p vars && not (is_skipped n b.skip)
        then some ("breakpoint", ("hits", int (pos n)) ∷ [])
        else none
  ]

  -- What a visit says of a breakpoint, and what it makes of it.
  abbrev Says : Breakpoint → Verdict → Visit → Type 0
  Says c reason v =
      ((extend v [] ([], [], none)).0 ≡ c ∷ []) × ((extend v [] ([], [], none)).2 ≡ reason)

  at_hit-Says :
      (b : Breakpoint)
      → Says
          (hit b)
          (if not (is_skipped (suc b.hits) b.skip)
            then some ("breakpoint", ("hits", int (pos (suc b.hits))) ∷ [])
            else none)
          (at_hit b)
  unfolding extend
  at_hit-Says b = elim (Bool-cases (is_skipped (suc b.hits) b.skip)) [
    | inl skipped ↦ rw skipped (refl, refl)
    | inr counted ↦ rw counted (refl, refl)
  ]

  -- What a visit does to a breakpoint that is no logpoint, and what it says.
  visit-plain :
      (b : Breakpoint) (p : DebugPoint) (vars : Vars)
      → b.log ≡ ""
      → Says
          (if holds_at b p vars then hit b else b)
          (reason_at b p vars (suc b.hits))
          (visit quote tmpl p vars b)
  unfolding visit extend
  visit-plain b p vars plain = by_tests (matches b p) (b.when == "") (tmpl.eval_bool b.when vars)
    where
      by_tests :
          (here always : Bool) (r : Result Bool)
          → Says
              (if here && (always || is_true r) then hit b else b)
              (elim (if here && not always then error_of r else none) as (λ _. Verdict) [
                | some e ↦ some (
                  "condition_error",
                  ("condition", str b.when) ∷ ("error", str (error_text quote e)) ∷ [],
                )
                | none ↦
                    if (here && (always || is_true r)) && not (is_skipped (suc b.hits) b.skip)
                    then some ("breakpoint", ("hits", int (pos (suc b.hits))) ∷ [])
                    else none
              ])
              (if not here
                then passed b
                else if always
                then count_hit quote tmpl p vars b
                else elim r as (λ _. Visit) [
                  | err e ↦
                      stopped b "condition_error"
                        (("condition", str b.when) ∷ ("error", str (error_text quote e)) ∷ [])
                  | ok true ↦ count_hit quote tmpl p vars b
                  | ok false ↦ passed b
                ])
      by_tests false always r = (refl, refl)
      by_tests true true r = rw (count_hit-pauses b p vars plain) (at_hit-Says b)
      by_tests true false (err e) = (refl, refl)
      by_tests true false (ok false) = (refl, refl)
      by_tests true false (ok true) = rw (count_hit-pauses b p vars plain) (at_hit-Says b)

  -- What a visit of the only breakpoint does to the debugger.
  match_point-one :
      (b : Breakpoint) (d : Debugger) (p : DebugPoint) (vars : Vars) (v : Visit)
      → HasOne b d
      → visit quote tmpl p vars b ≡ v
      → let out = extend v [] ([], [], none) in
        match_point quote tmpl p vars d
        ≡ (or_step quote tmpl p vars false out.2, out.1, record d { bps = out.0 })
  unfolding match_point visit_all extend
  match_point-one b d p vars v h e =
      let all : visit_all quote tmpl p vars d.bps ≡ extend v [] ([], [], none) =
        ap (visit_all quote tmpl p vars) h.one ∙ ap (λ w. extend w [] ([], [], none)) e in
      λ i.
        if h.still i
        then (none, [], d)
        else if is_until quote tmpl p vars (h.no_until i)
        then (some ("until", []), [], record d { until = none })
        else (
          or_step quote tmpl p vars (h.running i) (all i).2,
          (all i).1,
          record d { bps = (all i).0 },
        )

  or_step-still :
      (p : DebugPoint) (vars : Vars) (v : Verdict) → or_step quote tmpl p vars false v ≡ v
  or_step-still p vars none = refl
  or_step-still p vars (some r) = refl

  keeps_log : (x : Bool) (b : Breakpoint) → (if x then hit b else b).log ≡ b.log
  keeps_log true b = refl
  keeps_log false b = refl

  -- One place, for a debugger with one breakpoint.
  match_point-HasOne :
      (b : Breakpoint) (d : Debugger) (p : DebugPoint) (vars : Vars)
      → HasOne b d
      → HasOne (if holds_at b p vars then hit b else b) (match_point quote tmpl p vars d).2
        × ((match_point quote tmpl p vars d).0 ≡ reason_at b p vars (suc b.hits))
  match_point-HasOne b d p vars h =
      let all = match_point-one b d p vars (visit quote tmpl p vars b) h refl in
      let (left, reason) = visit-plain b p vars h.pauses in
      (
        subst (λ out. HasOne (if holds_at b p vars then hit b else b) out.2) (sym all)
            (record {
              still = h.still;
              no_until = h.no_until;
              running = h.running;
              one = left;
              pauses = keeps_log (holds_at b p vars) b ∙ h.pauses;
            }),
        ap (λ out. out.0) all ∙ or_step-still p vars _ ∙ reason,
      )

  hits_in-hit :
      (points : List (DebugPoint × Vars)) (b : Breakpoint)
      → hits_in (hit b) points ≡ hits_in b points
  unfolding matches
  hits_in-hit [] b = refl
  hits_in-hit ((p, vars) ∷ points) b =
      ap (λ n. (if holds_at b p vars then 1 else 0) + n) (hits_in-hit points b)

  -- The count after a sequence of places is the number of hits in it.
  match_each-HasOne :
      (points : List (DebugPoint × Vars)) (b : Breakpoint) (d : Debugger)
      → HasOne b d
      → HasOne (counted (hits_in b points) b) (match_each points d)
  unfolding match_each
  match_each-HasOne [] b d h =
      let none_more : b.hits ≡ 0 + b.hits = omega arith in
      subst (λ n. HasOne (record b { hits = n }) d) none_more h
  match_each-HasOne ((p, vars) ∷ points) b d h =
      let (next, _) = match_point-HasOne b d p vars h in
      elim (Bool-cases (holds_at b p vars)) [
        | inl here ↦
            let more : hits_in (hit b) points + suc b.hits
                ≡ hits_in b ((p, vars) ∷ points) + b.hits =
              rw here (omega (arith, hits_in-hit points b)) in
            subst seen_at more (
              match_each-HasOne points (hit b) after
                (subst (λ x. HasOne (if x then hit b else b) after) here next))
        | inr away ↦
            let same : hits_in b points + b.hits ≡ hits_in b ((p, vars) ∷ points) + b.hits =
              rw away (omega arith) in
            subst seen_at same (
              match_each-HasOne points b after
                (subst (λ x. HasOne (if x then hit b else b) after) away next))
      ]
    where
      after : Debugger
      after = (match_point quote tmpl p vars d).2

      seen_at : ℕ → Type 0
      seen_at n = HasOne (record b { hits = n }) (match_each points after)

  -- A debugger with one breakpoint that is no logpoint, which is not closed, does not step and has no
  -- one-shot breakpoint. After the run has come to any places, what it is told at the next one is:
  -- to pause with `condition_error` if the breakpoint is for it and its condition, which is not
  -- empty, cannot be evaluated there; to pause with the number of hits if the breakpoint is for it,
  -- its condition is empty or holds, and the hits so far, with this one, are more than the number to
  -- skip; and else to go on. A condition that cannot be evaluated counts no hit.
  pub match_point-after :
      (b : Breakpoint) (d : Debugger) (points : List (DebugPoint × Vars)) (p : DebugPoint)
      (vars : Vars)
      → HasOne b d
      → (match_point quote tmpl p vars (match_each points d)).0
        ≡ reason_at b p vars (suc (hits_in b points + b.hits))
  unfolding matches
  match_point-after b d points p vars h =
      (match_point-HasOne (counted (hits_in b points) b) (match_each points d) p vars
        (match_each-HasOne points b d h)).1
