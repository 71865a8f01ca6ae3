-- ===== src/Engine/Debug/Asking.antt =====
-- `match`: whether the run should pause at a place, and `snapshotVars`.
pub mod Counts
use Prim.Native.String.{len}
use markov.Prelude.{
  ℕ, suc, ◌*◌, ℤ, pos, negsuc, String, Bool, true, false, ◌&&◌, not, Option, none, some, List, [],
  ◌∷◌, map, keys, sort_texts, merge, concat, leb, ltb, is_empty, if◌then◌else◌, ◌==◌,
}
use markov.Value.{Value, Vars, str, bool, int, slice, string_slice, items_of, as_map, object, null}
use markov.Failure.{Error, Result, ok, err, error_text}
use markov.Engine.Env.{Go, Template}
use markov.Engine.Debug.Points.{Breakpoint}
use markov.Engine.Debug.Places.{DebugPoint, matches}
use markov.Engine.Debug.Core.{Debugger}

-- What the loop over the breakpoints does at one of them.
pub data Visit : Type 0 where
  passed : Breakpoint → Visit  -- `continue`
  logged : Breakpoint → Vars → Visit
  stopped : Breakpoint → String → Vars → Visit

-- A reason to pause, with its data; the empty reason of the code is `none`.
abbrev pub Verdict : Type 0
Verdict = Option (String × Vars)

abbrev pub is_skipped : ℕ → ℤ → Bool
is_skipped hits (pos n) = leb hits n
is_skipped hits (negsuc n) = false

-- one round of the loop, with the breakpoints after it and what the rounds for them come to
unfoldable pub extend :
    Visit
    → List Breakpoint
    → List Breakpoint × List Vars × Verdict
    → List Breakpoint × List Vars × Verdict
extend (passed b) later (bps, logs, verdict) = (b ∷ bps, logs, verdict)
extend (logged b entry) later (bps, logs, verdict) = (b ∷ bps, entry ∷ logs, verdict)
extend (stopped b reason extra) later rest = (b ∷ later, [], some (reason, extra))

module _ (quote : String → String) (tmpl : Template) (p : DebugPoint) (vars : Vars) where
  abbrev pub log_data : String → Option Error → Vars
  log_data msg e =
      merge
        (("message", str msg)
          ∷ ("phase", str p.phase)
          ∷ ("section", str p.section)
          ∷ ("iteration", str p.iteration)
          ∷ [])
        (elim e [ none ↦ [] | some e ↦ ("error", str (error_text quote e)) ∷ [] ])

  abbrev pub report_log : Breakpoint → Result String → Visit
  report_log b (ok msg) = logged b (log_data msg none)
  report_log b (err e) = logged b (log_data "" (some e))

  -- a breakpoint whose condition holds: it counts the hit
  unfoldable pub count_hit : Breakpoint → Visit
  count_hit bp =
      let b = record bp { hits = suc bp.hits } in
      if is_skipped b.hits b.skip
      then passed b
      else if b.log == ""
      then stopped b "breakpoint" (("hits", int (pos b.hits)) ∷ [])
      else report_log b (tmpl.render b.log vars)

  abbrev condition_data : Breakpoint → Error → Vars
  condition_data bp e = ("condition", str bp.when) ∷ ("error", str (error_text quote e)) ∷ []

  unfoldable pub visit : Breakpoint → Visit
  unfolding matches count_hit
  visit bp =
      if not (matches bp p)
      then passed bp
      else if bp.when == ""
      then count_hit bp
      else elim (tmpl.eval_bool bp.when vars) [
        | err e ↦ stopped bp "condition_error" (condition_data bp e)
        | ok true ↦ count_hit bp
        | ok false ↦ passed bp
      ]

  -- the loop: the breakpoints with their new counts, the logs, and the first reason to stop
  unfoldable pub visit_all : List Breakpoint → List Breakpoint × List Vars × Verdict
  unfolding visit extend
  visit_all [] = ([], [], none)
  visit_all (bp ∷ bps) = extend (visit bp) bps (visit_all bps)

  abbrev pub is_until : Option Breakpoint → Bool
  is_until none = false
  is_until (some b) = matches b p

  -- where no breakpoint stops the run, single stepping may
  abbrev pub or_step : Bool → Verdict → Verdict
  or_step stepping (some r) = some r
  or_step stepping none = if stepping && p.phase == "before" then some ("step", []) else none

  -- `match`
  unfoldable pub match_point : Debugger → Verdict × List Vars × Debugger
  unfolding visit_all matches
  match_point d =
      if d.closed
      then (none, [], d)
      else if is_until d.until
      then (some ("until", []), [], record d { until = none })
      else let out = visit_all d.bps in (or_step d.step_mode out.2, out.1, record d { bps = out.0 })

abbrev max_vars_bytes : ℕ
max_vars_bytes = 256 * 1024

abbrev texts : List String → Value
texts ss = slice string_slice (items_of (map str ss))

module _ (go : Go) (encode : Vars → Result String) where
  -- `snapshotVars`; `encode` is `json.Marshal`, a panic of which is an error too
  unfoldable pub snapshot_vars : Vars → Value
  snapshot_vars m = elim (encode m) [
    | err e ↦
        object
          (("_error", str (concat ("variables unavailable: " ∷ error_text go.quote e ∷ []))) ∷ [])
    | ok b ↦
        if ltb max_vars_bytes (len b)
        then object (
            ("_truncated", bool true)
            ∷ ("_size_bytes", int (pos (len b)))
            ∷ ("_keys", texts (sort_texts (keys m)))
            ∷ [])
        else elim (go.json_decode b) [
          | none ↦ object (("_error", str (go.json_error b)) ∷ [])
          | some v ↦ v
        ]
  ]
