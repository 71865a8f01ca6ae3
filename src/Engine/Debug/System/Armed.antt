-- ===== src/Engine/Debug/System/Armed.antt =====
-- Whatever the user sends, the debugger holds only breakpoints that can fire.
use markov.Prelude.{
  ℕ, String, Option, none, some, [], ◌≡◌, sym, subst, inl, inr, arith, Bool-cases, nat_eq, All,
}
use markov.Value.{Vars}
use markov.Failure.{Result}
use markov.Workflow.{WorkflowFile}
use markov.Engine.Env.{Go, Template}
use markov.Engine.Debug.Points.Known.{IsKnown}
use markov.Engine.Debug.Core.{Command, Debugger}
use markov.Engine.Debug.Pausing.{enter_pause, leave_pause, arrive}
use markov.Engine.Debug.System.{
  Holder, DebugState, fresh_state, offer, deliver_to, Progress, External, Runs, here, works, other,
  declined, entered, announces, receives, gives_up, settles, reports, delivers, arrives, commands,
  closes, cancels,
}
use markov.Engine.Debug.System.Held.{
  Maybe, IsArmed, Reachable, Carries, StageCarries, HolderCarries, AllArmed, match_point-IsArmed,
  settle_pause-IsArmed,
}
use markov.Engine.Debug.System.Handling.{close_control-Handles, serve_line-Handles}

module _ (file : WorkflowFile) (go : Go) (encode : Vars → Result String) (tmpl : Template)
    (parse : String → Result Command) where
  deliver_to-Carries :
      (t : ℕ) (c : Command) (h : Option Holder)
      → Reachable file c
      → Maybe (HolderCarries file) h
      → Maybe (HolderCarries file) (deliver_to t c h)
  deliver_to-Carries t c none r k = tt
  deliver_to-Carries t c (some h) r k = elim (Bool-cases (nat_eq h.pause.ticket t)) [
    | inl same ↦ rw same (k.0, offered h.channel k.1)
    | inr stale ↦ rw stale k
  ]
    where
      offered : (o : Option Command) → Maybe (Reachable file) o → Maybe (Reachable file) (offer c o)
      offered none k = r
      offered (some first) k = k

  holds : (s : DebugState) (h : Holder) → s.holder ≡ some h → AllArmed file s → HolderCarries file h
  holds s h e a = subst (Maybe (HolderCarries file)) e a.holder

  Progress-AllArmed :
      {s t : DebugState}
      → Progress go encode tmpl file parse s t
      → AllArmed file s
      → AllArmed file t
  unfolding enter_pause leave_pause
  Progress-AllArmed (declined r before after free q e) a = ground arith
  Progress-AllArmed (entered r before after p d free q e) a = ground arith
  Progress-AllArmed {s} (announces h e st) a =
      let k = holds s h e a in
      record { debugger = a.debugger; sending = a.sending; holder = (tt, k.1) }
  Progress-AllArmed {s} (receives h c e st got) a =
      let k = subst (Maybe (Reachable file)) got (holds s h e a).1 in
      record { debugger = a.debugger; sending = a.sending; holder = (k, tt) }
  Progress-AllArmed (gives_up h e st stop) a = ground arith
  Progress-AllArmed {s} (settles h c e st) a =
      let k = holds s h e a in
      record {
        debugger =
            settle_pause-IsArmed file c s.debugger (subst (StageCarries file) st k.0) a.debugger;
        sending = a.sending;
        holder = (tt, k.1);
      }
  Progress-AllArmed (reports h c e st) a = ground arith
  Progress-AllArmed {s} (delivers t c e) a = record {
    debugger = a.debugger;
    sending = tt;
    holder = deliver_to-Carries t c s.holder (subst (Maybe (Carries file)) e a.sending) a.holder;
  }

  External-AllArmed :
      {s t : DebugState}
      → External go encode tmpl file parse s t
      → AllArmed file s
      → AllArmed file t
  unfolding arrive
  External-AllArmed {s} (arrives p vars output) a = record {
    debugger = match_point-IsArmed file go.quote tmpl p vars s.debugger a.debugger;
    sending = a.sending;
    holder = a.holder;
  }
  External-AllArmed {s} (commands line still idle) a =
      let h = serve_line-Handles file go tmpl parse line s.debugger a.debugger in
      record { debugger = h.debugger; sending = h.sending; holder = a.holder }
  External-AllArmed {s} (closes still idle) a =
      let (d, c) = close_control-Handles file s.debugger a.debugger in
      record { debugger = d; sending = c; holder = a.holder }
  External-AllArmed cancels a = record {
    debugger = a.debugger;
    sending = a.sending;
    holder = a.holder;
  }

  -- In every state that the system reaches from a debugger without breakpoints, whatever lines the
  -- user sends, each breakpoint that the debugger holds, and the one-shot one of `until`, has a
  -- section and a phase that places have, and names a step of the file in that section.
  pub Runs-IsArmed :
      {n : ℕ} {s : DebugState} (d : Debugger)
      → d.bps ≡ []
      → d.until ≡ none
      → Runs go encode tmpl file parse (fresh_state d) n s
      → IsArmed file s.debugger
  Runs-IsArmed d none_set no_until run = (all_of run).debugger
    where
      all_of :
          {n : ℕ} {s : DebugState}
          → Runs go encode tmpl file parse (fresh_state d) n s
          → AllArmed file s
      all_of here = record {
        debugger = record {
          bps = subst (All (IsKnown file)) (sym none_set) tt;
          until = subst (Maybe (IsKnown file)) (sym no_until) tt;
        };
        sending = tt;
        holder = tt;
      }
      all_of (works r st) = Progress-AllArmed st (all_of r)
      all_of (other r st) = External-AllArmed st (all_of r)
