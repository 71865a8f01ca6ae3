-- ===== src/Engine/Debug/System/Drains.antt =====
-- Once the control channel is closed, every call of `pause` returns, whoever holds the queue.
use markov.Prelude.{
  ℕ, suc, ◌+◌, ◌≤◌, String, true, Option, none, some, List, [], ◌∷◌, ◌++◌, ◌≡◌, refl, ap, subst,
  ◌⊎◌, inl, inr, arith, length, Option-cases, ◌∙◌,
}
use markov.Value.{Vars}
use markov.Failure.{Result}
use markov.Workflow.{WorkflowFile}
use markov.Engine.Env.{Go, Template}
use markov.Engine.Debug.Core.{Command, Debugger}
use markov.Engine.Debug.Control.{abort_command}
use markov.Engine.Debug.Asking.{match_point}
use markov.Engine.Debug.Places.{DebugPoint}
use markov.Engine.Debug.Pausing.{
  Request, carries_on, context_done, outcome_of, enter_pause, settle_pause, leave_pause, arrive,
}
use markov.Engine.Debug.System.{
  Stage, announcing, waiting, woken, reporting, Holder, DebugState, fresh_state, deliver_to,
  Progress, External, Runs, here, works, other, declined, entered, announces, receives, gives_up,
  settles, reports, delivers, arrives, commands, closes, cancels,
}
use markov.Engine.Debug.System.Attended.{
  IsAttended, Called, AllCalled, Runs-IsAttended, fresh_state-IsAttended,
}

-- The steps that a call still has before it.
abbrev steps_left : Stage → ℕ
steps_left announcing = 4
steps_left waiting = 3
steps_left (woken c) = 2
steps_left (reporting c) = 1

abbrev held_load : Option Holder → ℕ
held_load none = 0
held_load (some h) = steps_left h.stage

abbrev count {ℓ} : {A : Type ℓ} → Option A → ℕ
count none = 0
count (some a) = 1

-- The work left while no call can enter: the calls that wait, the one that holds the queue, and a
-- command that is about to be handed over.
abbrev pub load : DebugState → ℕ
load s = length s.queued + held_load s.holder + count s.sending

-- The calls so far, returned or not.
abbrev pub calls : DebugState → ℕ
calls s = length s.queued + count s.holder + length s.returned

-- Every call has returned.
abbrev pub IsQuiet : DebugState → Type 0
IsQuiet s = (s.queued ≡ []) × (s.holder ≡ none)

length-append {ℓ} : {A : Type ℓ} (xs ys : List A) → length (xs ++ ys) ≡ length xs + length ys
length-append [] ys = omega arith
length-append (x ∷ xs) ys = omega (arith, length-append xs ys)

-- a call that is taken out
length-remove {ℓ} :
    {A : Type ℓ} (q before after : List A) (x : A)
    → q ≡ before ++ x ∷ after
    → length q ≡ suc (length (before ++ after))
length-remove q before after x e =
    omega (arith, ap length e, length-append before (x ∷ after), length-append before after)

held_load-deliver_to :
    (t : ℕ) (c : Command) (h : Option Holder) → held_load (deliver_to t c h) ≡ held_load h
held_load-deliver_to t c none = refl
held_load-deliver_to t c (some h) = ground arith

count-deliver_to : (t : ℕ) (c : Command) (h : Option Holder) → count (deliver_to t c h) ≡ count h
count-deliver_to t c none = refl
count-deliver_to t c (some h) = refl

match_point-closed :
    (quote : String → String) (tmpl : Template) (p : DebugPoint) (vars : Vars) (d : Debugger)
    → d.closed ≡ true
    → match_point quote tmpl p vars d ≡ (none, [], d)
unfolding match_point
match_point-closed quote tmpl p vars d h = rw h refl

enter_pause-closed : (r : Request) (d : Debugger) → d.closed ≡ true → enter_pause r d ≡ none
unfolding enter_pause
enter_pause-closed r d h = rw h refl

-- What a transition does to a closed debugger: `n` is the work it is.
record Closes (n : ℕ) (s t : DebugState) : Type 0 where
  closed : t.debugger.closed ≡ true
  less : n + load t ≤ load s
  same : calls t ≡ calls s

module _ (go : Go) (encode : Vars → Result String) (tmpl : Template) (file : WorkflowFile)
    (parse : String → Result Command) where
  Progress-Closes :
      {s t : DebugState}
      → Progress go encode tmpl file parse s t
      → s.debugger.closed ≡ true
      → Closes 1 s t
  unfolding settle_pause leave_pause
  Progress-Closes {s} (declined r before after free q e) k = ground (
    arith,
    length-remove s.queued before after r q,
    length-append s.returned ((r, carries_on) ∷ []),
  )
  Progress-Closes {s} (entered r before after p d free q e) k =
      ground (arith, enter_pause-closed r s.debugger k)
  Progress-Closes (announces h e st) k = ground arith
  Progress-Closes (receives h c e st got) k = ground arith
  Progress-Closes {s} (gives_up h e st stop) k =
      ground (arith, length-append s.returned ((h.request, context_done) ∷ []))
  Progress-Closes (settles h c e st) k = ground arith
  Progress-Closes {s} (reports h c e st) k =
      ground (arith, length-append s.returned ((h.request, outcome_of c) ∷ []))
  Progress-Closes {s} (delivers t c e) k =
      ground (arith, held_load-deliver_to t c s.holder, count-deliver_to t c s.holder)

  External-Closes :
      {s t : DebugState}
      → External go encode tmpl file parse s t
      → s.debugger.closed ≡ true
      → Closes 0 s t
  unfolding arrive
  External-Closes {s} (arrives p vars output) k =
      ground (arith, match_point-closed go.quote tmpl p vars s.debugger k)
  External-Closes (commands line still idle) k = cc
  External-Closes (closes still idle) k = cc
  External-Closes cancels k = ground arith

  Runs-Closing :
      {s : DebugState} {n : ℕ} {t : DebugState}
      → Runs go encode tmpl file parse s n t
      → s.debugger.closed ≡ true
      → Closes n s t
  Runs-Closing here k = record { closed = k; less = omega arith; same = refl }
  Runs-Closing (works run st) k =
      let c = Runs-Closing run k in
      let d = Progress-Closes st c.closed in
      record { closed = d.closed; less = omega arith; same = d.same ∙ c.same }
  Runs-Closing (other run st) k =
      let c = Runs-Closing run k in
      let d = External-Closes st c.closed in
      record { closed = d.closed; less = omega arith; same = d.same ∙ c.same }

  -- A closed debugger in which nobody is stuck.
  Enabled : DebugState → Type 0
  Enabled s = IsQuiet s ⊎ ((t : DebugState) × Progress go encode tmpl file parse s t)

  queue_moves : (s : DebugState) → s.debugger.closed ≡ true → s.holder ≡ none → Enabled s
  unfolding Enabled
  queue_moves s k free = go_on s.queued refl
    where
      go_on :
          (q : List Request)
          → s.queued ≡ q
          → IsQuiet s ⊎ ((t : DebugState) × Progress go encode tmpl file parse s t)
      go_on [] e = inl (e, free)
      go_on (r ∷ rest) e = inr (_, declined r [] rest free e (enter_pause-closed r s.debugger k))

  holder_moves :
      (s : DebugState) (h : Holder)
      → IsAttended s
      → s.debugger.closed ≡ true
      → s.holder ≡ some h
      → (t : DebugState) × Progress go encode tmpl file parse s t
  holder_moves s h inv k e =
      go_on h.stage refl (subst (λ o. AllCalled o s.sending) e (inv.called k))
    where
      go_on :
          (st : Stage)
          → h.stage ≡ st
          → Called h.stage h s.sending
          → (t : DebugState) × Progress go encode tmpl file parse s t
      go_on announcing st called = (_, announces h e st)
      go_on waiting st called = elim (subst (λ x. Called x h s.sending) st called) [
        | inl (c, got) ↦ (_, receives h c e st got)
        | inr soon ↦ (_, delivers h.pause.ticket abort_command soon)
      ]
      go_on (woken c) st called = (_, settles h c e st)
      go_on (reporting c) st called = (_, reports h c e st)

  closed-Enabled : (s : DebugState) → IsAttended s → s.debugger.closed ≡ true → Enabled s
  unfolding Enabled
  closed-Enabled s inv k = elim (Option-cases s.holder) [
    | inl free ↦ queue_moves s k free
    | inr (h, e) ↦ inr (holder_moves s h inv k e)
  ]

  -- Once the control channel is closed, every call of `pause` returns. In every run of the system
  -- from there, with steps that arrive and cancellations in between, the goroutines make at most as
  -- many steps as there is work left; as long as a call has not returned, one of them can make a
  -- step; and no call is lost or added. So no run is left blocked by a closed channel.
  pub closed-Drains :
      {n m : ℕ} {s t : DebugState} (d : Debugger)
      → d.paused ≡ none
      → Runs go encode tmpl file parse (fresh_state d) n s
      → s.debugger.closed ≡ true
      → Runs go encode tmpl file parse s m t
      → (m + load t ≤ load s)
        × (IsQuiet t ⊎ ((u : DebugState) × Progress go encode tmpl file parse t u))
        × (calls t ≡ calls s)
  unfolding Enabled
  closed-Drains {t} d none_yet before k after =
      let c = Runs-Closing after k in
      let inv =
        Runs-IsAttended go encode tmpl file parse before (fresh_state-IsAttended d none_yet) in
      let inv' = Runs-IsAttended go encode tmpl file parse after inv in
      (c.less, closed-Enabled t inv' c.closed, c.same)
