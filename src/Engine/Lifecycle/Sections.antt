-- ===== src/Engine/Lifecycle/Sections.antt =====
-- The order of a workflow's sections, for any way to run a step.
use markov.Prelude.{
  String, ◌≡◌, refl, Bool, true, false, none, List, [], ◌∷◌, ◌++◌, arith, Option-cases, inl, inr,
}
use markov.Failure.{
  Error, joined, Result, ok, err, is_paused, find_pause, error_of, find_pauses, join_errors,
  join_from,
}
use markov.Workflow.{Step, Workflow}
use markov.Engine.World.{World, Exec, Done, ◌>>=◌}
use markov.Engine.Records.{Section, rescue_section, always_section}
use markov.Engine.Lifecycle.{
  execute_steps, execute_terminal_steps, raise_joined, close_sections, run_sections, handler_name,
  handler_error, errors_of, step_error,
}

abbrev Unpaused : List Error → Type 0
Unpaused [] = Unit
Unpaused (e ∷ es) = (find_pause e ≡ none) × Unpaused es

Unpaused-append : (xs ys : List Error) → Unpaused xs → Unpaused ys → Unpaused (xs ++ ys)
Unpaused-append [] ys p q = q
Unpaused-append (x ∷ xs) ys p q = (p.0, Unpaused-append xs ys p.1 q)

find_pause-join :
    (e : Error) (es : List Error)
    → find_pause e ≡ none
    → Unpaused es
    → find_pauses (join_from e es) ≡ none
unfolding find_pause
find_pause-join e [] p q = p
find_pause-join e (f ∷ fs) p q = ground (arith, find_pause-join f fs q.0 q.1)

module _ (quote : String → String) (step_at : String → Step → Bool → Exec Done) where
  -- The worlds and the errors that the handlers of a section leave, one handler after another.
  unfoldable pub after_handlers : Section → List Step → World → World
  after_handlers sec [] w = w
  after_handlers sec (step ∷ steps) w =
      after_handlers sec steps (step_at (handler_name sec step) step true w).1

  unfoldable pub handler_errors : Section → List Step → World → List Error
  handler_errors sec [] w = []
  handler_errors sec (step ∷ steps) w =
      let (r, w') = step_at (handler_name sec step) step true w in
      errors_of quote step_at sec step r ++ handler_errors sec steps w'

  -- Every handler of a section runs, in order and whatever the ones before it did, and the result
  -- is the list of the errors of those that failed.
  pub execute_terminal_steps_lem :
      (sec : Section) (steps : List Step) (w : World)
      → execute_terminal_steps quote step_at sec steps w
        ≡ (ok (handler_errors sec steps w), after_handlers sec steps w)
  unfolding execute_terminal_steps handler_errors after_handlers ◌>>=◌
  execute_terminal_steps_lem sec [] w = refl
  execute_terminal_steps_lem sec (step ∷ steps) w =
      rw (execute_terminal_steps_lem sec steps (step_at (handler_name sec step) step true w).1)

  handler_error-unpaused :
      (sec : Section) (step : Step) (e : Error)
      → find_pause (handler_error quote step_at sec step e) ≡ none
  unfolding find_pause
  handler_error-unpaused sec step e = ground arith

  handler_errors-Unpaused :
      (sec : Section) (steps : List Step) (w : World) → Unpaused (handler_errors sec steps w)
  unfolding handler_errors
  handler_errors-Unpaused sec [] w = tt
  handler_errors-Unpaused sec (step ∷ steps) w =
      let (r, w') = step_at (handler_name sec step) step true w in
      Unpaused-append (errors_of quote step_at sec step r) (handler_errors sec steps w')
        (one_step r) (handler_errors-Unpaused sec steps w')
    where
      one_step : (r : Result Done) → Unpaused (errors_of quote step_at sec step r)
      one_step (ok d) = tt
      one_step (err e) = (handler_error-unpaused sec step e, tt)

  raise_joined-paused :
      (es : List Error) (e : Error) (w : World)
      → Unpaused es
      → (raise_joined quote step_at es w).0 ≡ err e
      → find_pause e ≡ none
  unfolding raise_joined find_pause ◌>>=◌
  raise_joined-paused [] e w p h = cc
  raise_joined-paused (x ∷ xs) e w p h = ground (arith, find_pause-join x xs p.0 p.1)

  close_sections-paused :
      (wf : Workflow) (r : Result Done) (w : World) (e : Error)
      → (close_sections quote step_at wf r w).0 ≡ err e
      → is_paused e ≡ true
      → close_sections quote step_at wf r w ≡ (r, w)
  unfolding close_sections ◌>>=◌
  close_sections-paused wf (ok d) w e h p =
      let unpaused =
        raise_joined-paused (handler_errors always_section wf.always w) e
          (after_handlers always_section wf.always w)
          (handler_errors-Unpaused always_section wf.always w)
          (rw (execute_terminal_steps_lem always_section wf.always w) at h) in
      cc
  close_sections-paused wf (err f) w e h p = elim (Option-cases (find_pause f)) [
    | inl q ↦
        let u = after_handlers rescue_section wf.rescue w in
        let rescued = handler_errors rescue_section wf.rescue w in
        let closed = handler_errors always_section wf.always u in
        let unpaused =
          raise_joined-paused (f ∷ rescued ++ closed) e (after_handlers always_section wf.always u)
            (
              q,
              Unpaused-append rescued closed (handler_errors-Unpaused rescue_section wf.rescue w)
                  (handler_errors-Unpaused always_section wf.always u),
            )
            (rw
              (
                q,
                execute_terminal_steps_lem rescue_section wf.rescue w,
                execute_terminal_steps_lem always_section wf.always u,
              )
              at h) in
        cc
    | inr q ↦ rw q.1
  ]

  -- A pause in the steps of a workflow ends it: no handler runs, of `rescue` or of `always`, and
  -- the pause is returned with the world that the steps left.
  pub run_sections-pause :
      (wf : Workflow) (w : World) (e : Error)
      → is_paused e ≡ true
      → (execute_steps quote step_at wf.steps w).0 ≡ err e
      → run_sections quote step_at wf w ≡ execute_steps quote step_at wf.steps w
  unfolding run_sections close_sections ◌>>=◌
  run_sections-pause wf w e p h = ground arith

  -- A workflow returns a pause only if its steps did, and then no handler has run: a pause that a
  -- handler asks for is returned as another error.
  pub run_sections-paused :
      (wf : Workflow) (w : World) (e : Error)
      → is_paused e ≡ true
      → (run_sections quote step_at wf w).0 ≡ err e
      → run_sections quote step_at wf w ≡ execute_steps quote step_at wf.steps w
  unfolding run_sections ◌>>=◌
  run_sections-paused wf w e p h =
      close_sections-paused wf (execute_steps quote step_at wf.steps w).0
        (execute_steps quote step_at wf.steps w).1 e h p

  -- If the steps of a workflow fail with an error that is no pause, both kinds of handlers run,
  -- those of `rescue` first, and the workflow fails with that error and with those of the handlers.
  pub run_sections-failure :
      (wf : Workflow) (w : World) (e : Error)
      → is_paused e ≡ false
      → (execute_steps quote step_at wf.steps w).0 ≡ err e
      → let u = (execute_steps quote step_at wf.steps w).1 in
        let v = after_handlers rescue_section wf.rescue u in
        run_sections quote step_at wf w ≡ (
          err (
              joined (
                join_from e (
                  handler_errors rescue_section wf.rescue u
                  ++ handler_errors always_section wf.always v))),
          after_handlers always_section wf.always v,
        )
  unfolding run_sections close_sections raise_joined ◌>>=◌
  run_sections-failure wf w e p h =
      let u = (execute_steps quote step_at wf.steps w).1 in
      let v = after_handlers rescue_section wf.rescue u in
      ground (
        arith,
        execute_terminal_steps_lem rescue_section wf.rescue u,
        execute_terminal_steps_lem always_section wf.always v,
      )

  -- If the steps of a workflow succeed, the handlers of `rescue` do not run and those of `always`
  -- do; the workflow succeeds if and only if each of them did, and else returns their errors.
  pub run_sections-success :
      (wf : Workflow) (w : World)
      → (execute_steps quote step_at wf.steps w).0 ≡ ok tt
      → let u = (execute_steps quote step_at wf.steps w).1 in
        ((run_sections quote step_at wf w).1 ≡ after_handlers always_section wf.always u)
        × (error_of (run_sections quote step_at wf w).0
            ≡ join_errors (handler_errors always_section wf.always u))
  unfolding run_sections close_sections raise_joined ◌>>=◌
  run_sections-success wf w h =
      let u = (execute_steps quote step_at wf.steps w).1 in
      ground (arith, execute_terminal_steps_lem always_section wf.always u)

  -- The steps after one that fails do not run: if `done` all succeed and `step` then fails, the
  -- whole list fails with the error of `step`, in the world that `step` left.
  pub execute_steps-stops :
      (done : List Step) (step : Step) (rest : List Step) (w : World) (e : Error)
      → (execute_steps quote step_at done w).0 ≡ ok tt
      → (step_at step.name step false (execute_steps quote step_at done w).1).0 ≡ err e
      → execute_steps quote step_at (done ++ step ∷ rest) w ≡ (
        err (step_error quote step_at step e),
        (step_at step.name step false (execute_steps quote step_at done w).1).1,
      )
  unfolding execute_steps ◌>>=◌
  execute_steps-stops [] step rest w e p q = ground arith
  execute_steps-stops (first ∷ done) step rest w e p q =
      ground (arith, execute_steps-stops done step rest (step_at first.name first false w).1 e)
