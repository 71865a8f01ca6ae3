-- ===== src/Engine/Decision/Once.antt =====
-- A decision is asked once: the record that its first answer leaves answers from then on.
use markov.Prelude.{
  String, ◌≡◌, refl, sym, ap, ◌∙◌, subst, ◌⊎◌, inl, inr, Bool, true, false, Option, none, some, [],
  ◌∷◌, arith, lookup, concat, eq_iff, Option-cases, Bool-cases, ◌==◌, if◌then◌else◌, ℕ, ◌&&◌,
}
use markov.Value.{Value, Vars, is_null, object}
use markov.Failure.{Error, Result, Result-cases, ok, err}
use markov.Workflow.{Decision, Connection, Step}
use markov.State.{Db, StepResult, StepStatus, completed, get_step, save_step}
use markov.State.Rows.{get_step-save_step}
use markov.Engine.Env.{Env}
use markov.Engine.World.{World, Exec, ◌>>=◌, gets, lift, pure, raise, attempt, now, fire, modify_db}
use markov.Engine.Records.{Section, stamped, find_step, definition_hash, fail_step, save}
use markov.Engine.Decision.{
  saved_answer, recall, decision, ask_decision, keep_answer, decision_answer, identified, receipt,
  is_completed,
}

-- the key of a decision's record
abbrev pub receipt_key : String → String → String
receipt_key step hash = concat ("__jev__/" ∷ step ∷ "/" ∷ hash ∷ [])

-- The stamp of a record's definition changes neither its key nor its outcome.
record SameOutcome (a b : StepResult) : Type 0 where
  run_id : b.run_id ≡ a.run_id
  workflow_name : b.workflow_name ≡ a.workflow_name
  step_name : b.step_name ≡ a.step_name
  status : b.status ≡ a.status
  output_json : b.output_json ≡ a.output_json

stamped-SameOutcome : (env : Env) (row : StepResult) → SameOutcome row (stamped env row)
stamped-SameOutcome env row =
    by_hash (row.definition_hash == "") (find_step env row.workflow_name row.step_name)
  where
    unchanged : SameOutcome row row
    unchanged = record {
      run_id = refl;
      workflow_name = refl;
      step_name = refl;
      status = refl;
      output_json = refl;
    }

    by_hash :
        (empty : Bool) (found : Option (Step × Section))
        → SameOutcome row (
            if empty
            then elim found as (λ _. StepResult) [
              | none ↦ row
              | some (st, sec) ↦ record row { definition_hash = definition_hash env st }
            ]
            else row)
    by_hash true none = unchanged
    by_hash true (some (st, sec)) = record {
      run_id = refl;
      workflow_name = refl;
      step_name = refl;
      status = refl;
      output_json = refl;
    }
    by_hash false found = unchanged

-- A completed record of the key, which holds the answer: it is what the record reads back as, or the
-- record has the JSON of the output that it is taken from.
pub record AnswerKept (env : Env) (run workflow key : String) (answer : Vars) (row : StepResult)
    (db : Db) : Type 0 where
  pub found : get_step db run workflow key ≡ some row
  pub status : row.status ≡ completed
  pub holds :
      (saved_answer env row ≡ ok answer)
      ⊎ ((output : Vars) × (row.output_json ≡ env.go.json_encode (object output))
          × (decision_answer output ≡ ok answer))

saved-found :
    (env : Env) (db : Db) (row : StepResult)
    → get_step (save_step db (stamped env row)) row.run_id row.workflow_name row.step_name
      ≡ some (stamped env row)
saved-found env db row =
    let same = stamped-SameOutcome env row in
    get_step-save_step db (stamped env row) row.run_id row.workflow_name row.step_name
    ∙ ap
        (λ x.
          if x
          then some (stamped env row)
          else get_step db row.run_id row.workflow_name row.step_name)
        (own_key same.run_id same.workflow_name same.step_name)
  where
    own_key : {a b c d e f : String} → a ≡ b → c ≡ d → e ≡ f → (a == b && (c == d && e == f)) ≡ true
    own_key {a} {b} {c} {d} {e} {f} p q r = ground (arith, eq_iff a b, eq_iff c d, eq_iff e f)

completed_of : (s : StepStatus) → is_completed s ≡ true → s ≡ completed
completed_of StepStatus.completed h = refl
completed_of StepStatus.pending h = cc
completed_of StepStatus.running h = cc
completed_of StepStatus.paused h = cc
completed_of StepStatus.failed h = cc
completed_of StepStatus.skipped h = cc

refused :
    {e : Error} {answer : Vars} {v w : World}
    → ◌≡◌ {A = Result Vars × World} (err e, v) (ok answer, w)
    → ⊥
refused h = clash (ap (λ p. p.0) h)
  where
    clash : {e : Error} {answer : Vars} → ◌≡◌ {A = Result Vars} (err e) (ok answer) → ⊥
    clash h = cc

module _ (env : Env) (run workflow step name : String) where
  module _ (d : Decision) (hash : String) (input : Value) (answer : Vars) where
    abbrev Kept : World → Type 0
    Kept w =
        (row : StepResult) × AnswerKept env run workflow (receipt_key step hash) answer row w.db

    -- the executor's output is kept in a completed record
    keep_answer-Kept :
        (started : ℕ) (r : Result Vars) (u w : World)
        → keep_answer env run workflow step name d hash (receipt_key step hash) started r u
          ≡ (ok answer, w)
        → Kept w
    unfolding keep_answer fail_step save ◌>>=◌ now fire lift raise modify_db
    keep_answer-Kept started (err e) u w h = absurd (refused h)
    keep_answer-Kept started (ok output) u w h =
        let full = identified env name d hash step output in
        let row =
          receipt env run workflow (receipt_key step hash) started completed
            (env.go.json_encode (object full)) (some u.clock) in
        let same = stamped-SameOutcome env row in
        subst Kept (ap (λ p. p.1) h) (
          stamped env row,
          record {
            found = saved-found env u.db row;
            status = same.status;
            holds = inr (full, same.output_json, ap (λ p. p.0) h);
          },
        )

    ask_decision-Kept :
        (u w : World)
        → ask_decision env run workflow step name d hash (receipt_key step hash) input u
          ≡ (ok answer, w)
        → Kept w
    unfolding ask_decision save ◌>>=◌ now fire lift raise modify_db gets attempt pure
    ask_decision-Kept u w h = elim (Option-cases (lookup "jev" env.executors)) [
      | inl unregistered ↦ absurd (refused (rw unregistered at h))
      | inr (executor, found) ↦ keep_answer-Kept _ _ _ w (rw found at h)
    ]

    -- A completed record answers.
    recall-completed :
        (w : World) (row : StepResult)
        → get_step w.db run workflow (receipt_key step hash) ≡ some row
        → row.status ≡ completed
        → recall env run workflow step name d hash input w ≡ (saved_answer env row, w)
    unfolding recall ◌>>=◌ gets lift
    recall-completed w row h k = ground (arith, h, k)

    recall-Kept :
        (u w : World) → recall env run workflow step name d hash input u ≡ (ok answer, w) → Kept w
    unfolding recall ◌>>=◌ gets lift
    recall-Kept u w h = by_record (get_step u.db run workflow (receipt_key step hash)) refl h
      where
        asked : Exec Vars
        asked = ask_decision env run workflow step name d hash (receipt_key step hash) input

        by_record :
            (saved : Option StepResult)
            → get_step u.db run workflow (receipt_key step hash) ≡ saved
            → (elim saved as (λ _. Exec Vars) [
              | none ↦ asked
              | some row ↦ if is_completed row.status then lift (saved_answer env row) else asked
            ])
                u
              ≡ (ok answer, w)
            → Kept w
        by_record none e h = ask_decision-Kept u w h
        by_record (some row) e h = elim (Bool-cases (is_completed row.status)) [
          | inr unfinished ↦ ask_decision-Kept u w (rw unfinished at h)
          | inl done ↦
              let out = rw done at h in
              subst Kept (ap (λ p. p.1) out) (
                row,
                record {
                  found = e;
                  status = completed_of row.status done;
                  holds = inl (ap (λ p. p.0) out);
                },
              )
        ]

  -- The decision is the file's, and the hash is that of its JSON identity.
  pub IsIdentity : Decision → Value → Value → String → Type 0
  IsIdentity d input refresh hash =
      (lookup name env.file.decisions ≡ some d)
      × (conn : Connection) × (lookup d.connection env.file.connections ≡ some conn)
      × (identity : String) × (env.go.decision_json step name d conn input refresh ≡ ok identity)
      × (hash ≡ env.go.sha256_hex identity)

  -- A decision that gives an answer comes to its record, whatever the tables are.
  decision-recalls :
      (input refresh : Value) (answer : Vars) (u w : World)
      → decision env run workflow step name input refresh u ≡ (ok answer, w)
      → (d : Decision) × (hash : String) × IsIdentity d input refresh hash
        × ((v : World)
            → decision env run workflow step name input refresh v
              ≡ recall env run workflow step name d hash input v)
  unfolding decision ◌>>=◌ pure raise lift IsIdentity
  decision-recalls input refresh answer u w h =
      elim (Option-cases (lookup name env.file.decisions)) [
        | inl unknown ↦ absurd (refused (rw unknown at h))
        | inr (d, found) ↦ elim (Bool-cases (is_null input)) [
          | inl nothing ↦ absurd (refused (rw (found, nothing) at h))
          | inr given ↦ elim (Option-cases (lookup d.connection env.file.connections)) [
            | inl unknown ↦ absurd (refused (rw (found, given, unknown) at h))
            | inr (conn, known) ↦
                elim (Result-cases (env.go.decision_json step name d conn input refresh)) [
                  | inr (e, bad) ↦ absurd (refused (rw (found, given, known, bad) at h))
                  | inl (identity, good) ↦ (
                    d,
                    env.go.sha256_hex identity,
                    (found, conn, known, identity, good, refl),
                    λ v. rw (found, given, known, good) refl,
                  )
                ]
          ]
        ]
      ]

  -- A decision that has given an answer has left, or found, a completed record that holds this
  -- answer, under the step's name and the hash of the identity of the decision, its connection, its
  -- input and its refresh token. Asked again by the step, with the same input and token and the
  -- tables as they are then, it returns what that record reads back as, and nothing runs: no executor
  -- is called, no event is fired, and tables, clock and variables stay as they are.
  pub decision-asked_once :
      (input refresh : Value) (answer : Vars) (u w : World)
      → decision env run workflow step name input refresh u ≡ (ok answer, w)
      → (d : Decision) × (hash : String) × (row : StepResult) × IsIdentity d input refresh hash
        × AnswerKept env run workflow (receipt_key step hash) answer row w.db
        × (decision env run workflow step name input refresh w ≡ (saved_answer env row, w))
  decision-asked_once input refresh answer u w h =
      let (d, hash, identity, recalls) = decision-recalls input refresh answer u w h in
      let (row, kept) = recall-Kept d hash input answer u w (sym (recalls u) ∙ h) in
      (
        d,
        hash,
        row,
        identity,
        kept,
        recalls w ∙ recall-completed d hash input answer w row kept.found kept.status,
      )
