-- ===== src/Engine/Resume/Integrity.antt =====
-- What `checkSourceIntegrity` of engine.go records and refuses, and what a refused resume leaves.
use markov.Prelude.{
  ℕ, ◌+◌, String, ◌≡◌, refl, sym, ap, ◌≢◌, ◌∙◌, Bool, true, false, Option, none, some, [], ◌∷◌,
  ◌++◌, ◌==◌, eq_iff, arith, Bool-cases, Option-cases, inl, inr, ◌⊎◌,
}
use markov.Value.{Vars}
use markov.Failure.{Error, wrap, map_error, Result, ok, err}
use markov.State.{Run, SourceCheck, get_run, save_source_check}
use markov.Engine.Env.{Env, strict}
use markov.Engine.World.{World, Exec, ◌>>=◌, pure, lift, gets, raise, attempt, now, modify_db}
use markov.Engine.Runs.{current_source_digest}
use markov.Engine.Resume.{
  is_off, drift, check_row, check_source_integrity, refusal, observe, admit, resume_admitted,
  resume_with_vars,
}

-- The world with one more check recorded, at a later time.
abbrev pub recorded : World → SourceCheck → ℕ → World
recorded w c t = record w { db = record w.db { checks = w.db.checks ++ c ∷ [] }; clock = t }

module _ (env : Env) (row : Run) where
  refused-strict :
      (check : SourceCheck)
      → env.integrity_mode ≡ strict
      → refusal env row check ≡ none
      → (row.source_digest ≢ "") × (check.source_drifted ≡ false)
  unfolding refusal
  refused-strict check mode h = elim (Bool-cases (row.source_digest == "")) [
    | inl absent ↦ absurd (clash (rw (mode, absent) at h))
    | inr given ↦ elim (Bool-cases check.source_drifted) [
      | inl drifted ↦ absurd (clash (rw (mode, given, drifted) at h))
      | inr same ↦ (λ e. differ given ((eq_iff row.source_digest "").1 e), same)
    ]
  ]
    where
      clash : {e : Error} → some e ≡ none → ⊥
      clash h = cc

      differ : {b : Bool} → b ≡ false → b ≡ true → ⊥
      differ h g = cc

  digest-reads : (w : World) → (r : Result String) × (current_source_digest env w ≡ (r, w))
  unfolding current_source_digest ◌>>=◌ pure lift gets
  digest-reads w = elim (Bool-cases (env.source_path == "")) [
    | inl absent ↦ (ok "", rw absent refl)
    | inr given ↦
        (map_error (wrap "fingerprinting workflow source") (env.source_tree w.clock), rw given refl)
  ]

  -- The check that is made, or the one that is recorded when the source cannot be read.
  Observed : ℕ → World → Type 0
  Observed t w =
      (c : SourceCheck) × (c.run_id ≡ row.run_id)
      × ((observe env row t w ≡ (ok c, w))
          ⊎ ((e : Error) × (observe env row t w
                ≡ (err e, record w { db = save_source_check w.db c }))))

  -- the end of a check that was made
  judged : SourceCheck → Option Error → Exec SourceCheck
  judged c refused = elim refused [ some e ↦ raise e | none ↦ pure c ]

  checked :
      (w : World) (c : SourceCheck)
      → observe env row w.clock (record w { clock = w.clock + 1 })
        ≡ (ok c, record w { clock = w.clock + 1 })
      → check_source_integrity env row w ≡ judged c (refusal env row c) (recorded w c (w.clock + 1))
  unfolding check_source_integrity judged ◌>>=◌ now pure raise modify_db save_source_check
  checked w c e = rw e refl

  drifted :
      (d : String) → d ≢ row.source_digest → (row.source_digest ≡ "") ⊎ (drift env row d ≡ true)
  drifted d differs = ground (arith, eq_iff row.source_digest "", eq_iff d row.source_digest)

  refused-drift :
      (t : ℕ) (d : String)
      → env.integrity_mode ≡ strict
      → d ≢ row.source_digest
      → (e : Error) × (refusal env row (check_row env row t d (drift env row d)) ≡ some e)
  refused-drift t d mode differs =
      elim (Option-cases (refusal env row (check_row env row t d (drift env row d)))) [
        | inl passed ↦ absurd (clash (refused-strict _ mode passed) (drifted d differs))
        | inr refused ↦ refused
      ]
    where
      clash :
          (row.source_digest ≢ "") × (drift env row d ≡ false)
          → (row.source_digest ≡ "") ⊎ (drift env row d ≡ true)
          → ⊥
      clash (given, same) (inl absent) = given absent
      clash (given, same) (inr drifts) = cc

  watched :
      (t : ℕ) (d : String) (w : World)
      → env.integrity_mode ≡ strict
      → (current_source_digest env w).0 ≡ ok d
      → observe env row t w ≡ (ok (check_row env row t d (drift env row d)), w)
  unfolding ◌>>=◌ pure attempt
  watched t d w mode h =
      let (r, e) = digest-reads w in
      let same : r ≡ ok d = sym (ap (λ out. out.0) e) ∙ h in
      let on : is_off env.integrity_mode ≡ false = ap is_off mode in rw (on, e, same) refl

-- In strict mode, to resume a run that is known and that its status and answers admit, when the
-- source can be read and is not the recorded one, is refused: the error is returned, one check of
-- the source is recorded, and nothing else happened, no status, record or event of any run was
-- written.
pub resume_with_vars-strict :
    (env : Env) (depth : ℕ) (id : String) (vars : Vars) (w : World) (row : Run) (d : String)
    → env.integrity_mode ≡ strict
    → get_run w.db id ≡ some row
    → admit env row vars ≡ none
    → (current_source_digest env (record w { clock = w.clock + 1 })).0 ≡ ok d
    → d ≢ row.source_digest
    → (e : Error) × (c : SourceCheck) × (c.run_id ≡ row.run_id)
      × (resume_with_vars env depth id vars w ≡ (err e, recorded w c (w.clock + 1)))
unfolding resume_with_vars resume_admitted ◌>>=◌ pure gets raise attempt judged
resume_with_vars-strict env depth id vars w row d mode known admitted observes differs =
    let (e, refused) = refused-drift env row w.clock d mode differs in
    let c = check_row env row w.clock d (drift env row d) in
    (
      e,
      c,
      refl,
      rw (known, admitted, stopped e c refused (watched env row w.clock d later mode observes))
          refl,
    )
  where
    later : World
    later = record w { clock = w.clock + 1 }

    stopped :
        (e : Error) (c : SourceCheck)
        → refusal env row c ≡ some e
        → observe env row w.clock later ≡ (ok c, later)
        → check_source_integrity env row w ≡ (err e, recorded w c (w.clock + 1))
    stopped e c refused h = checked env row w c h ∙ rw refused refl
