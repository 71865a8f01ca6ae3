-- ===== src/Engine/Debug/Points/Known.antt =====
-- What `resolve` accepts.
use markov.Prelude.{
  String, true, some, ◌≡◌, ap, ◌∙◌, arith, if◌then◌else◌, Option-cases, inl, inr, ◌⊎◌, ◌==◌, eq_iff,
}
use markov.Failure.{ok, Result-cases}
use markov.Workflow.{Workflow, WorkflowFile, get_workflow}
use markov.Engine.Debug.Points.{
  Breakpoint, section_list, has_name, normalize_section, normalize_phase, locate,
  resolve_breakpoint,
}

-- A step of the file, by its workflow, its section and its name.
pub record IsStep (file : WorkflowFile) (workflow section step : String) : Type 0 where
  pub wf : Workflow
  pub found : get_workflow file workflow ≡ some wf
  pub named : has_name step (section_list wf section) ≡ true

-- A breakpoint that can fire: its section and its phase are such as places have, and it is at a
-- step of the file.
pub record IsKnown (file : WorkflowFile) (b : Breakpoint) : Type 0 where
  pub section : (b.section ≡ "steps") ⊎ ((b.section ≡ "rescue") ⊎ (b.section ≡ "always"))
  pub phase : (b.phase ≡ "before") ⊎ (b.phase ≡ "after")
  pub step : IsStep file b.workflow b.section b.step

-- The selector of a breakpoint, without its count.
pub record SameSelector (a b : Breakpoint) : Type 0 where
  pub workflow : b.workflow ≡ a.workflow
  pub step : b.step ≡ a.step
  pub section : b.section ≡ a.section
  pub phase : b.phase ≡ a.phase

pub SameSelector-IsKnown :
    (file : WorkflowFile) {a b : Breakpoint} → SameSelector a b → IsKnown file a → IsKnown file b
SameSelector-IsKnown file same known = record {
  section = ground arith;
  phase = ground arith;
  step = record {
    wf = known.step.wf;
    found = ap (get_workflow file) same.workflow ∙ known.step.found;
    named =
        (λ i. has_name (same.step i) (section_list known.step.wf (same.section i)))
        ∙ known.step.named;
  };
}

module _ (quote : String → String) (file : WorkflowFile) where
  pub normalize_section-ok :
      (s t : String)
      → normalize_section quote s ≡ ok t
      → ((t ≡ "steps") ⊎ ((t ≡ "rescue") ⊎ (t ≡ "always"))) × (t ≡ (if s == "" then "steps" else s))
  unfolding normalize_section
  normalize_section-ok s t h =
      ground (arith, eq_iff s "", eq_iff s "steps", eq_iff s "rescue", eq_iff s "always")

  normalize_phase-ok :
      (s t : String) → normalize_phase quote s ≡ ok t → (t ≡ "before") ⊎ (t ≡ "after")
  unfolding normalize_phase
  normalize_phase-ok s t h = ground (arith, eq_iff s "after")

  locate-ok :
      (b r : Breakpoint)
      → locate quote file b ≡ ok r
      → (r ≡ b) × IsStep file b.workflow b.section b.step
  locate-ok b r h = elim (Option-cases (get_workflow file b.workflow)) [
    | inl unknown ↦ absurd (ground arith)
    | inr (wf, e) ↦
        let out : (r ≡ b) × (has_name b.step (section_list wf b.section) ≡ true) = ground arith in
        (out.0, record { wf = wf; found = e; named = out.1 })
  ]

  -- The accepted breakpoint is the given one, but for the defaults, and it can fire.
  pub resolve_breakpoint-ok :
      (b r : Breakpoint)
      → resolve_breakpoint quote file b ≡ ok r
      → IsKnown file r
        × (r.workflow ≡ b.workflow)
        × (r.step ≡ b.step)
        × (r.section ≡ (if b.section == "" then "steps" else b.section))
  unfolding resolve_breakpoint
  resolve_breakpoint-ok b r h = elim (Result-cases (normalize_section quote b.section)) [
    | inr (e, bad) ↦ absurd (ground arith)
    | inl (section, e) ↦ elim (Result-cases (normalize_phase quote b.phase)) [
      | inr (e', bad) ↦ absurd (ground arith)
      | inl (phase, e') ↦
          let located =
            locate-ok (record b { section = section; phase = phase }) r (ground arith) in
          let (normal, default) = normalize_section-ok b.section section e in
          (
            record {
              section = ground (arith, located.0, normal);
              phase = ground (arith, located.0, normalize_phase-ok b.phase phase e');
              step = rw located.0 located.1;
            },
            ap (λ (x : Breakpoint). x.workflow) located.0,
            ap (λ (x : Breakpoint). x.step) located.0,
            ap (λ (x : Breakpoint). x.section) located.0 ∙ default,
          )
    ]
  ]
