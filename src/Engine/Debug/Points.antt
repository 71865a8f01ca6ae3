-- ===== src/Engine/Debug/Points.antt =====
-- Breakpoints, and how they are resolved against the workflow file.
mod Labels
pub mod Shorthand
pub mod Known
use markov.Prelude.{
  ℕ, ℤ, pos, negsuc, String, Bool, true, false, ◌&&◌, ◌||◌, Option, none, some, List, [], ◌∷◌, ◌++◌,
  map, concat, join, strip_prefix, sort_texts, is_empty, if◌then◌else◌, ◌==◌,
}
use markov.Failure.{Error, Result, ok, err, message}
use markov.Workflow.{Step, Workflow, WorkflowFile, get_workflow}

-- `Breakpoint`; `hits` counts from 0, and `skip` is what the user wrote.
pub record Breakpoint : Type 0 where
  pub workflow : String
  pub step : String
  pub section : String
  pub iteration : String
  pub phase : String
  pub when : String
  pub skip : ℤ
  pub log : String
  pub hits : ℕ

-- a breakpoint of which only the workflow, the step and the section are given
abbrev pub point_at : String → String → String → Breakpoint
point_at workflow step section = record {
  workflow = workflow;
  step = step;
  section = section;
  iteration = "";
  phase = "";
  when = "";
  skip = pos 0;
  log = "";
  hits = 0;
}

-- `sectionList`
abbrev pub section_list : Workflow → String → List Step
section_list wf section =
    if section == "rescue" then wf.rescue else if section == "always" then wf.always else wf.steps

abbrev pub below_zero : ℤ → Bool
below_zero (pos n) = false
below_zero (negsuc n) = true

abbrev pub has_name : String → List Step → Bool
has_name name [] = false
has_name name (s ∷ ss) = s.name == name || has_name name ss

abbrev pub all_sections : List String
all_sections = "steps" ∷ "rescue" ∷ "always" ∷ []

-- the steps of a section that are called `rest`, as breakpoints
unfoldable pub named_points : String → Workflow → String → List Step → List Breakpoint
named_points rest w section [] = []
named_points rest w section (st ∷ sts) =
    let later = named_points rest w section sts in
    if st.name == rest then point_at w.name rest section ∷ later else later

unfoldable pub section_points : String → Workflow → List String → List Breakpoint
unfolding named_points
section_points rest w [] = []
section_points rest w (section ∷ sections) =
    named_points rest w section (section_list w section) ++ section_points rest w sections

-- the readings of a shorthand: a workflow's name, a dot, and the name of one of its steps
unfoldable pub readings : String → List Workflow → List Breakpoint
unfolding section_points
readings s [] = []
readings s (w ∷ ws) =
    let later = readings s ws in
    elim (strip_prefix (concat (w.name ∷ "." ∷ [])) s) [
      | none ↦ later
      | some rest ↦ section_points rest w all_sections ++ later
    ]

abbrev labels_of : Workflow → List Step → List String
labels_of w [] = []
labels_of w (st ∷ sts) = concat (w.name ∷ "." ∷ st.name ∷ []) ∷ labels_of w sts

abbrev pub all_labels : List Workflow → List String
all_labels [] = []
all_labels (w ∷ ws) =
    labels_of w w.steps ++ (labels_of w w.rescue ++ (labels_of w w.always ++ all_labels ws))

module _ (quote : String → String) where
  unfoldable pub normalize_section : String → Result String
  normalize_section s =
      if s == "" || s == "steps"
      then ok "steps"
      else if s == "rescue" || s == "always"
      then ok s
      else err
          (message (concat ("unknown section " ∷ quote s ∷ " (use steps, rescue, or always)" ∷ [])))

  unfoldable pub normalize_phase : String → Result String
  normalize_phase p =
      if p == "" || p == "before"
      then ok "before"
      else if p == "after"
      then ok "after"
      else err (message (concat ("unknown phase " ∷ quote p ∷ " (use before or after)" ∷ [])))

  -- `quoteList`
  abbrev pub quote_list : List String → String
  quote_list items = if is_empty items then "none" else join ", " (map quote items)

  abbrev unknown_workflow : WorkflowFile → Breakpoint → Error
  unknown_workflow file bp = message (
      concat (
        "unknown workflow "
        ∷ quote bp.workflow
        ∷ " (workflows: "
        ∷ quote_list (map (λ (w : Workflow). w.name) file.workflows)
        ∷ ")"
        ∷ []))

  abbrev no_step : Breakpoint → List Step → Error
  no_step bp steps = message (
      concat (
        "workflow "
        ∷ quote bp.workflow
        ∷ " has no step "
        ∷ quote bp.step
        ∷ " in "
        ∷ bp.section
        ∷ " (steps: "
        ∷ quote_list (map (λ (s : Step). s.name) steps)
        ∷ ")"
        ∷ []))

  -- the last checks of `resolve`, on a breakpoint with its defaults filled in
  abbrev locate : WorkflowFile → Breakpoint → Result Breakpoint
  locate file bp =
      if bp.workflow == "" || bp.step == ""
      then err (message "a breakpoint needs a workflow and a step")
      else if below_zero bp.skip
      then err (message "skip cannot be negative")
      else elim (get_workflow file bp.workflow) [
        | none ↦ err (unknown_workflow file bp)
        | some wf ↦
            let steps = section_list wf bp.section in
            if has_name bp.step steps then ok bp else err (no_step bp steps)
      ]

  -- `resolve`
  unfoldable pub resolve_breakpoint : WorkflowFile → Breakpoint → Result Breakpoint
  unfolding normalize_section normalize_phase get_workflow
  resolve_breakpoint file bp = elim (normalize_section bp.section) [
    | err e ↦ err e
    | ok section ↦ elim (normalize_phase bp.phase) [
      | err e ↦ err e
      | ok phase ↦ locate file (record bp { section = section; phase = phase })
    ]
  ]

  abbrev option_text : Breakpoint → String
  option_text b =
      concat ("{\"workflow\":" ∷ quote b.workflow ∷ ",\"step\":" ∷ quote b.step ∷ "}" ∷ [])

  abbrev pub choose : WorkflowFile → String → List Breakpoint → Result Breakpoint
  choose file s [] = err (
      message (
        concat (
          "--break "
          ∷ quote s
          ∷ " matches no workflow.step (known: "
          ∷ quote_list (sort_texts (all_labels file.workflows))
          ∷ ")"
          ∷ [])))
  choose file s (b ∷ []) = ok b
  choose file s (b ∷ c ∷ bs) = err (
      message (
        concat (
          "--break "
          ∷ quote s
          ∷ " is ambiguous; use --breakpoint with one of: "
          ∷ join " " (map option_text (b ∷ c ∷ bs))
          ∷ [])))

  -- `ResolveShorthand`
  unfoldable pub resolve_shorthand : WorkflowFile → String → Result Breakpoint
  unfolding readings
  resolve_shorthand file s = choose file s (readings s file.workflows)

  -- the loop of `SetBreakpoints`: the accepted ones, and the rejected ones with their errors
  unfoldable pub sort_breakpoints :
      WorkflowFile → List Breakpoint → List Breakpoint × List (Breakpoint × Error)
  unfolding resolve_breakpoint
  sort_breakpoints file [] = ([], [])
  sort_breakpoints file (bp ∷ bps) =
      let (resolved, rejected) = sort_breakpoints file bps in
      elim (resolve_breakpoint file bp) [
        | ok r ↦ (record r { hits = 0 } ∷ resolved, rejected)
        | err e ↦ (resolved, (bp, e) ∷ rejected)
      ]
