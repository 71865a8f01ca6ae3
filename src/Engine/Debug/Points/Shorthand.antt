-- ===== src/Engine/Debug/Points/Shorthand.antt =====
-- The `--break` shorthand against its description: the steps of the file whose label it is.
use markov.Prelude.{
  String, Bool, none, some, List, [], ◌∷◌, ◌++◌, ◌≡◌, refl, sym, ap, ◌∙◌, concat, strip_prefix,
  if◌then◌else◌, Option-cases, Bool-cases, inl, inr, ◌==◌, eq_iff, ◌↔◌,
}
use markov.Failure.{ok}
use markov.Workflow.{Step, Workflow, WorkflowFile}
use markov.Engine.Debug.Points.Labels.{label_some, label_none}
use markov.Engine.Debug.Points.{
  Breakpoint, point_at, section_list, all_sections, named_points, section_points, readings, choose,
  resolve_shorthand,
}

-- The members of a list that pass a test.
abbrev pub keep {ℓ} : {A : Type ℓ} → (A → Bool) → List A → List A
keep p [] = []
keep p (x ∷ xs) = if p x then x ∷ keep p xs else keep p xs

keep-append {ℓ} :
    {A : Type ℓ} (p : A → Bool) (xs ys : List A) → keep p (xs ++ ys) ≡ keep p xs ++ keep p ys
keep-append p [] ys = refl
keep-append p (x ∷ xs) ys = elim (Bool-cases (p x)) [
  | inl pass ↦ rw pass (ap (λ l. x ∷ l) (keep-append p xs ys))
  | inr fail ↦ rw fail (keep-append p xs ys)
]

-- Every step of the file, in each of its sections.
abbrev pub step_points : Workflow → String → List Step → List Breakpoint
step_points w section [] = []
step_points w section (st ∷ sts) = point_at w.name st.name section ∷ step_points w section sts

abbrev pub workflow_points : Workflow → List String → List Breakpoint
workflow_points w [] = []
workflow_points w (section ∷ sections) =
    step_points w section (section_list w section) ++ workflow_points w sections

abbrev pub all_points : List Workflow → List Breakpoint
all_points [] = []
all_points (w ∷ ws) = workflow_points w all_sections ++ all_points ws

-- `workflow.step` is the text.
abbrev pub is_labelled : String → Breakpoint → Bool
is_labelled s b = concat (b.workflow ∷ "." ∷ b.step ∷ []) == s

named_points-keep :
    (w : Workflow) (section s rest : String) (sts : List Step)
    → strip_prefix (concat (w.name ∷ "." ∷ [])) s ≡ some rest
    → named_points rest w section sts ≡ keep (is_labelled s) (step_points w section sts)
unfolding named_points
named_points-keep w section s rest [] e = refl
named_points-keep w section s rest (st ∷ sts) e = elim (Bool-cases (st.name == rest)) [
  | inl same ↦
      let label = label_some w.name st.name s rest e ∙ same in
      let name = (eq_iff st.name rest).0 same in
      rw (same, label)
        (λ i. point_at w.name (sym name i) section ∷ named_points-keep w section s rest sts e i)
  | inr differs ↦
      let label = label_some w.name st.name s rest e ∙ differs in
      rw (differs, label) (named_points-keep w section s rest sts e)
]

section_points-keep :
    (w : Workflow) (s rest : String) (sections : List String)
    → strip_prefix (concat (w.name ∷ "." ∷ [])) s ≡ some rest
    → section_points rest w sections ≡ keep (is_labelled s) (workflow_points w sections)
unfolding section_points
section_points-keep w s rest [] e = refl
section_points-keep w s rest (section ∷ sections) e =
    let steps = section_list w section in
    (λ i. named_points-keep w section s rest steps e i ++ section_points-keep w s rest sections e i)
    ∙ sym (keep-append (is_labelled s) (step_points w section steps) (workflow_points w sections))

-- No step of a workflow is labelled by a text that does not begin with the workflow's name.
step_points-none :
    (w : Workflow) (section s : String) (sts : List Step)
    → strip_prefix (concat (w.name ∷ "." ∷ [])) s ≡ none
    → keep (is_labelled s) (step_points w section sts) ≡ []
step_points-none w section s [] e = refl
step_points-none w section s (st ∷ sts) e =
    rw (label_none w.name st.name s e) (step_points-none w section s sts e)

workflow_points-none :
    (w : Workflow) (s : String) (sections : List String)
    → strip_prefix (concat (w.name ∷ "." ∷ [])) s ≡ none
    → keep (is_labelled s) (workflow_points w sections) ≡ []
workflow_points-none w s [] e = refl
workflow_points-none w s (section ∷ sections) e =
    let steps = section_list w section in
    keep-append (is_labelled s) (step_points w section steps) (workflow_points w sections)
    ∙ (λ i. step_points-none w section s steps e i ++ workflow_points-none w s sections e i)

readings-keep :
    (s : String) (ws : List Workflow) → readings s ws ≡ keep (is_labelled s) (all_points ws)
unfolding readings
readings-keep s [] = refl
readings-keep s (w ∷ ws) =
    split (readings-keep s ws)
    ∙ sym (keep-append (is_labelled s) (workflow_points w all_sections) (all_points ws))
  where
    tail : List Breakpoint
    tail = keep (is_labelled s) (all_points ws)

    here : List Breakpoint
    here = keep (is_labelled s) (workflow_points w all_sections)

    split : readings s ws ≡ tail → readings s (w ∷ ws) ≡ here ++ tail
    split later = elim (Option-cases (strip_prefix (concat (w.name ∷ "." ∷ [])) s)) [
      | inl none_here ↦
          rw (none_here, readings)
            (later ∙ (λ i. sym (workflow_points-none w s all_sections none_here) i ++ tail))
      | inr (rest, e) ↦
          rw (e, readings) (λ i. section_points-keep w s rest all_sections e i ++ later i)
    ]

choose-ok :
    (quote : String → String) (file : WorkflowFile) (s : String) (b : Breakpoint)
    (found : List Breakpoint)
    → (choose quote file s found ≡ ok b) ↔ (found ≡ b ∷ [])
choose-ok quote file s b [] = (λ h. cc, λ h. cc)
choose-ok quote file s b (c ∷ []) = (λ h. cc, λ h. cc)
choose-ok quote file s b (c ∷ d ∷ cs) = (λ h. cc, λ h. cc)

-- The shorthand gives a breakpoint exactly where one step of the file, over all workflows and their
-- sections, has the text as its label `workflow.step`, and then it gives that step's; however many
-- dots the names hold.
pub resolve_shorthand_unique :
    (quote : String → String) (file : WorkflowFile) (s : String) (b : Breakpoint)
    → (resolve_shorthand quote file s ≡ ok b)
      ↔ (keep (is_labelled s) (all_points file.workflows) ≡ b ∷ [])
unfolding resolve_shorthand
resolve_shorthand_unique quote file s b =
    let (there, back) = choose-ok quote file s b (readings s file.workflows) in
    let same = readings-keep s file.workflows in (λ h. sym same ∙ there h, λ h. back (same ∙ h))
