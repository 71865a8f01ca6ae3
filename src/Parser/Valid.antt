-- ===== src/Parser/Valid.antt =====
-- What `validate` of pkg/parser/parser.go ensures of the file that it accepts.
use markov.Prelude.{
  String, Bool, true, false, not, ◌&&◌, ◌≡◌, refl, ◌≢◌, inl, inr, Option, none, some, is_some,
  is_empty, List, [], ◌∷◌, ◌==◌, eq_iff, starts_with, All, Bool-cases, arith,
}
use markov.Failure.{Error}
use markov.Workflow.{
  Step, Workflow, WorkflowFile, Rule, has_workflow, get_workflow, get_rule, is_templated, member,
}
use markov.Engine.Env.{Go}
use markov.Parser.Checks.{refuse_if, each, refuse_if-none, first_of-none, each-none}
use markov.Parser.Jev.{Library}
use markov.Parser.{
  is_known_type, check_workflow_names, check_work, check_modifiers, check_type, check_rules,
  modifier_checks, wrap_in_step, not_templated, check_workflow_name, no_rules, check_rule_name,
  step_checks, validate_step,
}

-- A workflow that a name leads to, and a rule.
abbrev pub HasWorkflow : WorkflowFile → String → Type 0
HasWorkflow file name = (w : Workflow) × (get_workflow file name ≡ some w)

abbrev pub HasRule : WorkflowFile → String → Type 0
HasRule file name = (r : Rule) × (get_rule file name ≡ some r)

-- What a step of an accepted file is: its references lead somewhere.
pub record ValidStep (file : WorkflowFile) (s : Step) : Type 0 where
  pub named : s.name ≢ ""
  pub not_reserved : starts_with s.name "__jev__/" ≡ false
  pub calls : s.workflow ≢ "" → is_templated s.workflow ≡ false → HasWorkflow file s.workflow
  pub candidates : All (HasWorkflow file) s.workflow_names
  pub has_work : s.workflow ≡ "" → s.type ≢ ""
  pub known_type : s.type ≢ "" → is_known_type file s.type ≡ true
  pub item_named : s.for_each ≢ "" → s.item_name ≢ ""
  pub gate_has_rules : s.type ≡ "gate" → is_empty s.rules ≡ false
  pub rules_known : s.type ≡ "gate" → All (HasRule file) s.rules

not-false : (b : Bool) → not b ≡ false → b ≡ true
not-false true h = refl
not-false false h = cc

found : {A : Type 0} (o : Option A) → is_some o ≡ true → (a : A) × (o ≡ some a)
found none h = cc
found (some a) h = (a, refl)

pub differs : (s t : String) → (s == t) ≡ false → s ≢ t
differs s t h = ground (arith, eq_iff s t)

All-map :
    {A : Type 0} {P Q : A → Type 0} (f : (x : A) → P x → Q x) (xs : List A) → All P xs → All Q xs
All-map f [] h = tt
All-map f (x ∷ xs) h = (f x h.0, All-map f xs h.1)

pub workflow-found :
    (file : WorkflowFile) (name : String) (e : Error)
    → refuse_if (not (has_workflow file name)) e ≡ none
    → HasWorkflow file name
unfolding has_workflow get_workflow
workflow-found file name e h = found (get_workflow file name) (not-false _ (refuse_if-none _ e h))

rule-found :
    (file : WorkflowFile) (name : String) (e : Error)
    → refuse_if (not (is_some (get_rule file name))) e ≡ none
    → HasRule file name
rule-found file name e h = found (get_rule file name) (not-false _ (refuse_if-none _ e h))

each-All :
    {A : Type 0} {Q : A → Type 0} (f : A → Option Error) (xs : List A)
    → ((x : A) → f x ≡ none → Q x)
    → each f xs ≡ none
    → All Q xs
each-All f xs sound h = All-map sound xs (each-none f xs h)

All-empty : {A : Type 0} (Q : A → Type 0) (xs : List A) → is_empty xs ≡ true → All Q xs
All-empty Q [] h = tt
All-empty Q (x ∷ xs) h = cc

module _ (go : Go) (lib : Library) where
  candidates-known :
      (file : WorkflowFile) (workflow : String) (s : Step)
      → check_workflow_names go lib file workflow s ≡ none
      → All (HasWorkflow file) s.workflow_names
  unfolding check_workflow_names
  candidates-known file workflow s h = elim (Bool-cases (is_empty s.workflow_names)) [
    | inl none_listed ↦ All-empty (HasWorkflow file) s.workflow_names none_listed
    | inr listed ↦
        let checks =
          not_templated go lib workflow s
          ∷ each (check_workflow_name go lib file workflow s) s.workflow_names
          ∷ [] in
        each-All (check_workflow_name go lib file workflow s) s.workflow_names
          (λ name. workflow-found file name _) (first_of-none checks (rw listed at h)).1.0
  ]

  work-known :
      (file : WorkflowFile) (workflow : String) (s : Step)
      → check_work go lib file workflow s ≡ none
      → (s.workflow ≢ "" → is_templated s.workflow ≡ false → HasWorkflow file s.workflow)
        × (s.workflow ≡ "" → s.type ≢ "")
  unfolding check_work has_workflow get_workflow
  work-known file workflow s h = elim (Bool-cases (s.workflow == "")) [
    | inl e ↦ (
      λ named _. absurd (named ((eq_iff s.workflow "").0 e)),
      λ _. differs s.type "" (refuse_if-none _ _ (rw e at h)),
    )
    | inr e ↦ (
      λ _ fixed. found _ (named_workflow fixed (refuse_if-none _ _ (rw e at h))),
      λ nameless. absurd (differs s.workflow "" e nameless),
    )
  ]
    where
      named_workflow :
          is_templated s.workflow ≡ false
          → (not (is_templated s.workflow) && not (has_workflow file s.workflow)) ≡ false
          → is_some (get_workflow file s.workflow) ≡ true
      named_workflow fixed h = not-false _ (rw fixed at h)

  type-known :
      (file : WorkflowFile) (workflow : String) (s : Step)
      → check_type go lib file workflow s ≡ none
      → s.type ≢ ""
      → is_known_type file s.type ≡ true
  unfolding check_type
  type-known file workflow s h typed =
      not-false _ (refuse_if-none _ _ (unwrapped _ (rw (untyped typed) at h)))
    where
      untyped : s.type ≢ "" → (s.type == "") ≡ false
      untyped typed = ground (arith, eq_iff s.type "")

      unwrapped : (c : Option Error) → wrap_in_step go lib workflow s c ≡ none → c ≡ none
      unwrapped none h = refl
      unwrapped (some e) h = cc

  loop-named :
      (workflow : String) (s : Step)
      → check_modifiers go lib workflow s ≡ none
      → s.for_each ≢ ""
      → s.item_name ≢ ""
  unfolding check_modifiers modifier_checks
  loop-named workflow s h loops =
      let passed = first_of-none (modifier_checks go lib workflow s) h in
      let named = refuse_if-none _ _ passed.1.1.0 in
      ground (arith, eq_iff s.for_each "", eq_iff s.item_name "")

  rules-known :
      (file : WorkflowFile) (workflow : String) (s : Step)
      → check_rules go lib file workflow s ≡ none
      → s.type ≡ "gate"
      → (is_empty s.rules ≡ false) × All (HasRule file) s.rules
  unfolding check_rules
  rules-known file workflow s h is_gate =
      let checks =
        no_rules go lib workflow s ∷ each (check_rule_name go lib file workflow s) s.rules ∷ [] in
      let gate : (s.type == "gate") ≡ true = (eq_iff s.type "gate").1 is_gate in
      let passed = first_of-none checks (rw gate at h) in
      (
        refuse_if-none _ _ passed.0,
        each-All (check_rule_name go lib file workflow s) s.rules (λ name. rule-found file name _)
            passed.1.0,
      )

  -- A step that the loop of `validateSteps` passes.
  pub validate_step-Valid :
      (file : WorkflowFile) (workflow part : String) (seen : List String) (s : Step)
      → validate_step go lib file workflow part seen s ≡ none
      → ValidStep file s × (member s.name seen ≡ false)
  unfolding validate_step step_checks
  validate_step-Valid file workflow part seen s h =
      let p = first_of-none (step_checks go lib file workflow part seen s) h in
      let q = p.1.1.1 in
      let work = work-known file workflow s q.1.0 in
      let gate = rules-known file workflow s q.1.1.1.1.1.0 in
      (
        record {
          named = differs s.name "" (refuse_if-none _ _ p.1.0);
          not_reserved = refuse_if-none _ _ p.0;
          calls = work.0;
          candidates = candidates-known file workflow s q.0;
          has_work = work.1;
          known_type = type-known file workflow s q.1.1.1.0;
          item_named = loop-named workflow s q.1.1.0;
          gate_has_rules = λ is_gate. (gate is_gate).0;
          rules_known = λ is_gate. (gate is_gate).1;
        },
        refuse_if-none _ _ p.1.1.0,
      )
