-- ===== src/Parser/Loading/Defaults.antt =====
-- The defaults of `validate` of pkg/parser/parser.go: the number of forks is no part of what makes a
-- file valid.
use markov.Prelude.{Bool-cases, inl, inr, List, [], ◌∷◌, ℤ, pos, is_positive, All}
use markov.Workflow.{Step, Workflow, WorkflowFile, get_workflow, get_rule}
use markov.Engine.Env.{Go}
use markov.Parser.Jev.{Library}
use markov.Parser.{with_defaults, is_known_type}
use markov.Parser.Valid.{ValidStep}
use markov.Parser.Accepted.{ValidWorkflow, ValidFile}

All-mapped :
    {A : Type 0} {P Q : A → Type 0} (f : (x : A) → P x → Q x) (xs : List A) → All P xs → All Q xs
All-mapped f [] h = tt
All-mapped f (x ∷ xs) h = (f x h.0, All-mapped f xs h.1)

module _ (file : WorkflowFile) (n : ℤ) where
  abbrev forked : WorkflowFile
  forked = record file { forks = n }

  ValidStep-forked : (s : Step) → ValidStep file s → ValidStep forked s
  unfolding get_workflow get_rule is_known_type
  ValidStep-forked s v = record {
    named = v.named;
    not_reserved = v.not_reserved;
    calls = v.calls;
    candidates = v.candidates;
    has_work = v.has_work;
    known_type = v.known_type;
    item_named = v.item_named;
    gate_has_rules = v.gate_has_rules;
    rules_known = v.rules_known;
  }

  ValidWorkflow-forked : (w : Workflow) → ValidWorkflow file w → ValidWorkflow forked w
  ValidWorkflow-forked w v = record {
    named = v.named;
    steps = All-mapped ValidStep-forked w.steps v.steps;
    rescue = All-mapped ValidStep-forked w.rescue v.rescue;
    always = All-mapped ValidStep-forked w.always v.always;
    distinct = v.distinct;
  }

  ValidFile-forked : ValidFile file → ValidFile forked
  unfolding get_workflow
  ValidFile-forked v = record {
    entrypoint = v.entrypoint;
    rules_named = v.rules_named;
    rules_distinct = v.rules_distinct;
    workflows = All-mapped ValidWorkflow-forked file.workflows v.workflows;
    workflows_distinct = v.workflows_distinct;
  }

pub with_defaults-Valid :
    (go : Go) (lib : Library) (file : WorkflowFile)
    → ValidFile file
    → ValidFile (with_defaults go lib file)
with_defaults-Valid go lib file v = elim (Bool-cases (is_positive file.forks)) [
  | inl given ↦ rw given v
  | inr absent ↦ rw absent (ValidFile-forked file (pos 5) v)
]
