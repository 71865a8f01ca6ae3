-- ===== src/Workflow/Types.antt =====
-- The records of pkg/parser/types.go and, of pkg/jev/types.go, those that a workflow file holds.
use markov.Prelude.{String, Bool, List, Dict, ℤ}
use markov.Value.{Value, Vars}

pub record Connection : Type 0 where
  pub type : String
  pub base_url : String
  pub model : String
  pub api_key_env : String
  pub api_key_file : String
  pub timeout : ℤ
  pub concurrency : ℤ

pub record Decision : Type 0 where
  pub connection : String
  pub type : String
  pub instructions : Value
  pub criteria : Value
  pub version : String

pub record Rule : Type 0 where
  pub name : String
  pub file : String
  pub description : String
  pub salience : ℤ
  pub when : String
  pub action : String
  pub set_fact : Vars

pub record StepType : Type 0 where
  pub base : String
  pub description : String
  pub defaults : Vars
  pub job : Vars
  pub params : Vars

pub record Artifact : Type 0 where
  pub path : String
  pub format : String
  pub source : String
  pub optional : Bool

-- Free-form YAML stays a map of values; an absent map is the empty one.
pub record Step : Type 0 where
  pub name : String
  pub description : String
  pub type : String
  pub params : Vars
  pub when : String
  pub register : String
  pub timeout : ℤ
  pub for_each : String
  pub for_each_key : String
  pub for_each_sort : String
  pub for_each_when : String
  pub item_name : String  -- `As`
  pub concurrency : ℤ
  pub workflow : String
  pub workflow_names : List String
  pub vars : Vars
  pub artifacts : Dict Artifact
  pub that : List String
  pub msg : String
  pub rules : List String
  pub facts : Vars
  pub ignore_errors : Bool
  pub failed_when : String

pub record Workflow : Type 0 where
  pub name : String
  pub description : String
  pub vars : Vars
  pub steps : List Step
  pub rescue : List Step
  pub always : List Step

pub record WorkflowFile : Type 0 where
  pub connections : Dict Connection
  pub decisions : Dict Decision
  pub entrypoint : String
  pub namespace : String
  pub forks : ℤ
  pub vars : Vars
  pub rules : List Rule
  pub step_types : Dict StepType
  pub workflows : List Workflow
  pub script_dir : String
