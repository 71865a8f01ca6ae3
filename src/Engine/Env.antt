-- ===== src/Engine/Env.antt =====
-- What pkg/engine uses and does not implement: Go's library, the template engine, the executors,
-- the rule engine, artifact files; and the fields of `Engine` that a run only reads.
use markov.Prelude.{ℕ, String, Bool, Option, List, ℤ, Dict}
use markov.Value.{Value, Vars}
use markov.Failure.{Error, Result}
use markov.Workflow.{WorkflowFile, Step, StepType, Artifact, Decision, Connection}
use markov.Grl.Bytes.{Bytes}
use markov.Engine.FactStore.{FactStore}

-- Functions of Go's standard library. `json_decode` is `json.Unmarshal` into `any`, and
-- `json_decode_numbers` a decoder with `UseNumber`; both give `none` where they fail.
pub record Go : Type 0 where
  pub quote : String → String  -- %q
  pub show : Value → String  -- %v
  pub one_decimal : ℤ → String  -- %.1f of the integer as a float
  pub trim_space : String → String
  pub to_lower : String → String
  pub parse_int : String → Option ℤ
  pub parse_float : String → Option String
  pub float_of_int : ℤ → String
  pub json_encode : Value → String
  pub json_decode : String → Option Value
  pub json_error : String → String  -- the text of the error where `json_decode` gives `none`
  pub json_decode_numbers : String → Option Value
  pub sha256_hex : String → String
  pub step_digest : Step → Option StepType → String  -- sha256 of the JSON of a step definition
  -- the JSON of a decision's identity: step, name, definition, connection, state, refresh
  pub decision_json : String → String → Decision → Connection → Value → Value → Result String
  pub type_name : Value → String  -- %T
  pub quote_bytes : Bytes → String  -- %q
  pub unique_violation : String  -- the driver's text

-- A condition may ask for decisions while it is evaluated, by the functions under `jev`: the kind,
-- the decision's name, its input and the refresh tokens.
pub data Condition : Type 0 where
  answered : Result Bool → Condition
  ask : String → String → Value → List Value → (Result Value → Condition) → Condition

-- `template.Engine`
pub record Template : Type 0 where
  pub render : String → Vars → Result String
  pub render_map : Vars → Vars → Result Vars
  pub eval : String → Vars → Result Value
  pub eval_bool : String → Vars → Result Bool
  pub eval_condition : String → Vars → Condition

pub data Report : Type 0 where
  job : String → String → Report  -- name, namespace
  progress : String → Vars → Report

-- What one call of an executor does: its output (`none` is the nil map), its error, its reports.
pub record Execution : Type 0 where
  pub output : Option Vars
  pub error : Option Error
  pub reports : List Report

-- The call is given the clock, so that two calls with the same parameters may differ.
pub record Executor : Type 0 where
  pub execute : ℕ → Vars → Execution
  pub is_k8s_job : Bool

pub data IntegrityMode : Type 0 where
  warn strict off : IntegrityMode

pub record RewindTarget : Type 0 where
  pub workflow : String
  pub step : String

pub record Env : Type 0 where
  pub go : Go
  pub file : WorkflowFile
  pub tmpl : Template
  pub executors : Dict Executor
  pub forks : ℕ
  pub run_id : String
  pub new_id : ℕ → String  -- a fresh id
  pub source_path : String
  pub integrity_mode : IntegrityMode
  pub source_tree : ℕ → Result String  -- the digest of the source tree
  pub rewind : List RewindTarget
  pub rewind_changed : Bool
  pub load_artifacts : ℕ → Dict Artifact → Vars → Result Value
  -- loads rules from GRL text and runs them on the facts
  pub run_rules : Bytes → FactStore → Result FactStore
  -- at a clock reading, the positions of the running items that end now, each in the list that
  -- the ones before it leave
  pub schedule : ℕ → List ℕ
