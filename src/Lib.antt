-- ===== src/Lib.antt =====
-- The Markov workflow engine: workflows of steps from YAML files, run with durable state, so that a
-- run can be paused by a gate, resumed, and rewound.
--
-- How the program works. pkg/parser reads a file into records. pkg/engine executes a workflow of it:
-- the steps in order, then the `rescue` handlers if a step failed, then the `always` handlers. A
-- step sets facts, asserts conditions, evaluates a gate, loads artifacts, calls an executor, calls
-- another workflow as a sub-run, or does one of these for each item of a list. Each step leaves a
-- record in the tables of pkg/state; a resumed run replays the completed records in place of running
-- the steps again. Events go to the callbacks of pkg/callback.
--
-- Which file models what:
--   * Value: the values of variables (Go's `any` as the program uses it).
--   * Failure: errors of pkg/engine: messages, wrapped and joined errors, `PauseError`.
--   * Workflow, Workflow/Types: pkg/parser/types.go, and `GetWorkflow`, `GetRule`,
--     `ResolveStepType` of pkg/parser/parser.go. Workflow/Layers has its laws.
--   * Parser: `validate` of pkg/parser/parser.go; Parser/Jev: the checks of pkg/parser/jev.go and
--     `Validate` of pkg/jev/types.go. Parser/Valid, Accepted and Resolves: proofs.
--     Parser/Reading: `readYAML` and the loops over files, over a file system and a YAML decoder
--     that are given; Parser/Loading: `ParseFile`, `ParseDir` and their parts. Its Merging, Sources,
--     Defaults and Loaded: proofs.
--   * State: the rows of pkg/state/store.go and the statements of pkg/state/sqlite.go as functions
--     on three tables. State/Rows, State/Keys and State/Deletes have their laws.
--   * Grl: pkg/engine/grltranslate.go (Lexer: `tokenize`; Translate: `translateTokens`; Compile:
--     `compileRuleToGRL`), over bytes, since the lexer indexes bytes.
--   * Engine/FactStore, Facts, Gate, Decision, Rewind: the files factstore.go, facts.go, gate.go,
--     jev.go and rewind.go of pkg/engine.
--   * Engine/Context, Records, K8sName, StepTypes, Execute, Step, SubWorkflow, ForEach, Lifecycle,
--     Runs, Resume: pkg/engine/engine.go, from its helpers up to `Run` and `ResumeWithVars`.
--     K8sName/Safe and K8sName/Length have the laws of the names of jobs.
--   * Engine/Debug: pkg/engine/debug.go. Points: breakpoints and how they are resolved; Places: where
--     a run is; Core: the debugger's state, commands and events; Asking: `match`; Control: the
--     commands; Pausing: the critical sections of `pause`; System: their interleavings.
--   * Engine/World: the state that a run changes (tables, clock, events, variables), and the monad
--     of actions on it that may fail. What was written before an error stays written.
--   * Engine/Env: what the engine uses and does not implement: Go's library, the template engine,
--     the executors, the rule engine, artifact files, the source tree; and the fields of `Engine`
--     that a run only reads.
--   * Engine/Keeps, Framed, RunRows, Keyed, Outcome, Depth and the children of the modules
--     above: proofs.
--   * Template: pkg/template/template.go, over what pongo2 does with a template (Filters: the filters
--     that it registers). Executor/Prompt: pkg/executor/prompt.go, over the lines of the terminal.
--   * Examples: a small workflow file, and the theorems at it.
--
-- A method on `*Engine` is a function of an `Env`; the function's local variables are those of the
-- model; `runCtx` is the field `vars` of the world. The clock is a number that each `time.Now()`
-- advances, and the executors, the artifact files and the source tree are given it, so that two
-- calls of them may differ.
--
-- Bounds. A workflow can call itself, so `execute_workflow` takes a depth, and returns the error
-- `too_deep` where it is used up; the theorems hold at every depth. The functions on the tree of
-- runs take a depth too. The lexer's rounds are the length of its text, which is enough.
--
-- For each: an item's body is one action, and the environment's schedule says, at each point where
-- the dispatcher can be overtaken, which of the running items end there. The theorems hold for every
-- schedule. What two items write while both run is not interleaved. ForEach/System is an abstract
-- specification of this loop and not a translation of it.
--
-- The debugger: each critical section is one transition, and so is each event and each hand-over on
-- a channel; the engine itself is modelled with no debugger attached.
--
-- Not modelled: time limits, logging, failing writes to the store, the delivery of events, and the
-- executors other than the prompt.
pub mod Examples
pub mod Prelude
pub mod Value
pub mod Failure
pub mod Workflow
pub mod Parser
pub mod State
pub mod Grl
pub mod Engine
pub mod Template
pub mod Executor
