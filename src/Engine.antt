-- ===== src/Engine.antt =====
-- pkg/engine: the execution of workflows.
pub mod FactStore
pub mod Env
pub mod World
pub mod Context
pub mod Facts
pub mod Gate
pub mod Records
pub mod Decision
pub mod K8sName
pub mod StepTypes
pub mod Execute
pub mod SubWorkflow
pub mod ForEach
pub mod Step
pub mod Lifecycle
pub mod Runs
pub mod Rewind
pub mod Debug
pub mod Resume
pub mod Keeps
pub mod Framed
pub mod RunRows
pub mod Keyed
pub mod Depth
pub mod Outcome
