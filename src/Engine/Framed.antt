-- ===== src/Engine/Framed.antt =====
-- Every change that the execution of a workflow makes to the world is one of a `Frame`'s.
pub mod Steps
pub mod Typed
pub mod Nested
pub mod Workflows
