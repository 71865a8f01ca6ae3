-- ===== src/Executor.antt =====
-- pkg/executor: the executors whose work is more than a call of another program.
pub mod Prompt
