-- ===== src/Execution.antt =====
-- src/execution: the parts that judge what an agent returns.
pub mod Completion
