-- ===== src/Kernel.antt =====
-- The control kernel: src/kernel and src/core/kernel-failure.ts.
pub mod Failure
pub mod Status
pub mod Availability
pub mod Model
pub mod Snapshot
pub mod Select
pub mod Decide
