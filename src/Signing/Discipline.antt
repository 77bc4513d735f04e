-- ===== src/Signing/Discipline.antt =====
-- The logic of the MSR controller under its lock.
pub mod Handlers
pub mod Paths
pub mod Dispatch
