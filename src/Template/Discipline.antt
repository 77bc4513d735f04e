-- ===== src/Template/Discipline.antt =====
-- The logic of the MRT controller under its lock.
pub mod Handlers
pub mod Locks
pub mod Initial
pub mod Work
pub mod Dispatch
