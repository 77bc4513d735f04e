-- ===== src/Approval/Discipline.antt =====
-- The lock of the MCA controller and what is done under it.
pub mod Handlers
mod Paths
pub mod Dispatch
