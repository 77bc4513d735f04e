-- ===== src/Approval.antt =====
-- kubernetes/internal/controller/manifestchangeapproval_controller.go: the controller of the
-- ManifestChangeApproval (MCA), by the systems it calls (World), what it stores in Git (Save), its
-- initialization (Create) and the rest of a reconciliation (Normal).
pub mod World
pub mod Save
pub mod Create
pub mod Normal
pub mod Discipline
