-- ===== src/Signing.antt =====
-- kubernetes/internal/controller/manifestsigningrequest_controller.go: the controller of the
-- ManifestSigningRequest (MSR), by the systems it calls (World), its lock (Locking), what it stores
-- in Git (Save), its initialization (Create), the reconciliation of a new version (NewSpec), the
-- check of the signatures (Fulfillment) and the rest of a reconciliation (Normal).
pub mod World
pub mod Locking
pub mod Save
pub mod Create
pub mod NewSpec
pub mod Fulfillment
pub mod Normal
pub mod Approved
pub mod Marked
pub mod Discipline
