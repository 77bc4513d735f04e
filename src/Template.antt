-- ===== src/Template.antt =====
-- kubernetes/internal/controller/manifestrequesttemplate_controller.go: the controller of the
-- ManifestRequestTemplate (MRT). Paths has the functions on paths that it uses, Compare what it
-- compares of two templates and of two lists of files, Build the objects that it makes; World is
-- the interface of the systems it calls, Queue the queue of revisions, Create the initialization,
-- Revision the work on a revision and Normal the rest of a reconciliation.
pub mod Paths
pub mod Compare
pub mod DeepEqual
pub mod Build
pub mod World
pub mod Queue
pub mod Locking
pub mod Create
pub mod Revision
pub mod Normal
pub mod Texts
pub mod Filter
pub mod NewVersion
pub mod Immutable
pub mod Discipline
