-- ===== src/Repository.antt =====
-- kubernetes/internal/repository: the provider of a Git repository, which the controllers reach
-- through the manager. Files: what is read of Git's trees; Changes: the listing of changed files.
pub mod Files
pub mod Changes
pub mod Root
pub mod World
pub mod Sync
pub mod Folders
pub mod Keys
pub mod Push
pub mod GovernorSignature
pub mod Fetch
pub mod Keeps
pub mod Mutex
pub mod Reading
pub mod Rollback
pub mod Pushes
pub mod Decrypted
pub mod Summary
pub mod Providers
