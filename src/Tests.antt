-- ===== src/Tests.antt =====
-- Runs of the development on small concrete repositories.
pub mod Format
pub mod Wire
pub mod OpFormat
pub mod VisLibs
pub mod Identities
pub mod Data
pub mod Trees
pub mod Objects
pub mod History
pub mod Gc
pub mod Edits
pub mod Logs
pub mod Workdirs
pub mod Diffs
pub mod Handlers
