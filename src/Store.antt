-- ===== src/Store.antt =====
-- crates/tig-store: what a repository keeps on disk. Each directory of files is a map; a file
-- holds what was last written to it, and the file system itself does not fail.
pub mod Error
pub mod Repo
pub mod Objects
pub mod Refs
pub mod Workspace
pub mod OpLog
pub mod LogFile
pub mod Undo
pub mod Gc
