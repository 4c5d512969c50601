-- ===== src/Fs.antt =====
-- crates/tig-fs: editing trees and taking snapshots through the object store.
pub mod Action
pub mod TreeEdit
pub mod Snap
pub mod Utf8
pub mod Workdir
pub mod Scan
pub mod Materialize
pub mod Restore
pub mod Diff
pub mod SnapNow
