-- ===== src/Core.antt =====
-- crates/tig-core: the object model, content hashes and visibility labels.
pub mod Error
pub mod Object
pub mod Tree
pub mod Change
pub mod Vis
pub mod Wire
