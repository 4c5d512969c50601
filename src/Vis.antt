-- ===== src/Vis.antt =====
-- crates/tig-vis: identities, sealed values and bearer tokens.
pub mod Error
pub mod Libs
pub mod Keys
pub mod Seal
pub mod Tokens
pub mod Principals
