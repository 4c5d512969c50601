-- ===== src/Daemon.antt =====
-- crates/tigd: the daemon's handlers. The caller's principal, resolved from the request's headers,
-- is an argument; the texts of errors are left out.
pub mod Error
pub mod Access
pub mod Caller
pub mod Oplog
pub mod Edit
pub mod Read
pub mod Manage
