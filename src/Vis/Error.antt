-- ===== src/Vis/Error.antt =====
-- crates/tig-vis/src/error.rs. The message texts and names are left out.
use tig.Core.Error.{CoreError}

pub data VisError : Type 0 where
  io json hex crypto : VisError
  core : CoreError → VisError
  identity_not_found identity_already_exists secret_missing : VisError
  not_a_recipient auth_failure unsupported_algo malformed_sealed : VisError
