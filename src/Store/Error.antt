-- ===== src/Store/Error.antt =====
-- crates/tig-store/src/error.rs. The message texts are left out.
use tig.Core.Error.{CoreError}

pub data StoreError : Type 0 where
  io not_found already_exists json corrupt : StoreError
  core : CoreError → StoreError
