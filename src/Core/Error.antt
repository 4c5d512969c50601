-- ===== src/Core/Error.antt =====
-- crates/tig-core/src/error.rs. The message texts are left out.
use tig.Prelude.{ℕ, Bytes}

pub data CoreError : Type 0 where
  encode : CoreError
  decode : CoreError
  hash_mismatch : Bytes → Bytes → CoreError
  invalid_hex : CoreError
  invalid_kind : ℕ → CoreError
  invalid_path_component : CoreError
