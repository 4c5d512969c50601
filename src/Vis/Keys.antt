-- ===== src/Vis/Keys.antt =====
-- crates/tig-vis/src/keys.rs: keys as their bytes, and their hexadecimal texts.
use tig.Prelude.{
  ℕ, Bytes, Text, Bool, not, nat_eq, length, if◌then◌else◌, Result, ok, err, and_then, ok_or,
}
use tig.Vis.Error.{VisError}
use tig.Vis.Libs.{Libs}

-- A decoded text that has to have so many bytes.
abbrev pub of_length : ℕ → Bytes → Result VisError Bytes
of_length n bytes = if not (nat_eq (length bytes) n) then err VisError.crypto else ok bytes

module _ (l : Libs) where
  abbrev from_hex_of : ℕ → Text → Result VisError Bytes
  from_hex_of n s = and_then (ok_or VisError.hex (l.hex_decode s)) (of_length n)

  abbrev pub public_key_from_hex : Text → Result VisError Bytes
  public_key_from_hex s = from_hex_of 32 s

  abbrev pub secret_key_from_hex : Text → Result VisError Bytes
  secret_key_from_hex s = from_hex_of 32 s

  abbrev pub sign_public_key_from_hex : Text → Result VisError Bytes
  sign_public_key_from_hex s = from_hex_of 32 s

  abbrev pub sign_secret_key_from_hex : Text → Result VisError Bytes
  sign_secret_key_from_hex s = from_hex_of 32 s

  abbrev pub signature_from_hex : Text → Result VisError Bytes
  signature_from_hex s = from_hex_of 64 s

  abbrev pub to_hex : Bytes → Text
  to_hex key = l.hex_encode key

  abbrev pub public : Bytes → Bytes
  public secret = l.x25519_public secret

  abbrev pub dh : Bytes → Bytes → Bytes
  dh secret peer = l.x25519 secret peer

  abbrev pub sign_public : Bytes → Bytes
  sign_public secret = l.ed25519_public secret

  abbrev pub sign : Bytes → Bytes → Bytes
  sign secret msg = l.ed25519_sign secret msg

  -- A key that is no point of the curve verifies nothing; the parameter covers that.
  abbrev pub verify : Bytes → Bytes → Bytes → Bool
  verify pubkey msg sig = l.ed25519_verify pubkey msg sig
