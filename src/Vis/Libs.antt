-- ===== src/Vis/Libs.antt =====
-- The third-party code below crates/tig-vis/src, and the records that its JSON serializer writes.
use tig.Prelude.{ℕ, ◌-◌, ◌^◌, ◌≤◌, Bytes, Text, Bool, true, false, ◌≡◌, Option, some, ◌∷◌, length}
use tig.Core.Tree.{contains_byte}
use tig.Core.Object.{Codec, RoundTrips}

pub data PrincipalKind : Type 0 where
  user agent bot system : PrincipalKind

-- A public key as its bytes.
pub record Principal : Type 0 where
  pub id : Text
  pub kind : PrincipalKind
  pub pubkey : Bytes
  pub secret_hex : Option Text
  pub sign_pubkey_hex : Option Text
  pub sign_secret_hex : Option Text

pub record Claims : Type 0 where
  pub sub : Text
  pub exp : ℕ

-- Hexadecimal and base64 texts, JSON, X25519, HKDF-SHA256, XChaCha20-Poly1305 (key, nonce, message,
-- additional data) and Ed25519. Serializing the two records does not fail.
pub record Libs : Type 0 where
  pub hex_encode : Bytes → Text
  pub hex_decode : Text → Option Bytes
  pub b64_encode : Bytes → Text
  pub b64_decode : Text → Option Bytes
  pub claims_json : Codec Claims
  pub principal_json : Codec Principal
  pub x25519_public : Bytes → Bytes
  pub x25519 : Bytes → Bytes → Bytes
  pub hkdf : Bytes → Bytes → Option Bytes
  pub encrypt : Bytes → Bytes → Bytes → Bytes → Option Bytes
  pub decrypt : Bytes → Bytes → Bytes → Bytes → Option Bytes
  pub ed25519_public : Bytes → Bytes
  pub ed25519_sign : Bytes → Bytes → Bytes
  pub ed25519_verify : Bytes → Bytes → Bytes → Bool

-- The longest message of XChaCha20-Poly1305.
abbrev pub max_message : ℕ
max_message = 2 ^ 38 - 64

-- Both sides of a key exchange agree, a key can be derived, and what is encrypted is decrypted with
-- the same key, nonce and additional data.
pub record CanSeal (l : Libs) : Type 0 where
  pub public_length : (sk : Bytes) → length (l.x25519_public sk) ≡ 32
  pub agree : (a b : Bytes) → l.x25519 a (l.x25519_public b) ≡ l.x25519 b (l.x25519_public a)
  pub derives :
      (shared info : Bytes) → (k : Bytes) × (l.hkdf shared info ≡ some k) × (length k ≡ 32)
  pub encrypts :
      (k n m a : Bytes)
      → length k ≡ 32
      → length n ≡ 24
      → length m ≤ max_message
      → (c : Bytes) × (l.encrypt k n m a ≡ some c) × (l.decrypt k n c a ≡ some m)

-- Signatures are 64 bytes long and verify, and the texts of JSON and base64 are read back. A base64
-- text has no dot, and is not empty unless it encodes nothing; a JSON text is not empty.
pub record CanSign (l : Libs) : Type 0 where
  pub signature_length : (sk m : Bytes) → length (l.ed25519_sign sk m) ≡ 64
  pub verifies :
      (sk m : Bytes) → l.ed25519_verify (l.ed25519_public sk) m (l.ed25519_sign sk m) ≡ true
  pub b64_back : (b : Bytes) → l.b64_decode (l.b64_encode b) ≡ some b
  pub b64_no_dot : (b : Bytes) → contains_byte b'.' (l.b64_encode b) ≡ false
  pub b64_filled : (x : ℕ) (b : Bytes) → (c : ℕ) × (t : Text) × (l.b64_encode (x ∷ b) ≡ c ∷ t)
  pub claims_back : RoundTrips l.claims_json
  pub claims_filled : (c : Claims) → (x : ℕ) × (b : Bytes) × (l.claims_json.to_bytes c ≡ x ∷ b)
