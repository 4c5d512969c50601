-- ===== src/Core/Wire.antt =====
-- crates/tig-core/src/{blob,snapshot,sealed}.rs, and the third-party code that the object model
-- rests on: BLAKE3, and the CBOR serializer of each object type.
use tig.Prelude.{ℕ, Bytes, Text, ◌==◌, ◌≡◌, Option, none, some, List, [], ◌∷◌, if◌then◌else◌}
use tig.Core.Object.{Hash, Codec, RoundTrips}
use tig.Core.Vis.{PrincipalId}
use tig.Core.Tree.{Tree}

pub record Blob : Type 0 where
  pub bytes : Bytes

pub record Snapshot : Type 0 where
  pub parents : List Hash
  pub tree : Hash
  pub author : PrincipalId
  pub timestamp_ns : ℕ
  pub message : Option Text
  pub op_id : Option ℕ

pub data SealAlgo : Type 0 where
  x25519_xchacha20_poly1305 : SealAlgo

pub record RecipientWrap : Type 0 where
  pub recipient_pk : Bytes
  pub wrapped_key : Bytes
  pub wrap_nonce : Bytes

pub record Sealed : Type 0 where
  pub algo : SealAlgo
  pub ephemeral_pk : Bytes
  pub recipients : List RecipientWrap
  pub ciphertext : Bytes
  pub nonce : Bytes
  pub aad : Bytes

unfoldable pub find_wrap : Bytes → List RecipientWrap → Option RecipientWrap
find_wrap pk [] = none
find_wrap pk (r ∷ rs) = if r.recipient_pk == pk then some r else find_wrap pk rs

unfoldable pub recipient_for : Sealed → Bytes → Option RecipientWrap
unfolding find_wrap
recipient_for s pk = find_wrap pk s.recipients

-- The digest and the serializers. Serializing these plain records does not fail.
pub record Wire : Type 0 where
  pub blake3 : Bytes → Hash
  pub blob : Codec Blob
  pub tree : Codec Tree
  pub snapshot : Codec Snapshot
  pub sealed : Codec Sealed

-- What the program relies on: no two byte strings that it hashes collide, and each serializer is
-- undone by its parser.
pub record IsSound (w : Wire) : Type 0 where
  pub collision_free : (a b : Bytes) → w.blake3 a ≡ w.blake3 b → a ≡ b
  pub blob : RoundTrips w.blob
  pub tree : RoundTrips w.tree
  pub snapshot : RoundTrips w.snapshot
  pub sealed : RoundTrips w.sealed
