-- ===== src/Core/Object.antt =====
-- crates/tig-core/src/object.rs and hash.rs: object kinds, raw objects, the encode/decode contract.
-- `blake3` and the CBOR codec are third-party code, taken as parameters.
use tig.Prelude.{
  ℕ, Bytes, ◌==◌, ◌≡◌, refl, Bool, Option, some, ◌∷◌, nat_eq, if◌then◌else◌, Result, ok, err, ok_or,
  arith,
}
use tig.Core.Error.{CoreError}

-- A BLAKE3-256 digest, as its bytes.
abbrev pub Hash : Type 0
Hash = Bytes

pub data ObjectKind : Type 0 where
  blob tree snapshot sealed conflict : ObjectKind

-- `kind as u8`
abbrev pub tag : ObjectKind → ℕ
tag ObjectKind.blob = 1
tag ObjectKind.tree = 2
tag ObjectKind.snapshot = 3
tag ObjectKind.sealed = 4
tag ObjectKind.conflict = 5

unfoldable pub from_tag : ℕ → Result CoreError ObjectKind
from_tag b =
    if nat_eq b 1
    then ok ObjectKind.blob
    else if nat_eq b 2
    then ok ObjectKind.tree
    else if nat_eq b 3
    then ok ObjectKind.snapshot
    else if nat_eq b 4
    then ok ObjectKind.sealed
    else if nat_eq b 5
    then ok ObjectKind.conflict
    else err (CoreError.invalid_kind b)

abbrev pub kind_eq : ObjectKind → ObjectKind → Bool
kind_eq a b = nat_eq (tag a) (tag b)

pub record RawObject : Type 0 where
  pub kind : ObjectKind
  pub bytes : Bytes

module _ (blake3 : Bytes → Hash) where
  -- the digest of the kind tag and the payload
  unfoldable pub compute : ObjectKind → Bytes → Hash
  compute kind payload = blake3 (tag kind ∷ payload)

  unfoldable pub hash : RawObject → Hash
  unfolding compute
  hash raw = compute raw.kind raw.bytes

  unfoldable pub verify : RawObject → Hash → Result CoreError (Unit {0})
  verify raw claimed =
      let actual = hash raw in
      if actual == claimed then ok tt else err (CoreError.hash_mismatch claimed actual)

-- The serializer of one object type: `canonical_encode` and `ciborium::de::from_reader`.
pub record Codec (A : Type 0) : Type 0 where
  pub to_bytes : A → Bytes
  pub from_bytes : Bytes → Option A

-- What is written is read back.
pub record RoundTrips {A : Type 0} (c : Codec A) : Type 0 where
  pub back : (a : A) → c.from_bytes (c.to_bytes a) ≡ some a

module _ {A : Type 0} (kind : ObjectKind) (c : Codec A) where
  unfoldable pub encode : A → RawObject
  encode a = record { kind = kind; bytes = c.to_bytes a }

  unfoldable pub decode : RawObject → Result CoreError A
  decode raw =
      if kind_eq raw.kind kind
      then ok_or CoreError.decode (c.from_bytes raw.bytes)
      else err CoreError.decode

  pub decode-encode : RoundTrips c → (a : A) → decode (encode a) ≡ ok a
  unfolding encode decode
  decode-encode r a = ground (arith, r.back a)

  -- Decoding accepts only objects of the declared kind.
  pub decode-kind : (raw : RawObject) {a : A} → decode raw ≡ ok a → raw.kind ≡ kind
  unfolding decode
  decode-kind raw h = ground arith

pub from_tag-tag : (k : ObjectKind) → from_tag (tag k) ≡ ok k
unfolding from_tag
from_tag-tag ObjectKind.blob = refl
from_tag-tag ObjectKind.tree = refl
from_tag-tag ObjectKind.snapshot = refl
from_tag-tag ObjectKind.sealed = refl
from_tag-tag ObjectKind.conflict = refl

pub tag-from_tag : (b : ℕ) (k : ObjectKind) → from_tag b ≡ ok k → tag k ≡ b
unfolding from_tag
tag-from_tag b k h = ground arith
