-- ===== src/Vis/Seal.antt =====
-- crates/tig-vis/src/seal.rs: encryption to several recipients, bound to a path. What is random is an
-- argument.
pub mod Laws
use tig.Prelude.{
  ℕ, suc, Bytes, text, ◌==◌, Bool, true, false, not, Option, none, some, List, [], ◌∷◌, ◌++◌,
  nat_eq, length, if◌then◌else◌, Result, ok, err, and_then, ok_or,
}
use tig.Core.Wire.{Sealed, SealAlgo, RecipientWrap, recipient_for}
use tig.Vis.Error.{VisError}
use tig.Vis.Libs.{Libs}
use tig.Vis.Keys.{public, dh}

abbrev pub hkdf_info : Bytes
hkdf_info = text "tig-seal:wrap:v1"

-- The ephemeral secret, the data key, the nonce of each wrap and that of the payload.
pub record Random : Type 0 where
  pub eph_secret : Bytes
  pub data_key : Bytes
  pub wrap_nonce : ℕ → Bytes
  pub payload_nonce : Bytes

abbrev pub refuse : Bool → VisError → Result VisError (Unit {0})
refuse b e = if b then err e else ok tt

abbrev pub has_length : ℕ → Bytes → Bool
has_length n bytes = nat_eq (length bytes) n

module _ (l : Libs) where
  abbrev pub derive_wrap_key : Bytes → Result VisError Bytes
  derive_wrap_key shared = ok_or VisError.crypto (l.hkdf shared hkdf_info)

  abbrev pub wrap_for : Random → Bytes → ℕ → Bytes → Result VisError RecipientWrap
  wrap_for r aad i rpk = and_then (derive_wrap_key (dh l r.eph_secret rpk)) λ wrap_key.
      and_then (ok_or VisError.crypto (l.encrypt wrap_key (r.wrap_nonce i) r.data_key (aad ++ rpk)))
        λ wrapped.
          ok (record { recipient_pk = rpk; wrapped_key = wrapped; wrap_nonce = r.wrap_nonce i })

  -- The loop over the recipients.
  unfoldable pub wraps : Random → Bytes → ℕ → List Bytes → Result VisError (List RecipientWrap)
  wraps r aad i [] = ok []
  wraps r aad i (rpk ∷ rpks) =
      and_then (wrap_for r aad i rpk)
        λ wrap. and_then (wraps r aad (suc i) rpks) λ rest. ok (wrap ∷ rest)

  abbrev seal_payload : Random → Bytes → Bytes → List RecipientWrap → Result VisError Sealed
  seal_payload r plaintext aad recipients =
      and_then (ok_or VisError.crypto (l.encrypt r.data_key r.payload_nonce plaintext aad))
        λ ciphertext. ok (record {
          algo = SealAlgo.x25519_xchacha20_poly1305;
          ephemeral_pk = public l r.eph_secret;
          recipients = recipients;
          ciphertext = ciphertext;
          nonce = r.payload_nonce;
          aad = aad;
        })

  unfoldable pub seal : Random → Bytes → List Bytes → Bytes → Result VisError Sealed
  unfolding wraps
  seal r plaintext [] aad = err VisError.crypto
  seal r plaintext (rpk ∷ rpks) aad =
      and_then (wraps r aad 0 (rpk ∷ rpks)) (seal_payload r plaintext aad)

  abbrev unseal_payload : Sealed → Bytes → Bytes → Result VisError Bytes
  unseal_payload sealed aad data_key =
      and_then (refuse (not (has_length 32 data_key)) VisError.malformed_sealed)
        λ _. ok_or VisError.auth_failure (l.decrypt data_key sealed.nonce sealed.ciphertext aad)

  abbrev unwrap : Sealed → Bytes → Bytes → RecipientWrap → Result VisError Bytes
  unwrap sealed my_secret aad wrap =
      and_then (refuse (not (has_length 24 wrap.wrap_nonce)) VisError.malformed_sealed) λ _.
        and_then (derive_wrap_key (dh l my_secret sealed.ephemeral_pk)) λ wrap_key.
          and_then
            (ok_or VisError.auth_failure
              (l.decrypt wrap_key wrap.wrap_nonce wrap.wrapped_key (aad ++ public l my_secret)))
            (unseal_payload sealed aad)

  -- There is one algorithm, so none is unsupported.
  unfoldable pub unseal : Sealed → Bytes → Bytes → Result VisError Bytes
  unfolding recipient_for
  unseal sealed my_secret aad =
      and_then (refuse (not (has_length 32 sealed.ephemeral_pk)) VisError.malformed_sealed) λ _.
        and_then (refuse (not (has_length 24 sealed.nonce)) VisError.malformed_sealed) λ _.
          and_then (refuse (not (sealed.aad == aad)) VisError.auth_failure) λ _.
            and_then (ok_or VisError.not_a_recipient (recipient_for sealed (public l my_secret)))
              (unwrap sealed my_secret aad)
