-- ===== src/Vis/Seal/Laws.antt =====
-- Who can open a sealed value, and at which path.
use tig.Prelude.{
  ℕ, suc, ◌≤◌, Bytes, contains, ◌==◌, eq_iff, eq_refl, eq_false, ◌⊎◌, ◌≡◌, ◌≢◌, refl, sym,
  Bool-cases, true, false, none, some, List, [], ◌∷◌, ◌++◌, length, inl, inr, ok, err, arith,
}
use tig.Core.Wire.{Sealed, SealAlgo, RecipientWrap, recipient_for, find_wrap}
use tig.Vis.Error.{VisError}
use tig.Vis.Libs.{Libs, CanSeal, max_message}
use tig.Vis.Keys.{public, dh}
use tig.Vis.Seal.{Random, hkdf_info, wrap_for, wraps, seal, unseal}

-- Random values have the lengths of the arrays that they fill.
pub record IsRandom (r : Random) : Type 0 where
  pub data_key_length : length r.data_key ≡ 32
  pub wrap_nonce_length : (i : ℕ) → length (r.wrap_nonce i) ≡ 24
  pub payload_nonce_length : length r.payload_nonce ≡ 24

module _ (l : Libs) (can : CanSeal l) (r : Random) (random : IsRandom r) (aad : Bytes) where
  -- A wrap that gives the holder of a key the data key.
  record Opens (pk : Bytes) (wrap : RecipientWrap) : Type 0 where
    k : Bytes
    nonce_length : length wrap.wrap_nonce ≡ 24
    derives : l.hkdf (dh l r.eph_secret pk) hkdf_info ≡ some k
    unwraps : l.decrypt k wrap.wrap_nonce wrap.wrapped_key (aad ++ pk) ≡ some r.data_key

  record WrapFor (i : ℕ) (rpk : Bytes) : Type 0 where
    wrap : RecipientWrap
    run : wrap_for l r aad i rpk ≡ ok wrap
    pk_eq : wrap.recipient_pk ≡ rpk
    opens : Opens rpk wrap

  wrap_for_lem : (i : ℕ) (rpk : Bytes) → WrapFor i rpk
  wrap_for_lem i rpk =
      let (k, derived, long) = can.derives (dh l r.eph_secret rpk) hkdf_info in
      let (c, encrypted, decrypted) =
        can.encrypts k (r.wrap_nonce i) r.data_key (aad ++ rpk) long (random.wrap_nonce_length i)
          (omega (arith, random.data_key_length)) in
      record {
        wrap = record { recipient_pk = rpk; wrapped_key = c; wrap_nonce = r.wrap_nonce i };
        run = rw (derived, encrypted) refl;
        pk_eq = refl;
        opens = record {
          k = k;
          nonce_length = random.wrap_nonce_length i;
          derives = derived;
          unwraps = decrypted;
        };
      }

  record Wraps (i : ℕ) (rpks : List Bytes) : Type 0 where
    ws : List RecipientWrap
    run : wraps l r aad i rpks ≡ ok ws
    found :
        (pk : Bytes)
        → contains pk rpks ≡ true
        → (wrap : RecipientWrap) × (find_wrap pk ws ≡ some wrap) × Opens pk wrap
    missing : (pk : Bytes) → contains pk rpks ≡ false → find_wrap pk ws ≡ none

  wraps_lem : (i : ℕ) (rpks : List Bytes) → Wraps i rpks
  unfolding wraps find_wrap contains
  wraps_lem i [] = record {
    ws = [];
    run = refl;
    found = λ pk h. absurd (ground arith);
    missing = λ pk h. refl;
  }
  wraps_lem i (rpk ∷ rpks) =
      let first = wrap_for_lem i rpk in
      let rest = wraps_lem (suc i) rpks in
      record {
        ws = first.wrap ∷ rest.ws;
        run = rw (first.run, rest.run) refl;
        found = λ pk h. elim (Bool-cases (rpk == pk)) [
          | inl same ↦
              (first.wrap, rw (first.pk_eq, same) refl, rw (← (eq_iff rpk pk).0 same) first.opens)
          | inr other ↦
              let (wrap, there, opens) =
                rest.found pk (ground (arith, h, other, eq_iff pk rpk, eq_iff rpk pk)) in
              (wrap, rw (first.pk_eq, other) there, opens)
        ];
        missing =
            λ pk h. ground (arith, h, first.pk_eq, eq_iff pk rpk, eq_iff rpk pk, rest.missing pk);
      }

  -- What sealing for at least one recipient leaves.
  record SealedFor (plaintext : Bytes) (rpks : List Bytes) : Type 0 where
    sealed : Sealed
    run : seal l r plaintext rpks aad ≡ ok sealed
    opens :
        (sk : Bytes) → contains (public l sk) rpks ≡ true → unseal l sealed sk aad ≡ ok plaintext
    keeps_out :
        (sk : Bytes)
        → contains (public l sk) rpks ≡ false
        → unseal l sealed sk aad ≡ err VisError.not_a_recipient
    bound : (sk path : Bytes) → path ≢ aad → unseal l sealed sk path ≡ err VisError.auth_failure

  seal-SealedFor :
      (plaintext rpk : Bytes) (rpks : List Bytes)
      → length plaintext ≤ max_message
      → SealedFor plaintext (rpk ∷ rpks)
  unfolding seal unseal recipient_for
  seal-SealedFor plaintext rpk rpks short =
      let ws = wraps_lem 0 (rpk ∷ rpks) in
      let (c, encrypted, decrypted) =
        can.encrypts r.data_key r.payload_nonce plaintext aad random.data_key_length
          random.payload_nonce_length short in
      record {
        sealed = record {
          algo = SealAlgo.x25519_xchacha20_poly1305;
          ephemeral_pk = public l r.eph_secret;
          recipients = ws.ws;
          ciphertext = c;
          nonce = r.payload_nonce;
          aad = aad;
        };
        run = rw (ws.run, encrypted) refl;
        opens = λ sk h.
            let (wrap, there, opens) = ws.found (public l sk) h in
            rw
              (
                can.public_length r.eph_secret,
                random.payload_nonce_length,
                eq_refl aad,
                there,
                opens.nonce_length,
                can.agree sk r.eph_secret,
                opens.derives,
                opens.unwraps,
                random.data_key_length,
                decrypted,
              )
              refl;
        keeps_out = λ sk h.
            rw
              (
                can.public_length r.eph_secret,
                random.payload_nonce_length,
                eq_refl aad,
                ws.missing (public l sk) h,
              )
              refl;
        bound = λ sk path other.
            rw
              (
                can.public_length r.eph_secret,
                random.payload_nonce_length,
                eq_false aad path (λ e. other (sym e)),
              )
              refl;
      }

  -- With ciphers that undo each other, random values of the lengths that they need and a plaintext
  -- within the cipher's limit, sealing for a non-empty list of recipients succeeds, and each of
  -- the recipients unseals the plaintext at the same path.
  pub unseal-seal :
      (plaintext rpk : Bytes) (rpks : List Bytes) (sk : Bytes)
      → length plaintext ≤ max_message
      → contains (public l sk) (rpk ∷ rpks) ≡ true
      → (sealed : Sealed) × (seal l r plaintext (rpk ∷ rpks) aad ≡ ok sealed)
        × (unseal l sealed sk aad ≡ ok plaintext)
  unseal-seal plaintext rpk rpks sk short h =
      let s = seal-SealedFor plaintext rpk rpks short in (s.sealed, s.run, s.opens sk h)

  -- Under the same conditions, unsealing at another path, or with a key that is not among the
  -- recipients, is refused as a failed authentication or as not a recipient.
  pub unseal-seal_refused :
      (plaintext rpk : Bytes) (rpks : List Bytes) (sk path : Bytes)
      → length plaintext ≤ max_message
      → (path ≢ aad) ⊎ (contains (public l sk) (rpk ∷ rpks) ≡ false)
      → (sealed : Sealed) × (seal l r plaintext (rpk ∷ rpks) aad ≡ ok sealed)
        × ((unseal l sealed sk path ≡ err VisError.auth_failure)
            ⊎ (unseal l sealed sk path ≡ err VisError.not_a_recipient))
  unseal-seal_refused plaintext rpk rpks sk path short h =
      let s = seal-SealedFor plaintext rpk rpks short in
      (
        s.sealed,
        s.run,
        elim (Bool-cases (path == aad)) [
          | inl same ↦ rw ((eq_iff path aad).0 same) (elim h [
            | inl other ↦ absurd (other ((eq_iff path aad).0 same))
            | inr outside ↦ inr (s.keeps_out sk outside)
          ])
          | inr other ↦ inl (s.bound sk path (λ e. ground (arith, other, e, eq_iff path aad)))
        ],
      )
