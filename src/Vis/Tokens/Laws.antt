-- ===== src/Vis/Tokens/Laws.antt =====
-- What a token that is accepted has been checked for.
use tig.Prelude.{
  ℕ, ◌<◌, Bytes, Text, ◌≡◌, refl, sym, ◌∙◌, Bool-cases, true, false, Option-cases, some, [], ◌∷◌,
  ◌++◌, nat_eq, length, inl, inr, and_then-ok, ok_or-ok, ok, and_then, ok_or, arith,
}
use tig.Core.Tree.{contains_byte, is_empty_text}
use tig.Vis.Error.{VisError}
use tig.Vis.Libs.{Libs, Claims, CanSign}
use tig.Vis.Keys.{sign, verify, sign_public, of_length}
use tig.Vis.Tokens.{
  split_at_dot, both_filled, split_once_dot, b64url_decode, parse_claims, sign_token,
  verify_payload, checked_claims, verify_token, peek_claims,
}

split_at_dot-append :
    (p s : Text) → contains_byte b'.' p ≡ false → split_at_dot (p ++ (b'.' ∷ s)) ≡ some (p, s)
unfolding split_at_dot contains_byte
split_at_dot-append [] s h = refl
split_at_dot-append (c ∷ p) s h = ground (arith, h, split_at_dot-append p s)

append_of_split_at_dot :
    (token p s : Text) → split_at_dot token ≡ some (p, s) → token ≡ p ++ (b'.' ∷ s)
unfolding split_at_dot
append_of_split_at_dot [] p s h = cc
append_of_split_at_dot (c ∷ cs) p s h = elim (Bool-cases (nat_eq c b'.')) [
  | inl dot ↦ ground (arith, dot, h)
  | inr other ↦ elim (Option-cases (split_at_dot cs)) [
    | inl missing ↦ absurd (ground (arith, missing, other, h))
    | inr ((p', s'), there) ↦ ground (arith, there, other, h, append_of_split_at_dot cs p' s' there)
  ]
]

both_filled-ok :
    (p s p' s' : Text)
    → both_filled (p, s) ≡ ok (p', s')
    → (is_empty_text p ≡ false) × (is_empty_text s ≡ false) × (p ≡ p') × (s ≡ s')
both_filled-ok p s p' s' h = (ground arith, ground arith, ground arith, ground arith)

split_once_dot-append :
    (p s : Text)
    → contains_byte b'.' p ≡ false
    → is_empty_text p ≡ false
    → is_empty_text s ≡ false
    → split_once_dot (p ++ (b'.' ∷ s)) ≡ ok (p, s)
unfolding split_once_dot
split_once_dot-append p s no_dot filled filled' =
    rw (split_at_dot-append p s no_dot, filled, filled') refl

append_of_split_once_dot :
    (token p s : Text) → split_once_dot token ≡ ok (p, s) → token ≡ p ++ (b'.' ∷ s)
unfolding split_once_dot
append_of_split_once_dot token p s h =
    let ((p', s'), there, filled) =
      and_then-ok (ok_or VisError.crypto (split_at_dot token)) both_filled h in
    let (_, _, same, same') = both_filled-ok p' s' p s filled in
    append_of_split_at_dot token p s
      (rw (← same, ← same') (ok_or-ok VisError.crypto (split_at_dot token) there))

module _ (l : Libs) where
  b64_encode-filled :
      CanSign l → (b : Bytes) → 0 < length b → is_empty_text (l.b64_encode b) ≡ false
  b64_encode-filled can [] h = absurd (omega arith)
  b64_encode-filled can (x ∷ b) h = let (c, t, e) = can.b64_filled x b in rw (e) refl

  json-filled : CanSign l → (c : Claims) → 0 < length (l.claims_json.to_bytes c)
  json-filled can c = let (x, b, e) = can.claims_filled c in rw (e) (omega arith)

  -- With signatures that verify, and texts and JSON that are undone by their parsers, a signed
  -- token verifies with the signer's public key before it expires, and gives its claims back.
  pub verify_token-sign_token :
      CanSign l
      → (claims : Claims) (secret : Bytes) (now : ℕ) → now < claims.exp
      → verify_token l (sign_token l claims secret) (sign_public l secret) now ≡ ok claims
  unfolding verify_token sign_token
  verify_token-sign_token can claims secret now h =
      let json = l.claims_json.to_bytes claims in
      let payload = l.b64_encode json in
      let sig = sign l secret payload in
      rw
        (
          split_once_dot-append payload (l.b64_encode sig) (can.b64_no_dot json)
              (b64_encode-filled can json (json-filled can claims))
              (b64_encode-filled can sig (omega (arith, can.signature_length secret payload))),
          can.b64_back sig,
          can.signature_length secret payload,
          can.verifies secret payload,
          can.b64_back json,
          can.claims_back.back claims,
        )
        (ground arith)

  -- What `verify_token` has checked.
  pub record Verified (token : Text) (pubkey : Bytes) (now : ℕ) (claims : Claims) : Type 0 where
    pub payload : Text
    pub sig : Text
    pub sig_bytes : Bytes
    pub token_eq : token ≡ payload ++ (b'.' ∷ sig)
    pub sig_eq : l.b64_decode sig ≡ some sig_bytes
    pub sig_length : length sig_bytes ≡ 64
    pub signed : verify l pubkey payload sig_bytes ≡ true
    pub peeked : peek_claims l token ≡ ok claims
    pub fresh : now < claims.exp

  verify_payload-ok :
      (pubkey : Bytes) (payload : Text) (now : ℕ) (sig : Bytes) (claims : Claims)
      → verify_payload l pubkey payload now sig ≡ ok claims
      → (verify l pubkey payload sig ≡ true)
        × (and_then (b64url_decode l payload) (parse_claims l) ≡ ok claims)
        × (now < claims.exp)
  verify_payload-ok pubkey payload now sig claims h =
      elim (Bool-cases (verify l pubkey payload sig)) [
        | inr b ↦ absurd (ground (arith, b))
        | inl b ↦
            let h' : and_then (b64url_decode l payload)
                  (λ bytes. and_then (parse_claims l bytes) (checked_claims l now))
                ≡ ok claims =
              sym (rw (b) refl) ∙ h in
            let (bytes, decoded, h1) = and_then-ok (b64url_decode l payload) _ h' in
            let (c, parsed, h2) = and_then-ok (parse_claims l bytes) _ h1 in
            (b, rw (decoded, parsed) (ground arith), ground arith)
      ]

  by_parts :
      (token : Text) (pubkey : Bytes) (now : ℕ) (claims : Claims) (payload sig : Text)
      → split_once_dot token ≡ ok (payload, sig)
      → and_then
          (b64url_decode l sig)
          (λ bytes. and_then (of_length 64 bytes) (verify_payload l pubkey payload now))
        ≡ ok claims
      → Verified token pubkey now claims
  unfolding peek_claims
  by_parts token pubkey now claims payload sig split h =
      let (sig_bytes, sig_eq, h1) = and_then-ok (b64url_decode l sig) _ h in
      let (sig', long, h2) = and_then-ok (of_length 64 sig_bytes) _ h1 in
      let same : sig' ≡ sig_bytes = ground arith in
      let (signed, peeked, fresh) = verify_payload-ok pubkey payload now sig' claims h2 in
      record {
        payload = payload;
        sig = sig;
        sig_bytes = sig_bytes;
        token_eq = append_of_split_once_dot token payload sig split;
        sig_eq = ok_or-ok VisError.crypto (l.b64_decode sig) sig_eq;
        sig_length = ground arith;
        signed = rw (← same) signed;
        peeked = rw (split) peeked;
        fresh = fresh;
      }

  pub verify_token-Verified :
      (token : Text) (pubkey : Bytes) (now : ℕ) (claims : Claims)
      → verify_token l token pubkey now ≡ ok claims
      → Verified token pubkey now claims
  unfolding verify_token peek_claims split_once_dot
  verify_token-Verified token pubkey now claims h =
      let ((payload, sig), split, h1) = and_then-ok (split_once_dot token) _ h in
      by_parts token pubkey now claims payload sig split h1
