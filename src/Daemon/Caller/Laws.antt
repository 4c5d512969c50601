-- ===== src/Daemon/Caller/Laws.antt =====
-- Who a request with a token can act as.
use tig.Prelude.{
  ℕ, Bytes, Text, ◌≡◌, refl, sym, ◌∙◌, Option, some, and_then-ok, ok_or-ok, map_err-ok, ok, map_err,
  ok_or, arith,
}
use tig.Core.Vis.{PrincipalId}
use tig.Vis.Libs.{Libs, Claims, Principal}
use tig.Vis.Principals
use tig.Vis.Principals.{Files, sign_pubkey}
use tig.Vis.Tokens.{peek_claims, verify_token}
use tig.Vis.Tokens.Laws.{Verified, verify_token-Verified}
use tig.Daemon.Error.{ApiError}
use tig.Daemon.Caller.{Headers, bearer, caller_from, by_token}

module _ (l : Libs) (to_str : Bytes → Option Text) where
  -- A registered principal under whose key the token verifies.
  pub record Authenticated (files : Files) (now : ℕ) (token : Text) (id : PrincipalId)
      : Type 0 where
    pub principal : Principal
    pub pubkey : Bytes
    pub claims : Claims
    pub registered : Principals.get l files id ≡ ok principal
    pub key_eq : sign_pubkey l principal ≡ ok pubkey
    pub verified : Verified l token pubkey now claims
    pub sub_eq : claims.sub ≡ id

  by_token-Authenticated :
      (files : Files) (now : ℕ) (token : Text) (id : PrincipalId)
      → by_token l to_str files now token ≡ ok id
      → Authenticated files now token id
  by_token-Authenticated files now token id h =
      let (peeked, peek, h1) =
        and_then-ok (map_err (λ _. ApiError.bad_request) (peek_claims l token)) _ h in
      let (principal, there, h2) =
        and_then-ok (map_err (λ _. ApiError.unauthorized) (Principals.get l files peeked.sub)) _
          h1 in
      let (pubkey, key, h3) =
        and_then-ok (map_err (λ _. ApiError.unauthorized) (sign_pubkey l principal)) _ h2 in
      let (claims, run, h4) =
        and_then-ok (map_err (λ _. ApiError.unauthorized) (verify_token l token pubkey now)) _ h3 in
      let checked = verify_token-Verified l token pubkey now claims (map_err-ok _ _ run) in
      let same : peeked ≡ claims = ground (arith, map_err-ok _ _ peek, checked.peeked) in
      let sub_eq : claims.sub ≡ id = ground (arith, h4) in
      record {
        principal = principal;
        pubkey = pubkey;
        claims = claims;
        registered = rw (← sub_eq, ← same) (map_err-ok _ _ there);
        key_eq = map_err-ok _ _ key;
        verified = checked;
        sub_eq = sub_eq;
      }

  -- If the Authorization header is present and readable as text and the request is let in, the
  -- header holds a bearer token that names the caller, who is a registered principal with a
  -- signing key, and the token is signed with that key and not expired.
  pub caller_from-Authenticated :
      (files : Files) (now : ℕ) (headers : Headers) (value : Bytes) (auth : Text) (id : PrincipalId)
      → headers.auth ≡ some value
      → to_str value ≡ some auth
      → caller_from l to_str files now headers ≡ ok id
      → (token : Text) × (bearer auth ≡ some token) × Authenticated files now token id
  unfolding caller_from
  caller_from-Authenticated files now headers value auth id present readable h =
      let h' = sym (rw (present, readable) refl) ∙ h in
      let (token, there, h1) =
        and_then-ok (ok_or ApiError.bad_request (bearer auth)) (by_token l to_str files now) h' in
      (
        token,
        ok_or-ok ApiError.bad_request (bearer auth) there,
        by_token-Authenticated files now token id h1,
      )
