-- ===== src/Daemon/Caller.antt =====
-- crates/tigd/src/handlers.rs: the caller of a request. The text of a header value, none when it has
-- other characters than visible ASCII ones, is a parameter, as is the clock. The key directory is given.
pub mod Laws
use tig.Prelude.{
  ℕ, Bytes, Text, text, Bool, true, false, not, Option, none, some, List, [], ◌∷◌, ◌++◌,
  strip_prefix, if◌then◌else◌, Result, ok, err, and_then, map_err, ok_or,
}
use tig.Core.Tree.{is_empty_text}
use tig.Core.Vis.{PrincipalId}
use tig.Vis.Error.{VisError}
use tig.Vis.Libs.{Libs, Claims, Principal}
use tig.Vis.Principals
use tig.Vis.Principals.{Files, sign_pubkey}
use tig.Vis.Tokens.{peek_claims, verify_token}
use tig.Daemon.Error.{ApiError}

-- The values of the two headers that are read.
pub record Headers : Type 0 where
  pub auth : Option Bytes
  pub principal : Option Bytes

abbrev pub default_actor : PrincipalId
default_actor = text "local:tigd"

abbrev pub or_else : Option Text → Option Text → Option Text
or_else (some t) _ = some t
or_else none o = o

-- The token behind `Bearer `.
unfoldable pub bearer : Text → Option Text
unfolding strip_prefix
bearer auth = or_else (strip_prefix (text "Bearer ") auth) (strip_prefix (text "bearer ") auth)

abbrev pub named : Option Text → PrincipalId
named none = default_actor
named (some s) = if not (is_empty_text s) then s else default_actor

module _ (l : Libs) (to_str : Bytes → Option Text) where
  abbrev header : Option Bytes → Option Text
  header none = none
  header (some value) = to_str value

  abbrev verified : Text → ℕ → Bytes → Result ApiError PrincipalId
  verified token now pubkey =
      and_then (map_err (λ _. ApiError.unauthorized) (verify_token l token pubkey now))
        λ claims. ok claims.sub

  abbrev by_token : Files → ℕ → Text → Result ApiError PrincipalId
  by_token files now token =
      and_then (map_err (λ _. ApiError.bad_request) (peek_claims l token)) λ claims.
        and_then (map_err (λ _. ApiError.unauthorized) (Principals.get l files claims.sub))
          λ principal.
            and_then (map_err (λ _. ApiError.unauthorized) (sign_pubkey l principal))
              (verified token now)

  abbrev by_header : Files → ℕ → Option Bytes → Option Text → Result ApiError PrincipalId
  by_header files now principal none = ok (named (header principal))
  by_header files now principal (some auth) =
      and_then (ok_or ApiError.bad_request (bearer auth)) (by_token files now)

  unfoldable pub caller_from : Files → ℕ → Headers → Result ApiError PrincipalId
  unfolding bearer peek_claims verify_token Principals.get
  caller_from files now headers = by_header files now headers.principal (header headers.auth)
