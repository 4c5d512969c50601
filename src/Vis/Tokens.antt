-- ===== src/Vis/Tokens.antt =====
-- crates/tig-vis/src/tokens.rs: signed bearer tokens, `<payload>.<signature>`.
pub mod Laws
use tig.Prelude.{
  ℕ, Bytes, Text, Bool, true, false, not, ◌||◌, Option, none, some, List, [], ◌∷◌, ◌++◌, nat_eq,
  leb, length, if◌then◌else◌, Result, ok, err, and_then, ok_or,
}
use tig.Core.Tree.{is_empty_text}
use tig.Vis.Error.{VisError}
use tig.Vis.Libs.{Libs, Claims}
use tig.Vis.Keys.{sign, verify, of_length}
use tig.Vis.Seal.{refuse}

abbrev pub is_expired : Claims → ℕ → Bool
is_expired claims now = leb claims.exp now

abbrev before_dot : ℕ → Option (Text × Text) → Option (Text × Text)
before_dot c none = none
before_dot c (some (p, s)) = some (c ∷ p, s)

-- `splitn(2, '.')`, none without a dot
unfoldable pub split_at_dot : Text → Option (Text × Text)
split_at_dot [] = none
split_at_dot (c ∷ cs) =
    let rest = split_at_dot cs in if nat_eq c b'.' then some ([], cs) else before_dot c rest

abbrev both_filled : Text × Text → Result VisError (Text × Text)
both_filled (payload, sig) =
    if is_empty_text payload || is_empty_text sig then err VisError.crypto else ok (payload, sig)

unfoldable pub split_once_dot : Text → Result VisError (Text × Text)
unfolding split_at_dot
split_once_dot token = and_then (ok_or VisError.crypto (split_at_dot token)) both_filled

module _ (l : Libs) where
  abbrev pub b64url_decode : Text → Result VisError Bytes
  b64url_decode s = ok_or VisError.crypto (l.b64_decode s)

  abbrev pub parse_claims : Bytes → Result VisError Claims
  parse_claims bytes = ok_or VisError.json (l.claims_json.from_bytes bytes)

  unfoldable pub sign_token : Claims → Bytes → Text
  sign_token claims secret =
      let payload_b64 = l.b64_encode (l.claims_json.to_bytes claims) in
      payload_b64 ++ (b'.' ∷ l.b64_encode (sign l secret payload_b64))

  abbrev checked_claims : ℕ → Claims → Result VisError Claims
  checked_claims now claims = if is_expired claims now then err VisError.crypto else ok claims

  abbrev verify_payload : Bytes → Text → ℕ → Bytes → Result VisError Claims
  verify_payload pubkey payload_b64 now sig =
      and_then (refuse (not (verify l pubkey payload_b64 sig)) VisError.auth_failure) λ _.
        and_then (b64url_decode payload_b64)
          λ payload_bytes. and_then (parse_claims payload_bytes) (checked_claims now)

  -- The clock is an argument.
  unfoldable pub verify_token : Text → Bytes → ℕ → Result VisError Claims
  unfolding split_once_dot
  verify_token token pubkey now = and_then (split_once_dot token) λ (payload_b64, sig_b64).
      and_then (b64url_decode sig_b64)
        λ sig_bytes. and_then (of_length 64 sig_bytes) (verify_payload pubkey payload_b64 now)

  unfoldable pub peek_claims : Text → Result VisError Claims
  unfolding split_once_dot
  peek_claims token =
      and_then (split_once_dot token)
        λ (payload_b64, _). and_then (b64url_decode payload_b64) parse_claims
