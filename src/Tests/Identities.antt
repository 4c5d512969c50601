-- ===== src/Tests/Identities.antt =====
-- Two identities, a sealed value for one of them, and a token.
use tig.Prelude.{
  ℕ, zero, suc, ◌+◌, ◌≤◌, ◌<◌, Bytes, Text, text, contains, ◌≡◌, ◌≢◌, refl, Bool, true, false,
  Option, none, some, List, [], ◌∷◌, ◌++◌, length, Result, ok, err, inl, inr, ◌⊎◌, arith,
}
use tig.Core.Wire.{Sealed}
use tig.Vis.Error.{VisError}
use tig.Vis.Libs.{PrincipalKind, Claims}
use tig.Vis.Keys.{public, sign_public}
use tig.Vis.Seal.{Random, seal, unseal}
use tig.Vis.Seal.Laws.{IsRandom, unseal-seal, unseal-seal_refused}
use tig.Vis.Tokens.{sign_token, verify_token}
use tig.Vis.Tokens.Laws.{verify_token-sign_token}
use tig.Vis.Principals.{Files, new_local_full}
use tig.Daemon.Caller.{Headers, bearer, caller_from}
use tig.Daemon.Caller.Laws.{Authenticated, caller_from-Authenticated}
use tig.Tests.VisLibs.{libs, libs-CanSeal, libs-CanSign}

abbrev zeros : ℕ → Bytes
zeros zero = []
zeros (suc n) = 0 ∷ zeros n

abbrev random : Random
random = record {
  eph_secret = 5 ∷ [];
  data_key = zeros 32;
  wrap_nonce = λ i. zeros 24;
  payload_nonce = zeros 24;
}

random-IsRandom : IsRandom random
random-IsRandom = record {
  data_key_length = refl;
  wrap_nonce_length = λ i. refl;
  payload_nonce_length = refl;
}

abbrev pub ann : Bytes
ann = 1 ∷ []

abbrev bob : Bytes
bob = 2 ∷ []

unseal-seal_example :
    (sealed : Sealed) × (seal libs random
        (text "secret")
        (public libs bob ∷ public libs ann ∷ [])
        (text "d/key")
      ≡ ok sealed)
    × (unseal libs sealed ann (text "d/key") ≡ ok (text "secret"))
unfolding contains tig.Prelude.◌==◌
unseal-seal_example =
    unseal-seal libs libs-CanSeal random random-IsRandom (text "d/key") (text "secret")
      (public libs bob) (public libs ann ∷ []) ann (omega arith) refl

unseal-seal_refused_example :
    (sealed : Sealed) × (seal libs random (text "secret") (public libs bob ∷ []) (text "d/key")
      ≡ ok sealed)
    × ((unseal libs sealed ann (text "d/key") ≡ err VisError.auth_failure)
        ⊎ (unseal libs sealed ann (text "d/key") ≡ err VisError.not_a_recipient))
unfolding contains tig.Prelude.◌==◌
unseal-seal_refused_example =
    unseal-seal_refused libs libs-CanSeal random random-IsRandom (text "d/key") (text "secret")
      (public libs bob) [] ann (text "d/key") (omega arith) (inr refl)

abbrev pub claims : Claims
claims = record { sub = text "ann"; exp = 100 }

abbrev pub token : Text
token = sign_token libs claims ann

verify_token-sign_token_example : verify_token libs token (sign_public libs ann) 99 ≡ ok claims
verify_token-sign_token_example =
    verify_token-sign_token libs libs-CanSign claims ann 99 (omega arith)

abbrev pub files : Files
files =
    (
      text "ann.json",
      libs.principal_json.to_bytes (new_local_full libs (text "ann") PrincipalKind.user ann ann),
    )
    ∷ []

abbrev pub headers : Headers
headers = record { auth = some (text "Bearer " ++ token); principal = some (text "bob") }

called : caller_from libs (λ v. some v) files 99 headers ≡ ok (text "ann")
unfolding caller_from sign_token tig.Prelude.Map.get tig.Prelude.◌==◌
called = refl

caller_from-Authenticated_example :
    (t : Text) × (bearer (text "Bearer " ++ token) ≡ some t)
    × Authenticated libs (λ v. some v) files 99 t (text "ann")
caller_from-Authenticated_example =
    caller_from-Authenticated libs (λ v. some v) files 99 headers (text "Bearer " ++ token)
      (text "Bearer " ++ token) (text "ann") refl refl called
