-- ===== src/Tests/VisLibs.antt =====
-- Stand-ins for the cryptography, simple enough to compute with, that satisfy what is relied on.
use tig.Prelude.{
  ℕ, zero, suc, ◌+◌, ◌-◌, Bytes, Text, ◌==◌, eq_refl, ◌≡◌, refl, false, ◌&&◌, Option, none, some,
  [], ◌∷◌, ◌++◌, length, if◌then◌else◌, arith,
}
use tig.Core.Object.{Codec}
use tig.Core.Tree.{contains_byte}
use tig.Vis.Libs.{Libs, Principal, PrincipalKind, Claims, CanSeal, CanSign}
use tig.Tests.Format.{
  Format, nat_format, list_format, option_format, via, codec, codec-RoundTrips, ◌then◌,
}

abbrev pad : ℕ → Bytes → Bytes
pad zero bs = []
pad (suc n) [] = 0 ∷ pad n []
pad (suc n) (b ∷ bs) = b ∷ pad n bs

length-pad : (n : ℕ) (bs : Bytes) → length (pad n bs) ≡ n
length-pad zero bs = refl
length-pad (suc n) [] = omega (arith, length-pad n [])
length-pad (suc n) (b ∷ bs) = omega (arith, length-pad n bs)

abbrev sum : Bytes → Bytes → Bytes
sum [] _ = []
sum (_ ∷ _) [] = []
sum (a ∷ xs) (b ∷ bs) = (a + b) ∷ sum xs bs

sum_comm : (a b : Bytes) → sum a b ≡ sum b a
sum_comm [] [] = refl
sum_comm [] (b ∷ bs) = refl
sum_comm (a ∷ xs) [] = refl
sum_comm (a ∷ xs) (b ∷ bs) = ground (arith, sum_comm xs bs)

abbrev pub shift : Bytes → Text
shift [] = []
shift (b ∷ bs) = (b + 47) ∷ shift bs

abbrev pub unshift : Text → Bytes
unshift [] = []
unshift (c ∷ cs) = (c - 47) ∷ unshift cs

unshift-shift : (b : Bytes) → unshift (shift b) ≡ b
unshift-shift [] = refl
unshift-shift (b ∷ bs) = ground (arith, unshift-shift bs)

shift_no_dot : (b : Bytes) → contains_byte b'.' (shift b) ≡ false
unfolding contains_byte
shift_no_dot [] = refl
shift_no_dot (b ∷ bs) = ground (arith, shift_no_dot bs)

abbrev bytes_format : Format Bytes
bytes_format = list_format nat_format

abbrev box_format : Format (Bytes × (Bytes × (Bytes × Bytes)))
box_format = bytes_format then bytes_format then bytes_format then bytes_format

-- A message together with its key, nonce and additional data.
abbrev box : Codec (Bytes × (Bytes × (Bytes × Bytes)))
box = codec box_format

abbrev opened : Bytes → Bytes → Bytes → Option (Bytes × (Bytes × (Bytes × Bytes))) → Option Bytes
opened k n a none = none
opened k n a (some (k', (n', (a', m)))) = if k == k' && n == n' && a == a' then some m else none

abbrev claims_format : Format Claims
claims_format =
    via (bytes_format then nat_format) (λ c. (c.sub, c.exp))
      (λ (sub, exp). record { sub = sub; exp = exp }) (λ c. refl)

abbrev kind_code : PrincipalKind → ℕ
kind_code PrincipalKind.user = 0
kind_code PrincipalKind.agent = 1
kind_code PrincipalKind.bot = 2
kind_code PrincipalKind.system = 3

abbrev kind_of : ℕ → PrincipalKind
kind_of zero = PrincipalKind.user
kind_of (suc zero) = PrincipalKind.agent
kind_of (suc (suc zero)) = PrincipalKind.bot
kind_of _ = PrincipalKind.system

pub kind_of-kind_code : (k : PrincipalKind) → kind_of (kind_code k) ≡ k
kind_of-kind_code PrincipalKind.user = refl
kind_of-kind_code PrincipalKind.agent = refl
kind_of-kind_code PrincipalKind.bot = refl
kind_of-kind_code PrincipalKind.system = refl

abbrev principal_format : Format Principal
principal_format =
    via
      (bytes_format
        then via nat_format kind_code kind_of kind_of-kind_code
        then bytes_format
        then option_format bytes_format
        then option_format bytes_format
        then option_format bytes_format)
      (λ p. (p.id, (p.kind, (p.pubkey, (p.secret_hex, (p.sign_pubkey_hex, p.sign_secret_hex))))))
      (λ (id, (kind, (pubkey, (secret, (sign_pubkey, sign_secret))))). record {
        id = id;
        kind = kind;
        pubkey = pubkey;
        secret_hex = secret;
        sign_pubkey_hex = sign_pubkey;
        sign_secret_hex = sign_secret;
      })
      (λ p. refl)

abbrev pub libs : Libs
libs = record {
  hex_encode = shift;
  hex_decode = λ t. some (unshift t);
  b64_encode = shift;
  b64_decode = λ t. some (unshift t);
  claims_json = codec claims_format;
  principal_json = codec principal_format;
  x25519_public = pad 32;
  x25519 = λ sk p. sum (pad 32 sk) p;
  hkdf = λ shared info. some (pad 32 shared);
  encrypt = λ k n m a. some (box.to_bytes (k, (n, (a, m))));
  decrypt = λ k n c a. opened k n a (box.from_bytes c);
  ed25519_public = pad 32;
  ed25519_sign = λ sk m. pad 64 (pad 32 sk ++ m);
  ed25519_verify = λ pk m s. pad 64 (pk ++ m) == s;
}

pub libs-CanSeal : CanSeal libs
libs-CanSeal = record {
  public_length = λ sk. length-pad 32 sk;
  agree = λ a b. sum_comm (pad 32 a) (pad 32 b);
  derives = λ shared info. (pad 32 shared, refl, length-pad 32 shared);
  encrypts = λ k n m a hk hn hm. (
    box.to_bytes (k, (n, (a, m))),
    refl,
    rw ((codec-RoundTrips box_format).back (k, (n, (a, m))), eq_refl k, eq_refl n, eq_refl a) refl,
  );
}

pub libs-CanSign : CanSign libs
libs-CanSign = record {
  signature_length = λ sk m. length-pad 64 (pad 32 sk ++ m);
  verifies = λ sk m. eq_refl (pad 64 (pad 32 sk ++ m));
  b64_back = λ b. rw (unshift-shift b) refl;
  b64_no_dot = shift_no_dot;
  b64_filled = λ x b. (x + 47, shift b, refl);
  claims_back = codec-RoundTrips claims_format;
  claims_filled = λ c. (_, _, refl);
}
