-- ===== src/Prelude/ByteString.antt =====
-- Byte strings. Texts are their UTF-8 bytes, and Rust orders both byte by byte.
use Prim.Native.Nat.{ℕ, compare, Ordering}
use Prim.Native.Char.{code}
use Prim.Native.String.{String}
use mathlib.Core.Path.{◌≡◌, refl}
use mathlib.Core.Logic.{◌↔◌, ◌≢◌}
use mathlib.Core.Bool.{Bool, true, false, ◌||◌}
use mathlib.Core.List.{List, [], ◌∷◌}
use native.Mathlib.Omega.{arith}

abbrev pub Bytes : Type 0
Bytes = List ℕ

abbrev pub Text : Type 0
Text = Bytes

-- The bytes of an ASCII literal.
abbrev pub text : String → Text
text String.[] = []
text (String.◌∷◌ c s) = code c ∷ text s

-- `Ord::cmp` on `[u8]` and `str`
unfoldable pub cmp : Bytes → Bytes → Ordering
cmp [] [] = Ordering.eq
cmp [] (y ∷ ys) = Ordering.lt
cmp (x ∷ xs) [] = Ordering.gt
cmp (x ∷ xs) (y ∷ ys) = elim (compare x y) [
  | Ordering.lt ↦ Ordering.lt
  | Ordering.eq ↦ cmp xs ys
  | Ordering.gt ↦ Ordering.gt
]

abbrev pub flip : Ordering → Ordering
flip Ordering.lt = Ordering.gt
flip Ordering.eq = Ordering.eq
flip Ordering.gt = Ordering.lt

abbrev is_eq : Ordering → Bool
is_eq Ordering.eq = true
is_eq _ = false

infix 50 ◌==◌
unfoldable pub ◌==◌ : Bytes → Bytes → Bool
unfolding cmp
a == b = is_eq (cmp a b)

pub cmp_refl : (a : Bytes) → cmp a a ≡ Ordering.eq
unfolding cmp
cmp_refl [] = refl
cmp_refl (x ∷ xs) = ground (arith, cmp_refl xs)

pub eq_of_cmp : (a b : Bytes) → cmp a b ≡ Ordering.eq → a ≡ b
unfolding cmp
eq_of_cmp [] [] h = refl
eq_of_cmp [] (y ∷ ys) h = cc
eq_of_cmp (x ∷ xs) [] h = cc
eq_of_cmp (x ∷ xs) (y ∷ ys) h = ground (arith, eq_of_cmp xs ys)

pub cmp_swap : (a b : Bytes) → cmp b a ≡ flip (cmp a b)
unfolding cmp
cmp_swap [] [] = refl
cmp_swap [] (y ∷ ys) = refl
cmp_swap (x ∷ xs) [] = refl
cmp_swap (x ∷ xs) (y ∷ ys) = ground (arith, cmp_swap xs ys)

pub cmp_trans :
    (a b c : Bytes) → cmp a b ≡ Ordering.lt → cmp b c ≡ Ordering.lt → cmp a c ≡ Ordering.lt
unfolding cmp
cmp_trans [] [] c p q = cc
cmp_trans [] (y ∷ ys) [] p q = cc
cmp_trans [] (y ∷ ys) (z ∷ zs) p q = refl
cmp_trans (x ∷ xs) [] c p q = cc
cmp_trans (x ∷ xs) (y ∷ ys) [] p q = cc
cmp_trans (x ∷ xs) (y ∷ ys) (z ∷ zs) p q = ground (arith, cmp_trans xs ys zs)

pub eq_iff : (a b : Bytes) → (a == b ≡ true) ↔ (a ≡ b)
unfolding ◌==◌
eq_iff a b = (λ h. eq_of_cmp a b (ground arith), λ e. rw e (ground (arith, cmp_refl b)))

pub eq_refl : (a : Bytes) → a == a ≡ true
eq_refl a = (eq_iff a a).1 refl

pub eq_false : (a b : Bytes) → a ≢ b → a == b ≡ false
eq_false a b h = ground (arith, h, eq_iff a b)

-- `contains` of a set or a list of hashes
unfoldable pub contains : Bytes → List Bytes → Bool
contains x [] = false
contains x (y ∷ ys) = x == y || contains x ys
