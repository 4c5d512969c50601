-- ===== src/Tests/Format.antt =====
-- A plain binary format for the test data: numbers as they are, lists behind their length.
use tig.Prelude.{ℕ, zero, suc, ◌≡◌, refl, Option, none, some, List, [], ◌∷◌, Bytes}
use tig.Core.Object.{Codec, RoundTrips}

abbrev pub Taken : Type 0 → Type 0
Taken A = Option (A × Bytes)

pub record Format (A : Type 0) : Type 0 where
  pub write : A → Bytes → Bytes
  pub take : Bytes → Taken A
  pub law : (a : A) (rest : Bytes) → take (write a rest) ≡ some (a, rest)

abbrev pub then_take : {A B : Type 0} → Taken A → (A → Bytes → Taken B) → Taken B
then_take none f = none
then_take (some (a, rest)) f = f a rest

abbrev take_nat : Bytes → Taken ℕ
take_nat [] = none
take_nat (n ∷ rest) = some (n, rest)

abbrev pub nat_format : Format ℕ
nat_format = record { write = λ n rest. n ∷ rest; take = take_nat; law = λ a rest. refl }

module _ {A : Type 0} (f : Format A) where
  abbrev write_all : List A → Bytes → Bytes
  write_all [] rest = rest
  write_all (x ∷ xs) rest = f.write x (write_all xs rest)

  abbrev count : List A → ℕ
  count [] = 0
  count (_ ∷ xs) = suc (count xs)

  abbrev take_n : ℕ → Bytes → Taken (List A)
  take_n zero bs = some ([], bs)
  take_n (suc n) bs =
      then_take (f.take bs) λ x rest. then_take (take_n n rest) λ xs rest'. some (x ∷ xs, rest')

  abbrev take_list : Bytes → Taken (List A)
  take_list [] = none
  take_list (n ∷ rest) = take_n n rest

  pub take_n-write_all :
      (xs : List A) (rest : Bytes) → take_n (count xs) (write_all xs rest) ≡ some (xs, rest)
  take_n-write_all [] rest = refl
  take_n-write_all (x ∷ xs) rest = rw (f.law x (write_all xs rest), take_n-write_all xs rest) refl

  abbrev pub list_format : Format (List A)
  list_format = record {
    write = λ xs rest. count xs ∷ write_all xs rest;
    take = take_list;
    law = take_n-write_all;
  }

  abbrev write_option : Option A → Bytes → Bytes
  write_option none rest = 0 ∷ rest
  write_option (some a) rest = 1 ∷ f.write a rest

  abbrev take_option : Bytes → Taken (Option A)
  take_option [] = none
  take_option (zero ∷ rest) = some (none, rest)
  take_option (suc _ ∷ rest) = then_take (f.take rest) λ a rest'. some (some a, rest')

  pub take_option-write_option :
      (o : Option A) (rest : Bytes) → take_option (write_option o rest) ≡ some (o, rest)
  take_option-write_option none rest = refl
  take_option-write_option (some a) rest = rw (f.law a rest) refl

  abbrev pub option_format : Format (Option A)
  option_format = record {
    write = write_option;
    take = take_option;
    law = take_option-write_option;
  }

  -- A type given by its parts.
  abbrev pub via :
      {B : Type 0} (parts : B → A) (whole : A → B) → ((b : B) → whole (parts b) ≡ b) → Format B
  via parts whole back = record {
    write = λ b rest. f.write (parts b) rest;
    take = λ bs. then_take (f.take bs) λ a rest. some (whole a, rest);
    law = λ b rest. rw (f.law (parts b) rest, back b) refl;
  }

  abbrev finish : Taken A → Option A
  finish (some (a, [])) = some a
  finish _ = none

  abbrev pub codec : Codec A
  codec = record { to_bytes = λ a. f.write a []; from_bytes = λ bs. finish (f.take bs) }

  pub codec-RoundTrips : RoundTrips codec
  codec-RoundTrips = record { back = λ a. rw (f.law a []) refl }

infixr 4 ◌then◌
abbrev pub ◌then◌ : {A B : Type 0} → Format A → Format B → Format (A × B)
f then g = record {
  write = λ p rest. f.write p.0 (g.write p.1 rest);
  take =
      λ bs. then_take (f.take bs) λ a rest. then_take (g.take rest) λ b rest'. some ((a, b), rest');
  law = λ p rest. rw (f.law p.0 (g.write p.1 rest), g.law p.1 rest) refl;
}
