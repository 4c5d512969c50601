-- ===== src/Store/LogFile/Frames.antt =====
-- A file made of the records of a list of operations, and reading it.
use mathlib.Core.List.{append_assoc, append-nil}
use tig.Prelude.{
  ap, ◌∙◌, ℕ, suc, ◌+◌, ◌-◌, ◌/◌, ◌%◌, ◌^◌, ◌≤◌, ◌<◌, Bytes, Option, some, List, [], ◌∷◌, ◌++◌,
  length, length-append, take-append, drop-append, Result, ok, err, arith, ◌≡◌, refl,
}
use tig.Core.Object.{Codec, RoundTrips}
use tig.Store.Error.{StoreError}
use tig.Store.OpLog.{Op}
use tig.Store.LogFile.{from_be_bytes, cons_op, read_payload, read_records, read_all, frame}

pub from_be_bytes-to_be_bytes :
    (n : ℕ)
    → n < 2 ^ 32
    → from_be_bytes (n / 2 ^ 24 % 256) (n / 2 ^ 16 % 256) (n / 2 ^ 8 % 256) (n % 256) ≡ n
from_be_bytes-to_be_bytes n h = omega arith

module _ (c : Codec Op) where
  -- The length of the operation's CBOR fits a record's header.
  abbrev pub Fits : Op → Type 0
  Fits op = length (c.to_bytes op) < 2 ^ 32

  abbrev pub AllFit : List Op → Type 0
  AllFit [] = Unit
  AllFit (op ∷ ops) = Fits op × AllFit ops

  unfoldable pub frames : List Op → Bytes
  frames [] = []
  frames (op ∷ ops) = frame c op ++ frames ops

  abbrev pub prepend :
      List Op → Option (Result StoreError (List Op)) → Option (Result StoreError (List Op))
  prepend [] r = r
  prepend (op ∷ ops) r = cons_op c op (prepend ops r)

  -- As many more than a number as the list has elements.
  abbrev pub more : List Op → ℕ → ℕ
  more [] n = n
  more (_ ∷ ops) n = suc (more ops n)

  pub more-length : (ops : List Op) (n : ℕ) → more ops n ≡ length ops + n
  more-length [] n = omega arith
  more-length (op ∷ ops) n = omega (arith, more-length ops n)

  read_payload-append :
      {len : ℕ} {op : Op}
      → (read_rest : Bytes → Option (Result StoreError (List Op))) → (payload rest : Bytes)
      → len ≡ length payload
      → c.from_bytes payload ≡ some op
      → read_payload c len (payload ++ rest) read_rest ≡ cons_op c op (read_rest rest)
  read_payload-append read_rest payload rest e h =
      rw (e, take-append payload rest, drop-append payload rest, h)
        (ground (arith, length-append payload rest))

  pub read_records-frame :
      (fuel : ℕ) (op : Op) (rest : Bytes)
      → RoundTrips c
      → Fits op
      → read_records c (suc fuel) (frame c op ++ rest) ≡ cons_op c op (read_records c fuel rest)
  unfolding read_records frame
  read_records-frame fuel op rest trips fits =
      read_payload-append (read_records c fuel) (c.to_bytes op) rest
        (from_be_bytes-to_be_bytes (length (c.to_bytes op)) fits) (trips.back op)

  pub read_records-frames :
      (ops : List Op) (fuel : ℕ) (tail : Bytes)
      → RoundTrips c
      → AllFit ops
      → read_records c (more ops fuel) (frames ops ++ tail) ≡ prepend ops (read_records c fuel tail)
  unfolding frames
  read_records-frames [] fuel tail trips fits = refl
  read_records-frames (op ∷ ops) fuel tail trips (fit, fits) =
      rw
        (
          append_assoc (frame c op) (frames ops) tail,
          read_records-frame (more ops fuel) op (frames ops ++ tail) trips fit,
        )
        (ap (cons_op c op) (read_records-frames ops fuel tail trips fits))

  pub prepend-ok : (ops : List Op) → prepend ops (some (ok [])) ≡ some (ok ops)
  prepend-ok [] = refl
  prepend-ok (op ∷ ops) = rw (prepend-ok ops) refl

  pub prepend-err : {e : StoreError} → (ops : List Op) → prepend ops (some (err e)) ≡ some (err e)
  prepend-err [] = refl
  prepend-err {e = e} (op ∷ ops) = rw (prepend-err {e = e} ops) refl

  pub length-frames : (ops : List Op) → length ops ≤ length (frames ops)
  unfolding frames frame
  length-frames [] = omega arith
  length-frames (op ∷ ops) =
      omega (arith, length-append (c.to_bytes op) (frames ops), length-frames ops)

  pub frames-append :
      (ops : List Op) (op : Op) → frames (ops ++ (op ∷ [])) ≡ frames ops ++ frame c op
  unfolding frames
  frames-append [] op = append-nil (frame c op)
  frames-append (x ∷ ops) op =
      rw (append_assoc (frame c x) (frames ops) (frame c op))
        (ap (λ b. frame c x ++ b) (frames-append ops op))

  more_fuel :
      (ops : List Op) (tail : Bytes)
      → length (frames ops ++ tail) ≡ more ops (length (frames ops ++ tail) - length ops)
  more_fuel ops tail =
      let file = frames ops ++ tail in
      omega (
        arith,
        more-length ops (length file - length ops),
        length-append (frames ops) tail,
        length-frames ops,
      )

  -- The fuel left for what follows the records.
  abbrev pub fuel_left : List Op → Bytes → ℕ
  fuel_left ops tail = length (frames ops ++ tail) - length ops

  pub fuel_left-le : (ops : List Op) (tail : Bytes) → length tail ≤ fuel_left ops tail
  fuel_left-le ops tail = omega (arith, length-append (frames ops) tail, length-frames ops)

  pub read_all-frames :
      (ops : List Op) (tail : Bytes)
      → RoundTrips c
      → AllFit ops
      → read_all c (frames ops ++ tail) ≡ prepend ops (read_records c (fuel_left ops tail) tail)
  unfolding read_all
  read_all-frames ops tail trips fits =
      ap (λ n. read_records c n (frames ops ++ tail)) (more_fuel ops tail)
      ∙ read_records-frames ops (fuel_left ops tail) tail trips fits
