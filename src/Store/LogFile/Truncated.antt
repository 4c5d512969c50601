-- ===== src/Store/LogFile/Truncated.antt =====
-- Reading a file that an interrupted write of the last record has left, and the fuel of the reader.
use tig.Prelude.{
  sym, ◌∙◌, ℕ, zero, suc, ◌+◌, ◌≤◌, ◌<◌, Bytes, Bool-cases, Option, none, some, List, [], ◌∷◌, ◌++◌,
  ltb, inl, inr, length, take, drop, length-take, length-drop, Result, err, arith, ◌≡◌, refl, ◌≢◌,
}
use tig.Core.Object.{Codec, RoundTrips}
use tig.Store.Error.{StoreError}
use tig.Store.OpLog.{Op}
use tig.Store.LogFile.{from_be_bytes, frame, decoded, read_payload, read_records, read_all}
use tig.Store.LogFile.Frames.{
  from_be_bytes-to_be_bytes, Fits, AllFit, frames, fuel_left, fuel_left-le, read_all-frames,
  prepend-err,
}

module _ (c : Codec Op) where
  decoded-some :
      (d : Option Op) (rest : Option (Result StoreError (List Op)))
      → rest ≢ none
      → decoded c d rest ≢ none
  decoded-some none rest h e = ground arith
  decoded-some (some op) none h e = h refl
  decoded-some (some op) (some r) h e = ground arith

  -- Enough fuel is one unit for each byte.
  pub read_records-some :
      (fuel : ℕ) (file : Bytes) → length file ≤ fuel → read_records c fuel file ≢ none
  unfolding read_records
  read_records-some fuel [] h e = ground arith
  read_records-some zero (x ∷ file) h e = omega arith
  read_records-some (suc fuel) (x ∷ []) h e = ground arith
  read_records-some (suc fuel) (x ∷ y ∷ []) h e = ground arith
  read_records-some (suc fuel) (x ∷ y ∷ z ∷ []) h e = ground arith
  read_records-some (suc fuel) (x ∷ y ∷ z ∷ w ∷ rest) h e =
      let len = from_be_bytes x y z w in
      elim (Bool-cases (ltb (length rest) len)) [
        | inl short ↦ ground (arith, short, e)
        | inr long ↦
            decoded-some (c.from_bytes (take len rest)) (read_records c fuel (drop len rest))
              (read_records-some fuel (drop len rest) (omega (arith, length-drop len rest)))
              (sym (rw (long) refl) ∙ e)
      ]

  -- Reading a log file of any bytes ends: the fuel, one unit for each byte, never runs out.
  pub read_all-some : (file : Bytes) → read_all c file ≢ none
  unfolding read_all
  read_all-some file = read_records-some (length file) file (omega arith)

  read_payload-short :
      (len : ℕ) (rest : Bytes) (read_rest : Bytes → Option (Result StoreError (List Op)))
      → length rest < len
      → read_payload c len rest read_rest ≡ some (err StoreError.corrupt)
  read_payload-short len rest read_rest h = ground arith

  read_records-take :
      (fuel k : ℕ) (op : Op)
      → Fits c op
      → k < 3 + length (c.to_bytes op)
      → read_records c (suc fuel) (take (suc k) (frame c op)) ≡ some (err StoreError.corrupt)
  unfolding read_records frame
  read_records-take fuel zero op fit h = refl
  read_records-take fuel (suc zero) op fit h = refl
  read_records-take fuel (suc (suc zero)) op fit h = refl
  read_records-take fuel (suc (suc (suc k))) op fit h =
      let payload = c.to_bytes op in
      read_payload-short _ (take k payload) (read_records c fuel) (
        omega (
          arith,
          from_be_bytes-to_be_bytes (length payload) fit,
          length-take k payload (omega arith),
        ))

  read_records-take_of_pos :
      (fuel k : ℕ) (op : Op)
      → Fits c op
      → 0 < k
      → k < length (frame c op)
      → 0 < fuel
      → read_records c fuel (take k (frame c op)) ≡ some (err StoreError.corrupt)
  unfolding frame
  read_records-take_of_pos zero k op fit h h' f = absurd (omega arith)
  read_records-take_of_pos fuel zero op fit h h' f = absurd (omega arith)
  read_records-take_of_pos (suc fuel) (suc k) op fit h h' f =
      read_records-take fuel k op fit (omega arith)

  -- With a serializer that is undone by its parser, a log file that ends within a record, after at
  -- least one byte of it, is reported as corrupt, whatever whole records stand before.
  pub read_all-take :
      (ops : List Op) (op : Op) (k : ℕ)
      → RoundTrips c
      → AllFit c ops
      → Fits c op
      → 0 < k
      → k < length (frame c op)
      → read_all c (frames c ops ++ take k (frame c op)) ≡ some (err StoreError.corrupt)
  read_all-take ops op k trips fits fit h h' =
      let tail = take k (frame c op) in
      rw
        (
          read_all-frames c ops tail trips fits,
          read_records-take_of_pos (fuel_left c ops tail) k op fit h h'
              (omega (arith, fuel_left-le c ops tail, length-take k (frame c op) (omega arith))),
        )
        (prepend-err c {e = StoreError.corrupt} ops)
