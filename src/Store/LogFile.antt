-- ===== src/Store/LogFile.antt =====
-- crates/tig-store/src/oplog.rs: the log file, `FileLog`. A record is its length, as four bytes with
-- the highest first, and the CBOR of one operation. The serializer of operations is a parameter, and
-- the file is its bytes.
pub mod Frames
pub mod Append
pub mod Truncated
use tig.Prelude.{
  ℕ, zero, suc, ◌+◌, ◌-◌, ◌*◌, ◌/◌, ◌%◌, ◌^◌, Bytes, Bool, true, false, ◌&&◌, Option, none, some,
  List, [], ◌∷◌, ◌++◌, length, take, drop, ltb, leb, if◌then◌else◌, Result, ok, err, and_then,
  ok_or,
}
use tig.Core.Object.{Codec}
use tig.Store.Error.{StoreError}
use tig.Store.OpLog.{Op, OpId, OpInProgress, OpLog, finalize}

-- `u32::to_be_bytes`
abbrev pub to_be_bytes : ℕ → Bytes
to_be_bytes n = n / 2 ^ 24 % 256 ∷ n / 2 ^ 16 % 256 ∷ n / 2 ^ 8 % 256 ∷ n % 256 ∷ []

-- `u32::from_be_bytes`
abbrev pub from_be_bytes : ℕ → ℕ → ℕ → ℕ → ℕ
from_be_bytes a b c d = a * 2 ^ 24 + b * 2 ^ 16 + c * 2 ^ 8 + d

pub record FileLog : Type 0 where
  pub file : Bytes
  pub next_id : OpId

-- The `i64` maximum of the ids, started at -1, is kept one higher here. An id from 2 ^ 63 on is
-- negative as an `i64`, and raises no maximum.
unfoldable pub next_after : List Op → ℕ → ℕ
next_after [] next = next
next_after (op ∷ ops) next =
    next_after ops (if ltb op.id (2 ^ 63) && leb next op.id then op.id + 1 else next)

module _ (c : Codec Op) where
  abbrev pub cons_op :
      Op → Option (Result StoreError (List Op)) → Option (Result StoreError (List Op))
  cons_op op none = none
  cons_op op (some r) = some (and_then r λ ops. ok (op ∷ ops))

  -- The operation of a record's payload, before those of the records after it.
  abbrev pub decoded :
      Option Op → Option (Result StoreError (List Op)) → Option (Result StoreError (List Op))
  decoded none _ = some (err StoreError.corrupt)
  decoded (some op) rest = cons_op op rest

  abbrev pub read_payload :
      ℕ
      → Bytes
      → (Bytes → Option (Result StoreError (List Op)))
      → Option (Result StoreError (List Op))
  read_payload len rest read_rest =
      if ltb (length rest) len
      then some (err StoreError.corrupt)
      else decoded (c.from_bytes (take len rest)) (read_rest (drop len rest))

  -- The loop of `read_all`: `none` means that the fuel ran out.
  unfoldable pub read_records : ℕ → Bytes → Option (Result StoreError (List Op))
  read_records fuel [] = some (ok [])
  read_records zero (_ ∷ _) = none
  read_records (suc fuel) (a ∷ b ∷ c' ∷ d ∷ rest) =
      read_payload (from_be_bytes a b c' d) rest (read_records fuel)
  read_records (suc fuel) (_ ∷ _) = some (err StoreError.corrupt)

  -- A record takes at least one byte.
  unfoldable pub read_all : Bytes → Option (Result StoreError (List Op))
  unfolding read_records
  read_all file = read_records (length file) file

  abbrev pub opened :
      Bytes → Option (Result StoreError (List Op)) → Option (Result StoreError FileLog)
  opened file none = none
  opened file (some r) =
      some (and_then r λ ops. ok (record { file = file; next_id = next_after ops 0 }))

  -- `OpLog::open` on the bytes of the file, none if it was just created.
  unfoldable pub reopen : Bytes → Option (Result StoreError FileLog)
  unfolding read_all next_after
  reopen file = opened file (read_all file)

  unfoldable pub frame : Op → Bytes
  frame op = to_be_bytes (length (c.to_bytes op)) ++ c.to_bytes op

  -- The clock is an argument. A record of 2 ^ 32 bytes or more is refused.
  unfoldable pub append_file : ℕ → FileLog → OpInProgress → Result StoreError Op × FileLog
  unfolding frame
  append_file now log op =
      let finalized = finalize log.next_id now op in
      if ltb (length (c.to_bytes finalized)) (2 ^ 32)
      then (ok finalized, record { file = log.file ++ frame finalized; next_id = log.next_id + 1 })
      else (err StoreError.corrupt, log)
