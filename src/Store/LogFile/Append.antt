-- ===== src/Store/LogFile/Append.antt =====
-- The log in its file beside the log in memory: one stands for the other, across every append, and is
-- found again when the file is opened.
use mathlib.Core.List.{append-nil}
use mathlib.Core.Path.{subst}
use tig.Prelude.{
  sym, ◌∙◌, ℕ, suc, ◌+◌, ◌≤◌, ◌^◌, Bool-cases, Option, some, List, [], ◌∷◌, ◌++◌, ltb, ◌⊎◌, inl,
  inr, length, length-append, Result, ok, err, arith, ◌≡◌, refl,
}
use tig.Core.Object.{Codec, RoundTrips}
use tig.Store.Error.{StoreError}
use tig.Store.OpLog.{Op, OpInProgress, OpLog, append, finalize, in_memory}
use tig.Store.LogFile.{FileLog, next_after, read_records, read_all, reopen, append_file}
use tig.Store.LogFile.Frames.{Fits, AllFit, frames, frames-append, read_all-frames, prepend-ok}

module _ (c : Codec Op) where
  -- The file holds the records of the log in memory.
  pub record Represents (log : FileLog) (mem : OpLog) : Type 0 where
    pub file_eq : log.file ≡ frames c mem.ops
    pub next_eq : log.next_id ≡ mem.next_id
    pub fits : AllFit c mem.ops

  AllFit-append : (ops : List Op) (op : Op) → AllFit c ops → Fits c op → AllFit c (ops ++ (op ∷ []))
  AllFit-append [] op fits fit = (fit, tt)
  AllFit-append (x ∷ ops) op fits fit = (fits.0, AllFit-append ops op fits.1 fit)

  -- What reading a file that represents a log gives.
  pub read_all-Represents :
      (log : FileLog) (mem : OpLog)
      → RoundTrips c
      → Represents log mem
      → read_all c log.file ≡ some (ok mem.ops)
  unfolding read_records
  read_all-Represents log mem trips r =
      rw (r.file_eq, sym (append-nil (frames c mem.ops)), read_all-frames c mem.ops [] trips r.fits)
        (prepend-ok c mem.ops)

  -- An append to the file does what an append in memory does, when the record fits, and otherwise
  -- fails with `corrupt` and changes nothing.
  pub append_file-append :
      (now : ℕ) (log : FileLog) (mem : OpLog) (op : OpInProgress)
      → Represents log mem
      → ((append_file c now log op).0 ≡ ok (append now mem op).0)
          × Represents (append_file c now log op).1 (append now mem op).1
        ⊎ (append_file c now log op ≡ (err StoreError.corrupt, log))
  unfolding append_file append
  append_file-append now log mem op r =
      let finalized = finalize mem.next_id now op in
      rw (r.next_eq) (elim (Bool-cases (ltb (length (c.to_bytes finalized)) (2 ^ 32))) [
        | inl h ↦ rw (h) (
            inl (
              refl,
              record {
                file_eq = rw (r.file_eq) (sym (frames-append c mem.ops finalized));
                next_eq = refl;
                fits = AllFit-append mem.ops finalized r.fits (ground arith);
              },
            ))
        | inr h ↦ rw (h) (inr refl)
      ])

  -- The ids of the operations count up from a number.
  abbrev pub Numbered : ℕ → List Op → Type 0
  Numbered n [] = Unit
  Numbered n (op ∷ ops) = (op.id ≡ n) × Numbered (suc n) ops

  next_after-Numbered :
      (n : ℕ) (ops : List Op)
      → Numbered n ops
      → n + length ops ≤ 2 ^ 63
      → next_after ops n ≡ n + length ops
  unfolding next_after
  next_after-Numbered n [] numbered h = omega arith
  next_after-Numbered n (op ∷ ops) (e, numbered) h =
      ground (arith, e, next_after-Numbered (suc n) ops numbered (omega arith))

  Numbered-append :
      (n : ℕ) (ops : List Op) (op : Op)
      → Numbered n ops
      → op.id ≡ n + length ops
      → Numbered n (ops ++ (op ∷ []))
  Numbered-append n [] op numbered h = (omega (arith, h), tt)
  Numbered-append n (x ∷ ops) op (e, numbered) h =
      (e, Numbered-append (suc n) ops op numbered (omega (arith, h)))

  -- The files and the logs in memory that appends and opening the file again lead to.
  pub data Appended : FileLog → OpLog → Type 0 where
    fresh : Appended (record { file = []; next_id = 0 }) in_memory
    appended :
        (now : ℕ) (log : FileLog) (mem : OpLog) (op : OpInProgress)
        → Appended log mem
        → (append_file c now log op).0 ≡ ok (append now mem op).0
        → Appended (append_file c now log op).1 (append now mem op).1
    refused :
        (now : ℕ) (log : FileLog) (mem : OpLog) (op : OpInProgress) (e : StoreError)
        → Appended log mem
        → (append_file c now log op).0 ≡ err e
        → Appended (append_file c now log op).1 mem
    reopened :
        (log log' : FileLog) (mem : OpLog)
        → Appended log mem
        → reopen c log.file ≡ some (ok log')
        → Appended log' mem

  record Kept (log : FileLog) (mem : OpLog) : Type 0 where
    represents : Represents log mem
    numbered : Numbered 0 mem.ops
    next_eq : mem.next_id ≡ length mem.ops

  reopen-Kept :
      (log : FileLog) (mem : OpLog)
      → RoundTrips c
      → Kept log mem
      → mem.next_id ≤ 2 ^ 63
      → reopen c log.file ≡ some (ok log)
  unfolding reopen
  reopen-Kept log mem trips kept h =
      let next = next_after-Numbered 0 mem.ops kept.numbered (omega (arith, kept.next_eq)) in
      rw (read_all-Represents log mem trips kept.represents)
        (rw (next) (ground (arith, kept.represents.next_eq, kept.next_eq)))

  abbrev read : FileLog → Option (Result StoreError FileLog)
  read log = some (ok log)

  same : {log log' : FileLog} → read log ≡ read log' → log ≡ log'
  same h = ground (arith, h)

  Appended-Kept :
      (log : FileLog) (mem : OpLog)
      → RoundTrips c
      → Appended log mem
      → mem.next_id ≤ 2 ^ 63
      → Kept log mem
  unfolding append frames
  Appended-Kept _ _ trips fresh h = record {
    represents = record { file_eq = refl; next_eq = refl; fits = tt };
    numbered = tt;
    next_eq = refl;
  }
  Appended-Kept _ _ trips (appended now log mem op reached e) h =
      let kept = Appended-Kept log mem trips reached (omega arith) in
      elim (append_file-append now log mem op kept.represents) [
        | inl (_, r) ↦ record {
          represents = r;
          numbered =
              Numbered-append 0 mem.ops (finalize mem.next_id now op) kept.numbered
                (omega (arith, kept.next_eq));
          next_eq =
              omega (arith, kept.next_eq, length-append mem.ops (finalize mem.next_id now op ∷ []));
        }
        | inr r ↦ absurd (ground (arith, e, r))
      ]
  Appended-Kept _ _ trips (refused now log mem op er reached e) h =
      let kept = Appended-Kept log mem trips reached h in
      elim (append_file-append now log mem op kept.represents) [
        | inl (r, _) ↦ absurd (ground (arith, e, r))
        | inr r ↦ rw (r) kept
      ]
  Appended-Kept _ _ trips (reopened log log' mem reached e) h =
      let kept = Appended-Kept log mem trips reached h in
      subst (λ log''. Kept log'' mem) (same (sym (reopen-Kept log mem trips kept h) ∙ e)) kept

  -- The log file implements the in-memory log: after any sequence of appends to both from empty
  -- logs and of reopenings of the file, in which the in-memory log makes no append that the file
  -- refuses, with a serializer that is undone by its parser and at most 2 ^ 63 operations, reading
  -- the file gives the operations of the in-memory log, reopening it gives the open log with its
  -- next id, and the ids of the operations count up from 0.
  pub read_all-Appended :
      (log : FileLog) (mem : OpLog)
      → RoundTrips c
      → Appended log mem
      → mem.next_id ≤ 2 ^ 63
      → (read_all c log.file ≡ some (ok mem.ops))
        × (reopen c log.file ≡ some (ok log))
        × Numbered 0 mem.ops
  read_all-Appended log mem trips reached h =
      let kept = Appended-Kept log mem trips reached h in
      (
        read_all-Represents log mem trips kept.represents,
        reopen-Kept log mem trips kept h,
        kept.numbered,
      )
