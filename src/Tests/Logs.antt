-- ===== src/Tests/Logs.antt =====
-- A log file of two operations.
use tig.Prelude.{text, ◌≡◌, ◌≢◌, refl, none, some, [], ◌∷◌, ◌++◌, take, ok, err, arith}
use tig.Store.Error.{StoreError}
use tig.Store.OpLog.{Op, OpInProgress, OpKind, OpLog, RefSnapshot, append, in_memory}
use tig.Store.LogFile.{FileLog, frame, read_all, reopen, append_file}
use tig.Store.LogFile.Frames.{frames}
use tig.Store.LogFile.Append.{Represents, Appended, Numbered, read_all-Appended}
use tig.Store.LogFile.Truncated.{read_all-some, read_all-take}
use tig.Tests.OpFormat.{op_codec, op_codec-RoundTrips}

abbrev first : OpInProgress
first = record {
  actor = text "ann";
  kind = OpKind.snap (7 ∷ []) none;
  before = RefSnapshot.head none ∷ [];
  after = RefSnapshot.head (some (text "c")) ∷ [];
}

abbrev second : OpInProgress
second = record { actor = text "ann"; kind = OpKind.undo 0; before = []; after = [] }

abbrev empty_log : FileLog
empty_log = record { file = []; next_id = 0 }

abbrev log_1 : FileLog
log_1 = (append_file op_codec 5 empty_log first).1

abbrev log_2 : FileLog
log_2 = (append_file op_codec 6 log_1 second).1

abbrev mem_1 : OpLog
mem_1 = (append 5 in_memory first).1

abbrev mem_2 : OpLog
mem_2 = (append 6 mem_1 second).1

appended : Appended op_codec log_2 mem_2
unfolding append_file append
appended =
    Appended.appended 6 log_1 mem_1 second
      (Appended.appended 5 empty_log in_memory first Appended.fresh refl) refl

read_all-Appended_example :
    (read_all op_codec log_2.file ≡ some (ok mem_2.ops))
    × (reopen op_codec log_2.file ≡ some (ok log_2))
    × Numbered op_codec 0 mem_2.ops
unfolding append
read_all-Appended_example =
    read_all-Appended op_codec log_2 mem_2 op_codec-RoundTrips appended (omega arith)

represents : Represents op_codec empty_log in_memory
unfolding frames
represents = record { file_eq = refl; next_eq = refl; fits = tt }

read_all-some_example : read_all op_codec (0 ∷ 0 ∷ 0 ∷ 9 ∷ 1 ∷ []) ≢ none
read_all-some_example = read_all-some op_codec (0 ∷ 0 ∷ 0 ∷ 9 ∷ 1 ∷ [])

abbrev op_1 : Op
op_1 = (append 5 in_memory first).0

abbrev op_2 : Op
op_2 = (append 6 mem_1 second).0

read_all-take_example :
    read_all op_codec (frames op_codec (op_1 ∷ []) ++ take 9 (frame op_codec op_2))
    ≡ some (err StoreError.corrupt)
unfolding frame append
read_all-take_example =
    read_all-take op_codec (op_1 ∷ []) op_2 9 op_codec-RoundTrips (omega arith, tt) (omega arith)
      (omega arith) (omega arith)
