-- ===== src/Tests/History.antt =====
-- Undo, snapshots and the garbage collector on concrete data.
use tig.Prelude.{
  ℕ, inl, inr, ◌+◌, length, Bytes, Text, text, contains, ◌≡◌, ◌≢◌, refl, Option, none, some, List,
  [], ◌∷◌, ◌++◌, Result, ok, err, true, false, arith,
}
use tig.Core.Object.{Hash, RawObject, ObjectKind}
use tig.Core.Change.{Change}
use tig.Store.Repo.{Repo}
use tig.Store.Refs
use tig.Store.Objects
use tig.Store.Objects.{iter_all}
use tig.Store.Objects.Laws.{IsContentAddressed}
use tig.Store.OpLog.{OpKind, OpLog, RefSnapshot, pick_op_to_undo}
use tig.Store.OpLog.Pick.{standing, top, tail, pick_op_to_undo-eq-top}
use tig.Store.Undo.{UndoOutcome, undo_once, read_current}
use tig.Store.Undo.Restore.{AllRead}
use tig.Store.Undo.Once.{undo_record, logged, undo_once_lem, undo_once_keeps}
use tig.Fs.TreeEdit.{read}
use tig.Fs.Snap.{SnapOutcome, snap_change_directly}
use tig.Fs.Snap.Laws.{Advanced, snap_change_directly_lem, undo_once-snap}
use tig.Tests.Wire.{plain, plain-IsSound}
use tig.Tests.Data.{tree_put, snapshot, repo, repo-IsContentAddressed, change, op, log, options}

standing_log : top (standing log.ops) ≡ some op
unfolding standing
standing_log = refl

pick_op_to_undo-eq-top_example : pick_op_to_undo log.ops ≡ top (standing log.ops)
pick_op_to_undo-eq-top_example = pick_op_to_undo-eq-top log.ops

undo_once_lem_example :
    (repo' : Repo) × (undo_once 9 repo log (text "ann") ≡ (
      ok (some (record { undone = op; recorded = undo_record 9 repo log (text "ann") op })),
      repo',
      logged log (undo_record 9 repo log (text "ann") op),
    ))
    × AllRead repo' op.before
    × (standing (logged log (undo_record 9 repo log (text "ann") op)).ops ≡ tail (standing log.ops))
undo_once_lem_example = undo_once_lem 9 repo log (text "ann") op standing_log (tt, tt) (tt, tt)

undo_once_keeps_example :
    read_current (undo_once 9 repo log (text "ann")).1 (RefSnapshot.head none)
    ≡ read_current repo (RefSnapshot.head none)
undo_once_keeps_example =
    undo_once_keeps 9 repo log (text "ann") op standing_log (tt, tt) (tt, tt)
      (RefSnapshot.head none) (tt, tt)

abbrev undone_log : OpLog
undone_log = logged log (undo_record 9 repo log (text "ann") op)

nothing_left : standing undone_log.ops ≡ []
unfolding standing
nothing_left = refl

loaded : Refs.get_change repo (text "c1") ≡ ok change
unfolding Refs.get_change tig.Prelude.Map.get Refs.put_change tig.Prelude.Map.put Objects.put
    tig.Prelude.◌==◌ tig.Core.Object.hash tig.Core.Object.encode
loaded = refl

snapshot_read : read plain ObjectKind.snapshot plain.snapshot repo change.current ≡ ok snapshot
unfolding read Objects.get tig.Prelude.Map.get Refs.put_change Objects.put tig.Prelude.Map.put
    tig.Prelude.◌==◌ tig.Core.Object.hash tig.Core.Object.encode tig.Core.Object.from_tag
    tig.Core.Object.verify tig.Core.Object.decode
snapshot_read = refl

snap_change_directly_lem_example :
    (snap : Hash) × (repo' : Repo) × (log' : OpLog) × (change' : Change) × (snap_change_directly
        plain 6 7 repo log
        (text "c1")
        tree_put.0
        options
      ≡ (ok (SnapOutcome.snapped snap tree_put.0 change' false), repo', log'))
    × (read plain ObjectKind.snapshot plain.snapshot repo' snap
        ≡ ok (record {
          parents = change.current ∷ [];
          tree = tree_put.0;
          author = options.author;
          timestamp_ns = 6;
          message = options.message;
          op_id = none;
        }))
    × Advanced change snap change'
    × (Refs.get_change repo' (text "c1") ≡ ok change')
    × IsContentAddressed plain repo'
    × (standing log'.ops
        ≡ record {
          id = log.next_id;
          ts_ns = 7;
          actor = options.author;
          kind = OpKind.snap snap options.message;
          before = RefSnapshot.change (text "c1") (some change) ∷ [];
          after = RefSnapshot.change (text "c1") (some change') ∷ [];
        }
          ∷ standing log.ops)
snap_change_directly_lem_example =
    snap_change_directly_lem plain 6 7 repo log (text "c1") tree_put.0 options change snapshot
      plain-IsSound repo-IsContentAddressed loaded refl snapshot_read
      (inr (inl (λ e. ground (arith, e))))

undo_once-snap_example :
    (outcome : SnapOutcome) × (repo' : Repo) × (log' : OpLog) × (snap_change_directly plain 6 7 repo
        log
        (text "c1")
        tree_put.0
        options
      ≡ (ok outcome, repo', log'))
    × (undone : UndoOutcome) × (repo'' : Repo) × (log'' : OpLog) × (undo_once 8 repo' log'
          (text "bob")
        ≡ (ok (some undone), repo'', log''))
    × (Refs.get_change repo'' (text "c1") ≡ ok change)
    × (standing log''.ops ≡ standing log.ops)
unfolding tig.Prelude.◌==◌ Objects.put tig.Prelude.Map.get tig.Prelude.Map.put tig.Core.Object.hash
    tig.Core.Object.encode
undo_once-snap_example =
    undo_once-snap plain 6 7 repo log (text "c1") tree_put.0 options change snapshot 8 (text "bob")
      loaded refl snapshot_read refl
