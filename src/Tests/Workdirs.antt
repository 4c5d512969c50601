-- ===== src/Tests/Workdirs.antt =====
-- A small working directory: an executable file, a directory with a file, a link, and the repository.
use tig.Prelude.{
  ℕ, ◌+◌, ◌≤◌, ◌<◌, text, ◌≡◌, refl, Bool, true, false, Option, none, some, List, [], ◌∷◌, Result,
  ok, err, inl, inr, ◌⊎◌, arith,
}
use tig.Core.Object.{Hash, ObjectKind, encode}
use tig.Core.Wire.{Snapshot}
use tig.Store.Repo.{Repo, init}
use tig.Store.Objects
use tig.Store.Objects.Laws.{IsContentAddressed}
use tig.Fs.TreeEdit.{read}
use tig.Fs.TreeEdit.Extends.{Extends, put-Extends}
use tig.Fs.Workdir.{Node, Entries, Os, depth}
use tig.Fs.Action.{FsError}
use tig.Fs.Scan.{default_ignore}
use tig.Fs.Scan.Tracked.{tracked, IsTrackable}
use tig.Fs.Scan.Stored.{Stored, scan_dir-Stored}
use tig.Fs.Materialize.{MaterializeOptions, OnUnsealable, materialize_change_into, no_stats}
use tig.Fs.Materialize.Render.{created, tally}
use tig.Fs.Materialize.Roundtrip.{materialize-scan_dir}
use tig.Fs.Restore.{RestoreOptions, restore_tree_into}
use tig.Fs.Restore.Cleared.{Cleared}
use tig.Fs.Restore.Laws.{Passed, restore_tree_into-Passed}
use tig.Core.Change.{Change}
use tig.Store.OpLog.{in_memory}
use tig.Store.Workspace.{WorkspaceKind, current_change_id}
use tig.Fs.Snap.{SnapOptions, SnapOutcome}
use tig.Fs.SnapNow.{Place, snap_now}
use tig.Fs.SnapNow.Laws.{Loads, snap_now-materialize}
use tig.Tests.Wire.{plain, plain-IsSound}

abbrev os : Os
os = record { new_mode = 0o644; write_special = λ x bytes. err FsError.io }

abbrev workdir : Entries
workdir =
    Entries.entry (text "sub")
      (Node.dir (Entries.entry (text "a") (Node.file 0o600 (1 ∷ 2 ∷ [])) Entries.nil))
      (Entries.entry (text ".tig") (Node.dir Entries.nil) (
        Entries.entry (text "run") (Node.file 0o755 (3 ∷ []))
          (Entries.entry (text "link") (Node.symlink (text "run")) Entries.nil)))

init-IsContentAddressed : IsContentAddressed plain init
unfolding tig.Prelude.Map.get
init-IsContentAddressed = record { framed = λ h f e. absurd (ground arith) }

trackable : IsTrackable default_ignore workdir
unfolding IsTrackable tig.Fs.Utf8.is_utf8 tig.Core.Tree.is_bad_name tig.Prelude.contains
    tig.Prelude.◌==◌
trackable = (
  refl,
  inr (refl, refl, (refl, inr (refl, refl, tt), tt)),
  (refl, inl refl, (refl, inr (refl, refl, tt), (refl, inr (refl, refl, refl), tt))),
)

stored : Stored plain default_ignore init workdir
stored =
    scan_dir-Stored plain default_ignore plain-IsSound init workdir trackable
      init-IsContentAddressed

abbrev snapshot_of : Hash → Snapshot
snapshot_of root = record {
  parents = [];
  tree = root;
  author = text "ann";
  timestamp_ns = 5;
  message = none;
  op_id = none;
}

abbrev options : MaterializeOptions
options = record { unsealer = none; on_unsealable = OnUnsealable.error }

abbrev with_snapshot : Hash × Repo
with_snapshot =
    Objects.put plain stored.repo'
      (encode ObjectKind.snapshot plain.snapshot (snapshot_of stored.root))

snapshot_stored :
    Extends plain stored.repo' with_snapshot.1
    × (read plain ObjectKind.snapshot plain.snapshot with_snapshot.1 with_snapshot.0
        ≡ ok (snapshot_of stored.root))
snapshot_stored =
    put-Extends plain ObjectKind.snapshot plain.snapshot stored.repo' (snapshot_of stored.root)
      plain-IsSound plain-IsSound.snapshot stored.extends.addressed

not_deep : depth (tracked default_ignore workdir) < 3
unfolding depth tracked tig.Prelude.contains tig.Prelude.◌==◌ tig.Prelude.BTree.insert
not_deep = omega arith

materialize-scan_dir_example :
    materialize_change_into plain os options with_snapshot.1 3 with_snapshot.0 none ≡ (
      ok (tally (tracked default_ignore workdir) no_stats),
      some (Node.dir (created os (tracked default_ignore workdir))),
    )
materialize-scan_dir_example =
    materialize-scan_dir plain os options default_ignore plain-IsSound init stored.repo'
      with_snapshot.1 workdir stored.root with_snapshot.0 (snapshot_of stored.root) 3
      init-IsContentAddressed trackable stored.run snapshot_stored.0 snapshot_stored.1 refl not_deep

abbrev forced : RestoreOptions
forced = record { force = true; materialize = options }

abbrev unforced : RestoreOptions
unforced = record { force = false; materialize = options }

abbrev other_workdir : Entries
other_workdir =
    Entries.entry (text "old") (Node.file 0o644 [])
      (Entries.entry (text ".tig") (Node.dir Entries.nil) Entries.nil)

-- Of the directory, only what is tig's own.
abbrev other_kept : Entries
other_kept = Entries.entry (text ".tig") (Node.dir Entries.nil) Entries.nil

restore_tree_into-Passed_example :
    ((restore_tree_into plain os 3 with_snapshot.1 with_snapshot.0 other_workdir with_snapshot.0
        unforced).2
      ≡ other_workdir)
    ⊎ Passed plain os 3 with_snapshot.1 with_snapshot.0 other_workdir with_snapshot.0 unforced
restore_tree_into-Passed_example =
    restore_tree_into-Passed plain os 3 with_snapshot.1 with_snapshot.0 other_workdir
      with_snapshot.0 unforced

abbrev place : Place
place = record { repo = init; kind = WorkspaceKind.main; log = in_memory }

abbrev snap_options : SnapOptions
snap_options = record {
  author = text "ann";
  message = none;
  force = true;
  initial_description = text "initial work";
  extra_ignores = [];
}

loads : Loads plain 5 6 (text "c1") init WorkspaceKind.main
unfolding current_change_id
loads = inl refl

snap_now-materialize_example :
    (snap_hash : Hash) × (tree_hash : Hash) × (change : Change) × (fresh : Bool) × (p' : Place)
    × (snap_now plain 5 6 (text "c1") place workdir snap_options
        ≡ (ok (SnapOutcome.snapped snap_hash tree_hash change fresh), p'))
    × (materialize_change_into plain os options p'.repo 3 snap_hash none ≡ (
      ok (tally (tracked default_ignore workdir) no_stats),
      some (Node.dir (created os (tracked default_ignore workdir))),
    ))
snap_now-materialize_example =
    snap_now-materialize plain 5 6 (text "c1") plain-IsSound place workdir snap_options os options 3
      init-IsContentAddressed trackable loads refl not_deep
