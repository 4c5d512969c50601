-- ===== src/Fs/SnapNow.antt =====
-- crates/tig-fs/src/snap.rs: a snapshot of a working directory. The times of the snapshot and of the
-- operation, and the id of a change that is made, are arguments.
pub mod Laws
use tig.Prelude.{
  ℕ, Text, text, Bool, true, false, ◌==◌, ◌&&◌, not, is_none, Option, none, some, List, [], ◌∷◌,
  ◌++◌, Result, ok, err, and_then, map_err, if◌then◌else◌,
}
use tig.Core.Object.{Hash, ObjectKind, encode, compute}
use tig.Core.Change
use tig.Core.Change.{Change, ChangeId, advance}
use tig.Core.Wire.{Wire, Snapshot}
use tig.Store.Error.{StoreError}
use tig.Store.Repo.{Repo, WorkspaceManifest}
use tig.Store.Refs
use tig.Store.Objects
use tig.Store.OpLog.{OpKind, OpInProgress, OpLog, RefSnapshot, append}
use tig.Store.Workspace.{WorkspaceKind, current_change_id, set_current_change_id}
use tig.Fs.Action.{FsError}
use tig.Fs.TreeEdit.{read}
use tig.Fs.Workdir.{Entries}
use tig.Fs.Scan.{default_ignore, scan_dir}
use tig.Fs.Snap.{SnapOptions, SnapOutcome, is_unchanged}

-- What a snap works on and changes.
pub record Place : Type 0 where
  pub repo : Repo
  pub kind : WorkspaceKind
  pub log : OpLog

abbrev pub Snapping : Type 0
Snapping = Result FsError SnapOutcome × Place

abbrev pub scan_ignore : SnapOptions → List Text
scan_ignore opts = default_ignore ++ opts.extra_ignores

abbrev manifest_of : Result StoreError WorkspaceManifest → Option WorkspaceManifest
manifest_of (ok m) = some m
manifest_of (err _) = none

unfoldable pub capture_workspace_ref : Repo → WorkspaceKind → RefSnapshot
unfolding Refs.head Refs.get_workspace
capture_workspace_ref repo WorkspaceKind.main = RefSnapshot.head (Refs.head repo)
capture_workspace_ref repo (WorkspaceKind.secondary m) =
    RefSnapshot.workspace m.id (manifest_of (Refs.get_workspace repo m.id))

-- The change to snap: what stood in the repository before, the parents, and whether it is fresh.
pub record Start : Type 0 where
  pub change : Change
  pub parents : List Hash
  pub fresh : Bool
  pub change_before : Option Change

module _ (w : Wire) (timestamp now : ℕ) (fresh_id : ChangeId) where
  unfoldable pub placeholder_hash : Hash
  unfolding compute
  placeholder_hash = compute w.blake3 ObjectKind.snapshot (text "tig:placeholder")

  abbrev existing : Change → Start
  existing c = record {
    change = c;
    parents = c.current ∷ [];
    fresh = false;
    change_before = some c;
  }

  unfoldable pub first_change : SnapOptions → Change
  unfolding placeholder_hash Change.new
  first_change opts = Change.new fresh_id opts.initial_description opts.author placeholder_hash

  abbrev bootstrap : SnapOptions → Start
  bootstrap opts = record {
    change = first_change opts;
    parents = [];
    fresh = true;
    change_before = none;
  }

  unfoldable pub start : Repo → SnapOptions → Option ChangeId → Result FsError Start
  unfolding first_change Refs.get_change
  start repo opts (some id) =
      and_then (map_err FsError.store (Refs.get_change repo id)) λ c. ok (existing c)
  start repo opts none = ok (bootstrap opts)

  abbrev moved : Start → Hash → Change
  moved s snap_hash =
      if s.fresh
      then record s.change { current = snap_hash; history = snap_hash ∷ [] }
      else advance s.change snap_hash

  -- A fresh change becomes the current one.
  abbrev pointed : Start → Change → Repo → WorkspaceKind → Repo × WorkspaceKind
  pointed s change repo kind =
      if s.fresh then set_current_change_id repo kind change.id else (repo, kind)

  -- The record of the snap: the workspace's ref and the change, before and after.
  abbrev pub snap_op_at : Start → Place → Repo × WorkspaceKind → Hash → SnapOptions → OpInProgress
  snap_op_at s p after snap_hash opts = record {
    actor = opts.author;
    kind = OpKind.snap snap_hash opts.message;
    before =
        capture_workspace_ref p.repo p.kind ∷ RefSnapshot.change s.change.id s.change_before ∷ [];
    after =
        capture_workspace_ref after.0 after.1
        ∷ RefSnapshot.change (moved s snap_hash).id (some (moved s snap_hash))
        ∷ [];
  }

  abbrev pub snap_at : Start → Hash → SnapOptions → Snapshot
  snap_at s tree_hash opts = record {
    parents = s.parents;
    tree = tree_hash;
    author = opts.author;
    timestamp_ns = timestamp;
    message = opts.message;
    op_id = none;
  }

  abbrev pub take_snap : SnapOptions → Place → Hash → Start → Snapping
  take_snap opts p tree_hash s =
      let (snap_hash, stored) =
        Objects.put w p.repo (encode ObjectKind.snapshot w.snapshot (snap_at s tree_hash opts)) in
      let change = moved s snap_hash in
      let after = pointed s change (Refs.put_change stored change) p.kind in
      let (_, log') = append now p.log (snap_op_at s p after snap_hash opts) in
      (
        ok (SnapOutcome.snapped snap_hash tree_hash change s.fresh),
        record { repo = after.0; kind = after.1; log = log' },
      )

  abbrev against : SnapOptions → Place → Hash → Start → Result FsError Snapshot → Snapping
  against opts p tree_hash s (err e) = (err e, p)
  against opts p tree_hash s (ok prev_snap) =
      if is_unchanged prev_snap tree_hash opts
      then (ok (SnapOutcome.unchanged s.change), p)
      else take_snap opts p tree_hash s

  abbrev pub snap_started : SnapOptions → Place → Hash → Result FsError Start → Snapping
  snap_started opts p tree_hash (err e) = (err e, p)
  snap_started opts p tree_hash (ok s) =
      if not s.fresh
      then against opts p tree_hash s
          (read w ObjectKind.snapshot w.snapshot p.repo s.change.current)
      else take_snap opts p tree_hash s

  abbrev pub snap_scanned : SnapOptions → Place → Result FsError Hash × Repo → Snapping
  snap_scanned opts p (err e, repo) = (err e, record p { repo = repo })
  snap_scanned opts p (ok tree_hash, repo) =
      snap_started opts (record p { repo = repo }) tree_hash
        (start repo opts (current_change_id repo p.kind))

  unfoldable pub snap_now : Place → Entries → SnapOptions → Snapping
  unfolding scan_dir start current_change_id set_current_change_id capture_workspace_ref read
  snap_now p workdir opts = snap_scanned opts p (scan_dir w (scan_ignore opts) workdir p.repo)
