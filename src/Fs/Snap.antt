-- ===== src/Fs/Snap.antt =====
-- crates/tig-fs/src/snap.rs: taking a snapshot of a change without a working directory.
-- The snapshot's time and the operation's time are arguments.
pub mod Laws
use tig.Prelude.{
  ℕ, Text, Bool, true, false, ◌==◌, ◌&&◌, not, is_none, Option, none, some, List, [], ◌∷◌, Result,
  ok, err, and_then, map_err, if◌then◌else◌,
}
use tig.Core.Object.{Hash, ObjectKind, encode}
use tig.Core.Vis.{PrincipalId}
use tig.Core.Change.{Change, ChangeId, advance}
use tig.Core.Wire.{Wire, Snapshot}
use tig.Store.Repo.{Repo}
use tig.Store.Refs
use tig.Store.Objects
use tig.Store.OpLog.{OpKind, OpInProgress, OpLog, RefSnapshot, append}
use tig.Fs.Action.{FsError}
use tig.Fs.TreeEdit.{read}

pub record SnapOptions : Type 0 where
  pub author : PrincipalId
  pub message : Option Text
  pub force : Bool
  pub initial_description : Text
  pub extra_ignores : List Text

pub data SnapOutcome : Type 0 where
  snapped : Hash → Hash → Change → Bool → SnapOutcome
  unchanged : Change → SnapOutcome

abbrev pub Snapped : Type 0
Snapped = Result FsError SnapOutcome × Repo × OpLog

abbrev pub new_snapshot : ℕ → Change → Hash → SnapOptions → Snapshot
new_snapshot timestamp change new_tree opts = record {
  parents = change.current ∷ [];
  tree = new_tree;
  author = opts.author;
  timestamp_ns = timestamp;
  message = opts.message;
  op_id = none;
}

-- The record of the snap, with the change before and after it.
abbrev pub snap_op : ChangeId → Hash → Change → Change → SnapOptions → OpInProgress
snap_op change_id snap_hash change_before change opts = record {
  actor = opts.author;
  kind = OpKind.snap snap_hash opts.message;
  before = RefSnapshot.change change_id (some change_before) ∷ [];
  after = RefSnapshot.change change_id (some change) ∷ [];
}

abbrev pub is_unchanged : Snapshot → Hash → SnapOptions → Bool
is_unchanged prev_snap new_tree opts =
    prev_snap.tree == new_tree && is_none opts.message && not opts.force

module _ (w : Wire) (timestamp now : ℕ) where
  -- What follows the test for an unchanged tree.
  abbrev pub take_snapshot : Repo → OpLog → ChangeId → Hash → SnapOptions → Change → Snapped
  take_snapshot repo log change_id new_tree opts change_before =
      let snap = new_snapshot timestamp change_before new_tree opts in
      let (snap_hash, stored) = Objects.put w repo (encode ObjectKind.snapshot w.snapshot snap) in
      let change = advance change_before snap_hash in
      let repo' = Refs.put_change stored change in
      let (_, log') = append now log (snap_op change_id snap_hash change_before change opts) in
      (ok (SnapOutcome.snapped snap_hash new_tree change false), repo', log')

  abbrev pub snap_onto :
      Repo → OpLog → ChangeId → Hash → SnapOptions → Change → Result FsError Snapshot → Snapped
  snap_onto repo log change_id new_tree opts change (err e) = (err e, repo, log)
  snap_onto repo log change_id new_tree opts change (ok prev_snap) =
      if is_unchanged prev_snap new_tree opts
      then (ok (SnapOutcome.unchanged change), repo, log)
      else take_snapshot repo log change_id new_tree opts change

  abbrev pub snap_change :
      Repo → OpLog → ChangeId → Hash → SnapOptions → Result FsError Change → Snapped
  snap_change repo log change_id new_tree opts (err e) = (err e, repo, log)
  snap_change repo log change_id new_tree opts (ok change) =
      snap_onto repo log change_id new_tree opts change
        (read w ObjectKind.snapshot w.snapshot repo change.current)

  unfoldable pub snap_change_directly : Repo → OpLog → ChangeId → Hash → SnapOptions → Snapped
  unfolding read
  snap_change_directly repo log change_id new_tree opts =
      snap_change repo log change_id new_tree opts
        (map_err FsError.store (Refs.get_change repo change_id))
