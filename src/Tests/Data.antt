-- ===== src/Tests/Data.antt =====
-- A small repository: one file, one tree, one snapshot, one change.
use tig.Prelude.{text, none, some, [], ◌∷◌, false}
use tig.Prelude.Map
use tig.Fs.TreeEdit.Level.{none-some}
use tig.Core.Object.{Hash, ObjectKind, encode}
use tig.Core.Vis.{VisLabel}
use tig.Core.Tree.{EntryKind, Tree, TreeEntry, regular}
use tig.Core.Change.{Change, ChangeState}
use tig.Core.Wire.{Snapshot}
use tig.Store.Repo.{Repo, init}
use tig.Store.Refs
use tig.Store.Objects
use tig.Store.Objects.Laws.{IsContentAddressed, put-IsContentAddressed}
use tig.Store.OpLog.{OpLog, Op, OpKind, RefSnapshot}
use tig.Fs.TreeEdit.Write.{leaf_entry}
use tig.Fs.Snap.{SnapOptions}
use tig.Fs.Snap.Laws.{put_change-IsContentAddressed}
use tig.Tests.Wire.{plain}

abbrev pub blob_put : Hash × Repo
blob_put =
    Objects.put plain init (encode ObjectKind.blob plain.blob (record { bytes = 7 ∷ 8 ∷ [] }))

abbrev pub entry : TreeEntry
entry = leaf_entry (text "a") blob_put.0 EntryKind.file regular

abbrev pub tree : Tree
tree = record { entries = entry ∷ [] }

abbrev pub tree_put : Hash × Repo
tree_put = Objects.put plain blob_put.1 (encode ObjectKind.tree plain.tree tree)

abbrev pub snapshot : Snapshot
snapshot = record {
  parents = [];
  tree = tree_put.0;
  author = text "ann";
  timestamp_ns = 5;
  message = none;
  op_id = none;
}

abbrev pub snapshot_put : Hash × Repo
snapshot_put = Objects.put plain tree_put.1 (encode ObjectKind.snapshot plain.snapshot snapshot)

abbrev pub change : Change
change = record {
  id = text "c1";
  current = snapshot_put.0;
  bookmark = none;
  description = text "first";
  state = ChangeState.draft;
  history = snapshot_put.0 ∷ [];
  author = text "ann";
  visibility = VisLabel.private;
}

abbrev pub repo : Repo
repo = Refs.put_change snapshot_put.1 change

-- The creation of the change.
abbrev pub op : Op
op = record {
  id = 0;
  ts_ns = 5;
  actor = text "ann";
  kind = OpKind.change_new (text "c1") (text "first");
  before = RefSnapshot.change (text "c1") none ∷ [];
  after = RefSnapshot.change (text "c1") (some change) ∷ [];
}

abbrev pub log : OpLog
log = record { next_id = 1; ops = op ∷ [] }

abbrev pub options : SnapOptions
options = record {
  author = text "ann";
  message = some (text "m");
  force = false;
  initial_description = [];
  extra_ignores = [];
}

pub init-IsContentAddressed : IsContentAddressed plain init
unfolding Map.get
init-IsContentAddressed = record { framed = λ h f e. absurd (none-some e) }

pub repo-IsContentAddressed : IsContentAddressed plain repo
repo-IsContentAddressed = put_change-IsContentAddressed plain snapshot_put.1 change (
    put-IsContentAddressed plain tree_put.1 _ (
      put-IsContentAddressed plain blob_put.1 _
        (put-IsContentAddressed plain init _ init-IsContentAddressed)))
