-- ===== src/Tests/Handlers.antt =====
-- Requests to the daemon on the small repository.
use tig.Prelude.{
  ℕ, zero, Bytes, Text, text, ◌≡◌, refl, inl, inr, Bool, true, false, Option, none, some, List, [],
  ◌∷◌, Result, ok, err,
}
use tig.Core.Object.{Hash, ObjectKind, encode}
use tig.Core.Tree
use tig.Core.Tree.{EntryKind}
use tig.Core.Change
use tig.Core.Change.{Change, ChangeId}
use tig.Core.Wire.{Snapshot}
use tig.Store.Repo.{Repo, init}
use tig.Store.Objects
use tig.Store.Refs
use tig.Store.OpLog.{OpLog, append, in_memory}
use tig.Store.Gc.{GcSummary}
use tig.Fs.TreeEdit.{read}
use tig.Fs.Diff.{LineChange, ChangeKind}
use tig.Daemon.Access.Laws.{Shows}
use tig.Daemon.Caller.{Headers}
use tig.Daemon.Read.{DiffQuery, DiffView, parse_hash, get_snapshot, diff_change}
use tig.Daemon.Read.Laws.{FromShown, get_snapshot-Shows, diff_change-Shows}
use tig.Daemon.Manage.{CreateChangeReq, create_change, gc, new_op}
use tig.Daemon.Manage.Laws.{Asked}
use tig.Tests.Data.{repo, log, change, tree_put, snapshot_put, blob_put}
use tig.Tests.Wire.{plain}
use tig.Tests.VisLibs.{libs}
use tig.Tests.Identities.{files}

abbrev similar : Text → Text → ℕ → List (List LineChange)
similar from to radius = []

abbrev empty_put : Hash × Repo
empty_put = Objects.put plain repo (encode ObjectKind.tree plain.tree Tree.new)

abbrev query : DiffQuery
query = record { from = none; to = none; no_hunks = true; paths = [] }

-- The snapshot has no parents, so it is compared with the empty tree.
abbrev view : DiffView
view = record {
  from_tree = empty_put.0;
  to_tree = tree_put.0;
  files =
      record {
        path = text "a";
        kind = ChangeKind.added;
        entry_kind = EntryKind.file;
        from_target = none;
        to_target = some blob_put.0;
        binary = false;
        hunks = none;
      }
      ∷ [];
}

diffed :
    diff_change plain similar (λ s. none) 3 repo (text "ann") (text "c1") query
    ≡ (some (ok view), empty_put.1)
unfolding diff_change Refs.get_change tig.Prelude.Map.get Refs.put_change tig.Prelude.Map.put
    Objects.put tig.Prelude.◌==◌ tig.Core.Object.hash encode tig.Core.Vis.can_see Objects.get
    tig.Core.Object.from_tag tig.Core.Object.verify tig.Core.Object.decode tig.Prelude.contains
diffed = refl

diff_change-Shows_example :
    (to_snap_hash : Hash) × (to_snap : Snapshot) × (read plain ObjectKind.snapshot plain.snapshot
        repo to_snap_hash
      ≡ ok to_snap)
    × (view.to_tree ≡ to_snap.tree)
    × Shows empty_put.1 (text "ann") (Refs.list_changes empty_put.1) to_snap_hash
    × FromShown plain similar (λ s. none) 3 empty_put.1 (text "ann") none
diff_change-Shows_example =
    diff_change-Shows plain similar (λ s. none) 3 repo empty_put.1 (text "ann") (text "c1") query
      view diffed

-- A snapshot whose stand-in hash has 32 bytes.
abbrev sized : Snapshot
sized = record {
  parents = [];
  tree = [];
  author = text "ann";
  timestamp_ns = 5;
  message = some (text "a message of 21 char.");
  op_id = none;
}

abbrev sized_put : Hash × Repo
sized_put = Objects.put plain init (encode ObjectKind.snapshot plain.snapshot sized)

abbrev sized_repo : Repo
sized_repo =
    Refs.put_change sized_put.1
      (record change { current = sized_put.0; history = sized_put.0 ∷ [] })

-- Every text decodes to that hash.
abbrev hex_decode : Text → Option Bytes
hex_decode s = some sized_put.0

fetched : get_snapshot plain hex_decode sized_repo (text "ann") (text "x") ≡ ok sized
unfolding get_snapshot Objects.put tig.Prelude.Map.get tig.Core.Object.hash encode Refs.put_change
    tig.Prelude.Map.put Refs.get_change tig.Prelude.◌==◌ tig.Prelude.contains tig.Core.Vis.can_see
    tig.Core.Object.from_tag tig.Core.Object.verify
fetched = refl

get_snapshot-Shows_example :
    (h : Hash) × (parse_hash hex_decode (text "x") ≡ ok h)
    × Shows sized_repo (text "ann") (Refs.list_changes sized_repo) h
get_snapshot-Shows_example =
    get_snapshot-Shows plain hex_decode sized_repo (text "ann") (text "x") sized fetched

abbrev request : CreateChangeReq
request = record {
  description = text "next";
  from_change = some (text "c1");
  visibility = none;
  state = none;
}

abbrev made : Change
made = Change.new (text "c2") (text "next") (text "ann") snapshot_put.0

abbrev made_repo : Repo
made_repo = Refs.put_change repo made

abbrev made_log : OpLog
made_log = (append 7 log (new_op plain (λ s. s) 6 7 (text "c2") (text "ann") request made)).1

created :
    create_change plain (λ s. s) 6 7 (text "c2") repo log (text "ann") request
    ≡ (ok made, made_repo, made_log)
unfolding create_change Refs.get_change tig.Prelude.Map.get Refs.put_change tig.Prelude.Map.put
    Objects.put tig.Prelude.◌==◌ tig.Core.Object.hash encode tig.Core.Vis.can_see
created = refl

abbrev nothing : GcSummary
nothing = record { roots = 0; kept = 0; removed = 0; bytes_freed = 0; dry_run = false }

-- A header that is no text lets a request in that carries no token.
abbrev unreadable_headers : Headers
unreadable_headers = record { auth = some (255 ∷ []); principal = none }

let_in :
    gc plain libs (λ v. none) [] 99 init in_memory unreadable_headers none ≡ some (ok nothing, init)
unfolding gc tig.Store.Gc.collect_roots Refs.list_changes tig.Store.Gc.mark Objects.iter_all
let_in = refl
