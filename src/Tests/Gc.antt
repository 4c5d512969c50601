-- ===== src/Tests/Gc.antt =====
-- A collection on concrete data: a change's snapshot and its tree are kept, a stray blob is removed.
-- The digest here is the sum of the bytes, which is enough for these few objects.
use tig.Prelude.{
  ℕ, ◌+◌, Bytes, text, contains, ◌≡◌, ◌≢◌, refl, sym, ◌∙◌, ◌==◌, cmp, none, some, [], ◌∷◌, ok, err,
  true, false,
}
use tig.Prelude.Map
use tig.Core.Object.{Hash, RawObject, ObjectKind, encode, decode}
use tig.Core.Vis.{VisLabel}
use tig.Core.Tree
use tig.Core.Change.{Change, ChangeState}
use tig.Core.Wire.{Wire, Snapshot}
use tig.Store.Error.{StoreError}
use tig.Store.Repo.{Repo, init}
use tig.Store.Refs
use tig.Store.Objects
use tig.Store.Objects.{iter_all}
use tig.Store.OpLog.{Op, OpKind, OpLog, RefSnapshot}
use tig.Store.Gc.{mark, GcOptions, GcSummary, collect_garbage, collect_roots}
use tig.Store.Gc.Reach.{Reach, Refers, root, step}
use tig.Store.Gc.Mark.{mark_exact}
use tig.Store.Gc.Sweep.{collect_garbage_keeps, collect_garbage_removes}
use tig.Store.Gc.Roots.{
  names_change, is_logged, collect_garbage_keeps_changes, collect_garbage_keeps_logged,
}
use tig.Store.Gc.Fuel.{collect_garbage_ends}
use tig.Tests.Wire.{plain}

false-true : false ≡ true → ⊥
false-true e = cc

abbrev sum : Bytes → ℕ
sum [] = 0
sum (b ∷ bs) = b + sum bs

abbrev summing : Wire
summing = record plain { blake3 = λ bs. sum bs ∷ [] }

abbrev tree_put : Hash × Repo
tree_put = Objects.put summing init (encode ObjectKind.tree summing.tree Tree.new)

abbrev snapshot : Snapshot
snapshot = record {
  parents = [];
  tree = 2 ∷ [];
  author = [];
  timestamp_ns = 0;
  message = none;
  op_id = none;
}

abbrev snapshot_put : Hash × Repo
snapshot_put = Objects.put summing tree_put.1 (encode ObjectKind.snapshot summing.snapshot snapshot)

abbrev change : Change
change = record {
  id = text "c";
  current = 6 ∷ [];
  bookmark = none;
  description = [];
  state = ChangeState.draft;
  history = (6 ∷ []) ∷ [];
  author = text "ann";
  visibility = VisLabel.private;
}

abbrev kept : Repo
kept = Refs.put_change snapshot_put.1 change

-- with a blob that nothing names
abbrev littered : Repo
littered =
    (Objects.put summing kept (encode ObjectKind.blob summing.blob (record { bytes = 40 ∷ [] }))).1

abbrev op : Op
op = record {
  id = 0;
  ts_ns = 5;
  actor = text "ann";
  kind = OpKind.snap (6 ∷ []) none;
  before = [];
  after = RefSnapshot.change (text "c") (some change) ∷ [];
}

abbrev log : OpLog
log = record { next_id = 1; ops = op ∷ [] }

abbrev real : GcOptions
real = record { dry_run = false; include_oplog_snapshots = true }

abbrev dry : GcOptions
dry = record { dry_run = true; include_oplog_snapshots = true }

abbrev summary : GcOptions → GcSummary
summary opts = record { roots = 1; kept = 2; removed = 1; bytes_freed = 3; dry_run = opts.dry_run }

collected : collect_garbage summing littered log real ≡ some (ok (summary real), kept)
unfolding collect_garbage collect_roots Refs.list_changes Objects.put Map.get Refs.put_change
    Map.put ◌==◌ tig.Core.Object.hash encode Refs.get_change mark contains tig.Store.Gc.expand
    Objects.get tig.Core.Object.from_tag tig.Core.Object.verify tig.Core.Object.decode
    tig.Core.Object.compute cmp Map.remove tig.Store.Gc.add tig.Store.Gc.add_all
    tig.Store.Gc.add_change tig.Store.Gc.capture_roots tig.Store.Gc.count_marked
    tig.Store.Gc.entry_targets tig.Store.Gc.fuel_for tig.Store.Gc.live_roots tig.Store.Gc.log_roots
    tig.Store.Gc.push_all tig.Store.Gc.remove_all tig.Store.Gc.sweep tig.Store.Gc.total_size
    tig.Store.Gc.unmarked Objects.frame iter_all Objects.remove Objects.unframe Refs.ids
    Refs.insert_id
collected = refl

looked_at : collect_garbage summing littered log dry ≡ some (ok (summary dry), littered)
unfolding collect_garbage collect_roots Refs.list_changes Objects.put Map.get Refs.put_change
    Map.put ◌==◌ tig.Core.Object.hash encode Refs.get_change mark contains tig.Store.Gc.expand
    Objects.get tig.Core.Object.from_tag tig.Core.Object.verify tig.Core.Object.decode
    tig.Core.Object.compute cmp Map.remove tig.Store.Gc.add tig.Store.Gc.add_all
    tig.Store.Gc.add_change tig.Store.Gc.capture_roots tig.Store.Gc.count_marked
    tig.Store.Gc.entry_targets tig.Store.Gc.fuel_for tig.Store.Gc.live_roots tig.Store.Gc.log_roots
    tig.Store.Gc.push_all tig.Store.Gc.remove_all tig.Store.Gc.sweep tig.Store.Gc.total_size
    tig.Store.Gc.unmarked Objects.frame iter_all Objects.remove Objects.unframe Refs.ids
    Refs.insert_id
looked_at = refl

roots_real : collect_roots littered log real ≡ ok ((6 ∷ []) ∷ [])
unfolding collect_roots Refs.list_changes Objects.put Map.get Refs.put_change Map.put ◌==◌
    tig.Core.Object.hash encode Refs.get_change contains
roots_real = refl

roots_dry : collect_roots littered log dry ≡ ok ((6 ∷ []) ∷ [])
unfolding collect_roots Refs.list_changes Objects.put Map.get Refs.put_change Map.put ◌==◌
    tig.Core.Object.hash encode Refs.get_change contains
roots_dry = refl

-- the snapshot, then its tree
root_reached : Reach summing littered ((6 ∷ []) ∷ []) (6 ∷ [])
unfolding contains ◌==◌ cmp
root_reached = root {h = 6 ∷ []} refl

snapshot_raw :
    Objects.get summing littered (6 ∷ [])
    ≡ ok (encode ObjectKind.snapshot summing.snapshot snapshot)
unfolding Objects.get Map.get Objects.put Refs.put_change Map.put ◌==◌ tig.Core.Object.hash encode
    tig.Core.Object.from_tag tig.Core.Object.verify
snapshot_raw = refl

snapshot_decodes :
    decode ObjectKind.snapshot summing.snapshot
      (encode ObjectKind.snapshot summing.snapshot snapshot)
    ≡ ok snapshot
unfolding decode encode
snapshot_decodes = refl

tree_reached : Reach summing littered ((6 ∷ []) ∷ []) (2 ∷ [])
tree_reached = step root_reached (Refers.root_tree _ snapshot snapshot_raw snapshot_decodes refl)

marks : mark summing 9 littered ((6 ∷ []) ∷ []) [] ≡ some (ok ((2 ∷ []) ∷ (6 ∷ []) ∷ []))
unfolding Refs.list_changes Objects.put Map.get Refs.put_change Map.put ◌==◌ tig.Core.Object.hash
    encode Refs.get_change mark contains tig.Store.Gc.expand Objects.get tig.Core.Object.from_tag
    tig.Core.Object.verify tig.Core.Object.decode tig.Core.Object.compute cmp Map.remove
    tig.Store.Gc.add tig.Store.Gc.add_all tig.Store.Gc.add_change tig.Store.Gc.capture_roots
    tig.Store.Gc.count_marked tig.Store.Gc.entry_targets tig.Store.Gc.fuel_for
    tig.Store.Gc.live_roots tig.Store.Gc.log_roots tig.Store.Gc.push_all tig.Store.Gc.remove_all
    tig.Store.Gc.sweep tig.Store.Gc.total_size tig.Store.Gc.unmarked Objects.frame iter_all
    Objects.remove Objects.unframe Refs.ids Refs.insert_id
marks = refl

unmarked : contains (42 ∷ []) ((2 ∷ []) ∷ (6 ∷ []) ∷ []) ≡ false
unfolding contains ◌==◌ cmp
unmarked = refl

stray : ¬ Reach summing littered ((6 ∷ []) ∷ []) (42 ∷ [])
stray reached =
    let found =
      (mark_exact summing littered ((2 ∷ []) ∷ (6 ∷ []) ∷ []) ((6 ∷ []) ∷ []) 9 (42 ∷ []) marks).1
        reached in
    absurd (false-true (sym unmarked ∙ found))

collect_garbage_keeps_example :
    Objects.get summing kept (2 ∷ []) ≡ Objects.get summing littered (2 ∷ [])
collect_garbage_keeps_example =
    collect_garbage_keeps summing littered log real ((6 ∷ []) ∷ []) (summary real) kept roots_real
      collected refl (2 ∷ []) tree_reached

collect_garbage_removes_example : Objects.get summing kept (42 ∷ []) ≡ err StoreError.not_found
collect_garbage_removes_example =
    collect_garbage_removes summing littered log real ((6 ∷ []) ∷ []) (summary real) kept roots_real
      collected refl (42 ∷ []) stray

loaded_change : Refs.get_change littered (text "c") ≡ ok change
unfolding Refs.get_change Map.get Objects.put Refs.put_change Map.put ◌==◌ tig.Core.Object.hash
    encode
loaded_change = refl

named : names_change (6 ∷ []) change ≡ true
unfolding contains ◌==◌
named = refl

collect_garbage_keeps_changes_example :
    Objects.get summing kept (6 ∷ []) ≡ Objects.get summing littered (6 ∷ [])
collect_garbage_keeps_changes_example =
    collect_garbage_keeps_changes summing littered log real (summary real) kept collected refl
      (text "c") change (6 ∷ []) refl loaded_change named

is_logged_six : is_logged (6 ∷ []) log.ops ≡ true
unfolding is_logged ◌==◌
is_logged_six = refl

collect_garbage_keeps_logged_example :
    Objects.get summing kept (6 ∷ []) ≡ Objects.get summing littered (6 ∷ [])
collect_garbage_keeps_logged_example =
    collect_garbage_keeps_logged summing littered log real (summary real) kept collected refl refl
      (6 ∷ []) is_logged_six

collect_garbage_ends_example : collect_garbage summing littered log real ≢ none
collect_garbage_ends_example = collect_garbage_ends summing littered log real
