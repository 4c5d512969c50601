-- ===== src/Store/Gc.antt =====
-- crates/tig-store/src/gc.rs: mark and sweep over the object store.
-- A `HashSet` is a list without repetitions; the queue's end is the head of its list. The mark loop
-- takes fuel, one unit for each hash popped.
pub mod Reach
pub mod Mark
pub mod Fuel
pub mod Sweep
pub mod Roots
use tig.Prelude.{
  ℕ, zero, suc, ◌+◌, Bytes, Bool, true, false, Option, none, some, List, [], ◌∷◌, ◌++◌, length,
  contains, if◌then◌else◌, Result, ok, err, and_then, map_err,
}
use tig.Prelude.Map.{Map}
use tig.Core.Object.{Hash, ObjectKind, RawObject, decode}
use tig.Core.Tree.{EntryKind, Tree, TreeEntry}
use tig.Core.Change.{Change, ChangeId}
use tig.Core.Wire.{Wire, Snapshot}
use tig.Store.Error.{StoreError}
use tig.Store.Repo.{Repo}
use tig.Store.Objects
use tig.Store.Refs.{get_change, list_changes}
use tig.Store.OpLog.{Op, OpKind, OpLog, RefSnapshot}

pub record GcOptions : Type 0 where
  pub dry_run : Bool
  pub include_oplog_snapshots : Bool

pub record GcSummary : Type 0 where
  pub roots : ℕ
  pub kept : ℕ
  pub removed : ℕ
  pub bytes_freed : ℕ
  pub dry_run : Bool

-- `HashSet::insert`
unfoldable pub add : Hash → List Hash → List Hash
add h hs = if contains h hs then hs else h ∷ hs

unfoldable pub add_all : List Hash → List Hash → List Hash
unfolding add
add_all [] roots = roots
add_all (h ∷ hs) roots = add_all hs (add h roots)

-- `current` and every entry of `history`
unfoldable pub add_change : Change → List Hash → List Hash
unfolding add_all
add_change c roots = add_all c.history (add c.current roots)

unfoldable pub live_roots : Repo → List ChangeId → List Hash → Result StoreError (List Hash)
unfolding add_change
live_roots repo [] roots = ok roots
live_roots repo (id ∷ ids) roots =
    and_then (get_change repo id) λ change. live_roots repo ids (add_change change roots)

unfoldable pub capture_roots : List RefSnapshot → List Hash → List Hash
unfolding add_change
capture_roots [] roots = roots
capture_roots (RefSnapshot.change _ (some c) ∷ ss) roots = capture_roots ss (add_change c roots)
capture_roots (_ ∷ ss) roots = capture_roots ss roots

abbrev pub kind_roots : OpKind → List Hash → List Hash
kind_roots (OpKind.snap h _) roots = add h roots
kind_roots _ roots = roots

unfoldable pub log_roots : List Op → List Hash → List Hash
unfolding capture_roots
log_roots [] roots = roots
log_roots (op ∷ ops) roots =
    log_roots ops (capture_roots (op.before ++ op.after) (kind_roots op.kind roots))

unfoldable pub collect_roots : Repo → OpLog → GcOptions → Result StoreError (List Hash)
unfolding live_roots log_roots
collect_roots repo log opts =
    and_then (live_roots repo (list_changes repo) [])
      λ roots. ok (if opts.include_oplog_snapshots then log_roots log.ops roots else roots)

-- The targets that a tree's entries push: not those of symlinks and submodules.
unfoldable pub entry_targets : List TreeEntry → List Hash → List Hash
entry_targets [] queue = queue
entry_targets (e ∷ es) queue =
    entry_targets es (elim e.kind [
      | EntryKind.symlink ↦ queue
      | EntryKind.submodule ↦ queue
      | _ ↦ e.target ∷ queue
    ])

unfoldable pub push_all : List Hash → List Hash → List Hash
push_all [] queue = queue
push_all (p ∷ ps) queue = push_all ps (p ∷ queue)

module _ (w : Wire) where
  abbrev pub expand_kind : ObjectKind → RawObject → List Hash → Result StoreError (List Hash)
  expand_kind ObjectKind.snapshot raw queue =
      and_then (map_err StoreError.core (decode ObjectKind.snapshot w.snapshot raw))
        λ snap. ok (push_all snap.parents (snap.tree ∷ queue))
  expand_kind ObjectKind.tree raw queue =
      and_then (map_err StoreError.core (decode ObjectKind.tree w.tree raw))
        λ tree. ok (entry_targets tree.entries queue)
  expand_kind ObjectKind.blob raw queue = ok queue
  expand_kind ObjectKind.sealed raw queue = ok queue
  expand_kind ObjectKind.conflict raw queue = ok queue

  -- What one marked hash adds to the queue; a missing object adds nothing.
  abbrev pub expand_read : Result StoreError RawObject → List Hash → Result StoreError (List Hash)
  expand_read (ok raw) queue = expand_kind raw.kind raw queue
  expand_read (err StoreError.not_found) queue = ok queue
  expand_read (err e) queue = err e

  unfoldable pub expand : Repo → Hash → List Hash → Result StoreError (List Hash)
  unfolding push_all entry_targets
  expand repo h queue = expand_read (Objects.get w repo h) queue

  -- The loop over the queue: `none` means that the fuel ran out.
  unfoldable pub mark : ℕ → Repo → List Hash → List Hash → Option (Result StoreError (List Hash))
  mark fuel repo [] marked = some (ok marked)
  mark zero repo (h ∷ queue) marked = none
  mark (suc fuel) repo (h ∷ queue) marked = elim (contains h marked) [
    | true ↦ mark fuel repo queue marked
    | false ↦ elim (expand repo h queue) [
      | ok queue' ↦ mark fuel repo queue' (h ∷ marked)
      | err e ↦ some (err e)
    ]
  ]

-- The unmarked files with their sizes.
unfoldable pub unmarked : List Hash → List (Hash × ℕ) → List (Hash × ℕ)
unmarked marked [] = []
unmarked marked ((h, size) ∷ files) =
    let rest = unmarked marked files in if contains h marked then rest else (h, size) ∷ rest

unfoldable pub count_marked : List Hash → List (Hash × ℕ) → ℕ
count_marked marked [] = 0
count_marked marked ((h, size) ∷ files) =
    let rest = count_marked marked files in if contains h marked then suc rest else rest

unfoldable pub total_size : List (Hash × ℕ) → ℕ
total_size [] = 0
total_size ((h, size) ∷ files) = size + total_size files

unfoldable pub remove_all : List (Hash × ℕ) → Repo → Repo
remove_all [] repo = repo
remove_all ((h, size) ∷ files) repo = remove_all files (Objects.remove repo h)

unfoldable pub sweep : Repo → GcOptions → List Hash → List Hash → GcSummary × Repo
unfolding unmarked count_marked total_size remove_all
sweep repo opts roots marked =
    let files = Objects.iter_all repo.objects in
    let to_remove = unmarked marked files in
    (
      record {
        roots = length roots;
        kept = count_marked marked files;
        removed = length to_remove;
        bytes_freed = total_size to_remove;
        dry_run = opts.dry_run;
      },
      if opts.dry_run then repo else remove_all to_remove repo,
    )

module _ (w : Wire) where
  -- What one file can add to the queue.
  abbrev pub pushes : Result StoreError (List Hash) → ℕ
  pushes (ok queue) = length queue
  pushes (err _) = 0

  -- Enough fuel: every root, and every hash that any stored object names.
  unfoldable pub fuel_for : Repo → Map Bytes → List Hash → ℕ
  fuel_for repo [] roots = length roots
  fuel_for repo ((h, f) ∷ m) roots = pushes (expand w repo h []) + fuel_for repo m roots

  abbrev pub finish :
      Repo
      → GcOptions
      → List Hash
      → Option (Result StoreError (List Hash))
      → Option (Result StoreError GcSummary × Repo)
  finish repo opts roots none = none
  finish repo opts roots (some (err e)) = some (err e, repo)
  finish repo opts roots (some (ok marked)) =
      let (summary, repo') = sweep repo opts roots marked in some (ok summary, repo')

  abbrev pub mark_and_sweep :
      Repo → GcOptions → Result StoreError (List Hash) → Option (Result StoreError GcSummary × Repo)
  mark_and_sweep repo opts (err e) = some (err e, repo)
  mark_and_sweep repo opts (ok roots) =
      finish repo opts roots (mark w (fuel_for repo repo.objects roots) repo roots [])

  unfoldable pub collect_garbage :
      Repo → OpLog → GcOptions → Option (Result StoreError GcSummary × Repo)
  unfolding sweep fuel_for
  collect_garbage repo log opts = mark_and_sweep repo opts (collect_roots repo log opts)
