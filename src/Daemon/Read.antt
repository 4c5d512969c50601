-- ===== src/Daemon/Read.antt =====
-- crates/tigd/src/handlers.rs: the handlers that read a tree, a difference or a snapshot, up to the view
-- made of the result. The caller is an argument, and so is the decoder of hexadecimal texts.
pub mod Laws
use tig.Prelude.{
  ℕ, Bytes, Text, text, Bool, true, false, not, ◌==◌, ◌||◌, ◌&&◌, contains, Option, none, some,
  List, [], ◌∷◌, nat_eq, length, Result, ok, err, and_then, map_err, ok_or, if◌then◌else◌,
}
use tig.Core.Error.{CoreError}
use tig.Core.Object.{Hash, ObjectKind, RawObject, encode, decode, kind_eq}
use tig.Core.Tree
use tig.Core.Tree.{EntryKind, Tree, TreeEntry, contains_byte}
use tig.Core.Vis.{PrincipalId}
use tig.Core.Change.{Change, ChangeId}
use tig.Core.Wire.{Wire, Snapshot, Sealed}
use tig.Store.Repo.{Repo}
use tig.Store.Objects
use tig.Fs.Action.{FsError}
use tig.Fs.TreeEdit.{
  Parts, split, non_empty, is_bad_part, read, read_tree, lookup_entry, read_blob_at_path, list_tree,
}
use tig.Fs.Diff.{DiffOptions, FileDiff, LineChange, diff_trees}
use tig.Fs.Materialize.{Stop}
use tig.Daemon.Error.{ApiError, from_core, from_store, from_fs}
use tig.Daemon.Access.{load_visible_change, visible_snapshot_set}
use tig.Daemon.Edit.{parse_change_id}

-- `Hash::from_hex`
abbrev pub parse_hash : (Text → Option Bytes) → Text → Result ApiError Hash
parse_hash hex_decode s =
    and_then (ok_or ApiError.bad_request (hex_decode s))
      λ bytes. if not (nat_eq (length bytes) 32) then err ApiError.bad_request else ok bytes

unfoldable pub bad_part_in : List Text → Bool
unfolding contains_byte
bad_part_in [] = false
bad_part_in (p ∷ ps) = is_bad_part p || bad_part_in ps

abbrev parts_of : List Text → Result ApiError Parts
parts_of [] = err ApiError.bad_request
parts_of (p ∷ ps) = if bad_part_in (p ∷ ps) then err ApiError.bad_request else ok (p, ps)

unfoldable pub path_parts : Text → Result ApiError Parts
unfolding split non_empty bad_part_in
path_parts path = parts_of (non_empty (split path))

unfoldable pub load_for_read : Repo → Text → PrincipalId → Result ApiError Change
unfolding load_visible_change
load_for_read repo id caller =
    and_then (parse_change_id id) λ id. load_visible_change repo id caller

-- The body of a response for a path.
pub data PathView : Type 0 where
  file : Bytes → Hash → PathView
  tree : Hash → Tree → PathView
  sealed : Sealed → PathView

module _ (w : Wire) where
  abbrev pub read_snapshot : Repo → Hash → Result ApiError Snapshot
  read_snapshot repo h = map_err from_fs (read w ObjectKind.snapshot w.snapshot repo h)

  unfoldable pub get_tree_root : Repo → PrincipalId → Text → Result ApiError (Hash × Tree)
  unfolding load_for_read read read_tree
  get_tree_root repo caller id = and_then (load_for_read repo id caller) λ change.
      and_then (read_snapshot repo change.current)
        λ snap. and_then (map_err from_fs (read_tree w repo snap.tree)) λ t. ok (snap.tree, t)

  abbrev view_kind : Repo → Hash → Text → TreeEntry → EntryKind → Result ApiError PathView
  view_kind repo root path e EntryKind.file =
      and_then (map_err from_fs (read_blob_at_path w repo root path))
        λ bytes. ok (PathView.file bytes e.target)
  view_kind repo root path e EntryKind.tree =
      and_then (map_err from_fs (list_tree w repo root path)) λ t. ok (PathView.tree e.target t)
  view_kind repo root path e EntryKind.sealed =
      and_then (map_err from_fs (read w ObjectKind.sealed w.sealed repo e.target))
        λ s. ok (PathView.sealed s)
  view_kind repo root path e _ = err ApiError.bad_request

  unfoldable pub get_tree_path : Repo → PrincipalId → Text → Text → Result ApiError PathView
  unfolding load_for_read read path_parts lookup_entry read_blob_at_path list_tree
  get_tree_path repo caller id path = and_then (load_for_read repo id caller) λ change.
      and_then (read_snapshot repo change.current) λ snap. and_then (path_parts path) λ parts.
        and_then (map_err from_fs (lookup_entry w repo snap.tree parts.0 parts.1))
          λ entry. view_kind repo snap.tree path entry entry.kind

  module _ (hex_decode : Text → Option Bytes) where
    abbrev parsed_snapshot : Repo → Hash → Result ApiError Snapshot
    parsed_snapshot repo h = and_then (map_err from_store (Objects.get w repo h)) λ raw.
        if not (kind_eq raw.kind ObjectKind.snapshot)
        then err ApiError.bad_request
        else map_err from_core (decode ObjectKind.snapshot w.snapshot raw)

    abbrev gated : List Hash → Hash → Result ApiError Snapshot → Result ApiError Snapshot
    gated visible h r = if not (contains h visible) then err ApiError.not_found else r

    unfoldable pub get_snapshot : Repo → PrincipalId → Text → Result ApiError Snapshot
    unfolding visible_snapshot_set Objects.get decode
    get_snapshot repo caller hash = and_then (parse_hash hex_decode hash) λ h.
        and_then (visible_snapshot_set repo caller)
          λ visible. gated visible h (parsed_snapshot repo h)

-- The query of a diff.
pub record DiffQuery : Type 0 where
  pub from : Option Text
  pub to : Option Text
  pub no_hunks : Bool
  pub paths : List Text

-- The trees compared, and the difference.
pub record DiffView : Type 0 where
  pub from_tree : Hash
  pub to_tree : Hash
  pub files : List FileDiff

module _ (w : Wire) (similar : Text → Text → ℕ → List (List LineChange))
    (hex_decode : Text → Option Bytes) (fuel : ℕ) where
  -- With the empty tree that may have been stored. `none` stands for a diff that ran out of fuel.
  abbrev pub Diffed : Type 0
  Diffed = Option (Result ApiError DiffView) × Repo

  abbrev refused : ApiError → Repo → Diffed
  refused e repo = (some (err e), repo)

  abbrev and_diff : {A : Type 0} → Result ApiError A → Repo → (A → Diffed) → Diffed
  and_diff (ok a) repo f = f a
  and_diff (err e) repo f = refused e repo

  abbrev to_hash : Change → Option Text → Result ApiError Hash
  to_hash change (some s) = parse_hash hex_decode s
  to_hash change none = ok change.current

  -- The tree of the first parent, or the empty tree.
  abbrev parent_tree : Repo → List Hash → Result ApiError Hash × Repo
  parent_tree repo (parent_hash ∷ _) =
      (and_then (read_snapshot w repo parent_hash) λ parent. ok parent.tree, repo)
  parent_tree repo [] =
      let (h, repo') = Objects.put w repo (encode ObjectKind.tree w.tree Tree.new) in (ok h, repo')

  abbrev from_tree_of : Repo → Option Text → Snapshot → Result ApiError Hash × Repo
  from_tree_of repo (some s) to_snap = (
    and_then (parse_hash hex_decode s) λ h. and_then (read_snapshot w repo h) λ snap. ok snap.tree,
    repo,
  )
  from_tree_of repo none to_snap = parent_tree repo to_snap.parents

  abbrev from_is_visible : List Hash → Option Text → Result ApiError Bool
  from_is_visible visible (some s) = and_then (parse_hash hex_decode s) λ h. ok (contains h visible)
  from_is_visible visible none = ok true

  abbrev answer : Hash → Hash → Repo → Result Stop (List FileDiff) → Diffed
  answer from to repo (ok ds) =
      (some (ok (record { from_tree = from; to_tree = to; files = ds })), repo)
  answer from to repo (err Stop.out_of_fuel) = (none, repo)
  answer from to repo (err (Stop.failed e)) = refused (from_fs e) repo

  abbrev options_of : DiffQuery → DiffOptions
  options_of q = record { no_hunks = q.no_hunks; paths = q.paths; context_lines = 3 }

  abbrev diff_checked : DiffQuery → Hash → Hash → Repo → Bool → Diffed
  diff_checked q from to repo reachable =
      if not reachable
      then refused ApiError.not_found repo
      else answer from to repo (diff_trees w similar repo (options_of q) fuel from to)

  abbrev diff_resolved :
      PrincipalId → DiffQuery → Hash → Snapshot → Result ApiError Hash × Repo → Diffed
  diff_resolved caller q to_snap_hash to_snap (from, repo) = and_diff from repo λ from_tree.
      and_diff (visible_snapshot_set repo caller) repo λ visible.
        and_diff (from_is_visible visible q.from) repo λ from_snap_visible.
          diff_checked q from_tree to_snap.tree repo
            (contains to_snap_hash visible && from_snap_visible)

  unfoldable pub diff_change : Repo → PrincipalId → Text → DiffQuery → Diffed
  unfolding load_for_read read visible_snapshot_set diff_trees
  diff_change repo caller id q = and_diff (load_for_read repo id caller) repo λ change.
      and_diff (to_hash change q.to) repo λ to_snap_hash.
        and_diff (read_snapshot w repo to_snap_hash) repo
          λ to_snap. diff_resolved caller q to_snap_hash to_snap (from_tree_of repo q.from to_snap)
