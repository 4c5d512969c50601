-- ===== src/Fs/Materialize.antt =====
-- crates/tig-fs/src/materialize.rs: a stored tree written out as a directory. The name of an entry is a
-- single component, as those that `insert` and `from_entries` accept.
pub mod SealedWalk
pub mod Render
pub mod Roundtrip
use tig.Prelude.{
  ℕ, zero, suc, ◌+◌, Bytes, Text, text, ◌==◌, ◌||◌, Bool, true, false, Option, none, some, List, [],
  ◌∷◌, ◌++◌, length, if◌then◌else◌, Result, ok, err, and_then, map_err,
}
use tig.Core.Error.{CoreError}
use tig.Core.Object.{Hash, ObjectKind}
use tig.Core.Tree.{EntryKind, Tree, TreeEntry, is_empty_text}
use tig.Core.Wire.{Wire, Blob, Sealed, Snapshot}
use tig.Store.Repo.{Repo}
use tig.Fs.Action.{FsError}
use tig.Fs.TreeEdit.{read, read_tree}
use tig.Fs.Utf8.{is_utf8}
use tig.Fs.Workdir.{
  Node, Entries, Os, is_executable, set, write, make_executable, create_dir, create_symlink,
}
use tig.Fs.Scan.{tig_dir, default_worktree_dir}

abbrev pub marker_file : Text
marker_file = text ".tig-workspace"

abbrev pub is_workspace_internal : Text → Bool
is_workspace_internal name = name == tig_dir || name == default_worktree_dir || name == marker_file

-- The caller's decryption of a sealed object, with the path as its additional data. `none` is its
-- refusal, whose text is left out.
abbrev pub UnsealFn : Type 0
UnsealFn = Sealed → Bytes → Option Bytes

pub data OnUnsealable : Type 0 where
  error skip : OnUnsealable

pub record MaterializeOptions : Type 0 where
  pub unsealer : Option UnsealFn
  pub on_unsealable : OnUnsealable

pub record RenderStats : Type 0 where
  pub files : ℕ
  pub bytes : ℕ
  pub sealed_unsealed : ℕ
  pub sealed_skipped : ℕ

abbrev pub no_stats : RenderStats
no_stats = record { files = 0; bytes = 0; sealed_unsealed = 0; sealed_skipped = 0 }

-- A run ends by an error, or because the fuel ran out.
pub data Stop : Type 0 where
  out_of_fuel : Stop
  failed : FsError → Stop

-- The directory that is filled. What was written before an error stays.
pub record Rendering : Type 0 where
  pub dir : Entries
  pub stats : RenderStats

abbrev pub Outcome : Type 0
Outcome = Result Stop (Unit {0}) × Rendering

abbrev pub stop : FsError → Rendering → Outcome
stop e st = (err (Stop.failed e), st)

-- `?`
abbrev pub and_render : {A : Type 0} → Result FsError A → Rendering → (A → Outcome) → Outcome
and_render (ok a) st f = f a
and_render (err e) st f = stop e st

abbrev pub and_next : Outcome → (Rendering → Outcome) → Outcome
and_next (ok _, st) f = f st
and_next (err e, st) f = (err e, st)

abbrev pub entry_path : Text → Text → Text
entry_path path_prefix name =
    if is_empty_text path_prefix then name else path_prefix ++ (b'/' ∷ name)

-- The file written, and its mode.
abbrev pub written : TreeEntry → Entries → Entries
written e dir = if is_executable e.mode then make_executable e.name dir else dir

abbrev pub count_file : ℕ → RenderStats → RenderStats
count_file n s = record s { files = s.files + 1; bytes = s.bytes + n }

abbrev pub count_unsealed : ℕ → RenderStats → RenderStats
count_unsealed n s = record s { sealed_unsealed = s.sealed_unsealed + 1; bytes = s.bytes + n }

abbrev pub count_skipped : RenderStats → RenderStats
count_skipped s = record s { sealed_skipped = s.sealed_skipped + 1 }

-- A directory after the run inside it.
abbrev pub within : Text → Entries → Outcome → Outcome
within name dir (r, sub) = (r, record { dir = set name (Node.dir sub.dir) dir; stats = sub.stats })

module _ (w : Wire) (repo : Repo) where
  abbrev and_walk : Result FsError Tree → (Tree → Result Stop (List Text)) → Result Stop (List Text)
  and_walk (ok t) f = f t
  and_walk (err e) f = err (Stop.failed e)

  abbrev walk_kind :
      (Hash → Text → List Text → Result Stop (List Text))
      → Text
      → TreeEntry
      → List Text
      → EntryKind
      → Result Stop (List Text)
  walk_kind go path e out EntryKind.sealed = ok (out ++ (path ∷ []))
  walk_kind go path e out EntryKind.tree = go e.target path out
  walk_kind go path e out _ = ok out

  unfoldable pub walk_entries :
      (Hash → Text → List Text → Result Stop (List Text))
      → Text
      → List TreeEntry
      → List Text
      → Result Stop (List Text)
  walk_entries go prefix [] out = ok out
  walk_entries go prefix (e ∷ es) out =
      and_then (walk_kind go (entry_path prefix e.name) e out e.kind)
        λ out'. walk_entries go prefix es out'

  unfoldable pub walk_for_sealed : ℕ → Hash → Text → List Text → Result Stop (List Text)
  unfolding walk_entries read_tree
  walk_for_sealed zero tree_hash prefix out = err Stop.out_of_fuel
  walk_for_sealed (suc fuel) tree_hash prefix out =
      and_walk (read_tree w repo tree_hash)
        λ tree. walk_entries (walk_for_sealed fuel) prefix tree.entries out

  abbrev pub collect_sealed_paths : ℕ → Hash → Result Stop (List Text)
  collect_sealed_paths fuel tree_hash = walk_for_sealed fuel tree_hash [] []

module _ (w : Wire) (os : Os) (opts : MaterializeOptions) (repo : Repo) where
  abbrev render_file : TreeEntry → Rendering → Outcome
  render_file e st = and_render (read w ObjectKind.blob w.blob repo e.target) st λ blob.
      and_render (write os e.name blob.bytes st.dir) st λ dir.
        (ok tt, record { dir = written e dir; stats = count_file (length blob.bytes) st.stats })

  abbrev link_target : Blob → Result FsError Bytes
  link_target blob =
      if is_utf8 blob.bytes then ok blob.bytes else err (FsError.core CoreError.decode)

  abbrev render_link : TreeEntry → Rendering → Outcome
  render_link e st = and_render (read w ObjectKind.blob w.blob repo e.target) st λ blob.
      and_render (link_target blob) st λ target.
        and_render (create_symlink e.name target st.dir) st λ dir. (ok tt, record st { dir = dir })

  abbrev write_unsealed : TreeEntry → Rendering → Option Bytes → OnUnsealable → Outcome
  write_unsealed e st (some plaintext) _ = and_render (write os e.name plaintext st.dir) st λ dir.
      (ok tt, record { dir = written e dir; stats = count_unsealed (length plaintext) st.stats })
  write_unsealed e st none OnUnsealable.error = stop FsError.unsupported_file_kind st
  write_unsealed e st none OnUnsealable.skip = (ok tt, record st { stats = count_skipped st.stats })

  abbrev render_sealed : Text → TreeEntry → Rendering → Option UnsealFn → Outcome
  render_sealed path e st none = stop FsError.unsupported_file_kind st
  render_sealed path e st (some unsealer) =
      and_render (read w ObjectKind.sealed w.sealed repo e.target) st
        λ sealed. write_unsealed e st (unsealer sealed path) opts.on_unsealable

  abbrev render_kind :
      (Hash → Text → Rendering → Outcome) → Text → TreeEntry → Rendering → EntryKind → Outcome
  render_kind go path e st EntryKind.file = render_file e st
  render_kind go path e st EntryKind.tree =
      and_render (create_dir e.name st.dir) st
        λ dir. within e.name dir (go e.target path (record { dir = Entries.nil; stats = st.stats }))
  render_kind go path e st EntryKind.symlink = render_link e st
  render_kind go path e st EntryKind.sealed = render_sealed path e st opts.unsealer
  render_kind go path e st EntryKind.conflict = stop FsError.unsupported_file_kind st
  render_kind go path e st EntryKind.submodule = stop FsError.unsupported_file_kind st

  -- The loop over the entries of a tree, with the call for a subtree.
  unfoldable pub render_entries :
      (Hash → Text → Rendering → Outcome) → Text → List TreeEntry → Rendering → Outcome
  unfolding read write make_executable create_dir create_symlink set is_executable is_utf8
  render_entries go path_prefix [] st = (ok tt, st)
  render_entries go path_prefix (e ∷ es) st =
      and_next (render_kind go (entry_path path_prefix e.name) e st e.kind)
        λ st'. render_entries go path_prefix es st'

  unfoldable pub render_tree : ℕ → Hash → Text → Rendering → Outcome
  unfolding render_entries read_tree
  render_tree zero tree_hash path_prefix st = (err Stop.out_of_fuel, st)
  render_tree (suc fuel) tree_hash path_prefix st =
      and_render (read_tree w repo tree_hash) st
        λ tree. render_entries (render_tree fuel) path_prefix tree.entries st

  abbrev pub render_tree_into : ℕ → Hash → Entries → Outcome
  render_tree_into fuel tree_hash dst =
      render_tree fuel tree_hash [] (record { dir = dst; stats = no_stats })

  abbrev render_snapshot : ℕ → Result FsError Snapshot → Result Stop RenderStats × Option Node
  render_snapshot fuel (err e) = (err (Stop.failed e), some (Node.dir Entries.nil))
  render_snapshot fuel (ok snap) =
      let (r, st) = render_tree_into fuel snap.tree Entries.nil in
      (and_then r λ _. ok st.stats, some (Node.dir st.dir))

  -- `dst` is what stands at the destination. What is made there stays when a later step fails.
  unfoldable pub materialize_change_into :
      ℕ → Hash → Option Node → Result Stop RenderStats × Option Node
  unfolding render_tree
  materialize_change_into fuel snapshot_hash (some x) = (err (Stop.failed FsError.io), some x)
  materialize_change_into fuel snapshot_hash none =
      render_snapshot fuel (read w ObjectKind.snapshot w.snapshot repo snapshot_hash)
