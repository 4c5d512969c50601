-- ===== src/Fs/Scan.antt =====
-- crates/tig-fs/src/scan.rs: a working directory stored as a tree. Every caller leaves
-- `follow_symlinks` off, so symbolic links are never followed here.
pub mod Below
pub mod Tracked
pub mod Stored
pub mod Refs
use tig.Prelude.{
  ℕ, Bytes, Text, text, contains, Bool, true, false, not, Option, none, some, List, [], ◌∷◌,
  if◌then◌else◌, Result, ok, err, and_then,
}
use tig.Prelude.BTree
use tig.Prelude.Map.{Map}
use tig.Core.Error.{CoreError}
use tig.Core.Object.{Hash, ObjectKind, encode}
use tig.Core.Tree
use tig.Core.Tree.{EntryKind, FileMode, Tree, TreeEntry, regular, exec, symlink_mode, dir}
use tig.Core.Wire.{Wire, Blob}
use tig.Fs.Action.{FsError, Action, ◌>>=◌, pure, raise, reading, put}
use tig.Fs.TreeEdit.Write.{put_tree, core_result}
use tig.Fs.Utf8.{is_utf8, to_string_lossy}
use tig.Fs.Workdir.{Node, Entries, is_executable}

abbrev pub tig_dir : Text
tig_dir = text ".tig"

abbrev pub default_worktree_dir : Text
default_worktree_dir = text ".tig-worktrees"

-- `ScanOptions::default().ignore`
abbrev pub default_ignore : List Text
default_ignore = tig_dir ∷ default_worktree_dir ∷ []

abbrev pub unix_mode : ℕ → FileMode
unix_mode raw = if is_executable raw then exec else regular

abbrev pub scanned : Text → EntryKind → FileMode → Hash → TreeEntry
scanned name kind mode target = record {
  name = name;
  kind = kind;
  target = target;
  mode = mode;
  vis = none;
}

module _ (w : Wire) where
  abbrev pub put_blob : Bytes → Action Hash
  put_blob bytes = put w (encode ObjectKind.blob w.blob (record { bytes = bytes }))

  -- The loop over the sorted children.
  unfoldable pub insert_all : Tree → Map (Action TreeEntry) → Action Tree
  insert_all tree [] = pure tree
  insert_all tree ((_, build) ∷ children) = build >>= λ entry.
      core_result w (Tree.insert tree entry) >>= λ tree'. insert_all tree' children

  -- What `scan_dir` does with the children that it has collected.
  unfoldable pub store_children : Result FsError (Map (Action TreeEntry)) → Action Hash
  unfolding insert_all
  store_children collected = reading (λ _. collected) >>= λ children.
      insert_all Tree.new children >>= λ tree. put_tree w tree

module _ (w : Wire) (ignore : List Text) where
  -- The children are collected, with what builds the entry of each, before anything is stored.
  unfoldable mutual
    unfolding store_children is_executable to_string_lossy

    pub build_entry : Text → Node → Action TreeEntry
    build_entry name (Node.dir es) =
        store_children w (collect es []) >>= λ target. pure (scanned name EntryKind.tree dir target)
    build_entry name (Node.file mode bytes) =
        put_blob w bytes >>= λ target. pure (scanned name EntryKind.file (unix_mode mode) target)
    build_entry name (Node.symlink target) = put_blob w (to_string_lossy target) >>= λ h.
        pure (scanned name EntryKind.symlink symlink_mode h)
    build_entry name Node.other = raise FsError.unsupported_file_kind

    pub collect : Entries → Map (Action TreeEntry) → Result FsError (Map (Action TreeEntry))
    collect Entries.nil children = ok children
    collect (Entries.entry name x es) children =
        if not (is_utf8 name)
        then err (FsError.core CoreError.invalid_path_component)
        else if contains name ignore
        then collect es children
        else collect es (BTree.insert name (build_entry name x) children)

  unfoldable pub scan_dir : Entries → Action Hash
  unfolding collect store_children
  scan_dir es = store_children w (collect es [])

abbrev pub scan : Wire → Entries → Action Hash
scan w workdir = scan_dir w default_ignore workdir
