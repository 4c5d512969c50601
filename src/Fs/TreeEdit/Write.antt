-- ===== src/Fs/TreeEdit/Write.antt =====
-- crates/tig-fs/src/tree_edit.rs: the functions that rewrite the trees along a path.
use tig.Prelude.{
  Bytes, Text, ◌==◌, Option, none, some, List, [], ◌∷◌, not, if◌then◌else◌, Result, map_err, ok_or,
}
use tig.Core.Error.{CoreError}
use tig.Core.Object.{Hash, ObjectKind, encode}
use tig.Core.Tree
use tig.Core.Tree.{
  EntryKind, FileMode, Tree, TreeEntry, entry_kind_eq, is_empty, is_empty_text, regular, dir,
}
use tig.Core.Wire.{Wire, Sealed}
use tig.Fs.Action.{FsError, Action, ◌>>=◌, pure, raise, reading, put}
use tig.Fs.TreeEdit.{read_tree, split_path}

-- `entries.remove(entries.iter().position(|e| &e.name == head)?)`
unfoldable pub remove_named : Text → List TreeEntry → Option (List TreeEntry)
remove_named head [] = none
remove_named head (e ∷ es) = elim (remove_named head es) [
  | none ↦ if e.name == head then some es else none
  | some rest ↦ if e.name == head then some es else some (e ∷ rest)
]

abbrev pub without : Text → Tree → Option Tree
without head tree = elim (remove_named head tree.entries) [
  | none ↦ none
  | some es ↦ some (record { entries = es })
]

abbrev pub dir_entry : Text → Hash → TreeEntry
dir_entry head target = record {
  name = head;
  kind = EntryKind.tree;
  target = target;
  mode = dir;
  vis = none;
}

abbrev pub leaf_entry : Text → Hash → EntryKind → FileMode → TreeEntry
leaf_entry name target kind mode = record {
  name = name;
  kind = kind;
  target = target;
  mode = mode;
  vis = none;
}

module _ (w : Wire) where
  abbrev pub put_tree : Tree → Action Hash
  put_tree tree = put w (encode ObjectKind.tree w.tree tree)

  -- `?` on a result of tig-core
  abbrev pub core_result : {A : Type 0} → Result CoreError A → Action A
  core_result r = reading λ _. map_err FsError.core r

  abbrev pub insert_and_put : Tree → TreeEntry → Action Hash
  insert_and_put tree entry = core_result (Tree.insert tree entry) >>= put_tree

  -- The subtree to descend into; an empty one is stored when there is none.
  abbrev pub sub_hash : Option TreeEntry → Action Hash
  sub_hash none = put_tree Tree.new
  sub_hash (some e) =
      if entry_kind_eq e.kind EntryKind.tree
      then pure e.target
      else raise (FsError.core CoreError.decode)

  unfoldable pub rewrite_insert :
      Hash → EntryKind → FileMode → Hash → Text → List Text → Action Hash
  rewrite_insert target kind mode tree_hash part [] =
      reading (λ repo. read_tree w repo tree_hash) >>= λ tree.
      insert_and_put tree (leaf_entry part target kind mode)
  rewrite_insert target kind mode tree_hash head (next ∷ rest) =
      reading (λ repo. read_tree w repo tree_hash) >>= λ tree.
      sub_hash (Tree.get tree head) >>= λ sub.
      rewrite_insert target kind mode sub next rest >>= λ new_sub.
      insert_and_put tree (dir_entry head new_sub)

  unfoldable pub write_blob_at_path : Hash → Text → Bytes → Action Hash
  unfolding rewrite_insert split_path
  write_blob_at_path root_tree path bytes = reading (λ _. split_path path) >>= λ parts.
      put w (encode ObjectKind.blob w.blob (record { bytes = bytes })) >>= λ blob_hash.
      rewrite_insert blob_hash EntryKind.file regular root_tree parts.0 parts.1

  unfoldable pub write_sealed_at_path : Hash → Text → Sealed → Action Hash
  unfolding rewrite_insert split_path
  write_sealed_at_path root_tree path sealed = reading (λ _. split_path path) >>= λ parts.
      put w (encode ObjectKind.sealed w.sealed sealed) >>= λ sealed_hash.
      rewrite_insert sealed_hash EntryKind.sealed regular root_tree parts.0 parts.1

  -- A missing name is the error at the end of a path. Below a directory that was read it cannot
  -- happen (the source unwraps there).
  abbrev pub remove_and_put : Text → Tree → Action Hash
  remove_and_put head tree =
      reading (λ _. ok_or (FsError.core CoreError.decode) (without head tree)) >>= put_tree

  -- The directory to descend into on the way to deleting.
  abbrev pub descend : Option TreeEntry → Action Hash
  descend none = raise (FsError.core CoreError.decode)
  descend (some e) =
      if not (entry_kind_eq e.kind EntryKind.tree)
      then raise (FsError.core CoreError.decode)
      else pure e.target

  -- An empty subtree is pruned.
  abbrev pub replace_sub : Text → Tree → Hash → Tree → Action Hash
  replace_sub head tree new_sub_hash new_sub =
      if is_empty new_sub
      then remove_and_put head tree
      else insert_and_put tree (dir_entry head new_sub_hash)

  unfoldable pub rewrite_remove : Hash → Text → List Text → Action Hash
  unfolding remove_named
  rewrite_remove tree_hash part [] =
      reading (λ repo. read_tree w repo tree_hash) >>= remove_and_put part
  rewrite_remove tree_hash head (next ∷ rest) =
      reading (λ repo. read_tree w repo tree_hash) >>= λ tree.
      descend (Tree.get tree head) >>= λ sub. rewrite_remove sub next rest >>= λ new_sub_hash.
      reading (λ repo. read_tree w repo new_sub_hash) >>= λ new_sub.
      replace_sub head tree new_sub_hash new_sub

  unfoldable pub delete_at_path : Hash → Text → Action Hash
  unfolding rewrite_remove split_path
  delete_at_path root_tree path =
      reading (λ _. split_path path) >>= λ parts. rewrite_remove root_tree parts.0 parts.1
