-- ===== src/Fs/TreeEdit.antt =====
-- crates/tig-fs/src/tree_edit.rs: reading and writing a path of a tree, in the object store alone.
-- A path is given by its first part and the rest, since `split_path` returns no empty path.
pub mod Extends
pub mod Write
pub mod Level
pub mod Paths
pub mod Roundtrip
pub mod Keeps
pub mod Insert
use mathlib.Core.List.{reverse}
use tig.Prelude.{
  ℕ, Bytes, Text, text, Bool, true, false, ◌==◌, ◌||◌, not, Option, none, some, List, [], ◌∷◌,
  nat_eq, if◌then◌else◌, Result, ok, err, and_then, map_err, ok_or,
}
use tig.Core.Error.{CoreError}
use tig.Core.Object.{Hash, ObjectKind, RawObject, Codec, encode, decode}
use tig.Core.Tree
use tig.Core.Tree.{
  EntryKind, FileMode, Tree, TreeEntry, entry_kind_eq, contains_byte, is_empty_text,
}
use tig.Core.Wire.{Wire, Blob, Sealed}
use tig.Store.Error.{StoreError}
use tig.Store.Repo.{Repo}
use tig.Store.Objects
use tig.Fs.Action.{FsError, Action, ◌>>=◌, pure, raise, reading, put}

abbrev cons_head : ℕ → List Text → List Text
cons_head c [] = (c ∷ []) ∷ []
cons_head c (p ∷ ps) = (c ∷ p) ∷ ps

-- `path.split('/')`
unfoldable pub split : Text → List Text
split [] = [] ∷ []
split (c ∷ cs) = let rest = split cs in if nat_eq c b'/' then [] ∷ rest else cons_head c rest

-- `.filter(|p| !p.is_empty())`
unfoldable pub non_empty : List Text → List Text
non_empty [] = []
non_empty (p ∷ ps) = let rest = non_empty ps in if is_empty_text p then rest else p ∷ rest

abbrev pub is_bad_part : Text → Bool
is_bad_part p = p == text "." || p == text ".." || contains_byte 0 p

unfoldable pub check_parts : List Text → Result FsError (Unit {0})
check_parts [] = ok tt
check_parts (p ∷ ps) =
    if is_bad_part p then err (FsError.core CoreError.invalid_path_component) else check_parts ps

abbrev pub Parts : Type 0
Parts = Text × List Text

abbrev pub accept_parts : List Text → Result FsError Parts
accept_parts [] = err (FsError.core CoreError.invalid_path_component)
accept_parts (p ∷ ps) = and_then (check_parts (p ∷ ps)) λ _. ok (p, ps)

unfoldable pub split_path : Text → Result FsError Parts
unfolding split non_empty check_parts
split_path path = accept_parts (non_empty (split path))

unfoldable pub trim_slashes_start : Text → Text
trim_slashes_start [] = []
trim_slashes_start (c ∷ cs) = if nat_eq c b'/' then trim_slashes_start cs else c ∷ cs

-- `path.trim_matches('/')`
unfoldable pub trim_slashes : Text → Text
unfolding trim_slashes_start
trim_slashes path = reverse (trim_slashes_start (reverse (trim_slashes_start path)))

module _ (w : Wire) where
  -- `T::decode(&repo.get(h)?).map_err(Error::Core)`
  unfoldable pub read : {A : Type 0} → ObjectKind → Codec A → Repo → Hash → Result FsError A
  read kind c repo h =
      and_then (map_err FsError.store (Objects.get w repo h))
        λ raw. map_err FsError.core (decode kind c raw)

  unfoldable pub read_tree : Repo → Hash → Result FsError Tree
  unfolding read
  read_tree repo h = read ObjectKind.tree w.tree repo h

  -- The walk of `lookup_entry` and of `read_blob_at_path`.
  unfoldable pub lookup_entry : Repo → Hash → Text → List Text → Result FsError TreeEntry
  lookup_entry repo h part [] =
      and_then (read_tree repo h) λ tree. ok_or (FsError.core CoreError.decode) (Tree.get tree part)
  lookup_entry repo h part (next ∷ rest) = and_then (read_tree repo h) λ tree.
      and_then (ok_or (FsError.core CoreError.decode) (Tree.get tree part)) λ entry.
        if not (entry_kind_eq entry.kind EntryKind.tree)
        then err (FsError.core CoreError.decode)
        else lookup_entry repo entry.target next rest

  abbrev pub read_file_entry : Repo → TreeEntry → Result FsError Bytes
  read_file_entry repo entry =
      if not (entry_kind_eq entry.kind EntryKind.file)
      then err (FsError.core CoreError.decode)
      else and_then (read ObjectKind.blob w.blob repo entry.target) λ blob. ok blob.bytes

  unfoldable pub read_blob_at_path : Repo → Hash → Text → Result FsError Bytes
  unfolding read split_path lookup_entry
  read_blob_at_path repo root path =
      and_then (split_path path) λ parts.
        and_then (lookup_entry repo root parts.0 parts.1) λ entry. read_file_entry repo entry

  abbrev try_file_entry : Repo → TreeEntry → Result FsError (Option Bytes)
  try_file_entry repo entry =
      if not (entry_kind_eq entry.kind EntryKind.file)
      then ok none
      else and_then (read ObjectKind.blob w.blob repo entry.target) λ blob. ok (some blob.bytes)

  abbrev try_entry : Repo → Option TreeEntry → Result FsError (Option Bytes)
  try_entry repo none = ok none
  try_entry repo (some entry) = try_file_entry repo entry

  abbrev try_below :
      Option TreeEntry → (Hash → Result FsError (Option Bytes)) → Result FsError (Option Bytes)
  try_below none go = ok none
  try_below (some entry) go =
      if not (entry_kind_eq entry.kind EntryKind.tree) then ok none else go entry.target

  -- The loop of `try_read_blob_at_path`.
  unfoldable pub try_read : Repo → Hash → Text → List Text → Result FsError (Option Bytes)
  try_read repo h part [] = and_then (read_tree repo h) λ tree. try_entry repo (Tree.get tree part)
  try_read repo h part (next ∷ rest) =
      and_then (read_tree repo h)
        λ tree. try_below (Tree.get tree part) λ target. try_read repo target next rest

  unfoldable pub try_read_blob_at_path : Repo → Hash → Text → Result FsError (Option Bytes)
  unfolding try_read split_path
  try_read_blob_at_path repo root path =
      and_then (split_path path) λ parts. try_read repo root parts.0 parts.1

  abbrev list_entry : Repo → TreeEntry → Result FsError Tree
  list_entry repo entry =
      if not (entry_kind_eq entry.kind EntryKind.tree)
      then err (FsError.core CoreError.decode)
      else read_tree repo entry.target

  abbrev list_trimmed : Repo → Hash → Text → Result FsError Tree
  list_trimmed repo root trimmed =
      if is_empty_text trimmed
      then read_tree repo root
      else and_then (split_path trimmed)
          λ parts. and_then (lookup_entry repo root parts.0 parts.1) λ entry. list_entry repo entry

  unfoldable pub list_tree : Repo → Hash → Text → Result FsError Tree
  unfolding read_tree split_path lookup_entry trim_slashes
  list_tree repo root path = list_trimmed repo root (trim_slashes path)
