-- ===== src/Tests/Trees.antt =====
-- Trees, and files written into them.
use mathlib.Core.List.{Permᴰ}
use tig.Prelude.{Text, text, ◌==◌, ◌≡◌, refl, some, [], ◌∷◌, ok, if◌then◌else◌, arith}
use tig.Prelude.Map
use tig.Core.Object.{Hash, RawObject, ObjectKind, encode, hash}
use tig.Core.Tree
use tig.Core.Tree.{Tree, TreeEntry, EntryKind, insert, get, from_entries, insert_sorted, regular}
use tig.Core.Tree.Lookup.{get-insert}
use tig.Core.Tree.Valid.{IsValid}
use tig.Core.Tree.Order.{from_entries_perm}
use tig.Store.Repo.{Repo}
use tig.Store.Objects
use tig.Store.Objects.Laws.{IsContentAddressed}
use tig.Fs.TreeEdit.{split_path, read_blob_at_path, read_tree}
use tig.Fs.TreeEdit.Write.{write_blob_at_path, leaf_entry}
use tig.Fs.TreeEdit.Level.{CanWrite}
use tig.Fs.TreeEdit.Roundtrip.{read_blob-write_blob, read_blob-write_blob_elsewhere}
use tig.Tests.Wire.{plain, plain-IsSound}
use tig.Tests.Data.{entry, tree, tree_put, repo, repo-IsContentAddressed}

abbrev other : TreeEntry
other = leaf_entry (text "b") (1 ∷ []) EntryKind.symlink regular

abbrev both : Tree
both = record { entries = entry ∷ other ∷ [] }

given_order : from_entries (entry ∷ other ∷ []) ≡ ok both
unfolding from_entries Tree.validate_all Tree.validate_name ◌==◌ Tree.reject_duplicates
    Tree.sort_by_name insert_sorted
given_order = refl

other_order : from_entries (other ∷ entry ∷ []) ≡ ok both
unfolding from_entries Tree.validate_all Tree.validate_name ◌==◌ Tree.reject_duplicates
    Tree.sort_by_name insert_sorted
other_order = refl

inserted : insert tree other ≡ ok both
unfolding insert Tree.validate_name ◌==◌ Tree.binary_search Tree.insert_at
inserted = refl

get-insert_example :
    get both (text "b") ≡ (if text "b" == text "b" then some other else get tree (text "b"))
get-insert_example = get-insert tree both other (text "b") inserted

tree-IsValid : IsValid tree
unfolding Tree.is_bad_name ◌==◌
tree-IsValid = record { sorted = (tt, tt); names = (refl, tt) }

from_entries_perm_example : from_entries (entry ∷ other ∷ []) ≡ ok both
from_entries_perm_example =
    from_entries_perm {es = other ∷ entry ∷ []} {fs = entry ∷ other ∷ []} {t = both}
      (Permᴰ.swap refl refl) other_order

abbrev new_path : Text
new_path = text "d/x"

split_new : split_path new_path ≡ ok (text "d", text "x" ∷ [])
unfolding split_path ◌==◌ Tree.contains_byte
split_new = refl

split_old : split_path (text "a") ≡ ok (text "a", [])
unfolding split_path ◌==◌ Tree.contains_byte
split_old = refl

CanWrite-new : CanWrite plain repo tree_put.0 (text "x" ∷ []) (text "d")
unfolding read_tree get Objects.get Map.get tig.Store.Refs.put_change Objects.put Map.put ◌==◌ hash
    encode tig.Core.Object.from_tag tig.Core.Object.verify tig.Core.Object.decode Tree.binary_search
CanWrite-new = (tree, refl, tt)

CanWrite-old : CanWrite plain repo tree_put.0 [] (text "a")
unfolding read_tree get Objects.get Map.get tig.Store.Refs.put_change Objects.put Map.put ◌==◌ hash
    encode tig.Core.Object.from_tag tig.Core.Object.verify tig.Core.Object.decode
CanWrite-old = (tree, refl)

read_blob-write_blob_example :
    (root' : Hash) × (repo' : Repo) × (write_blob_at_path plain tree_put.0 new_path (9 ∷ []) repo
      ≡ (ok root', repo'))
    × IsContentAddressed plain repo'
    × (read_blob_at_path plain repo' root' new_path ≡ ok (9 ∷ []))
read_blob-write_blob_example =
    read_blob-write_blob plain plain-IsSound repo tree_put.0 new_path (9 ∷ []) (text "d")
      (text "x" ∷ []) repo-IsContentAddressed split_new CanWrite-new

-- The run of that write.
written :
    (root' : Hash) × (repo' : Repo) × (write_blob_at_path plain tree_put.0 new_path (9 ∷ []) repo
      ≡ (ok root', repo'))
written =
    let (root', repo', run, _, _) =
      read_blob-write_blob plain plain-IsSound repo tree_put.0 new_path (9 ∷ []) (text "d")
        (text "x" ∷ []) repo-IsContentAddressed split_new CanWrite-new in
    (root', repo', run)

old_read : read_blob_at_path plain repo tree_put.0 (text "a") ≡ ok (7 ∷ 8 ∷ [])
unfolding read_blob_at_path ◌==◌ Tree.contains_byte read_tree Objects.get Map.get
    tig.Store.Refs.put_change Objects.put Map.put hash encode tig.Core.Object.from_tag
    tig.Core.Object.verify tig.Core.Object.decode get Tree.binary_search Tree.get_at
old_read = refl

read_blob-write_blob_elsewhere_example :
    (read_blob_at_path plain written.1 written.0 (text "a") ≡ ok (7 ∷ 8 ∷ []))
    × (read_blob_at_path plain written.1 tree_put.0 (text "a") ≡ ok (7 ∷ 8 ∷ []))
read_blob-write_blob_elsewhere_example =
    read_blob-write_blob_elsewhere plain plain-IsSound repo written.1 tree_put.0 written.0 new_path
      (9 ∷ []) (text "d") (text "x" ∷ []) (text "a") (text "a") [] (7 ∷ 8 ∷ [])
      repo-IsContentAddressed split_new CanWrite-new split_old (λ e. ground arith) written.2
      old_read
