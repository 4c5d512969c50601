-- ===== src/Fs/Scan/Refs.antt =====
-- A scan and the refs of the repository.
use tig.Prelude.{
  Text, contains, cmp, Ordering-cases, Bool-cases, List, [], ◌∷◌, Result, ok, err, inl, inr,
  map_err,
}
use tig.Prelude.BTree
use tig.Prelude.Map.{Map}
use tig.Core.Object.{ObjectKind, encode}
use tig.Core.Tree
use tig.Core.Tree.{EntryKind, Tree, TreeEntry, symlink_mode, dir}
use tig.Core.Wire.{Wire}
use tig.Fs.Action.{FsError, Action, ◌>>=◌, pure}
use tig.Fs.TreeEdit.Keeps.{
  KeepsRefs, SameRefs-refl, bind-KeepsRefs, read_then-KeepsRefs, put-KeepsRefs,
}
use tig.Fs.TreeEdit.Write.{put_tree}
use tig.Fs.Utf8.{is_utf8, to_string_lossy}
use tig.Fs.Workdir.{Node, Entries}
use tig.Fs.Scan.{
  scanned, unix_mode, put_blob, insert_all, store_children, build_entry, collect, scan_dir,
}

abbrev AllKeep : Map (Action TreeEntry) → Type 0
AllKeep [] = Unit
AllKeep ((_, a) ∷ m) = KeepsRefs a × AllKeep m

AllKeep-insert :
    (k : Text) (a : Action TreeEntry) (m : Map (Action TreeEntry))
    → KeepsRefs a
    → AllKeep m
    → AllKeep (BTree.insert k a m)
unfolding BTree.insert
AllKeep-insert k a [] h hs = (h, tt)
AllKeep-insert k a ((j, b) ∷ m) h (h', hs) = elim (Ordering-cases (cmp k j)) [
  | inl lt ↦ rw (lt, BTree.insert) (h, (h', hs))
  | inr (inl eq) ↦ rw (eq, BTree.insert) (h, hs)
  | inr (inr gt) ↦ rw (gt, BTree.insert) (h', AllKeep-insert k a m h hs)
]

module _ (w : Wire) where
  pure_after-KeepsRefs :
      {A B : Type 0} (m : Action A) (f : A → B) → KeepsRefs m → KeepsRefs (m >>= λ a. pure (f a))
  pure_after-KeepsRefs m f h = bind-KeepsRefs m (λ a. pure (f a)) h (λ a repo. SameRefs-refl repo)

  insert_all-KeepsRefs :
      (m : Map (Action TreeEntry)) (tree : Tree) → AllKeep m → KeepsRefs (insert_all w tree m)
  unfolding insert_all
  insert_all-KeepsRefs [] tree h = SameRefs-refl
  insert_all-KeepsRefs ((k, build) ∷ m) tree (h, hs) = bind-KeepsRefs build _ h λ entry.
      read_then-KeepsRefs (λ _. map_err FsError.core (Tree.insert tree entry))
        (λ tree'. insert_all w tree' m) (λ tree'. insert_all-KeepsRefs m tree' hs)

  abbrev AllKeeps : Result FsError (Map (Action TreeEntry)) → Type 0
  AllKeeps (ok m) = AllKeep m
  AllKeeps (err _) = Unit

  store_children-KeepsRefs :
      (r : Result FsError (Map (Action TreeEntry))) → AllKeeps r → KeepsRefs (store_children w r)
  unfolding store_children
  store_children-KeepsRefs (err e) h = SameRefs-refl
  store_children-KeepsRefs (ok m) h =
      bind-KeepsRefs (insert_all w Tree.new m) (put_tree w) (insert_all-KeepsRefs m Tree.new h)
        (λ tree. put-KeepsRefs w (encode ObjectKind.tree w.tree tree))

  module _ (ignore : List Text) where
    mutual
      unfolding build_entry collect scan_dir

      build_entry-KeepsRefs : (name : Text) (x : Node) → KeepsRefs (build_entry w ignore name x)
      build_entry-KeepsRefs name (Node.file mode bytes) =
          pure_after-KeepsRefs (put_blob w bytes) (scanned name EntryKind.file (unix_mode mode))
            (put-KeepsRefs w (encode ObjectKind.blob w.blob (record { bytes = bytes })))
      build_entry-KeepsRefs name (Node.symlink target) =
          pure_after-KeepsRefs (put_blob w (to_string_lossy target))
            (scanned name EntryKind.symlink symlink_mode)
            (put-KeepsRefs w
              (encode ObjectKind.blob w.blob (record { bytes = to_string_lossy target })))
      build_entry-KeepsRefs name Node.other = SameRefs-refl
      build_entry-KeepsRefs name (Node.dir es) =
          pure_after-KeepsRefs (store_children w (collect w ignore es []))
            (scanned name EntryKind.tree dir)
            (store_children-KeepsRefs (collect w ignore es []) (collect-AllKeeps es [] tt))

      collect-AllKeeps :
          (es : Entries) (children : Map (Action TreeEntry))
          → AllKeep children
          → AllKeeps (collect w ignore es children)
      collect-AllKeeps Entries.nil children h = h
      collect-AllKeeps (Entries.entry name x es) children h = elim (Bool-cases (is_utf8 name)) [
        | inr bad ↦ rw (bad) tt
        | inl good ↦ elim (Bool-cases (contains name ignore)) [
          | inl ignored ↦ rw (good, ignored) (collect-AllKeeps es children h)
          | inr kept ↦
              rw (good, kept)
                (collect-AllKeeps es (BTree.insert name (build_entry w ignore name x) children) (
                  AllKeep-insert name (build_entry w ignore name x) children
                    (build_entry-KeepsRefs name x) h))
        ]
      ]

    -- Whether a scan succeeds or fails, it leaves every ref as it was.
    pub scan_dir-KeepsRefs : (es : Entries) → KeepsRefs (scan_dir w ignore es)
    unfolding scan_dir
    scan_dir-KeepsRefs es =
        store_children-KeepsRefs (collect w ignore es []) (collect-AllKeeps es [] tt)
