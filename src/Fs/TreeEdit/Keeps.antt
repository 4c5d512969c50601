-- ===== src/Fs/TreeEdit/Keeps.antt =====
-- The edits of trees and the refs of the repository.
use tig.Prelude.{
  Bytes, Text, refl, ◌∙◌, Option, none, some, List, [], ◌∷◌, Result, ok, err, arith, Bool-cases,
  inl, inr, map_err, ok_or,
}
use tig.Core.Object.{Hash, RawObject, ObjectKind, encode}
use tig.Core.Error.{CoreError}
use tig.Core.Tree
use tig.Core.Tree.{Tree, TreeEntry, EntryKind, FileMode, entry_kind_eq, is_empty, regular}
use tig.Core.Wire.{Wire, Sealed}
use tig.Store.Repo.{Repo}
use tig.Store.Objects
use tig.Store.Gc.Sweep.{SameRefs}
use tig.Fs.Action.{FsError, Action, ◌>>=◌, continue, reading, put}
use tig.Fs.TreeEdit.{Parts, read_tree, split_path}
use tig.Fs.TreeEdit.Write.{
  without, put_tree, insert_and_put, sub_hash, rewrite_insert, write_blob_at_path,
  write_sealed_at_path, remove_and_put, descend, replace_sub, rewrite_remove, delete_at_path,
  dir_entry, leaf_entry,
}

pub SameRefs-refl : (repo : Repo) → SameRefs repo repo
SameRefs-refl repo = record { changes = refl; bookmarks = refl; head = refl; workspaces = refl }

pub SameRefs-trans : {a b c : Repo} → SameRefs a b → SameRefs b c → SameRefs a c
SameRefs-trans p q = record {
  changes = p.changes ∙ q.changes;
  bookmarks = p.bookmarks ∙ q.bookmarks;
  head = p.head ∙ q.head;
  workspaces = p.workspaces ∙ q.workspaces;
}

-- The action leaves every ref as it was, whether it succeeds or not.
abbrev pub KeepsRefs : {A : Type 0} → Action A → Type 0
KeepsRefs m = (repo : Repo) → SameRefs (m repo).1 repo

pub reading-KeepsRefs : {A : Type 0} (f : Repo → Result FsError A) → KeepsRefs (reading f)
reading-KeepsRefs f repo = SameRefs-refl repo

pub bind-KeepsRefs :
    {A B : Type 0} (m : Action A) (f : A → Action B)
    → KeepsRefs m
    → ((a : A) → KeepsRefs (f a))
    → KeepsRefs (m >>= f)
bind-KeepsRefs m f keeps then_keeps repo = by_result (m repo).0 (m repo).1 (keeps repo)
  where
    by_result :
        (r : Result FsError _) (mid : Repo) → SameRefs mid repo → SameRefs (continue r f mid).1 repo
    by_result (ok a) mid same = SameRefs-trans (then_keeps a mid) same
    by_result (err e) mid same = same

pub read_then-KeepsRefs :
    {A B : Type 0} (r : Repo → Result FsError A) (f : A → Action B)
    → ((a : A) → KeepsRefs (f a))
    → KeepsRefs (reading r >>= f)
read_then-KeepsRefs r f = bind-KeepsRefs (reading r) f (reading-KeepsRefs r)

pub put-KeepsRefs : (w : Wire) (obj : RawObject) → KeepsRefs (put w obj)
unfolding Objects.put
put-KeepsRefs w obj repo = record {
  changes = ground arith;
  bookmarks = ground arith;
  head = ground arith;
  workspaces = ground arith;
}

module _ (w : Wire) where
  put_tree-KeepsRefs : (tree : Tree) → KeepsRefs (put_tree w tree)
  put_tree-KeepsRefs tree = put-KeepsRefs w (encode ObjectKind.tree w.tree tree)

  insert_and_put-KeepsRefs : (tree : Tree) (e : TreeEntry) → KeepsRefs (insert_and_put w tree e)
  insert_and_put-KeepsRefs tree e =
      read_then-KeepsRefs (λ _. map_err FsError.core (Tree.insert tree e)) (put_tree w)
        put_tree-KeepsRefs

  sub_hash-KeepsRefs : (o : Option TreeEntry) → KeepsRefs (sub_hash w o)
  sub_hash-KeepsRefs none repo = put_tree-KeepsRefs Tree.new repo
  sub_hash-KeepsRefs (some e) repo = elim (Bool-cases (entry_kind_eq e.kind EntryKind.tree)) [
    | inl dir ↦ rw dir (SameRefs-refl repo)
    | inr other ↦ rw other (SameRefs-refl repo)
  ]

  pub rewrite_insert-KeepsRefs :
      (target : Hash) (kind : EntryKind) (mode : FileMode) (h : Hash) (p : Text) (ps : List Text)
      → KeepsRefs (rewrite_insert w target kind mode h p ps)
  unfolding rewrite_insert
  rewrite_insert-KeepsRefs target kind mode h p [] =
      read_then-KeepsRefs (λ repo. read_tree w repo h)
        (λ tree. insert_and_put w tree (leaf_entry p target kind mode))
        λ tree. insert_and_put-KeepsRefs tree (leaf_entry p target kind mode)
  rewrite_insert-KeepsRefs target kind mode h p (n ∷ ns) =
      let finish = λ (tree : Tree) (new_sub : Hash). insert_and_put w tree (dir_entry p new_sub) in
      let go =
        λ (tree : Tree) (sub : Hash). rewrite_insert w target kind mode sub n ns >>= finish tree in
      read_then-KeepsRefs (λ repo. read_tree w repo h)
        (λ tree. sub_hash w (Tree.get tree p) >>= go tree)
        λ tree.
          bind-KeepsRefs (sub_hash w (Tree.get tree p)) (go tree)
            (sub_hash-KeepsRefs (Tree.get tree p))
            λ sub.
              bind-KeepsRefs (rewrite_insert w target kind mode sub n ns) (finish tree)
                (rewrite_insert-KeepsRefs target kind mode sub n ns)
                λ new_sub. insert_and_put-KeepsRefs tree (dir_entry p new_sub)

  remove_and_put-KeepsRefs : (p : Text) (tree : Tree) → KeepsRefs (remove_and_put w p tree)
  remove_and_put-KeepsRefs p tree =
      read_then-KeepsRefs (λ _. ok_or (FsError.core CoreError.decode) (without p tree)) (put_tree w)
        put_tree-KeepsRefs

  descend-KeepsRefs : (o : Option TreeEntry) → KeepsRefs (descend w o)
  descend-KeepsRefs none repo = SameRefs-refl repo
  descend-KeepsRefs (some e) repo = elim (Bool-cases (entry_kind_eq e.kind EntryKind.tree)) [
    | inl dir ↦ rw dir (SameRefs-refl repo)
    | inr other ↦ rw other (SameRefs-refl repo)
  ]

  replace_sub-KeepsRefs :
      (p : Text) (tree : Tree) (h : Hash) (sub : Tree) → KeepsRefs (replace_sub w p tree h sub)
  replace_sub-KeepsRefs p tree h sub repo = elim (Bool-cases (is_empty sub)) [
    | inl empty ↦ rw empty (remove_and_put-KeepsRefs p tree repo)
    | inr full ↦ rw full (insert_and_put-KeepsRefs tree (dir_entry p h) repo)
  ]

  pub rewrite_remove-KeepsRefs :
      (h : Hash) (p : Text) (ps : List Text) → KeepsRefs (rewrite_remove w h p ps)
  unfolding rewrite_remove
  rewrite_remove-KeepsRefs h p [] =
      read_then-KeepsRefs (λ repo. read_tree w repo h) (remove_and_put w p)
        (remove_and_put-KeepsRefs p)
  rewrite_remove-KeepsRefs h p (n ∷ ns) =
      let finish = λ (tree : Tree) (new_sub : Hash).
        reading (λ repo. read_tree w repo new_sub) >>= replace_sub w p tree new_sub in
      let go = λ (tree : Tree) (sub : Hash). rewrite_remove w sub n ns >>= finish tree in
      read_then-KeepsRefs (λ repo. read_tree w repo h)
        (λ tree. descend w (Tree.get tree p) >>= go tree)
        λ tree.
          bind-KeepsRefs (descend w (Tree.get tree p)) (go tree)
            (descend-KeepsRefs (Tree.get tree p))
            λ sub.
              bind-KeepsRefs (rewrite_remove w sub n ns) (finish tree)
                (rewrite_remove-KeepsRefs sub n ns)
                λ new_sub.
                  read_then-KeepsRefs (λ repo. read_tree w repo new_sub)
                    (replace_sub w p tree new_sub) (replace_sub-KeepsRefs p tree new_sub)

  -- Writing a file, writing a sealed object and deleting at a path change no ref of the
  -- repository, whether they succeed or not.
  pub edits-KeepRefs :
      (root : Hash) (path : Text) (bytes : Bytes) (sealed : Sealed) (repo : Repo)
      → SameRefs (write_blob_at_path w root path bytes repo).1 repo
        × SameRefs (write_sealed_at_path w root path sealed repo).1 repo
        × SameRefs (delete_at_path w root path repo).1 repo
  unfolding write_blob_at_path write_sealed_at_path delete_at_path
  edits-KeepRefs root path bytes sealed repo =
      let insert = λ (kind : EntryKind) (parts : Parts) (h : Hash).
        rewrite_insert w h kind regular root parts.0 parts.1 in
      let stored =
        λ (kind : EntryKind) (obj : RawObject) (parts : Parts). put w obj >>= insert kind parts in
      let keeps = λ (kind : EntryKind) (obj : RawObject).
        read_then-KeepsRefs (λ _. split_path path) (stored kind obj)
          (λ parts.
            bind-KeepsRefs (put w obj) (insert kind parts) (put-KeepsRefs w obj)
              (λ h. rewrite_insert-KeepsRefs h kind regular root parts.0 parts.1))
          repo in
      (
        keeps EntryKind.file (encode ObjectKind.blob w.blob (record { bytes = bytes })),
        keeps EntryKind.sealed (encode ObjectKind.sealed w.sealed sealed),
        read_then-KeepsRefs (λ _. split_path path) (λ parts. rewrite_remove w root parts.0 parts.1)
            (λ parts. rewrite_remove-KeepsRefs root parts.0 parts.1) repo,
      )
