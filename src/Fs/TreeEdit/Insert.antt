-- ===== src/Fs/TreeEdit/Insert.antt =====
-- `rewrite_insert` along a path that can be written.
use tig.Prelude.{Text, false, ◌≡◌, refl, ◌∙◌, sym, Option, none, some, List, [], ◌∷◌, ok, arith}
use tig.Core.Object.{Hash, ObjectKind}
use tig.Core.Tree
use tig.Core.Tree.{Tree, TreeEntry, EntryKind, FileMode, entry_kind_eq, is_bad_name}
use tig.Core.Wire.{Wire, IsSound}
use tig.Store.Repo.{Repo}
use tig.Store.Objects.Laws.{IsContentAddressed}
use tig.Fs.TreeEdit.{read_tree}
use tig.Fs.TreeEdit.Write.{dir_entry, leaf_entry, rewrite_insert}
use tig.Fs.TreeEdit.Extends.{Extends-trans, put-Extends}
use tig.Fs.TreeEdit.{read}
use tig.Fs.TreeEdit.Level.{
  AllGood, Below, CanWrite, Writes, Kept, none-some, insert_and_put-Level, Level-Writes,
  leaf_Writes,
}

module _ (w : Wire) where
  -- The run of `rewrite_insert` along a path that can be written.
  abbrev pub Run : Hash → EntryKind → FileMode → Repo → Hash → Text → List Text → TreeEntry → Type 0
  Run target kind mode repo h p ps e =
      (h' : Hash) × (repo' : Repo) × (rewrite_insert w target kind mode h p ps repo
        ≡ (ok h', repo'))
      × Writes w repo h repo' h' p ps e

  abbrev pub last_name : Text → List Text → Text
  last_name p [] = p
  last_name p (n ∷ ns) = last_name n ns

  fresh :
      (repo : Repo) (h : Hash) (ns : List Text) (n : Text)
      → read_tree w repo h ≡ ok Tree.new
      → CanWrite w repo h ns n
  unfolding Tree.get Tree.binary_search
  fresh repo h [] n r = (Tree.new, r)
  fresh repo h (m ∷ ms) n r = (Tree.new, r, tt)

  -- The step of `rewrite_insert` through a directory on the path, or a new one.
  insert_below :
      IsSound w
      → (target : Hash) (kind : EntryKind) (mode : FileMode) (repo : Repo) (h : Hash) (p n : Text)
        (ns : List Text) (e : TreeEntry) {t : Tree}
      → IsContentAddressed w repo
      → is_bad_name p ≡ false
      → read_tree w repo h ≡ ok t
      → ((mid : Repo) (sub : Hash)
          → IsContentAddressed w mid
          → CanWrite w mid sub ns n
          → Run target kind mode mid sub n ns e)
      → (found : Option TreeEntry) → Tree.get t p ≡ found
      → Below w found (λ sub. CanWrite w repo sub ns n)
      → Run target kind mode repo h p (n ∷ ns) e
  unfolding rewrite_insert read_tree read Kept
  insert_below s target kind mode repo h p n ns e {t} v good r ih none nothing _ =
      let (x, back) = put-Extends w ObjectKind.tree w.tree repo Tree.new s s.tree v in
      let (hs, mid, run, wr) = ih _ _ x.addressed (fresh _ _ ns n back) in
      let l = insert_and_put-Level w t (dir_entry p hs) mid s wr.extends.addressed good in
      (
        l.root,
        l.after,
        rw (r, nothing, run) l.runs,
        Level-Writes w h hs p n ns _ l r (Extends-trans w x wr.extends) wr.found
            (λ d q qs old there. absurd (none-some (sym nothing ∙ there))),
      )
  insert_below s target kind mode repo h p n ns e {t} v good r ih (some d) there (is_dir, can) =
      let (hs, mid, run, wr) = ih repo d.target v can in
      let l = insert_and_put-Level w t (dir_entry p hs) mid s wr.extends.addressed good in
      (
        l.root,
        l.after,
        rw (r, there, is_dir, run) l.runs,
        Level-Writes w h hs p n ns _ l r wr.extends wr.found (λ d' q qs old there' _ apart seen.
            wr.others q qs old apart (ground (arith, seen, there, there'))),
      )

  -- Along a path of good names whose existing part can be read, `rewrite_insert` succeeds. The
  -- new entry is then at the path below the new root, every entry on a path that branches off is
  -- still found, and every object that was readable still is.
  pub rewrite_insert_lem :
      IsSound w
      → (target : Hash) (kind : EntryKind) (mode : FileMode) (repo : Repo) (h : Hash) (p : Text)
        (ps : List Text)
      → IsContentAddressed w repo
      → AllGood p ps
      → CanWrite w repo h ps p
      → Run target kind mode repo h p ps (leaf_entry (last_name p ps) target kind mode)
  unfolding rewrite_insert
  rewrite_insert_lem s target kind mode repo h p [] v good (t, r) =
      let l = insert_and_put-Level w t (leaf_entry p target kind mode) repo s v good in
      (l.root, l.after, rw r l.runs, leaf_Writes w h (leaf_entry p target kind mode) l r)
  rewrite_insert_lem s target kind mode repo h p (n ∷ ns) v (good, goods) (t, r, below) =
      insert_below s target kind mode repo h p n ns _ v good r
        (λ mid sub v' can. rewrite_insert_lem s target kind mode mid sub n ns v' goods can)
        (Tree.get t p) refl below
