-- ===== src/Fs/TreeEdit/Extends.antt =====
-- Repositories that serve at least the objects of another.
use tig.Prelude.{Text, ◌≡◌, refl, List, [], ◌∷◌, ok, arith, Result-cases, Option-cases, inl, inr}
use tig.Core.Object.{Hash, ObjectKind, RawObject, Codec, RoundTrips, encode, decode-encode}
use tig.Core.Tree.{Tree, TreeEntry, entry_kind_eq, EntryKind}
use tig.Core.Tree
use tig.Core.Wire.{Wire, IsSound}
use tig.Store.Repo.{Repo}
use tig.Store.Objects
use tig.Store.Objects.Laws.{IsContentAddressed, put-IsContentAddressed, get-put_keeps, get-put_self}
use tig.Fs.TreeEdit.{read, read_tree, lookup_entry}

module _ (w : Wire) where
  -- Every object that was readable stays so, and every file still holds what its hash says.
  pub record Extends (repo repo' : Repo) : Type 0 where
    pub keeps :
        (h : Hash) (obj : RawObject)
        → Objects.get w repo h ≡ ok obj
        → Objects.get w repo' h ≡ ok obj
    pub addressed : IsContentAddressed w repo'

  pub Extends-trans : {a b c : Repo} → Extends a b → Extends b c → Extends a c
  Extends-trans p q = record {
    keeps = λ h obj e. q.keeps h obj (p.keeps h obj e);
    addressed = q.addressed;
  }

  pub read-Extends :
      {A : Type 0} (kind : ObjectKind) (c : Codec A) {repo repo' : Repo} (h : Hash) {a : A}
      → Extends repo repo'
      → read w kind c repo h ≡ ok a
      → read w kind c repo' h ≡ ok a
  unfolding read
  read-Extends kind c {repo} h x e = elim (Result-cases (Objects.get w repo h)) [
    | inl (obj, there) ↦ ground (arith, x.keeps h obj there)
    | inr (_, missing) ↦ ground arith
  ]

  pub read_tree-Extends :
      {repo repo' : Repo} (h : Hash) {t : Tree}
      → Extends repo repo'
      → read_tree w repo h ≡ ok t
      → read_tree w repo' h ≡ ok t
  unfolding read_tree
  read_tree-Extends h x e = read-Extends ObjectKind.tree w.tree h x e

  pub lookup_entry-Extends :
      {repo repo' : Repo} (h : Hash) (part : Text) (rest : List Text) {e : TreeEntry}
      → Extends repo repo'
      → lookup_entry w repo h part rest ≡ ok e
      → lookup_entry w repo' h part rest ≡ ok e
  unfolding lookup_entry
  lookup_entry-Extends {repo} h part [] x e = elim (Result-cases (read_tree w repo h)) [
    | inl (t, there) ↦ ground (arith, read_tree-Extends h x there)
    | inr (_, missing) ↦ ground arith
  ]
  lookup_entry-Extends {repo} {repo'} h part (next ∷ rest) {e} x q =
      elim (Result-cases (read_tree w repo h)) [
        | inr (_, missing) ↦ ground arith
        | inl (t, there) ↦ elim (Option-cases (Tree.get t part)) [
          | inl none_there ↦ ground arith
          | inr (d, found) ↦ ground (
            arith,
            read_tree-Extends h x there,
            lookup_entry-Extends d.target next rest {e = e} x,
          )
        ]
      ]

  -- Storing an object extends the repository, and the object is read back.
  pub put-Extends :
      {A : Type 0} (kind : ObjectKind) (c : Codec A) (repo : Repo) (a : A)
      → IsSound w
      → RoundTrips c
      → IsContentAddressed w repo
      → Extends repo (Objects.put w repo (encode kind c a)).1
        × (read w kind c
              (Objects.put w repo (encode kind c a)).1
              (Objects.put w repo (encode kind c a)).0
            ≡ ok a)
  unfolding read
  put-Extends kind c repo a s r v = (
    record {
      keeps = λ h obj e. get-put_keeps w repo (encode kind c a) obj h e;
      addressed = put-IsContentAddressed w repo (encode kind c a) v;
    },
    rw (get-put_self w s repo (encode kind c a) v, decode-encode kind c r a) refl,
  )
