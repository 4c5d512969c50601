-- ===== src/Fs/TreeEdit/Level.antt =====
-- One level of a rewrite along a path: a tree that is read, given an entry, and stored again.
use tig.Prelude.{
  ◌⊎◌, Text, false, ◌==◌, eq_iff, eq_refl, ◌≡◌, ◌≢◌, refl, ap, ◌∙◌, Option, none, some, List, [],
  ◌∷◌, ok, arith, Option-cases, inl, inr, if◌then◌else◌,
}
use tig.Core.Object.{Hash, ObjectKind, encode}
use tig.Core.Tree
use tig.Core.Tree.{Tree, TreeEntry, EntryKind, FileMode, entry_kind_eq, is_bad_name}
use tig.Core.Tree.Lookup.{get-insert}
use tig.Core.Wire.{Wire, IsSound}
use tig.Store.Repo.{Repo}
use tig.Store.Objects
use tig.Store.Objects.Laws.{IsContentAddressed}
use tig.Fs.TreeEdit.{read_tree, lookup_entry}
use tig.Fs.TreeEdit.Write.{insert_and_put, dir_entry}
use tig.Fs.TreeEdit.Extends.{Extends, Extends-trans, lookup_entry-Extends, put-Extends}

-- Two paths that part at some component, neither a prefix of the other.
abbrev pub Diverges : Text → List Text → Text → List Text → Type 0
Diverges p [] q qs = p ≢ q
Diverges p ps q [] = p ≢ q
Diverges p (p' ∷ ps) q (q' ∷ qs) = (p ≢ q) ⊎ ((p ≡ q) × Diverges p' ps q' qs)

abbrev pub AllGood : Text → List Text → Type 0
AllGood p [] = is_bad_name p ≡ false
AllGood p (n ∷ ns) = (is_bad_name p ≡ false) × AllGood n ns

insert-accepts :
    (t : Tree) (e : TreeEntry)
    → is_bad_name e.name ≡ false
    → (t' : Tree) × (Tree.insert t e ≡ ok t')
unfolding Tree.insert Tree.validate_name
insert-accepts t e g = (
  record { entries = Tree.place t.entries e (Tree.binary_search e.name t.entries) },
  ground arith,
)

pub none-some : {A : Type 0} {a : A} → none ≡ some a → ⊥
none-some e = cc

module _ (w : Wire) where
  -- The trees along the path can be read, as far as the path exists already.
  abbrev pub Below : Option TreeEntry → (Hash → Type 0) → Type 0
  Below none P = Unit
  Below (some e) P = (e.kind ≡ EntryKind.tree) × P e.target

  abbrev pub CanWrite : Repo → Hash → List Text → Text → Type 0
  CanWrite repo h [] p = (t : Tree) × (read_tree w repo h ≡ ok t)
  CanWrite repo h (n ∷ ns) p =
      (t : Tree) × (read_tree w repo h ≡ ok t) × Below (Tree.get t p) λ sub. CanWrite repo sub ns n

  -- What a rewrite along a path leaves: its entry `e` is at the path, the rest is as it was.
  pub record Writes (repo : Repo) (h : Hash) (repo' : Repo) (h' : Hash) (p : Text) (ps : List Text)
      (e : TreeEntry) : Type 0 where
    pub extends : Extends w repo repo'
    pub found : lookup_entry w repo' h' p ps ≡ ok e
    pub others :
        (q : Text) (qs : List Text) (old : TreeEntry)
        → Diverges p ps q qs
        → lookup_entry w repo h q qs ≡ ok old
        → lookup_entry w repo' h' q qs ≡ ok old

  -- What `insert_and_put` leaves.
  pub record Level (t : Tree) (e : TreeEntry) (repo : Repo) : Type 0 where
    pub root : Hash
    pub after : Repo
    pub tree : Tree
    pub runs : insert_and_put w t e repo ≡ (ok root, after)
    pub extends : Extends w repo after
    pub stored : read_tree w after root ≡ ok tree
    pub gets : (n : Text) → Tree.get tree n ≡ (if e.name == n then some e else Tree.get t n)

  pub insert_and_put-Level :
      (t : Tree) (e : TreeEntry) (repo : Repo)
      → IsSound w
      → IsContentAddressed w repo
      → is_bad_name e.name ≡ false
      → Level t e repo
  unfolding read_tree
  insert_and_put-Level t e repo s v g =
      let (t', accepted) = insert-accepts t e g in
      let (x, back) = put-Extends w ObjectKind.tree w.tree repo t' s s.tree v in
      record {
        root = (Objects.put w repo (encode ObjectKind.tree w.tree t')).0;
        after = (Objects.put w repo (encode ObjectKind.tree w.tree t')).1;
        tree = t';
        runs = rw accepted refl;
        extends = x;
        stored = back;
        gets = λ n. get-insert t t' e n accepted;
      }

  elsewhere :
      {repo repo' : Repo} {t t' : Tree} (h h' : Hash) (q : Text) (qs : List Text) (old : TreeEntry)
      → read_tree w repo h ≡ ok t
      → read_tree w repo' h' ≡ ok t'
      → Extends w repo repo'
      → Tree.get t' q ≡ Tree.get t q
      → lookup_entry w repo h q qs ≡ ok old
      → lookup_entry w repo' h' q qs ≡ ok old
  unfolding lookup_entry
  elsewhere h h' q [] old r r' x g e = ground arith
  elsewhere {t = t} h h' q (m ∷ ms) old r r' x g e = elim (Option-cases (Tree.get t q)) [
    | inl nothing ↦ ground arith
    | inr (d, there) ↦ ground (arith, lookup_entry-Extends w d.target m ms {e = old} x)
  ]

  -- Under the rewritten directory, what branches off below is as it was.
  unfoldable pub Kept : Tree → Repo → Repo → Hash → Text → Text → List Text → Type 0
  Kept t repo mid sub p n ns =
      (d : TreeEntry) (q : Text) (qs : List Text) (old : TreeEntry)
      → Tree.get t p ≡ some d
      → d.kind ≡ EntryKind.tree
      → Diverges n ns q qs
      → lookup_entry w repo d.target q qs ≡ ok old
      → lookup_entry w mid sub q qs ≡ ok old

  Level-others :
      {t : Tree} {repo mid : Repo} (h sub : Hash) (p n : Text) (ns : List Text)
      (l : Level t (dir_entry p sub) mid)
      → read_tree w repo h ≡ ok t
      → Extends w repo mid
      → Kept t repo mid sub p n ns
      → (q : Text) (qs : List Text) (old : TreeEntry) → Diverges p (n ∷ ns) q qs
      → lookup_entry w repo h q qs ≡ ok old
      → lookup_entry w l.after l.root q qs ≡ ok old
  unfolding lookup_entry Kept
  Level-others h sub p n ns l r x kept q [] old apart e =
      elsewhere h l.root q [] old r l.stored (Extends-trans w x l.extends)
        (ground (arith, l.gets q, eq_iff p q)) e
  Level-others h sub p n ns l r x kept q (m ∷ ms) old (inl apart) e =
      elsewhere h l.root q (m ∷ ms) old r l.stored (Extends-trans w x l.extends)
        (ground (arith, l.gets q, eq_iff p q)) e
  Level-others {t} {repo} {mid} h sub p n ns l r x kept q (m ∷ ms) old (inr (same, apart)) e =
      elim (Option-cases (Tree.get t q)) [
        | inl nothing ↦ ground arith
        | inr (d, there) ↦
            let below : lookup_entry w mid sub m ms ≡ ok old =
              kept d m ms old (ap (Tree.get t) same ∙ there) (ground arith) apart (ground arith) in
            ground (
              arith,
              l.stored,
              l.gets q,
              eq_iff p q,
              lookup_entry-Extends w sub m ms {e = old} l.extends below,
            )
      ]

  -- One level whose new entry leads to the rest of the path.
  pub Level-Writes :
      {t : Tree} {repo mid : Repo} (h sub : Hash) (p n : Text) (ns : List Text) (e : TreeEntry)
      (l : Level t (dir_entry p sub) mid)
      → read_tree w repo h ≡ ok t
      → Extends w repo mid
      → lookup_entry w mid sub n ns ≡ ok e
      → Kept t repo mid sub p n ns
      → Writes repo h l.after l.root p (n ∷ ns) e
  unfolding lookup_entry
  Level-Writes h sub p n ns e l r x f kept = record {
    extends = Extends-trans w x l.extends;
    found =
        ground
          (arith, l.stored, l.gets p, eq_refl p, lookup_entry-Extends w sub n ns {e = e} l.extends);
    others = Level-others h sub p n ns l r x kept;
  }

  pub leaf_Writes :
      {t : Tree} {repo : Repo} (h : Hash) (e : TreeEntry) (l : Level t e repo)
      → read_tree w repo h ≡ ok t
      → Writes repo h l.after l.root e.name [] e
  unfolding lookup_entry
  leaf_Writes h e l r = record {
    extends = l.extends;
    found = ground (arith, l.stored, l.gets e.name, eq_refl e.name);
    others = λ q qs old apart there.
        elsewhere h l.root q qs old r l.stored l.extends (ground (arith, l.gets q, eq_iff e.name q))
          there;
  }
