-- ===== src/Fs/Diff/Reported.antt =====
-- What a reported change says of the two trees, apart from how they are compared.
use mathlib.Core.List.{Memᴰ}
use tig.Prelude.{
  Text, ◌≡◌, ◌≢◌, refl, ◌⊎◌, inl, inr, Option, Option-cases, none, some, List, [], ◌∷◌, ◌++◌, ok,
}
use tig.Prelude.Map
use tig.Prelude.Map.{Map}
use tig.Core.Object.{Hash}
use tig.Core.Tree.{EntryKind, Tree, TreeEntry}
use tig.Core.Wire.{Wire}
use tig.Store.Repo.{Repo}
use tig.Fs.TreeEdit.{read_tree}
use tig.Fs.Materialize.{entry_path}
use tig.Fs.Diff.{ChangeKind, FileDiff, by_name}

-- The text of a path from its components, under a prefix that may be empty.
abbrev pub below : Text → Text → Text
below [] name = name
below (c ∷ cs) name = (c ∷ cs) ++ (b'/' ∷ name)

abbrev pub path_of : Text → Text → List Text → Text
path_of prefix n [] = below prefix n
path_of prefix n (m ∷ ms) = path_of (below prefix n) m ms

pub entry_path-eq-below : (prefix name : Text) → entry_path prefix name ≡ below prefix name
entry_path-eq-below [] name = refl
entry_path-eq-below (c ∷ cs) name = refl

-- A filter lets a path through that it begins, or that begins it, as texts. Without filters every
-- path passes.
abbrev pub Begins : Text → Text → Type 0
Begins p path = (rest : Text) × (path ≡ p ++ rest)

abbrev pub Passes : List Text → Text → Type 0
Passes paths path = (paths ≡ []) ⊎ ((p : Text) × Memᴰ p paths × (Begins p path ⊎ Begins path p))

abbrev pub HasTarget : Option TreeEntry → Option Hash → Type 0
HasTarget none target = target ≡ none
HasTarget (some e) target = target ≡ some e.target

-- What the two sides of a path hold, by the kind of its change.
abbrev pub Differs : ChangeKind → Option TreeEntry → Option TreeEntry → Type 0
Differs ChangeKind.added f t = (f ≡ none) × (e : TreeEntry) × (t ≡ some e)
Differs ChangeKind.removed f t = (t ≡ none) × (e : TreeEntry) × (f ≡ some e)
Differs ChangeKind.modified f t =
    (a : TreeEntry) × (b : TreeEntry) × (f ≡ some a)
    × (t ≡ some b)
    × (a.kind ≡ b.kind)
    × (a.target ≢ b.target)
Differs (ChangeKind.type_changed j k) f t =
    (a : TreeEntry) × (b : TreeEntry) × (f ≡ some a)
    × (t ≡ some b)
    × (a.kind ≡ j)
    × (b.kind ≡ k)
    × (j ≢ k)

module _ (w : Wire) (repo : Repo) where
  -- What a tree, if there is one, holds at a path: an entry, or none where the path or a directory
  -- along it is missing.
  abbrev pub At : Option Hash → Text → List Text → Option TreeEntry → Type 0
  At none n ns o = o ≡ none
  At (some h) n [] o =
      (t : Tree) × (read_tree w repo h ≡ ok t) × (Map.get n (by_name t.entries []) ≡ o)
  At (some h) n (m ∷ ms) o =
      (t : Tree) × (read_tree w repo h ≡ ok t)
      × (((Map.get n (by_name t.entries []) ≡ none) × (o ≡ none))
          ⊎ ((d : TreeEntry) × (Map.get n (by_name t.entries []) ≡ some d)
              × (d.kind ≡ EntryKind.tree)
              × At (some d.target) m ms o))

  -- A change of a path is reported with what the trees hold there.
  pub record Reported (paths : List Text) (prefix : Text) (from to : Option Hash) (d : FileDiff)
      : Type 0 where
    pub n : Text
    pub ns : List Text
    pub f : Option TreeEntry
    pub t : Option TreeEntry
    pub path_eq : d.path ≡ path_of prefix n ns
    pub passes : Passes paths d.path
    pub from_at : At from n ns f
    pub to_at : At to n ns t
    pub from_target : HasTarget f d.from_target
    pub to_target : HasTarget t d.to_target
    pub differs : Differs d.kind f t

  abbrev pub AllReported : List Text → Text → Option Hash → Option Hash → List FileDiff → Type 0
  AllReported paths prefix from to [] = Unit
  AllReported paths prefix from to (d ∷ ds) =
      Reported paths prefix from to d × AllReported paths prefix from to ds

  pub AllReported-append :
      (paths : List Text) (prefix : Text) (from to : Option Hash) (a b : List FileDiff)
      → AllReported paths prefix from to a
      → AllReported paths prefix from to b
      → AllReported paths prefix from to (a ++ b)
  AllReported-append paths prefix from to [] b h k = k
  AllReported-append paths prefix from to (d ∷ a) b (r, h) k =
      (r, AllReported-append paths prefix from to a b h k)

  -- The entries of a side, and what stands at a name of it.
  abbrev pub Listed : Option Hash → Map TreeEntry → Type 0
  Listed none m = m ≡ []
  Listed (some h) m = (t : Tree) × (read_tree w repo h ≡ ok t) × (by_name t.entries [] ≡ m)

  pub At-here :
      (h : Option Hash) (m : Map TreeEntry) (n : Text) → Listed h m → At h n [] (Map.get n m)
  unfolding Map.get
  At-here none m n e = rw (e) refl
  At-here (some h) m n (t, r, e) = (t, r, rw (e) refl)

  -- What stands below a name: nothing, or what stands in the directory there.
  abbrev pub Sub : Option TreeEntry → Option Hash → Type 0
  Sub none sub = sub ≡ none
  Sub (some d) sub = (d.kind ≡ EntryKind.tree) × (sub ≡ some d.target)

  pub At-below :
      (h : Option Hash) (m : Map TreeEntry) (n : Text) (sub : Option Hash) (k : Text)
      (ks : List Text) (o : Option TreeEntry)
      → Listed h m
      → Sub (Map.get n m) sub
      → At sub k ks o
      → At h n (k ∷ ks) o
  unfolding Map.get
  At-below none m n sub k ks o e s a = let gone = rw (e) at s in rw (gone) at a
  At-below (some h) m n sub k ks o (t, r, e) s a = elim (Option-cases (Map.get n m)) [
    | inl missing ↦ (t, r, inl (rw (e) missing, (let gone = rw (missing) at s in rw (gone) at a)))
    | inr (d, there) ↦
        let (dir, same) = (rw (there) at s) in (t, r, inr (d, rw (e) there, dir, rw (same) at a))
  ]

  pub AllReported-below :
      (paths : List Text) (prefix : Text) (from to : Option Hash) (mf mt : Map TreeEntry) (n : Text)
      (sub_from sub_to : Option Hash) (ds : List FileDiff)
      → Listed from mf
      → Listed to mt
      → Sub (Map.get n mf) sub_from
      → Sub (Map.get n mt) sub_to
      → AllReported paths (entry_path prefix n) sub_from sub_to ds
      → AllReported paths prefix from to ds
  AllReported-below paths prefix from to mf mt n sub_from sub_to [] lf lt sf st h = tt
  AllReported-below paths prefix from to mf mt n sub_from sub_to (d ∷ ds) lf lt sf st (r, h) = (
    record {
      n = n;
      ns = r.n ∷ r.ns;
      f = r.f;
      t = r.t;
      path_eq = rw (entry_path-eq-below prefix n) at r.path_eq;
      passes = r.passes;
      from_at = At-below from mf n sub_from r.n r.ns r.f lf sf r.from_at;
      to_at = At-below to mt n sub_to r.n r.ns r.t lt st r.to_at;
      from_target = r.from_target;
      to_target = r.to_target;
      differs = r.differs;
    },
    AllReported-below paths prefix from to mf mt n sub_from sub_to ds lf lt sf st h,
  )
