-- ===== src/Store/Gc/Reach.antt =====
-- The object graph that the collector is meant to follow, and what one marked hash adds.
use mathlib.Core.List.{Memᴰ}
use tig.Prelude.{
  ◌≡◌, ◌≢◌, refl, ap, ◌==◌, eq_iff, contains, Bool, true, false, ◌&&◌, ◌||◌, List, [], ◌∷◌, ◌⊎◌,
  inl, inr, Result, ok, err, arith, Bool-cases,
}
use tig.Core.Object.{Hash, ObjectKind, RawObject, decode, decode-kind}
use tig.Core.Tree.{EntryKind, Tree, TreeEntry}
use tig.Core.Wire.{Wire, Snapshot}
use tig.Store.Error.{StoreError}
use tig.Store.Repo.{Repo}
use tig.Store.Objects
use tig.Store.Gc.{entry_targets, push_all, expand, expand_kind}

-- The kinds of entries that the collector follows. The target of a symlink is an object too, but the
-- collector does not follow it, and neither does what is said of it here.
abbrev pub names_object : EntryKind → Bool
names_object EntryKind.symlink = false
names_object EntryKind.submodule = false
names_object _ = true

module _ (w : Wire) (repo : Repo) where
  -- The stored object `h` refers to `g`.
  pub data Refers (h g : Hash) : Type 0 where
    parent :
        (raw : RawObject) (s : Snapshot)
        → Objects.get w repo h ≡ ok raw
        → decode ObjectKind.snapshot w.snapshot raw ≡ ok s
        → Memᴰ g s.parents
        → Refers h g
    root_tree :
        (raw : RawObject) (s : Snapshot)
        → Objects.get w repo h ≡ ok raw
        → decode ObjectKind.snapshot w.snapshot raw ≡ ok s
        → g ≡ s.tree
        → Refers h g
    entry :
        (raw : RawObject) (t : Tree) (e : TreeEntry)
        → Objects.get w repo h ≡ ok raw
        → decode ObjectKind.tree w.tree raw ≡ ok t
        → Memᴰ e t.entries
        → names_object e.kind ≡ true
        → g ≡ e.target
        → Refers h g

  -- What can be reached from the roots, without following symlinks and submodules.
  pub data Reach (roots : List Hash) : Hash → Type 0 where
    root : {h : Hash} → contains h roots ≡ true → Reach roots h
    step : {h g : Hash} → Reach roots h → Refers h g → Reach roots g

contains_of_mem : {g : Hash} {hs : List Hash} → Memᴰ g hs → contains g hs ≡ true
unfolding contains
contains_of_mem {g} (Memᴰ.head {x} {xs} e) = rw ((eq_iff g x).1 e) refl
contains_of_mem {g} (Memᴰ.tail {x} {xs} m) = ground (arith, contains_of_mem m)

mem_of_contains : (g : Hash) (hs : List Hash) → contains g hs ≡ true → Memᴰ g hs
unfolding contains
mem_of_contains g [] h = cc
mem_of_contains g (x ∷ xs) h = elim (Bool-cases (g == x)) [
  | inl here ↦ Memᴰ.head ((eq_iff g x).0 here)
  | inr there ↦ Memᴰ.tail (mem_of_contains g xs (ground arith))
]

contains-push_all :
    (g : Hash) (ps queue : List Hash)
    → contains g (push_all ps queue) ≡ (contains g ps || contains g queue)
unfolding push_all contains
contains-push_all g [] queue = refl
contains-push_all g (p ∷ ps) queue = ground (arith, contains-push_all g ps (p ∷ queue))

-- Some entry with an object has `g` for its target.
targets : Hash → List TreeEntry → Bool
targets g [] = false
targets g (e ∷ es) = names_object e.kind && g == e.target || targets g es

contains-entry_targets :
    (g : Hash) (es : List TreeEntry) (queue : List Hash)
    → contains g (entry_targets es queue) ≡ (targets g es || contains g queue)
unfolding entry_targets contains targets
contains-entry_targets g [] queue = refl
contains-entry_targets g (e ∷ es) queue =
    ground
      (arith, contains-entry_targets g es queue, contains-entry_targets g es (e.target ∷ queue))

targets_of_mem :
    (g : Hash) (e : TreeEntry) (es : List TreeEntry)
    → Memᴰ e es
    → names_object e.kind ≡ true
    → g ≡ e.target
    → targets g es ≡ true
unfolding targets
targets_of_mem g e _ (Memᴰ.head {x} {xs} p) k q = ground (
  arith,
  p,
  eq_iff g x.target,
  ap (λ (z : TreeEntry). z.target) p,
  ap (λ (z : TreeEntry). names_object z.kind) p,
)
targets_of_mem g e _ (Memᴰ.tail {x} {xs} m) k q = ground (arith, targets_of_mem g e xs m k q)

mem_of_targets :
    (g : Hash) (es : List TreeEntry)
    → targets g es ≡ true
    → (e : TreeEntry) × Memᴰ e es × (names_object e.kind ≡ true) × (g ≡ e.target)
unfolding targets
mem_of_targets g [] h = cc
mem_of_targets g (x ∷ xs) h = elim (Bool-cases (names_object x.kind && g == x.target)) [
  | inl here ↦ (x, Memᴰ.head refl, ground arith, ground (arith, eq_iff g x.target))
  | inr there ↦ let (e, m, k, q) = mem_of_targets g xs (ground arith) in (e, Memᴰ.tail m, k, q)
]

-- The ways in which a hash is expanded.
data Expanded (w : Wire) (repo : Repo) (h : Hash) (queue queue' : List Hash) : Type 0 where
  missing :
      Objects.get w repo h ≡ err StoreError.not_found
      → queue' ≡ queue
      → Expanded w repo h queue queue'
  leaf :
      (raw : RawObject)
      → Objects.get w repo h ≡ ok raw
      → raw.kind ≢ ObjectKind.snapshot
      → raw.kind ≢ ObjectKind.tree
      → queue' ≡ queue
      → Expanded w repo h queue queue'
  of_snapshot :
      (raw : RawObject) (s : Snapshot)
      → Objects.get w repo h ≡ ok raw
      → decode ObjectKind.snapshot w.snapshot raw ≡ ok s
      → queue' ≡ push_all s.parents (s.tree ∷ queue)
      → Expanded w repo h queue queue'
  of_tree :
      (raw : RawObject) (t : Tree)
      → Objects.get w repo h ≡ ok raw
      → decode ObjectKind.tree w.tree raw ≡ ok t
      → queue' ≡ entry_targets t.entries queue
      → Expanded w repo h queue queue'

module _ (w : Wire) (repo : Repo) (h : Hash) (queue queue' : List Hash) where
  Expanded-of_kind :
      (raw : RawObject) (k : ObjectKind)
      → Objects.get w repo h ≡ ok raw
      → raw.kind ≡ k
      → expand_kind w k raw queue ≡ ok queue'
      → Expanded w repo h queue queue'
  Expanded-of_kind raw ObjectKind.blob g k e = leaf raw g (λ p. cc) (λ p. cc) (ground arith)
  Expanded-of_kind raw ObjectKind.sealed g k e = leaf raw g (λ p. cc) (λ p. cc) (ground arith)
  Expanded-of_kind raw ObjectKind.conflict g k e = leaf raw g (λ p. cc) (λ p. cc) (ground arith)
  Expanded-of_kind raw ObjectKind.snapshot g k e =
      by_snapshot (decode ObjectKind.snapshot w.snapshot raw) refl
    where
      by_snapshot :
          (r : Result _ Snapshot)
          → decode ObjectKind.snapshot w.snapshot raw ≡ r
          → Expanded w repo h queue queue'
      by_snapshot (ok s) d = of_snapshot raw s g d (ground arith)
      by_snapshot (err x) d = ground arith
  Expanded-of_kind raw ObjectKind.tree g k e = by_tree (decode ObjectKind.tree w.tree raw) refl
    where
      by_tree :
          (r : Result _ Tree)
          → decode ObjectKind.tree w.tree raw ≡ r
          → Expanded w repo h queue queue'
      by_tree (ok t) d = of_tree raw t g d (ground arith)
      by_tree (err x) d = ground arith

  Expanded-of_expand : expand w repo h queue ≡ ok queue' → Expanded w repo h queue queue'
  unfolding expand
  Expanded-of_expand done = by_read (Objects.get w repo h) refl
    where
      by_read :
          (r : Result StoreError RawObject)
          → Objects.get w repo h ≡ r
          → Expanded w repo h queue queue'
      by_read (ok raw) g = Expanded-of_kind raw raw.kind g refl (ground arith)
      by_read (err StoreError.not_found) g = missing g (ground arith)
      by_read (err _) g = ground arith

  module _ (done : expand w repo h queue ≡ ok queue') where
    -- Nothing queued is lost.
    pub expand_keeps : (g : Hash) → contains g queue ≡ true → contains g queue' ≡ true
    expand_keeps g m = elim (Expanded-of_expand done) [
      | missing _ q ↦ rw q m
      | leaf _ _ _ _ q ↦ rw q m
      | of_snapshot _ s _ _ q ↦
          unfold contains in ground (arith, contains-push_all g s.parents (s.tree ∷ queue), q)
      | of_tree _ t _ _ q ↦ ground (arith, contains-entry_targets g t.entries queue, q)
    ]

  complete_by :
      {g : Hash} → Expanded w repo h queue queue' → Refers w repo h g → contains g queue' ≡ true
  unfolding contains
  complete_by {g} (missing get _) (parent raw s got _ _) = ground arith
  complete_by {g} (missing get _) (root_tree raw s got _ _) = ground arith
  complete_by {g} (missing get _) (entry raw t e got _ _ _ _) = ground arith
  complete_by {g} (leaf r get a b _) (parent raw s got d _) =
      absurd (a (ground (arith, decode-kind ObjectKind.snapshot w.snapshot raw d)))
  complete_by {g} (leaf r get a b _) (root_tree raw s got d _) =
      absurd (a (ground (arith, decode-kind ObjectKind.snapshot w.snapshot raw d)))
  complete_by {g} (leaf r get a b _) (entry raw t e got d _ _ _) =
      absurd (b (ground (arith, decode-kind ObjectKind.tree w.tree raw d)))
  complete_by {g} (of_snapshot r s' get d' q) (parent raw s got d m) =
      let same : s ≡ s' = ground arith in
      ground (
        arith,
        contains-push_all g s'.parents (s'.tree ∷ queue),
        contains_of_mem m,
        ap (λ (z : Snapshot). contains g z.parents) same,
      )
  complete_by {g} (of_snapshot r s' get d' q) (root_tree raw s got d m) =
      let same : s ≡ s' = ground arith in
      ground (
        arith,
        contains-push_all g s'.parents (s'.tree ∷ queue),
        eq_iff g s'.tree,
        ap (λ (z : Snapshot). z.tree) same,
      )
  complete_by {g} (of_snapshot r s' get d' q) (entry raw t e got d m k p) = ground (
    arith,
    decode-kind ObjectKind.tree w.tree raw d,
    decode-kind ObjectKind.snapshot w.snapshot r d',
  )
  complete_by {g} (of_tree r t' get d' q) (parent raw s got d m) = ground (
    arith,
    decode-kind ObjectKind.tree w.tree r d',
    decode-kind ObjectKind.snapshot w.snapshot raw d,
  )
  complete_by {g} (of_tree r t' get d' q) (root_tree raw s got d m) = ground (
    arith,
    decode-kind ObjectKind.tree w.tree r d',
    decode-kind ObjectKind.snapshot w.snapshot raw d,
  )
  complete_by {g} (of_tree r t' get d' q) (entry raw t e got d m k p) =
      let same : t ≡ t' = ground arith in
      ground (
        arith,
        contains-entry_targets g t'.entries queue,
        targets_of_mem g e t.entries m k p,
        ap (λ (z : Tree). targets g z.entries) same,
      )

  sound_by :
      (g : Hash)
      → Expanded w repo h queue queue'
      → contains g queue' ≡ true
      → (contains g queue ≡ true) ⊎ Refers w repo h g
  unfolding contains
  sound_by g (missing get q) m = inl (rw q at m)
  sound_by g (leaf r get a b q) m = inl (rw q at m)
  sound_by g (of_snapshot r s get d q) m = elim (Bool-cases (contains g s.parents)) [
    | inl here ↦ inr (parent r s get d (mem_of_contains g s.parents here))
    | inr other ↦ elim (Bool-cases (g == s.tree)) [
      | inl t ↦ inr (root_tree r s get d ((eq_iff g s.tree).0 t))
      | inr not_tree ↦ inl (ground (arith, contains-push_all g s.parents (s.tree ∷ queue), q))
    ]
  ]
  sound_by g (of_tree r t get d q) m = elim (Bool-cases (targets g t.entries)) [
    | inl here ↦
        let (e, there, k, p) = mem_of_targets g t.entries here in inr (entry r t e get d there k p)
    | inr other ↦ inl (ground (arith, contains-entry_targets g t.entries queue, q))
  ]

  module _ (done : expand w repo h queue ≡ ok queue') where
    -- Whatever the hash refers to is queued.
    pub expand_complete : {g : Hash} → Refers w repo h g → contains g queue' ≡ true
    expand_complete r = complete_by (Expanded-of_expand done) r

    -- What is queued was queued before, or is referred to.
    pub expand_sound :
        (g : Hash) → contains g queue' ≡ true → (contains g queue ≡ true) ⊎ Refers w repo h g
    expand_sound g m = sound_by g (Expanded-of_expand done) m
