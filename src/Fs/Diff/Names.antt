-- ===== src/Fs/Diff/Names.antt =====
-- The sorted union of the names of two directories holds both.
use tig.Prelude.{
  Text, cmp, eq_of_cmp, Ordering-cases, ◌==◌, eq_iff, ◌≡◌, refl, ◌∙◌, ◌⊎◌, Bool-cases, some, [],
  ◌∷◌, inl, inr, arith,
}
use tig.Prelude.BTree
use tig.Prelude.Map
use tig.Prelude.Map.{Map}
use tig.Fs.Diff.{names_of}

-- A key of a map.
abbrev pub In {ℓ} : {V : Type ℓ} → Text → Map V → Type 0
In k [] = ⊥
In k ((j, _) ∷ m) = (j ≡ k) ⊎ In k m

In-insert : {V : Type 0} (k : Text) (v : V) (m : Map V) → In k (BTree.insert k v m)
unfolding BTree.insert
In-insert k v [] = inl refl
In-insert k v ((j, u) ∷ m) = elim (Ordering-cases (cmp k j)) [
  | inl lt ↦ rw (lt, BTree.insert) (inl refl)
  | inr (inl eq) ↦ rw (eq, BTree.insert) (inl refl)
  | inr (inr gt) ↦ rw (gt, BTree.insert) (inr (In-insert k v m))
]

In-insert_other : {V : Type 0} (i k : Text) (v : V) (m : Map V) → In i m → In i (BTree.insert k v m)
unfolding BTree.insert
In-insert_other i k v [] h = absurd h
In-insert_other i k v ((j, u) ∷ m) h = elim (Ordering-cases (cmp k j)) [
  | inl lt ↦ rw (lt, BTree.insert) (inr h)
  | inr (inl eq) ↦
      rw (eq, BTree.insert)
        (elim h [ inl here ↦ inl (eq_of_cmp k j eq ∙ here) | inr there ↦ inr there ])
  | inr (inr gt) ↦
      rw (gt, BTree.insert)
        (elim h [ inl here ↦ inl here | inr there ↦ inr (In-insert_other i k v m there) ])
]

pub In-names_of_kept :
    {V : Type 0} (k : Text) (es : Map V) (m : Map (Unit {0})) → In k m → In k (names_of es m)
unfolding names_of
In-names_of_kept k [] m h = h
In-names_of_kept k ((n, v) ∷ es) m h =
    In-names_of_kept k es (BTree.insert n tt m) (In-insert_other k n tt m h)

pub In-names_of :
    {V : Type 0} (k : Text) (es : Map V) (m : Map (Unit {0})) {v : V}
    → Map.get k es ≡ some v
    → In k (names_of es m)
unfolding names_of Map.get
In-names_of k [] m h = absurd (ground (arith, h))
In-names_of k ((n, u) ∷ es) m h = elim (Bool-cases (n == k)) [
  | inl same ↦
      rw ((eq_iff n k).0 same) (In-names_of_kept k es (BTree.insert k tt m) (In-insert k tt m))
  | inr other ↦ In-names_of k es (BTree.insert n tt m) (rw (other) at h)
]
