-- ===== src/Core/Tree/Lookup.antt =====
-- What `get` finds after `insert`.
use tig.Prelude.{
  Text, cmp, eq_of_cmp, cmp_swap, cmp_trans, ◌==◌, Ordering, ◌≡◌, refl, Option, none, some, List,
  [], ◌∷◌, if◌then◌else◌, ok, arith,
}
use tig.Core.Tree.{
  Tree, TreeEntry, binary_search, set_at, insert_at, get_at, place, fetch, insert, get,
  validate_name,
}

-- `insert` and `get` by recursion on the entries.
unfoldable pub upsert : TreeEntry → List TreeEntry → List TreeEntry
upsert e [] = e ∷ []
upsert e (x ∷ xs) = elim (cmp x.name e.name) [
  | Ordering.lt ↦ x ∷ upsert e xs
  | Ordering.eq ↦ e ∷ xs
  | Ordering.gt ↦ e ∷ x ∷ xs
]

unfoldable pub find : Text → List TreeEntry → Option TreeEntry
find n [] = none
find n (x ∷ xs) = elim (cmp x.name n) [
  | Ordering.lt ↦ find n xs
  | Ordering.eq ↦ some x
  | Ordering.gt ↦ none
]

pub place-binary_search :
    (e : TreeEntry) (es : List TreeEntry) → place es e (binary_search e.name es) ≡ upsert e es
unfolding binary_search set_at insert_at upsert
place-binary_search e [] = refl
place-binary_search e (x ∷ xs) = ground (arith, place-binary_search e xs)

pub fetch-binary_search :
    (n : Text) (es : List TreeEntry) → fetch es (binary_search n es) ≡ find n es
unfolding binary_search get_at find
fetch-binary_search n [] = refl
fetch-binary_search n (x ∷ xs) = ground (arith, fetch-binary_search n xs)

pub find-upsert :
    (e : TreeEntry) (n : Text) (es : List TreeEntry)
    → find n (upsert e es) ≡ (if e.name == n then some e else find n es)
unfolding find upsert ◌==◌
find-upsert e n [] = ground arith
find-upsert e n (x ∷ xs) = ground (
  arith,
  find-upsert e n xs,
  eq_of_cmp x.name e.name,
  eq_of_cmp e.name n,
  eq_of_cmp x.name n,
  cmp_swap x.name n,
  cmp_swap e.name n,
  cmp_swap x.name e.name,
  cmp_trans x.name e.name n,
  cmp_trans n e.name x.name,
  cmp_trans n x.name e.name,
)

-- After an accepted insert, get finds the new entry under its name, and under any other name what
-- it found before.
pub get-insert :
    (t t' : Tree) (e : TreeEntry) (n : Text)
    → insert t e ≡ ok t'
    → get t' n ≡ (if e.name == n then some e else get t n)
unfolding insert get validate_name
get-insert t t' e n h = ground (
  arith,
  place-binary_search e t.entries,
  fetch-binary_search n t.entries,
  fetch-binary_search n t'.entries,
  find-upsert e n t.entries,
)
