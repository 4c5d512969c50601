-- ===== src/Fs/Scan/Below.antt =====
-- The names that a scan has inserted are below those still to come.
use tig.Prelude.{
  Text, cmp, cmp_trans, cmp_refl, eq_iff, Ordering, ◌≡◌, refl, ap, false, none, List, [], ◌∷◌, ◌++◌,
  ok, arith,
}
use tig.Prelude.BTree.{Above, IsSorted}
use tig.Prelude.Map.{Map}
use tig.Core.Tree
use tig.Core.Tree.{EntryKind, Tree, TreeEntry, is_bad_name, validate_name}
use tig.Core.Tree.Lookup.{upsert, place-binary_search}
use tig.Fs.Workdir.{Node, find}
use tig.Fs.Scan.Tracked.{of_list}

pub find-Above : (n : Text) (m : Map Node) → Above n m → IsSorted m → find n (of_list m) ≡ none
unfolding find
find-Above n [] a s = refl
find-Above n ((j, x) ∷ []) a s = ground (arith, eq_iff j n, cmp_refl n)
find-Above n ((j, x) ∷ (k, y) ∷ m) a (b, s) =
    ground (arith, eq_iff j n, cmp_refl n, find-Above n ((k, y) ∷ m) (cmp_trans n j k a b) s)

-- All names are below a text.
abbrev AllBelow : Text → List TreeEntry → Type 0
AllBelow k [] = Unit
AllBelow k (e ∷ l) = (cmp e.name k ≡ Ordering.lt) × AllBelow k l

AllBelow-trans :
    (j k : Text) (l : List TreeEntry) → cmp j k ≡ Ordering.lt → AllBelow j l → AllBelow k l
AllBelow-trans j k [] h b = tt
AllBelow-trans j k (e ∷ l) h (c, b) = (cmp_trans e.name j k c h, AllBelow-trans j k l h b)

AllBelow-append :
    (k : Text) (l : List TreeEntry) (e : TreeEntry)
    → AllBelow k l
    → cmp e.name k ≡ Ordering.lt
    → AllBelow k (l ++ (e ∷ []))
AllBelow-append k [] e b h = (h, tt)
AllBelow-append k (x ∷ l) e (c, b) h = (c, AllBelow-append k l e b h)

upsert-AllBelow :
    (e : TreeEntry) (l : List TreeEntry) → AllBelow e.name l → upsert e l ≡ l ++ (e ∷ [])
unfolding upsert
upsert-AllBelow e [] b = refl
upsert-AllBelow e (x ∷ l) (c, b) = rw (c, upsert) (ap (λ r. x ∷ r) (upsert-AllBelow e l b))

pub insert-AllBelow :
    (t : Tree) (e : TreeEntry)
    → is_bad_name e.name ≡ false
    → AllBelow e.name t.entries
    → Tree.insert t e ≡ ok (record { entries = t.entries ++ (e ∷ []) })
unfolding Tree.insert validate_name
insert-AllBelow t e g b =
    rw (g, place-binary_search e t.entries, upsert-AllBelow e t.entries b) refl

-- Below the first key, if there is one.
abbrev pub BelowFirst : List TreeEntry → Map Node → Type 0
BelowFirst l [] = Unit
BelowFirst l ((k, _) ∷ _) = AllBelow k l

pub BelowFirst-next :
    (l : List TreeEntry) (e : TreeEntry) (m : Map Node)
    → AllBelow e.name l
    → Above e.name m
    → BelowFirst (l ++ (e ∷ [])) m
BelowFirst-next l e [] b a = tt
BelowFirst-next l e ((k, x) ∷ m) b a = AllBelow-append k l e (AllBelow-trans e.name k l a b) a

pub BelowFirst-nil : (m : Map Node) → BelowFirst [] m
BelowFirst-nil [] = tt
BelowFirst-nil (_ ∷ m) = tt
