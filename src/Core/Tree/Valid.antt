-- ===== src/Core/Tree/Valid.antt =====
-- The invariant of a tree: valid names, in strictly ascending order.
use mathlib.Core.List.{Permᴰ}
use mathlib.Core.List.Permᴰ
use tig.Prelude.{
  Text, cmp, eq_of_cmp, cmp_swap, flip, ◌==◌, Ordering, ◌≡◌, refl, ◌∙◌, ap, ◌≢◌, ◌↔◌, false, List,
  [], ◌∷◌, ok, arith,
}
use tig.Core.Tree.{
  Tree, TreeEntry, new, insert, is_bad_name, validate_name, validate_all, insert_sorted,
  sort_by_name, reject_duplicates, from_entries,
}
use tig.Core.Tree.Lookup.{upsert, place-binary_search}

abbrev pub Above : Text → List TreeEntry → Type 0
Above n [] = Unit
Above n (x ∷ xs) = cmp n x.name ≡ Ordering.lt

abbrev pub IsSorted : List TreeEntry → Type 0
IsSorted [] = Unit
IsSorted (x ∷ xs) = Above x.name xs × IsSorted xs

abbrev pub HasValidNames : List TreeEntry → Type 0
HasValidNames [] = Unit
HasValidNames (x ∷ xs) = (is_bad_name x.name ≡ false) × HasValidNames xs

pub record IsValid (t : Tree) : Type 0 where
  pub sorted : IsSorted t.entries
  pub names : HasValidNames t.entries

upsert-Above :
    (n : Text) (e : TreeEntry) (es : List TreeEntry)
    → Above n es
    → cmp n e.name ≡ Ordering.lt
    → Above n (upsert e es)
unfolding upsert
upsert-Above n e [] h p = p
upsert-Above n e (x ∷ xs) h p = ground arith

-- By the order of the first entry's name and the new one.
upsert-IsSorted_cons :
    (e x : TreeEntry) (xs : List TreeEntry) (o : Ordering)
    → cmp x.name e.name ≡ o
    → IsSorted (x ∷ xs)
    → IsSorted (upsert e xs)
    → IsSorted (upsert e (x ∷ xs))
unfolding upsert
upsert-IsSorted_cons e x xs Ordering.lt p (a, s) u =
    rw (p, upsert) (upsert-Above x.name e xs a p, u)
upsert-IsSorted_cons e x xs Ordering.eq p (a, s) u =
    rw (p, upsert) (rw (← eq_of_cmp x.name e.name p) a, s)
upsert-IsSorted_cons e x xs Ordering.gt p (a, s) u =
    rw (p, upsert) (cmp_swap x.name e.name ∙ ap flip p, (a, s))

upsert-IsSorted : (e : TreeEntry) (es : List TreeEntry) → IsSorted es → IsSorted (upsert e es)
unfolding upsert
upsert-IsSorted e [] h = (tt, tt)
upsert-IsSorted e (x ∷ xs) h =
    upsert-IsSorted_cons e x xs (cmp x.name e.name) refl h (upsert-IsSorted e xs h.1)

upsert-HasValidNames :
    (e : TreeEntry) (es : List TreeEntry)
    → is_bad_name e.name ≡ false
    → HasValidNames es
    → HasValidNames (upsert e es)
unfolding upsert
upsert-HasValidNames e [] b h = (b, tt)
upsert-HasValidNames e (x ∷ xs) b h = ground (arith, upsert-HasValidNames e xs b h.1)

-- An accepted insert into a tree with valid names in strictly ascending order gives such a tree.
pub insert-IsValid : (t t' : Tree) (e : TreeEntry) → IsValid t → insert t e ≡ ok t' → IsValid t'
unfolding insert validate_name
insert-IsValid t t' e v h =
    let good : is_bad_name e.name ≡ false = ground arith in
    let same : t'.entries ≡ upsert e t.entries = ground (arith, place-binary_search e t.entries) in
    record {
      sorted = rw same (upsert-IsSorted e t.entries v.sorted);
      names = rw same (upsert-HasValidNames e t.entries good v.names);
    }

pub IsValid-new : IsValid new
IsValid-new = record { sorted = tt; names = tt }

-- Ascending with repetitions: what the sort leaves.
abbrev Weakly : Text → List TreeEntry → Type 0
Weakly n [] = Unit
Weakly n (x ∷ xs) = cmp n x.name ≢ Ordering.gt

abbrev IsWeaklySorted : List TreeEntry → Type 0
IsWeaklySorted [] = Unit
IsWeaklySorted (x ∷ xs) = Weakly x.name xs × IsWeaklySorted xs

insert_sorted-Weakly :
    (n : Text) (e : TreeEntry) (es : List TreeEntry)
    → Weakly n es
    → cmp n e.name ≢ Ordering.gt
    → Weakly n (insert_sorted e es)
unfolding insert_sorted
insert_sorted-Weakly n e [] h p = p
insert_sorted-Weakly n e (x ∷ xs) h p = ground arith

insert_sorted-IsWeaklySorted :
    (e : TreeEntry) (es : List TreeEntry) → IsWeaklySorted es → IsWeaklySorted (insert_sorted e es)
unfolding insert_sorted
insert_sorted-IsWeaklySorted e [] h = (tt, tt)
insert_sorted-IsWeaklySorted e (x ∷ xs) (a, s) = ground (
  arith,
  insert_sorted-Weakly x.name e xs a,
  insert_sorted-IsWeaklySorted e xs s,
  cmp_swap x.name e.name,
)

sort_by_name-IsWeaklySorted : (es : List TreeEntry) → IsWeaklySorted (sort_by_name es)
unfolding sort_by_name
sort_by_name-IsWeaklySorted [] = tt
sort_by_name-IsWeaklySorted (e ∷ es) =
    insert_sorted-IsWeaklySorted e _ (sort_by_name-IsWeaklySorted es)

reject_duplicates-IsSorted :
    (es : List TreeEntry) → IsWeaklySorted es → reject_duplicates es ≡ ok tt → IsSorted es
unfolding reject_duplicates ◌==◌
reject_duplicates-IsSorted [] s h = tt
reject_duplicates-IsSorted (a ∷ []) s h = (tt, tt)
reject_duplicates-IsSorted (a ∷ b ∷ es) (w, s) h =
    (ground arith, reject_duplicates-IsSorted (b ∷ es) s (ground arith))

pub validate_all-HasValidNames :
    (es : List TreeEntry) → (validate_all es ≡ ok tt) ↔ HasValidNames es
unfolding validate_all validate_name
validate_all-HasValidNames [] = (λ _. tt, λ _. refl)
validate_all-HasValidNames (e ∷ es) = ground (arith, validate_all-HasValidNames es)

insert_sorted-perm : (e : TreeEntry) (es : List TreeEntry) → Permᴰ (insert_sorted e es) (e ∷ es)
unfolding insert_sorted
insert_sorted-perm e [] = Permᴰ.refl (e ∷ [])
insert_sorted-perm e (x ∷ xs) = by_order (cmp e.name x.name) refl (insert_sorted-perm e xs)
  where
    by_order :
        (o : Ordering)
        → cmp e.name x.name ≡ o
        → Permᴰ (insert_sorted e xs) (e ∷ xs)
        → Permᴰ (insert_sorted e (x ∷ xs)) (e ∷ x ∷ xs)
    by_order Ordering.lt p ih = rw (p, insert_sorted) (Permᴰ.refl _)
    by_order Ordering.eq p ih = rw (p, insert_sorted) (Permᴰ.refl _)
    by_order Ordering.gt p ih =
        rw (p, insert_sorted) (Permᴰ.trans (Permᴰ.cons refl ih) (Permᴰ.swap refl refl))

pub sort_by_name-perm : (es : List TreeEntry) → Permᴰ (sort_by_name es) es
unfolding sort_by_name
sort_by_name-perm [] = Permᴰ.nil
sort_by_name-perm (e ∷ es) =
    Permᴰ.trans (insert_sorted-perm e (sort_by_name es)) (Permᴰ.cons refl (sort_by_name-perm es))

pub HasValidNames-perm :
    {es fs : List TreeEntry} → Permᴰ es fs → HasValidNames es → HasValidNames fs
HasValidNames-perm Permᴰ.nil h = h
HasValidNames-perm (Permᴰ.cons e p) (b, h) = (rw (← e) b, HasValidNames-perm p h)
HasValidNames-perm (Permᴰ.swap p q) (b, (c, h)) = (rw (← q) c, (rw (← p) b, h))
HasValidNames-perm (Permᴰ.trans p q) h = HasValidNames-perm q (HasValidNames-perm p h)

-- A tree that from_entries accepts has valid names in strictly ascending order.
pub from_entries-IsValid : (es : List TreeEntry) (t : Tree) → from_entries es ≡ ok t → IsValid t
unfolding from_entries
from_entries-IsValid es t h =
    let names : validate_all es ≡ ok tt = ground arith in
    let distinct : reject_duplicates (sort_by_name es) ≡ ok tt = ground arith in
    let same : t.entries ≡ sort_by_name es = ground arith in
    record {
      sorted = rw same (reject_duplicates-IsSorted _ (sort_by_name-IsWeaklySorted es) distinct);
      names = rw same (
          HasValidNames-perm (Permᴰ.symm (sort_by_name-perm es))
            ((validate_all-HasValidNames es).0 names));
    }
