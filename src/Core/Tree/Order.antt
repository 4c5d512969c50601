-- ===== src/Core/Tree/Order.antt =====
-- `from_entries` and the order in which entries are given.
use mathlib.Core.List.{Permᴰ}
use mathlib.Core.Path.{subst}
use tig.Prelude.{
  Text, cmp_refl, eq_of_cmp, cmp_swap, cmp_trans, ◌≡◌, refl, sym, ◌∙◌, ap, ◌≢◌, List, [], ◌∷◌, ok,
  arith,
}
use tig.Core.Tree.{Tree, TreeEntry, validate_all, insert_sorted, sort_by_name, from_entries}
use tig.Core.Tree.Valid.{
  Above, IsSorted, HasValidNames-perm, validate_all-HasValidNames, from_entries-IsValid,
  sort_by_name-perm,
}

abbrev Fresh : Text → List TreeEntry → Type 0
Fresh n [] = Unit
Fresh n (x ∷ xs) = (n ≢ x.name) × Fresh n xs

abbrev Distinct : List TreeEntry → Type 0
Distinct [] = Unit
Distinct (x ∷ xs) = Fresh x.name xs × Distinct xs

Fresh-IsSorted : (n : Text) (es : List TreeEntry) → Above n es → IsSorted es → Fresh n es
Fresh-IsSorted n [] a s = tt
Fresh-IsSorted n (x ∷ []) a s = (λ e. ground (arith, cmp_refl n, e), tt)
Fresh-IsSorted n (x ∷ y ∷ es) a (b, s) = (
  λ e. ground (arith, cmp_refl n, e),
  Fresh-IsSorted n (y ∷ es) (cmp_trans n x.name y.name a b) s,
)

Distinct-IsSorted : (es : List TreeEntry) → IsSorted es → Distinct es
Distinct-IsSorted [] s = tt
Distinct-IsSorted (x ∷ xs) (a, s) = (Fresh-IsSorted x.name xs a s, Distinct-IsSorted xs s)

Fresh-perm : (n : Text) {es fs : List TreeEntry} → Permᴰ es fs → Fresh n es → Fresh n fs
Fresh-perm n Permᴰ.nil h = h
Fresh-perm n (Permᴰ.cons e p) (b, h) = (rw (← e) b, Fresh-perm n p h)
Fresh-perm n (Permᴰ.swap p q) (b, (c, h)) = (rw (← q) c, (rw (← p) b, h))
Fresh-perm n (Permᴰ.trans p q) h = Fresh-perm n q (Fresh-perm n p h)

Distinct-perm : {es fs : List TreeEntry} → Permᴰ es fs → Distinct es → Distinct fs
Distinct-perm Permᴰ.nil h = h
Distinct-perm (Permᴰ.cons e p) (b, h) = (rw (← e) (Fresh-perm _ p b), Distinct-perm p h)
Distinct-perm (Permᴰ.swap {l = l} p q) ((b, b'), (c, h)) = (
  (
    λ e. b (ap (λ (x : TreeEntry). x.name) p ∙ sym e ∙ ap (λ (x : TreeEntry). x.name) (sym q)),
    subst (λ (z : TreeEntry). Fresh z.name l) q c,
  ),
  (subst (λ (z : TreeEntry). Fresh z.name l) p b', h),
)
Distinct-perm (Permᴰ.trans p q) h = Distinct-perm q (Distinct-perm p h)

insert_sorted_comm :
    (a b : TreeEntry) (es : List TreeEntry)
    → a.name ≢ b.name
    → insert_sorted a (insert_sorted b es) ≡ insert_sorted b (insert_sorted a es)
unfolding insert_sorted
insert_sorted_comm a b [] h = ground (arith, cmp_swap a.name b.name, eq_of_cmp a.name b.name)
insert_sorted_comm a b (x ∷ xs) h = ground (
  arith,
  insert_sorted_comm a b xs h,
  cmp_swap a.name b.name,
  eq_of_cmp a.name b.name,
  cmp_swap a.name x.name,
  cmp_swap b.name x.name,
  eq_of_cmp a.name x.name,
  eq_of_cmp b.name x.name,
  cmp_trans a.name b.name x.name,
  cmp_trans b.name a.name x.name,
)

sort_by_name-eq_of_perm :
    {es fs : List TreeEntry} → Permᴰ es fs → Distinct es → sort_by_name es ≡ sort_by_name fs
unfolding sort_by_name
sort_by_name-eq_of_perm Permᴰ.nil h = refl
sort_by_name-eq_of_perm (Permᴰ.cons e p) (b, h) = rw (e, sort_by_name-eq_of_perm p h)
sort_by_name-eq_of_perm (Permᴰ.swap {a} {b} {l = l} p q) ((n, _), _) =
    insert_sorted_comm a b (sort_by_name l) n ∙ rw (p, q)
sort_by_name-eq_of_perm (Permᴰ.trans p q) h =
    sort_by_name-eq_of_perm p h ∙ sort_by_name-eq_of_perm q (Distinct-perm p h)

-- A tree that from_entries accepts does not depend on the order in which its entries were given.
pub from_entries_perm :
    {es fs : List TreeEntry} {t : Tree}
    → Permᴰ es fs
    → from_entries es ≡ ok t
    → from_entries fs ≡ ok t
unfolding from_entries
from_entries_perm {es} {fs} {t} p h =
    let valid = from_entries-IsValid es t h in
    let names : validate_all es ≡ ok tt = ground arith in
    let same : sort_by_name es ≡ t.entries = ground arith in
    let sorted : IsSorted (sort_by_name es) = rw same valid.sorted in
    let distinct : Distinct es =
      Distinct-perm (sort_by_name-perm es) (Distinct-IsSorted (sort_by_name es) sorted) in
    let again : validate_all fs ≡ ok tt =
      (validate_all-HasValidNames fs).1
        (HasValidNames-perm p ((validate_all-HasValidNames es).0 names)) in
    let sorts : sort_by_name fs ≡ sort_by_name es = sym (sort_by_name-eq_of_perm p distinct) in
    rw (again, sorts) (ground arith)
