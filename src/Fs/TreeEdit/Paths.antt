-- ===== src/Fs/TreeEdit/Paths.antt =====
-- `split_path` and the names that a tree accepts.
use tig.Prelude.{ℕ, Text, false, ◌≡◌, refl, List, [], ◌∷◌, ok, arith, nat_eq}
use tig.Core.Tree.{contains_byte, is_empty_text, is_bad_name}
use tig.Fs.TreeEdit.{split, non_empty, cons_head, check_parts, split_path, accept_parts}
use tig.Fs.TreeEdit.Level.{AllGood}

abbrev NoSlash : List Text → Type 0
NoSlash [] = Unit
NoSlash (p ∷ ps) = (contains_byte b'/' p ≡ false) × NoSlash ps

abbrev NonEmpty : List Text → Type 0
NonEmpty [] = Unit
NonEmpty (p ∷ ps) = (is_empty_text p ≡ false) × NonEmpty ps

cons_head-NoSlash :
    (c : ℕ) (ps : List Text) → nat_eq c b'/' ≡ false → NoSlash ps → NoSlash (cons_head c ps)
unfolding contains_byte
cons_head-NoSlash c [] n h = (ground arith, tt)
cons_head-NoSlash c (p ∷ ps) n (a, h) = (ground arith, h)

split-NoSlash : (s : Text) → NoSlash (split s)
unfolding split contains_byte
split-NoSlash [] = (refl, tt)
split-NoSlash (c ∷ cs) = ground (arith, split-NoSlash cs, cons_head-NoSlash c (split cs))

non_empty-NoSlash : (ps : List Text) → NoSlash ps → NoSlash (non_empty ps)
unfolding non_empty
non_empty-NoSlash [] h = tt
non_empty-NoSlash (p ∷ ps) (a, h) = ground (arith, non_empty-NoSlash ps h)

non_empty-NonEmpty : (ps : List Text) → NonEmpty (non_empty ps)
unfolding non_empty
non_empty-NonEmpty [] = tt
non_empty-NonEmpty (p ∷ ps) = ground (arith, non_empty-NonEmpty ps)

check_parts-AllGood :
    (p : Text) (ps : List Text)
    → NoSlash (p ∷ ps)
    → NonEmpty (p ∷ ps)
    → check_parts (p ∷ ps) ≡ ok tt
    → AllGood p ps
unfolding check_parts is_bad_name
check_parts-AllGood p [] (a, _) (b, _) h = ground arith
check_parts-AllGood p (n ∷ ns) (a, as') (b, bs) h =
    (ground arith, check_parts-AllGood n ns as' bs (ground arith))

accept_parts-AllGood :
    (parts : List Text) (p : Text) (ps : List Text)
    → NoSlash parts
    → NonEmpty parts
    → accept_parts parts ≡ ok (p, ps)
    → AllGood p ps
accept_parts-AllGood [] p ps a b h = ground arith
accept_parts-AllGood (q ∷ qs) p ps a b h = ground (arith, check_parts-AllGood q qs a b)

-- Every part of a path that split_path accepts is a name that a tree accepts.
pub split_path-AllGood :
    (path p : Text) (ps : List Text) → split_path path ≡ ok (p, ps) → AllGood p ps
unfolding split_path
split_path-AllGood path p ps h =
    accept_parts-AllGood (non_empty (split path)) p ps
      (non_empty-NoSlash (split path) (split-NoSlash path)) (non_empty-NonEmpty (split path)) h
