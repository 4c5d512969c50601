-- ===== src/Core/Tree.antt =====
-- crates/tig-core/src/tree.rs: one level of a directory, its entries sorted by name.
-- `binary_search_by` and `sort_by` are the standard library's: on entries sorted by name the
-- search gives the position found here, and the sort is stable.
pub mod Lookup
pub mod Valid
pub mod Order
use tig.Prelude.{
  ℕ, zero, suc, Text, text, cmp, ◌==◌, Ordering, Bool, true, false, ◌||◌, Option, none, some, List,
  [], ◌∷◌, nat_eq, if◌then◌else◌, Result, ok, err, and_then,
}
use tig.Core.Error.{CoreError}
use tig.Core.Object.{Hash}

pub data EntryKind : Type 0 where
  file tree symlink sealed conflict submodule : EntryKind

abbrev entry_kind_code : EntryKind → ℕ
entry_kind_code EntryKind.file = 0
entry_kind_code EntryKind.tree = 1
entry_kind_code EntryKind.symlink = 2
entry_kind_code EntryKind.sealed = 3
entry_kind_code EntryKind.conflict = 4
entry_kind_code EntryKind.submodule = 5

-- the derived `==`
abbrev pub entry_kind_eq : EntryKind → EntryKind → Bool
entry_kind_eq a b = nat_eq (entry_kind_code a) (entry_kind_code b)

abbrev pub FileMode : Type 0
FileMode = ℕ

abbrev pub regular : FileMode
regular = 0o100644

abbrev pub exec : FileMode
exec = 0o100755

abbrev pub symlink_mode : FileMode
symlink_mode = 0o120000

abbrev pub dir : FileMode
dir = 0o040000

pub record TreeEntry : Type 0 where
  pub name : Text
  pub kind : EntryKind
  pub target : Hash
  pub mode : FileMode
  pub vis : Option Text

unfoldable pub contains_byte : ℕ → Text → Bool
contains_byte c [] = false
contains_byte c (x ∷ xs) = nat_eq x c || contains_byte c xs

abbrev pub is_empty_text : Text → Bool
is_empty_text [] = true
is_empty_text (_ ∷ _) = false

-- the test of `validate_name`
unfoldable pub is_bad_name : Text → Bool
unfolding contains_byte
is_bad_name name =
    is_empty_text name
    || name == text "."
    || name == text ".."
    || contains_byte b'/' name
    || contains_byte 0 name

unfoldable pub validate_name : Text → Result CoreError (Unit {0})
unfolding is_bad_name
validate_name name = if is_bad_name name then err CoreError.invalid_path_component else ok tt

pub record Tree : Type 0 where
  pub entries : List TreeEntry

abbrev pub new : Tree
new = record { entries = [] }

abbrev past_head : Result ℕ ℕ → Result ℕ ℕ
past_head (ok i) = ok (suc i)
past_head (err i) = err (suc i)

-- `entries.binary_search_by(|e| e.name.cmp(name))`: `ok` is the index found, `err` where it belongs.
unfoldable pub binary_search : Text → List TreeEntry → Result ℕ ℕ
binary_search name [] = err 0
binary_search name (e ∷ es) = elim (cmp e.name name) [
  | Ordering.lt ↦ past_head (binary_search name es)
  | Ordering.eq ↦ ok 0
  | Ordering.gt ↦ err 0
]

-- `v[i] = e`
unfoldable pub set_at : List TreeEntry → ℕ → TreeEntry → List TreeEntry
set_at [] i e = []
set_at (x ∷ xs) zero e = e ∷ xs
set_at (x ∷ xs) (suc i) e = x ∷ set_at xs i e

-- `v.insert(i, e)`
unfoldable pub insert_at : List TreeEntry → ℕ → TreeEntry → List TreeEntry
insert_at xs zero e = e ∷ xs
insert_at [] (suc i) e = e ∷ []
insert_at (x ∷ xs) (suc i) e = x ∷ insert_at xs i e

unfoldable pub get_at : List TreeEntry → ℕ → Option TreeEntry
get_at [] i = none
get_at (x ∷ xs) zero = some x
get_at (x ∷ xs) (suc i) = get_at xs i

abbrev pub place : List TreeEntry → TreeEntry → Result ℕ ℕ → List TreeEntry
place es e (ok i) = set_at es i e
place es e (err i) = insert_at es i e

unfoldable pub insert : Tree → TreeEntry → Result CoreError Tree
insert t e =
    and_then (validate_name e.name)
      λ _. ok (record { entries = place t.entries e (binary_search e.name t.entries) })

abbrev pub fetch : List TreeEntry → Result ℕ ℕ → Option TreeEntry
fetch es (ok i) = get_at es i
fetch es (err i) = none

unfoldable pub get : Tree → Text → Option TreeEntry
get t name = fetch t.entries (binary_search name t.entries)

unfoldable pub validate_all : List TreeEntry → Result CoreError (Unit {0})
validate_all [] = ok tt
validate_all (e ∷ es) = and_then (validate_name e.name) λ _. validate_all es

-- one insertion of the stable sort by name
unfoldable pub insert_sorted : TreeEntry → List TreeEntry → List TreeEntry
insert_sorted e [] = e ∷ []
insert_sorted e (x ∷ xs) = elim (cmp e.name x.name) [
  | Ordering.gt ↦ x ∷ insert_sorted e xs
  | _ ↦ e ∷ x ∷ xs
]

unfoldable pub sort_by_name : List TreeEntry → List TreeEntry
sort_by_name [] = []
sort_by_name (e ∷ es) = insert_sorted e (sort_by_name es)

-- the loop over `entries.windows(2)`
unfoldable pub reject_duplicates : List TreeEntry → Result CoreError (Unit {0})
reject_duplicates [] = ok tt
reject_duplicates (a ∷ []) = ok tt
reject_duplicates (a ∷ b ∷ es) =
    if a.name == b.name then err CoreError.invalid_path_component else reject_duplicates (b ∷ es)

unfoldable pub from_entries : List TreeEntry → Result CoreError Tree
from_entries iter = and_then (validate_all iter) λ _.
    let entries = sort_by_name iter in
    and_then (reject_duplicates entries) λ _. ok (record { entries = entries })

abbrev pub is_empty : Tree → Bool
is_empty t = elim t.entries [ [] ↦ true | _ ∷ _ ↦ false ]
