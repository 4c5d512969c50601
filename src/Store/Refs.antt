-- ===== src/Store/Refs.antt =====
-- crates/tig-store/src/refs.rs and `WorkspaceStore` of workspace.rs: the mutable refs.
-- JSON records are kept as the values that were written; the text refs are trimmed when read.
pub mod Trim
pub mod TrimLaws
use tig.Prelude.{
  ℕ, Text, Bool, true, false, ◌||◌, not, Option, none, some, List, [], ◌∷◌, ◌==◌, leb, nat_eq,
  is_none, if◌then◌else◌, Result, ok, err, ok_or, cmp, Ordering, and_then,
}
use tig.Prelude.Map
use tig.Prelude.Map.{Map}
use tig.Core.Change.{Change, ChangeId}
use tig.Core.Tree.{contains_byte, is_empty_text}
use tig.Store.Error.{StoreError}
use tig.Store.Repo.{Repo, WorkspaceId, WorkspaceManifest}
use Trim.{trim}

unfoldable pub put_change : Repo → Change → Repo
put_change repo change = record repo { changes = Map.put change.id change repo.changes }

unfoldable pub get_change : Repo → ChangeId → Result StoreError Change
get_change repo id = ok_or StoreError.not_found (Map.get id repo.changes)

unfoldable pub delete_change : Repo → ChangeId → Repo
delete_change repo id = record repo { changes = Map.remove id repo.changes }

-- one insertion of `out.sort()`
unfoldable pub insert_id : ChangeId → List ChangeId → List ChangeId
insert_id id [] = id ∷ []
insert_id id (j ∷ js) = elim (cmp id j) [ Ordering.gt ↦ j ∷ insert_id id js | _ ↦ id ∷ j ∷ js ]

abbrev pub is_hidden : Text → Bool
is_hidden [] = false
is_hidden (c ∷ _) = nat_eq c b'.'

-- The names under refs/changes, dotfiles skipped, in order.
unfoldable pub ids : Map Change → List ChangeId
ids [] = []
ids ((id, _) ∷ m) = let rest = ids m in if is_hidden id then rest else insert_id id rest

unfoldable pub list_changes : Repo → List ChangeId
unfolding ids insert_id
list_changes repo = ids repo.changes

-- The test of `set_bookmark`.
abbrev pub is_bad_bookmark : Text → Bool
is_bad_bookmark name = is_empty_text name || contains_byte b'/' name || contains_byte 0 name

unfoldable pub set_bookmark : Repo → Text → ChangeId → Result StoreError Repo
set_bookmark repo name change =
    if is_bad_bookmark name
    then err StoreError.corrupt
    else ok (record repo { bookmarks = Map.put name change repo.bookmarks })

abbrev pub trimmed : Option Text → Option ChangeId
trimmed none = none
trimmed (some s) = some (trim s)

unfoldable pub get_bookmark : Repo → Text → Option ChangeId
get_bookmark repo name = trimmed (Map.get name repo.bookmarks)

unfoldable pub delete_bookmark : Repo → Text → Repo
delete_bookmark repo name = record repo { bookmarks = Map.remove name repo.bookmarks }

unfoldable pub head : Repo → Option ChangeId
head repo = trimmed repo.head

unfoldable pub set_head : Repo → ChangeId → Repo
set_head repo change = record repo { head = some change }

unfoldable pub clear_head : Repo → Repo
clear_head repo = record repo { head = none }

unfoldable pub put_workspace : Repo → WorkspaceManifest → Repo
put_workspace repo manifest = record repo {
  workspaces = Map.put manifest.id manifest repo.workspaces;
}

unfoldable pub get_workspace : Repo → WorkspaceId → Result StoreError WorkspaceManifest
get_workspace repo id = ok_or StoreError.not_found (Map.get id repo.workspaces)

unfoldable pub delete_workspace : Repo → WorkspaceId → Result StoreError Repo
delete_workspace repo id =
    if is_none (Map.get id repo.workspaces)
    then err StoreError.not_found
    else ok (record repo { workspaces = Map.remove id repo.workspaces })
