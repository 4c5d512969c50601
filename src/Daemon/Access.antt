-- ===== src/Daemon/Access.antt =====
-- crates/tigd/src/handlers.rs: which changes and snapshots a caller gets to see or to write.
pub mod Laws
use tig.Prelude.{
  ℕ, Bool, true, false, not, ◌||◌, ◌==◌, Option, none, some, List, [], ◌∷◌, ◌++◌, Result, ok, err,
  and_then, map_err, if◌then◌else◌, contains,
}
use tig.Core.Object.{Hash}
use tig.Core.Vis.{PrincipalId, can_see, can_mutate}
use tig.Core.Change.{Change, ChangeId}
use tig.Store.Repo.{Repo}
use tig.Store.Refs
use tig.Daemon.Error.{ApiError, from_store}

abbrev pub sees : PrincipalId → Change → Bool
sees caller change = can_see change.visibility change.author (some caller)

-- Any failure to load is a 404, and so is a change the caller may not see.
unfoldable pub load_visible_change : Repo → ChangeId → PrincipalId → Result ApiError Change
load_visible_change repo id caller =
    and_then (map_err (λ _. ApiError.not_found) (Refs.get_change repo id))
      λ change. if not (sees caller change) then err ApiError.not_found else ok change

unfoldable pub load_mutable_change : Repo → ChangeId → PrincipalId → Result ApiError Change
unfolding load_visible_change
load_mutable_change repo id caller = and_then (load_visible_change repo id caller) λ change.
    if not (can_mutate change.author (some caller)) then err ApiError.conflict else ok change

abbrev pub listed : Repo → ChangeId → Result ApiError Change
listed repo id = map_err from_store (Refs.get_change repo id)

-- The loop of `visible_snapshot_set`; the set is a list.
unfoldable pub snapshots_of : Repo → PrincipalId → List ChangeId → Result ApiError (List Hash)
snapshots_of repo caller [] = ok []
snapshots_of repo caller (id ∷ ids) = and_then (listed repo id) λ change.
    and_then (snapshots_of repo caller ids)
      λ rest. ok (if not (sees caller change) then rest else change.history ++ rest)

unfoldable pub visible_snapshot_set : Repo → PrincipalId → Result ApiError (List Hash)
unfolding snapshots_of Refs.list_changes
visible_snapshot_set repo caller = snapshots_of repo caller (Refs.list_changes repo)

-- The loop of `list_changes`, up to the view made of each change.
unfoldable pub visible_of : Repo → PrincipalId → List ChangeId → Result ApiError (List Change)
visible_of repo caller [] = ok []
visible_of repo caller (id ∷ ids) = and_then (listed repo id) λ change.
    and_then (visible_of repo caller ids)
      λ rest. ok (if not (sees caller change) then rest else change ∷ rest)

unfoldable pub list_changes : Repo → PrincipalId → Result ApiError (List Change)
unfolding visible_of Refs.list_changes
list_changes repo caller = visible_of repo caller (Refs.list_changes repo)
