-- ===== src/Store/Workspace.antt =====
-- crates/tig-store/src/workspace.rs: which change a working directory is at. A secondary one carries
-- its manifest.
use tig.Prelude.{Option, none, some}
use tig.Core.Change.{ChangeId}
use tig.Store.Repo.{Repo, WorkspaceManifest, WorkspaceId}
use tig.Store.Refs

pub data WorkspaceKind : Type 0 where
  main : WorkspaceKind
  secondary : WorkspaceManifest → WorkspaceKind

unfoldable pub current_change_id : Repo → WorkspaceKind → Option ChangeId
unfolding Refs.head
current_change_id repo WorkspaceKind.main = Refs.head repo
current_change_id repo (WorkspaceKind.secondary m) = some m.change_id

unfoldable pub set_current_change_id : Repo → WorkspaceKind → ChangeId → Repo × WorkspaceKind
unfolding Refs.set_head Refs.put_workspace
set_current_change_id repo WorkspaceKind.main id = (Refs.set_head repo id, WorkspaceKind.main)
set_current_change_id repo (WorkspaceKind.secondary m) id =
    let m' : WorkspaceManifest = record m { change_id = id } in
    (Refs.put_workspace repo m', WorkspaceKind.secondary m')

abbrev pub workspace_id : WorkspaceKind → Option WorkspaceId
workspace_id WorkspaceKind.main = none
workspace_id (WorkspaceKind.secondary m) = some m.id
