-- ===== src/Store/Repo.antt =====
-- crates/tig-store/src/repo.rs and the manifests of workspace.rs: the state of a repository.
use tig.Prelude.{ℕ, Bytes, Text, Option, none, []}
use tig.Prelude.Map.{Map}
use tig.Core.Change.{Change, ChangeId}

abbrev pub WorkspaceId : Type 0
WorkspaceId = Text

pub record WorkspaceManifest : Type 0 where
  pub id : WorkspaceId
  pub name : Text
  pub location : Text
  pub change_id : ChangeId
  pub created_ns : ℕ

-- `objects` holds the framed files of the object store by hash, `changes` and `workspaces` the
-- records under refs/changes and workspaces, `bookmarks` and `head` the texts of the files under
-- refs/bookmarks and of refs/HEAD.
pub record Repo : Type 0 where
  pub objects : Map Bytes
  pub changes : Map Change
  pub bookmarks : Map Text
  pub head : Option Text
  pub workspaces : Map WorkspaceManifest

-- What `init` creates.
abbrev pub init : Repo
init = record { objects = []; changes = []; bookmarks = []; head = none; workspaces = [] }
