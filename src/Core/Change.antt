-- ===== src/Core/Change.antt =====
-- crates/tig-core/src/change.rs: the mutable label that moves from snapshot to snapshot.
pub mod History
use tig.Prelude.{Text, ◌==◌, Option, none, some, List, [], ◌∷◌, ◌++◌, if◌then◌else◌}
use tig.Core.Object.{Hash}
use tig.Core.Vis.{PrincipalId, VisLabel}

abbrev pub ChangeId : Type 0
ChangeId = Text

pub data ChangeState : Type 0 where
  working draft review landed abandoned : ChangeState

pub record Change : Type 0 where
  pub id : ChangeId
  pub current : Hash
  pub bookmark : Option Text
  pub description : Text
  pub state : ChangeState
  pub history : List Hash
  pub author : PrincipalId
  pub visibility : VisLabel

-- The fresh id, a ULID, is an argument.
unfoldable pub new : ChangeId → Text → PrincipalId → Hash → Change
new id description author initial_snapshot = record {
  id = id;
  current = initial_snapshot;
  bookmark = none;
  description = description;
  state = ChangeState.working;
  history = initial_snapshot ∷ [];
  author = author;
  visibility = VisLabel.public;
}

unfoldable pub new_private_draft : ChangeId → Text → PrincipalId → Hash → Change
unfolding new
new_private_draft id description author initial_snapshot =
    let c = new id description author initial_snapshot in
    record c { state = ChangeState.draft; visibility = VisLabel.private }

unfoldable pub advance : Change → Hash → Change
advance c new_snapshot =
    if c.current == new_snapshot
    then c
    else record c { current = new_snapshot; history = c.history ++ (new_snapshot ∷ []) }
