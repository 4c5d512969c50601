-- ===== src/Daemon/Manage/Laws.antt =====
-- Who may collect garbage, and what making a change leaves.
use tig.Prelude.{[], ◌∷◌, ℕ, Text, ◌≡◌}
use tig.Core.Tree
use tig.Store.Objects
use tig.Core.Vis.{PrincipalId}
use tig.Core.Wire.{Wire}
use tig.Core.Change
use tig.Core.Change.{Change, ChangeId}
use tig.Store.Repo.{Repo}
use tig.Store.Refs
use tig.Store.OpLog.{OpLog}
use tig.Vis.Libs.{Libs}
use tig.Daemon.Manage.{CreateChangeReq}
use tig.Daemon.Manage.Asked.{AsksVisibility, AsksState}

module _ (w : Wire) (lower : Text → Text) (timestamp now : ℕ) (fresh_id : ChangeId) where
  -- Everything but the label and the state.
  abbrev SameBase : Change → Change → Type 0
  SameBase c c' =
      (c'.id ≡ c.id)
      × (c'.author ≡ c.author)
      × (c'.current ≡ c.current)
      × (c'.history ≡ c.history)
      × (c'.description ≡ c.description)

  -- The new change as it was asked for.
  pub record Asked (caller : PrincipalId) (req : CreateChangeReq) (c : Change) : Type 0 where
    pub id_eq : c.id ≡ fresh_id
    pub author_eq : c.author ≡ caller
    pub description_eq : c.description ≡ req.description
    pub history_eq : c.history ≡ c.current ∷ []
    pub visibility : AsksVisibility req.visibility c.visibility
    pub state : AsksState lower req.state c.state
