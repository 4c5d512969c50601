-- ===== src/Daemon/Manage/Asked.antt =====
-- What a request to make a change asks for.
use tig.Store.OpLog.{Op, OpId, OpKind, RefSnapshot}
use tig.Prelude.{
  ℕ, ◌∷◌, text, ap, eq_iff, ◌==◌, Bool-cases, [], Text, ◌≡◌, ◌∙◌, ◌⊎◌, true, Option, none, some, ok,
  inl, inr, arith,
}
use tig.Core.Object.{Hash, ObjectKind}
use tig.Fs.TreeEdit.{read, read_tree}
use tig.Core.Vis.{PrincipalId, VisLabel, MaySee}
use tig.Core.Wire.{Wire}
use tig.Core.Change.{Change, ChangeState}
use tig.Store.Repo.{Repo}
use tig.Store.Refs
use tig.Daemon.Edit.{parse_vis_label, parse_change_state}

-- What a request asks for: the label and the state of the new change.
abbrev pub AsksVisibility : Option Text → VisLabel → Type 0
AsksVisibility none v = v ≡ VisLabel.public
AsksVisibility (some s) v =
    ((s ≡ text "public") × (v ≡ VisLabel.public)) ⊎ ((s ≡ text "private") × (v ≡ VisLabel.private))

abbrev state_name : ChangeState → Text
state_name ChangeState.working = text "working"
state_name ChangeState.draft = text "draft"
state_name ChangeState.review = text "review"
state_name ChangeState.landed = text "landed"
state_name ChangeState.abandoned = text "abandoned"

abbrev pub AsksState : (Text → Text) → Option Text → ChangeState → Type 0
AsksState lower none st = st ≡ ChangeState.working
AsksState lower (some s) st = lower s ≡ state_name st

-- Where the new change starts: at the current snapshot of a stored change that the caller may see,
-- or at a stored snapshot of the caller, without parents, of the stored empty tree.
abbrev pub StartsAt : Wire → ℕ → Repo → Repo → PrincipalId → Option Text → Hash → Type 0
StartsAt w timestamp repo repo' caller (some id) h =
    (parent : Change) × (Refs.get_change repo id ≡ ok parent)
    × MaySee parent.visibility parent.author (some caller)
    × (h ≡ parent.current)
StartsAt w timestamp repo repo' caller none h =
    (tree : Hash) × (read_tree w repo' tree ≡ ok (record { entries = [] }))
    × (read w ObjectKind.snapshot w.snapshot repo' h
        ≡ ok (record {
          parents = [];
          tree = tree;
          author = caller;
          timestamp_ns = timestamp;
          message = some (text "(empty)");
          op_id = none;
        }))

-- The operation that records a new change.
abbrev pub creation : OpId → ℕ → PrincipalId → Change → Op
creation id now caller c = record {
  id = id;
  ts_ns = now;
  actor = caller;
  kind = OpKind.change_new c.id c.description;
  before = RefSnapshot.change c.id none ∷ [];
  after = RefSnapshot.change c.id (some c) ∷ [];
}

pub parse_vis_label-Asks :
    (s : Text) (v : VisLabel) → parse_vis_label s ≡ ok v → AsksVisibility (some s) v
parse_vis_label-Asks s v h = elim (Bool-cases (s == text "public")) [
  | inl a ↦ inl ((eq_iff s (text "public")).0 a, ground (arith, rw (a) at h))
  | inr a ↦ elim (Bool-cases (s == text "private")) [
    | inl b ↦ inr ((eq_iff s (text "private")).0 b, ground (arith, rw (a, b) at h))
    | inr b ↦ absurd (ground (arith, rw (a, b) at h))
  ]
]

pub parse_change_state-Asks :
    (s : Text) (st : ChangeState) → parse_change_state s ≡ ok st → s ≡ state_name st
parse_change_state-Asks s st h = elim (Bool-cases (s == text "working")) [
  | inl a ↦ named ChangeState.working (ground (arith, rw (a) at h)) a
  | inr a ↦ elim (Bool-cases (s == text "draft")) [
    | inl b ↦ named ChangeState.draft (ground (arith, rw (a, b) at h)) b
    | inr b ↦ elim (Bool-cases (s == text "review")) [
      | inl c ↦ named ChangeState.review (ground (arith, rw (a, b, c) at h)) c
      | inr c ↦ elim (Bool-cases (s == text "landed")) [
        | inl d ↦ named ChangeState.landed (ground (arith, rw (a, b, c, d) at h)) d
        | inr d ↦ elim (Bool-cases (s == text "abandoned")) [
          | inl e ↦ named ChangeState.abandoned (ground (arith, rw (a, b, c, d, e) at h)) e
          | inr e ↦ absurd (ground (arith, rw (a, b, c, d, e) at h))
        ]
      ]
    ]
  ]
]
  where
    named : (st' : ChangeState) → st' ≡ st → s == state_name st' ≡ true → s ≡ state_name st
    named st' same e = (eq_iff s (state_name st')).0 e ∙ ap state_name same
