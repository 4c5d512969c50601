-- ===== src/Daemon/Edit.antt =====
-- crates/tigd/src/handlers.rs: the handlers that write. Each holds the write lock of the repository
-- throughout, so a handler is one step. Clocks are arguments, and so is the lower-casing of a text.
pub mod Laws
pub mod Patch
use tig.Prelude.{
  ℕ, Bytes, Text, text, Bool, true, false, ◌==◌, Option, none, some, List, [], ◌∷◌, Result, ok, err,
  and_then, map_err, if◌then◌else◌,
}
use tig.Core.Object.{Hash, ObjectKind}
use tig.Core.Tree.{is_empty_text}
use tig.Core.Vis.{PrincipalId, VisLabel}
use tig.Core.Change.{Change, ChangeId, ChangeState}
use tig.Core.Wire.{Wire, Snapshot}
use tig.Store.Error.{StoreError}
use tig.Store.Repo.{Repo}
use tig.Store.Refs
use tig.Store.OpLog.{OpKind, OpInProgress, OpLog, RefSnapshot, append}
use tig.Store.Undo.{UndoOutcome, undo_once}
use tig.Fs.Action.{FsError, Action}
use tig.Fs.TreeEdit.{read}
use tig.Fs.TreeEdit.Write.{write_blob_at_path, delete_at_path}
use tig.Fs.Snap.{SnapOptions, SnapOutcome, Snapped, snap_change_directly}
use tig.Daemon.Error.{ApiError, from_store, from_fs}
use tig.Daemon.Access.{load_mutable_change}

abbrev pub parse_change_id : Text → Result ApiError ChangeId
parse_change_id s = if is_empty_text s then err ApiError.bad_request else ok s

abbrev pub parse_vis_label : Text → Result ApiError VisLabel
parse_vis_label s =
    if s == text "public"
    then ok VisLabel.public
    else if s == text "private"
    then ok VisLabel.private
    else err ApiError.bad_request

-- of a text in lower case
abbrev pub parse_change_state : Text → Result ApiError ChangeState
parse_change_state s =
    if s == text "working"
    then ok ChangeState.working
    else if s == text "draft"
    then ok ChangeState.draft
    else if s == text "review"
    then ok ChangeState.review
    else if s == text "landed"
    then ok ChangeState.landed
    else if s == text "abandoned"
    then ok ChangeState.abandoned
    else err ApiError.bad_request

-- What a handler returns, up to the view made of it, and leaves.
abbrev pub Answer : Type 0 → Type 0
Answer A = Result ApiError A × Repo × OpLog

unfoldable pub load_for_write : Repo → Text → PrincipalId → Result ApiError Change
unfolding load_mutable_change
load_for_write repo id caller =
    and_then (parse_change_id id) λ id. load_mutable_change repo id caller

abbrev pub outcome_change : SnapOutcome → Change
outcome_change (SnapOutcome.snapped _ _ change _) = change
outcome_change (SnapOutcome.unchanged change) = change

abbrev pub respond : Snapped → Answer Change
respond (ok outcome, repo, log) = (ok (outcome_change outcome), repo, log)
respond (err e, repo, log) = (err (from_fs e), repo, log)

abbrev pub edit_options : PrincipalId → SnapOptions
edit_options caller = record {
  author = caller;
  message = none;
  force = false;
  initial_description = text "initial work";
  extra_ignores = [];
}

module _ (w : Wire) (timestamp now : ℕ) where
  abbrev pub current_snapshot : Repo → Change → Result ApiError Snapshot
  current_snapshot repo change =
      map_err from_fs (read w ObjectKind.snapshot w.snapshot repo change.current)

  abbrev pub snap_edited :
      OpLog → ChangeId → PrincipalId → Result FsError Hash × Repo → Answer Change
  snap_edited log id caller (err e, repo) = (err (from_fs e), repo, log)
  snap_edited log id caller (ok new_tree, repo) =
      respond (snap_change_directly w timestamp now repo log id new_tree (edit_options caller))

  -- Edits the tree of the change's current snapshot, and makes the result its next snapshot.
  abbrev pub edit_snapshot :
      (Hash → Action Hash)
      → Repo
      → OpLog
      → ChangeId
      → PrincipalId
      → Result ApiError Snapshot
      → Answer Change
  edit_snapshot edit repo log id caller (err e) = (err e, repo, log)
  edit_snapshot edit repo log id caller (ok snap) = snap_edited log id caller (edit snap.tree repo)

  abbrev pub edit_change :
      (Hash → Action Hash)
      → Repo
      → OpLog
      → ChangeId
      → PrincipalId
      → Result ApiError Change
      → Answer Change
  edit_change edit repo log id caller (err e) = (err e, repo, log)
  edit_change edit repo log id caller (ok change) =
      edit_snapshot edit repo log id caller (current_snapshot repo change)

  unfoldable pub patch_tree_path : Repo → OpLog → PrincipalId → Text → Text → Bytes → Answer Change
  unfolding load_for_write write_blob_at_path snap_change_directly
  patch_tree_path repo log caller id path body =
      edit_change (λ tree. write_blob_at_path w tree path body) repo log id caller
        (load_for_write repo id caller)

  unfoldable pub delete_tree_path : Repo → OpLog → PrincipalId → Text → Text → Answer Change
  unfolding load_for_write delete_at_path snap_change_directly
  delete_tree_path repo log caller id path =
      edit_change (λ tree. delete_at_path w tree path) repo log id caller
        (load_for_write repo id caller)

  abbrev pub requested :
      OpLog → ChangeId → SnapOptions → Repo → Result ApiError Snapshot → Answer Change
  requested log id opts repo (err e) = (err e, repo, log)
  requested log id opts repo (ok snap) =
      respond (snap_change_directly w timestamp now repo log id snap.tree opts)

  abbrev pub snap_loaded :
      Repo → OpLog → ChangeId → SnapOptions → Result ApiError Change → Answer Change
  snap_loaded repo log id opts (err e) = (err e, repo, log)
  snap_loaded repo log id opts (ok change) =
      requested log id opts repo (current_snapshot repo change)

  -- The request may name another author for the snapshot than the caller.
  unfoldable pub snap_change :
      Repo
      → OpLog
      → PrincipalId
      → Text
      → Option PrincipalId
      → Option Text
      → Option Bool
      → Answer Change
  unfolding load_for_write snap_change_directly
  snap_change repo log caller id author message force =
      snap_loaded repo log id
        (record (edit_options (elim author [ none ↦ caller | some a ↦ a ])) {
          message = message;
          force = elim force [ none ↦ false | some f ↦ f ];
        })
        (load_for_write repo id caller)

abbrev pub parse_optional :
    {A : Type 0} → (Text → Result ApiError A) → A → Option Text → Result ApiError A
parse_optional parse old none = ok old
parse_optional parse old (some s) = parse s

abbrev pub transition_op : PrincipalId → Change → Change → OpInProgress
transition_op caller before change = record {
  actor = caller;
  kind =
      OpKind.change_transition change.id before.state change.state before.visibility
        change.visibility;
  before = RefSnapshot.change change.id (some before) ∷ [];
  after = RefSnapshot.change change.id (some change) ∷ [];
}

module _ (to_lowercase : Text → Text) (now : ℕ) where
  abbrev pub transitioned : Change → Option Text → Option Text → Result ApiError Change
  transitioned before state visibility =
      and_then (parse_optional (λ s. parse_change_state (to_lowercase s)) before.state state)
        λ state'.
          and_then (parse_optional parse_vis_label before.visibility visibility)
            λ visibility'. ok (record before { state = state'; visibility = visibility' })

  abbrev pub record_transition :
      Repo → OpLog → PrincipalId → Change → Result ApiError Change → Answer Change
  record_transition repo log caller before (err e) = (err e, repo, log)
  record_transition repo log caller before (ok change) =
      let (_, log') = append now log (transition_op caller before change) in
      (ok change, Refs.put_change repo change, log')

  abbrev pub transition_loaded :
      Repo
      → OpLog
      → PrincipalId
      → Option Text
      → Option Text
      → Result ApiError Change
      → Answer Change
  transition_loaded repo log caller state visibility (err e) = (err e, repo, log)
  transition_loaded repo log caller state visibility (ok before) =
      record_transition repo log caller before (transitioned before state visibility)

  unfoldable pub transition_change :
      Repo → OpLog → PrincipalId → Text → Option Text → Option Text → Answer Change
  unfolding load_for_write append Refs.put_change
  transition_change repo log caller id state visibility =
      transition_loaded repo log caller state visibility (load_for_write repo id caller)
