-- ===== src/Daemon/Manage.antt =====
-- crates/tigd/src/handlers.rs: making a change, undoing an operation, collecting garbage. The write lock
-- is held throughout. Clocks, the fresh id and the lower-casing of a text are arguments.
pub mod Asked
pub mod Laws
use tig.Prelude.{
  ℕ, Bytes, Text, text, Bool, true, false, not, is_none, Option, none, some, List, [], ◌∷◌, Result,
  ok, err, and_then, map_err, if◌then◌else◌,
}
use tig.Core.Object.{Hash, ObjectKind, encode}
use tig.Core.Tree
use tig.Core.Vis.{PrincipalId, VisLabel}
use tig.Core.Change
use tig.Core.Change.{Change, ChangeId, ChangeState}
use tig.Core.Wire.{Wire, Snapshot}
use tig.Store.Error.{StoreError}
use tig.Store.Repo.{Repo}
use tig.Store.Refs
use tig.Store.Objects
use tig.Store.OpLog.{OpKind, OpInProgress, OpLog, RefSnapshot, append}
use tig.Store.Undo.{UndoOutcome, Undone, undo_once}
use tig.Store.Gc.{GcOptions, GcSummary, collect_garbage}
use tig.Vis.Libs.{Libs}
use tig.Vis.Principals.{Files}
use tig.Daemon.Error.{ApiError, from_store}
use tig.Daemon.Access.{load_visible_change}
use tig.Daemon.Edit.{Answer, parse_change_id, parse_vis_label, parse_change_state}
use tig.Daemon.Caller.{Headers, caller_from, default_actor}

pub record CreateChangeReq : Type 0 where
  pub description : Text
  pub from_change : Option Text
  pub visibility : Option Text
  pub state : Option Text

module _ (w : Wire) (lower : Text → Text) (timestamp now : ℕ) (fresh_id : ChangeId) where
  abbrev pub empty_snapshot : PrincipalId → Hash → Snapshot
  empty_snapshot caller tree_h = record {
    parents = [];
    tree = tree_h;
    author = caller;
    timestamp_ns = timestamp;
    message = some (text "(empty)");
    op_id = none;
  }

  abbrev pub parent_snap : Repo → PrincipalId → Option Text → Result ApiError Hash × Repo
  parent_snap repo caller (some from) = (
    and_then (parse_change_id from) λ parent_id.
        and_then (load_visible_change repo parent_id caller) λ parent. ok parent.current,
    repo,
  )
  parent_snap repo caller none =
      let (tree_h, repo1) = Objects.put w repo (encode ObjectKind.tree w.tree Tree.new) in
      let (snap_h, repo2) =
        Objects.put w repo1
          (encode ObjectKind.snapshot w.snapshot (empty_snapshot caller tree_h)) in
      (ok snap_h, repo2)

  abbrev with_visibility : Change → Option Text → Result ApiError Change
  with_visibility c none = ok c
  with_visibility c (some s) = and_then (parse_vis_label s) λ v. ok (record c { visibility = v })

  abbrev with_state : Change → Option Text → Result ApiError Change
  with_state c none = ok c
  with_state c (some s) = and_then (parse_change_state (lower s)) λ st. ok (record c { state = st })

  abbrev pub change_of : PrincipalId → CreateChangeReq → Hash → Result ApiError Change
  change_of caller req parent =
      and_then (with_visibility (Change.new fresh_id req.description caller parent) req.visibility)
        λ c. with_state c req.state

  abbrev pub new_op : PrincipalId → CreateChangeReq → Change → OpInProgress
  new_op caller req change = record {
    actor = caller;
    kind = OpKind.change_new change.id req.description;
    before = RefSnapshot.change change.id none ∷ [];
    after = RefSnapshot.change change.id (some change) ∷ [];
  }

  abbrev pub record_change :
      PrincipalId → CreateChangeReq → Repo → OpLog → Result ApiError Change → Answer Change
  record_change caller req repo log (err e) = (err e, repo, log)
  record_change caller req repo log (ok change) =
      let (_, log') = append now log (new_op caller req change) in
      (ok change, Refs.put_change repo change, log')

  abbrev create_from :
      PrincipalId → CreateChangeReq → OpLog → Result ApiError Hash × Repo → Answer Change
  create_from caller req log (err e, repo) = (err e, repo, log)
  create_from caller req log (ok parent, repo) =
      record_change caller req repo log (change_of caller req parent)

  unfoldable pub create_change : Repo → OpLog → PrincipalId → CreateChangeReq → Answer Change
  unfolding load_visible_change Change.new
  create_change repo log caller req =
      create_from caller req log (parent_snap repo caller req.from_change)

abbrev undone : Undone → Answer (Option UndoOutcome)
undone (r, repo, log) = (map_err from_store r, repo, log)

abbrev actor_of : Option Text → PrincipalId
actor_of none = default_actor
actor_of (some a) = a

unfoldable pub undo : ℕ → Repo → OpLog → Option Text → Answer (Option UndoOutcome)
unfolding undo_once
undo now repo log author = undone (undo_once now repo log (actor_of author))

pub record GcReq : Type 0 where
  pub dry_run : Bool
  pub ignore_oplog : Bool

abbrev gc_options : GcReq → GcOptions
gc_options req = record { dry_run = req.dry_run; include_oplog_snapshots = not req.ignore_oplog }

abbrev gc_request : Option GcReq → GcReq
gc_request (some req) = req
gc_request none = record { dry_run = false; ignore_oplog = false }

-- `none` stands for a mark loop that ran out of fuel.
abbrev pub Collected : Type 0
Collected = Option (Result ApiError GcSummary × Repo)

abbrev collected : Option (Result StoreError GcSummary × Repo) → Collected
collected none = none
collected (some (r, repo)) = some (map_err (λ _. ApiError.internal) r, repo)

module _ (w : Wire) (l : Libs) (to_str : Bytes → Option Text) where
  abbrev gc_as : Repo → OpLog → Option GcReq → Result ApiError PrincipalId → Collected
  gc_as repo log body (err e) = some (err e, repo)
  gc_as repo log body (ok _) = collected (collect_garbage w repo log (gc_options (gc_request body)))

  -- A request without an Authorization header is refused.
  unfoldable pub gc : Files → ℕ → Repo → OpLog → Headers → Option GcReq → Collected
  unfolding caller_from collect_garbage
  gc files now repo log headers body =
      if is_none headers.auth
      then some (err ApiError.unauthorized, repo)
      else gc_as repo log body (caller_from l to_str files now headers)
