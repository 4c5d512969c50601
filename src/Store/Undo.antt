-- ===== src/Store/Undo.antt =====
-- crates/tig-store/src/oplog.rs: capturing refs, restoring them, and undoing one operation.
pub mod Apart
pub mod Restore
pub mod Once
use mathlib.Core.List.{map}
use tig.Prelude.{ℕ, Option, none, some, List, [], ◌∷◌, Result, ok, err, Bool, true, false}
use tig.Core.Vis.{PrincipalId}
use tig.Core.Change.{Change}
use tig.Store.Error.{StoreError}
use tig.Store.Repo.{Repo, WorkspaceManifest}
use tig.Store.Refs
use tig.Store.OpLog.{Op, OpKind, OpLog, OpInProgress, RefSnapshot, append, pick_op_to_undo}

-- `Ok(c) => Some(c)`, `Err(NotFound) => None`: no other error arises here.
abbrev pub found : {A : Type 0} → Result StoreError A → Option A
found (ok a) = some a
found (err _) = none

unfoldable pub read_current : Repo → RefSnapshot → RefSnapshot
read_current repo (RefSnapshot.head _) = RefSnapshot.head (Refs.head repo)
read_current repo (RefSnapshot.change id _) =
    RefSnapshot.change id (found (Refs.get_change repo id))
read_current repo (RefSnapshot.workspace id _) =
    RefSnapshot.workspace id (found (Refs.get_workspace repo id))
read_current repo (RefSnapshot.bookmark name _) =
    RefSnapshot.bookmark name (Refs.get_bookmark repo name)

-- Deleting a workspace that is not there is no error here.
abbrev pub or_unchanged : Repo → Result StoreError Repo → Result StoreError Repo
or_unchanged repo (ok r) = ok r
or_unchanged repo (err StoreError.not_found) = ok repo
or_unchanged repo (err e) = err e

unfoldable pub restore_ref : RefSnapshot → Repo → Result StoreError Repo
restore_ref (RefSnapshot.head (some id)) repo = ok (Refs.set_head repo id)
restore_ref (RefSnapshot.head none) repo = ok (Refs.clear_head repo)
restore_ref (RefSnapshot.change id (some c)) repo = ok (Refs.put_change repo c)
restore_ref (RefSnapshot.change id none) repo = ok (Refs.delete_change repo id)
restore_ref (RefSnapshot.workspace id (some m)) repo = ok (Refs.put_workspace repo m)
restore_ref (RefSnapshot.workspace id none) repo = or_unchanged repo (Refs.delete_workspace repo id)
restore_ref (RefSnapshot.bookmark name (some c)) repo = Refs.set_bookmark repo name c
restore_ref (RefSnapshot.bookmark name none) repo = ok (Refs.delete_bookmark repo name)

-- The loop over `target.before`: what was restored before an error stays.
unfoldable pub restore_all : List RefSnapshot → Repo → Result StoreError (Unit {0}) × Repo
restore_all [] repo = (ok tt, repo)
restore_all (s ∷ ss) repo = elim (restore_ref s repo) [
  | ok repo' ↦ restore_all ss repo'
  | err e ↦ (err e, repo)
]

pub record UndoOutcome : Type 0 where
  pub undone : Op
  pub recorded : Op

abbrev pub Undone : Type 0
Undone = Result StoreError (Option UndoOutcome) × Repo × OpLog

-- The undo is itself recorded, with the refs as they were before it.
abbrev pub record_undo : ℕ → PrincipalId → Op → List RefSnapshot → OpLog → Repo → Undone
record_undo now actor target before_undo log repo =
    let (recorded, log') = append now log (record {
      actor = actor;
      kind = OpKind.undo target.id;
      before = before_undo;
      after = target.before;
    }) in
    (ok (some (record { undone = target; recorded = recorded })), repo, log')

abbrev pub after_restore :
    ℕ → PrincipalId → Op → List RefSnapshot → OpLog → Result StoreError (Unit {0}) × Repo → Undone
after_restore now actor target before_undo log (ok _, repo) =
    record_undo now actor target before_undo log repo
after_restore now actor target before_undo log (err e, repo) = (err e, repo, log)

abbrev pub undo_target : ℕ → PrincipalId → Option Op → Repo → OpLog → Undone
undo_target now actor none repo log = (ok none, repo, log)
undo_target now actor (some target) repo log =
    let before_undo = map (read_current repo) target.before in
    after_restore now actor target before_undo log (restore_all target.before repo)

unfoldable pub undo_once : ℕ → Repo → OpLog → PrincipalId → Undone
unfolding restore_all
undo_once now repo log actor = undo_target now actor (pick_op_to_undo log.ops) repo log
