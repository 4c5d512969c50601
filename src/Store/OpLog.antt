-- ===== src/Store/OpLog.antt =====
-- crates/tig-store/src/oplog.rs: operations, the log, and which operation an undo picks.
pub mod Pick
use mathlib.Core.List.{reverse}
use tig.Prelude.{
  ℕ, zero, suc, ◌+◌, Text, Bool, true, false, Option, none, some, List, [], ◌∷◌, ◌++◌,
  if◌then◌else◌,
}
use tig.Core.Object.{Hash}
use tig.Core.Vis.{PrincipalId, VisLabel}
use tig.Core.Change.{Change, ChangeId, ChangeState}
use tig.Store.Repo.{WorkspaceId, WorkspaceManifest}

abbrev pub OpId : Type 0
OpId = ℕ

pub data OpKind : Type 0 where
  snap : Hash → Option Text → OpKind
  change_new : ChangeId → Text → OpKind
  wt_make : WorkspaceId → Text → OpKind
  wt_drop : WorkspaceId → Text → OpKind
  change_transition : ChangeId → ChangeState → ChangeState → VisLabel → VisLabel → OpKind
  undo : OpId → OpKind

-- `none` stands for a ref that did not exist.
pub data RefSnapshot : Type 0 where
  head : Option ChangeId → RefSnapshot
  change : ChangeId → Option Change → RefSnapshot
  workspace : WorkspaceId → Option WorkspaceManifest → RefSnapshot
  bookmark : Text → Option ChangeId → RefSnapshot

pub record Op : Type 0 where
  pub id : OpId
  pub ts_ns : ℕ
  pub actor : PrincipalId
  pub kind : OpKind
  pub before : List RefSnapshot
  pub after : List RefSnapshot

pub record OpInProgress : Type 0 where
  pub actor : PrincipalId
  pub kind : OpKind
  pub before : List RefSnapshot
  pub after : List RefSnapshot

pub record OpLog : Type 0 where
  pub next_id : OpId
  pub ops : List Op

abbrev pub in_memory : OpLog
in_memory = record { next_id = 0; ops = [] }

-- The clock is an argument.
abbrev pub finalize : OpId → ℕ → OpInProgress → Op
finalize id now op = record {
  id = id;
  ts_ns = now;
  actor = op.actor;
  kind = op.kind;
  before = op.before;
  after = op.after;
}

unfoldable pub append : ℕ → OpLog → OpInProgress → Op × OpLog
append now log op =
    let finalized = finalize log.next_id now op in
    (finalized, record { next_id = log.next_id + 1; ops = log.ops ++ (finalized ∷ []) })

abbrev pub is_undo : OpKind → Bool
is_undo (OpKind.undo _) = true
is_undo _ = false

-- The walk backwards: each undo on the way cancels one operation before it.
unfoldable pub pick_back : List Op → ℕ → Option Op
pick_back [] undo_depth = none
pick_back (op ∷ ops) undo_depth = elim (is_undo op.kind) [
  | true ↦ pick_back ops (suc undo_depth)
  | false ↦ elim undo_depth [ zero ↦ some op | suc depth ↦ pick_back ops depth ]
]

unfoldable pub pick_op_to_undo : List Op → Option Op
unfolding pick_back
pick_op_to_undo ops = pick_back (reverse ops) 0
