-- ===== src/Daemon/Oplog.antt =====
-- crates/tigd/src/handlers.rs: the operation log as a caller sees it.
pub mod Laws
use tig.Prelude.{
  ℕ, zero, suc, ◌-◌, Bool, true, false, not, ◌==◌, Option, none, some, List, [], ◌∷◌, ◌++◌, length,
  Result, ok, err, and_then, map_err, if◌then◌else◌,
}
use tig.Core.Vis.{PrincipalId}
use tig.Core.Change.{Change, ChangeId}
use tig.Store.Error.{StoreError}
use tig.Store.Repo.{Repo}
use tig.Store.Refs
use tig.Store.OpLog.{Op, OpId, OpLog, RefSnapshot}
use tig.Daemon.Error.{ApiError, from_store}
use tig.Daemon.Access.{sees}

abbrev pub referenced : RefSnapshot → List ChangeId
referenced (RefSnapshot.change id _) = id ∷ []
referenced (RefSnapshot.head (some id)) = id ∷ []
referenced (RefSnapshot.head none) = []
referenced (RefSnapshot.workspace _ (some m)) = m.change_id ∷ []
referenced (RefSnapshot.workspace _ none) = []
referenced (RefSnapshot.bookmark _ _) = []

unfoldable pub collect_ids : List RefSnapshot → List ChangeId
collect_ids [] = []
collect_ids (s ∷ ss) = referenced s ++ collect_ids ss

-- `out.sort()`
unfoldable pub sort : List ChangeId → List ChangeId
sort [] = []
sort (id ∷ ids) = Refs.insert_id id (sort ids)

-- `out.dedup()`
unfoldable pub dedup : List ChangeId → List ChangeId
dedup [] = []
dedup (a ∷ []) = a ∷ []
dedup (a ∷ b ∷ ids) = let rest = dedup (b ∷ ids) in if a == b then rest else a ∷ rest

unfoldable pub referenced_change_ids : Op → List ChangeId
unfolding collect_ids sort dedup
referenced_change_ids op = dedup (sort (collect_ids (op.before ++ op.after)))

-- A change that is gone counts as hidden.
abbrev pub verdict :
    PrincipalId → Result StoreError Change → Result ApiError Bool → Result ApiError Bool
verdict caller (ok c) rest = if not (sees caller c) then ok false else rest
verdict caller (err StoreError.not_found) rest = ok false
verdict caller (err e) rest = err (from_store e)

-- The loop of `is_op_visible`.
unfoldable pub all_visible : Repo → PrincipalId → List ChangeId → Result ApiError Bool
all_visible repo caller [] = ok true
all_visible repo caller (id ∷ ids) =
    verdict caller (Refs.get_change repo id) (all_visible repo caller ids)

unfoldable pub is_op_visible : Repo → Op → PrincipalId → Result ApiError Bool
unfolding all_visible referenced_change_ids
is_op_visible repo op caller = all_visible repo caller (referenced_change_ids op)

-- A view shows the whole operation, or its id and time only.
pub data OpView : Type 0 where
  whole : Op → OpView
  redacted : OpId → ℕ → OpView

abbrev pub redacted_op_view : Op → OpView
redacted_op_view op = OpView.redacted op.id op.ts_ns

unfoldable pub view_all : Repo → PrincipalId → List Op → Result ApiError (List OpView)
view_all repo caller [] = ok []
view_all repo caller (op ∷ ops) = and_then (is_op_visible repo op caller) λ shown.
    and_then (view_all repo caller ops)
      λ rest. ok ((if shown then OpView.whole op else redacted_op_view op) ∷ rest)

-- `ops.drain(..n)`
unfoldable pub drain : ℕ → List Op → List Op
drain zero ops = ops
drain (suc n) [] = []
drain (suc n) (op ∷ ops) = drain n ops

-- The most recent ones. With no more than `limit`, the difference is zero and nothing is drained.
abbrev pub recent : Option ℕ → List Op → List Op
recent none ops = ops
recent (some limit) ops = drain (length ops - limit) ops

unfoldable pub list_oplog : Repo → OpLog → Option ℕ → PrincipalId → Result ApiError (List OpView)
unfolding view_all drain
list_oplog repo log limit caller = view_all repo caller (recent limit log.ops)
