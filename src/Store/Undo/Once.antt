-- ===== src/Store/Undo/Once.antt =====
-- `undo_once` on the stack of operations that stand.
use mathlib.Core.List.{map}
use tig.Prelude.{ℕ, ◌+◌, ◌≡◌, ap, ◌∙◌, none, some, [], ◌∷◌, ◌++◌, ok}
use tig.Core.Vis.{PrincipalId}
use tig.Store.Repo.{Repo}
use tig.Store.OpLog.{Op, OpKind, OpLog, RefSnapshot, append}
use tig.Store.OpLog.Pick.{standing, top, tail, pick_op_to_undo-eq-top, standing-append}
use tig.Store.Undo.{Undone, undo_target, read_current, undo_once}
use tig.Store.Undo.Apart.{ApartFrom, AllApart, AllWritable}
use tig.Store.Undo.Restore.{AllRead, restore_all_lem}

-- If no operation still stands, undo_once changes neither the repository nor the log, and reports
-- that nothing was undone.
pub undo_once_nothing :
    (now : ℕ) (repo : Repo) (log : OpLog) (actor : PrincipalId)
    → standing log.ops ≡ []
    → undo_once now repo log actor ≡ (ok none, repo, log)
unfolding undo_once
undo_once_nothing now repo log actor e = rw (pick_op_to_undo-eq-top log.ops ∙ ap top e, undo_target)

-- The undo of `target` by `actor`, as it stands in the log.
abbrev pub undo_op : ℕ → ℕ → PrincipalId → Repo → Op → Op
undo_op id now actor repo target = record {
  id = id;
  ts_ns = now;
  actor = actor;
  kind = OpKind.undo target.id;
  before = map (read_current repo) target.before;
  after = target.before;
}

abbrev pub logged : OpLog → Op → OpLog
logged log op = record { next_id = log.next_id + 1; ops = log.ops ++ (op ∷ []) }

module _ (now : ℕ) (repo : Repo) (log : OpLog) (actor : PrincipalId) (target : Op) where
  abbrev pub undo_record : Op
  undo_record = undo_op log.next_id now actor repo target

  pub undo_once_all :
      top (standing log.ops) ≡ some target
      → AllWritable target.before
      → AllApart target.before
      → (repo' : Repo) × (undo_once now repo log actor ≡ (
        ok (some (record { undone = target; recorded = undo_record })),
        repo',
        logged log undo_record,
      ))
        × AllRead repo' target.before
        × ((t : RefSnapshot)
            → ApartFrom t target.before
            → read_current repo' t ≡ read_current repo t)
        × (standing (logged log undo_record).ops ≡ tail (standing log.ops))
  unfolding undo_once append
  undo_once_all picked w a =
      let (repo', e, reads, others) = restore_all_lem target.before repo w a in
      (
        repo',
        rw (pick_op_to_undo-eq-top log.ops ∙ picked, undo_target, e),
        reads,
        others,
        standing-append log.ops undo_record,
      )

  -- If the last operation that still stands captured distinct, writable refs, undo_once succeeds:
  -- each captured ref reads as captured, the log grows by the record of the undo, and the stack of
  -- standing operations loses exactly its top.
  pub undo_once_lem :
      top (standing log.ops) ≡ some target
      → AllWritable target.before
      → AllApart target.before
      → (repo' : Repo) × (undo_once now repo log actor ≡ (
        ok (some (record { undone = target; recorded = undo_record })),
        repo',
        logged log undo_record,
      ))
        × AllRead repo' target.before
        × (standing (logged log undo_record).ops ≡ tail (standing log.ops))
  undo_once_lem picked w a =
      let (repo', run, reads, _, stack) = undo_once_all picked w a in (repo', run, reads, stack)

  -- If the last operation that still stands captured distinct, writable refs, then after undo_once
  -- a ref apart from all of those reads as it did before.
  pub undo_once_keeps :
      top (standing log.ops) ≡ some target
      → AllWritable target.before
      → AllApart target.before
      → (t : RefSnapshot) → ApartFrom t target.before
      → read_current (undo_once now repo log actor).1 t ≡ read_current repo t
  undo_once_keeps picked w a t apart =
      let (repo', run, _, others, _) = undo_once_all picked w a in
      ap (λ (u : Undone). read_current u.1 t) run ∙ others t apart
