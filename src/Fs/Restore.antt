-- ===== src/Fs/Restore.antt =====
-- crates/tig-fs/src/restore.rs: a working directory brought back to the tree of a snapshot.
pub mod Cleared
pub mod Laws
use tig.Prelude.{
  ℕ, zero, suc, ◌+◌, Bytes, Text, ◌==◌, Bool, true, false, not, Option, none, some, is_none, List,
  [], ◌∷◌, if◌then◌else◌, Result, ok, err, and_then, map_err,
}
use tig.Core.Error.{CoreError}
use tig.Core.Object.{Hash, ObjectKind}
use tig.Core.Wire.{Wire, Snapshot}
use tig.Store.Repo.{Repo}
use tig.Fs.Action.{FsError}
use tig.Fs.TreeEdit.{read}
use tig.Fs.Utf8.{to_string_lossy}
use tig.Fs.Workdir.{Node, Entries, Os}
use tig.Fs.Scan.{scan, scan_dir}
use tig.Fs.Materialize.{
  MaterializeOptions, RenderStats, Rendering, Outcome, Stop, is_workspace_internal,
  collect_sealed_paths, walk_for_sealed, render_tree_into, render_tree,
}

pub record RestoreOptions : Type 0 where
  pub force : Bool
  pub materialize : MaterializeOptions

pub record RestoreOutcome : Type 0 where
  pub tree : Hash
  pub render : RenderStats
  pub top_level_removed : ℕ

-- The protected entries stay. `clear_workdir` gives them, and the number of the others.
unfoldable pub kept : Entries → Entries
unfolding to_string_lossy
kept Entries.nil = Entries.nil
kept (Entries.entry name x es) =
    let rest = kept es in
    if is_workspace_internal (to_string_lossy name) then Entries.entry name x rest else rest

unfoldable pub removed : Entries → ℕ
unfolding to_string_lossy
removed Entries.nil = 0
removed (Entries.entry name x es) =
    let rest = removed es in if is_workspace_internal (to_string_lossy name) then rest else rest + 1

abbrev pub clear_workdir : Entries → ℕ × Entries
clear_workdir workdir = (removed workdir, kept workdir)

abbrev failing : {A : Type 0} → Result FsError A → Result Stop A
failing r = map_err Stop.failed r

abbrev refuse_sealed : List Text → Result Stop (Unit {0})
refuse_sealed [] = ok tt
refuse_sealed (_ ∷ _) = err (Stop.failed (FsError.core CoreError.decode))

-- A run on the object store and the working directory.
abbrev pub Restored : Type 0
Restored = Result Stop RestoreOutcome × Repo × Entries

module _ (w : Wire) (os : Os) (fuel : ℕ) where
  -- Step 1: a target with sealed entries is refused when nothing can unseal them.
  abbrev pub sealed_check : Repo → Hash → RestoreOptions → Result Stop (Unit {0})
  sealed_check repo tree opts =
      if is_none opts.materialize.unsealer
      then and_then (collect_sealed_paths w repo fuel tree) refuse_sealed
      else ok tt

  abbrev compare_trees : Hash → Snapshot → Result Stop (Unit {0})
  compare_trees current_workdir_tree current_snap =
      if not (current_workdir_tree == current_snap.tree)
      then err (Stop.failed (FsError.core CoreError.decode))
      else ok tt

  abbrev compare_scan : Hash → Result FsError Hash × Repo → Result Stop (Unit {0}) × Repo
  compare_scan current_snapshot (err e, repo) = (err (Stop.failed e), repo)
  compare_scan current_snapshot (ok tree, repo) = (
    and_then (failing (read w ObjectKind.snapshot w.snapshot repo current_snapshot))
        (compare_trees tree),
    repo,
  )

  -- Step 2: without `force`, a directory that is not at the current snapshot is refused. The scan
  -- stores what it finds.
  abbrev pub dirty_check : Repo → Entries → Hash → Bool → Result Stop (Unit {0}) × Repo
  dirty_check repo workdir current_snapshot true = (ok tt, repo)
  dirty_check repo workdir current_snapshot false =
      compare_scan current_snapshot (scan w workdir repo)

  abbrev finish : Hash → ℕ → Repo → Outcome → Restored
  finish tree n repo (err e, st) = (err e, repo, st.dir)
  finish tree n repo (ok _, st) =
      (ok (record { tree = tree; render = st.stats; top_level_removed = n }), repo, st.dir)

  -- Steps 3 and 4.
  abbrev pub replace_workdir : Hash → Entries → RestoreOptions → Repo → Restored
  replace_workdir tree workdir opts repo =
      finish tree (removed workdir) repo
        (render_tree_into w os opts.materialize repo fuel tree (kept workdir))

  abbrev checked_clean : Hash → Entries → RestoreOptions → Result Stop (Unit {0}) × Repo → Restored
  checked_clean tree workdir opts (err e, repo) = (err e, repo, workdir)
  checked_clean tree workdir opts (ok _, repo) = replace_workdir tree workdir opts repo

  abbrev checked_sealed :
      Hash → Entries → Hash → RestoreOptions → Repo → Result Stop (Unit {0}) → Restored
  checked_sealed tree workdir current_snapshot opts repo (err e) = (err e, repo, workdir)
  checked_sealed tree workdir current_snapshot opts repo (ok _) =
      checked_clean tree workdir opts (dirty_check repo workdir current_snapshot opts.force)

  abbrev restore_target :
      Repo → Entries → Hash → RestoreOptions → Result FsError Snapshot → Restored
  restore_target repo workdir current_snapshot opts (err e) = (err (Stop.failed e), repo, workdir)
  restore_target repo workdir current_snapshot opts (ok target) =
      checked_sealed target.tree workdir current_snapshot opts repo
        (sealed_check repo target.tree opts)

  unfoldable pub restore_tree_into : Repo → Hash → Entries → Hash → RestoreOptions → Restored
  unfolding read kept removed scan_dir walk_for_sealed render_tree
  restore_tree_into repo target_snapshot workdir current_snapshot opts =
      restore_target repo workdir current_snapshot opts
        (read w ObjectKind.snapshot w.snapshot repo target_snapshot)
