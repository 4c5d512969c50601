-- ===== src/Daemon/Read/Laws.antt =====
-- Which snapshots the handlers that read let through.
use tig.Prelude.{
  ℕ, Bytes, Text, contains, ◌≡◌, refl, Bool, Bool-cases, true, false, ◌&&◌, Option, none, some,
  List, Result, and_then-ok, map_err-ok, ok, err, inl, inr, arith,
}
use tig.Core.Object.{Hash, ObjectKind}
use tig.Core.Vis.{PrincipalId}
use tig.Core.Wire.{Wire, Snapshot}
use tig.Store.Repo.{Repo}
use tig.Store.Refs
use tig.Fs.TreeEdit.{read}
use tig.Fs.Materialize.{Stop}
use tig.Fs.Diff.{LineChange, FileDiff, diff_trees}
use tig.Daemon.Error.{ApiError, from_fs}
use tig.Daemon.Access.{visible_snapshot_set}
use tig.Daemon.Access.Laws.{Shows, visible_snapshot_set_lem}
use tig.Daemon.Read.{
  DiffQuery, DiffView, Diffed, parse_hash, read_snapshot, get_snapshot, gated, parsed_snapshot,
  load_for_read, to_hash, from_tree_of, from_is_visible, diff_checked, diff_resolved, diff_change,
  and_diff, options_of, answer,
}

module _ (w : Wire) (hex_decode : Text → Option Bytes) where
  gated-ok :
      (visible : List Hash) (h : Hash) (r : Result ApiError Snapshot) (snap : Snapshot)
      → gated w hex_decode visible h r ≡ ok snap
      → (contains h visible ≡ true) × (r ≡ ok snap)
  gated-ok visible h r snap e = elim (Bool-cases (contains h visible)) [
    | inl seen ↦ (seen, rw (seen) at e)
    | inr hidden ↦ absurd (ground (arith, rw (hidden) at e))
  ]

  -- If get_snapshot answers a caller, the hash asked for is in the history of a listed change that
  -- the caller may see.
  pub get_snapshot-Shows :
      (repo : Repo) (caller : PrincipalId) (hash : Text) (snap : Snapshot)
      → get_snapshot w hex_decode repo caller hash ≡ ok snap
      → (h : Hash) × (parse_hash hex_decode hash ≡ ok h)
        × Shows repo caller (Refs.list_changes repo) h
  unfolding get_snapshot
  get_snapshot-Shows repo caller hash snap e =
      let (h, parsed, e1) = and_then-ok (parse_hash hex_decode hash) _ e in
      let (visible, set, e2) = and_then-ok (visible_snapshot_set repo caller) _ e1 in
      let (seen, _) = gated-ok visible h (parsed_snapshot w hex_decode repo h) snap e2 in
      (h, parsed, (visible_snapshot_set_lem repo caller visible h set).0 seen)

module _ (w : Wire) (similar : Text → Text → ℕ → List (List LineChange))
    (hex_decode : Text → Option Bytes) (fuel : ℕ) where
  and_diff-ok :
      {A : Type 0} (r : Result ApiError A) (repo : Repo) (f : A → Diffed w similar hex_decode fuel)
      {view : DiffView} {repo' : Repo}
      → and_diff w similar hex_decode fuel r repo f ≡ (some (ok view), repo')
      → (a : A) × (r ≡ ok a) × (f a ≡ (some (ok view), repo'))
  and_diff-ok (ok a) repo f h = (a, refl, h)
  and_diff-ok (err e) repo f h = absurd (ground arith)

  -- The explicit first snapshot of a query is one that the caller may see.
  abbrev pub FromShown : Repo → PrincipalId → Option Text → Type 0
  FromShown repo caller none = Unit
  FromShown repo caller (some s) =
      (h : Hash) × (parse_hash hex_decode s ≡ ok h) × Shows repo caller (Refs.list_changes repo) h

  from_is_visible-FromShown :
      (repo : Repo) (caller : PrincipalId) (visible : List Hash) (from : Option Text)
      → visible_snapshot_set repo caller ≡ ok visible
      → from_is_visible w similar hex_decode fuel visible from ≡ ok true
      → FromShown repo caller from
  from_is_visible-FromShown repo caller visible none set h = tt
  from_is_visible-FromShown repo caller visible (some s) set h =
      let (hash, parsed, seen) = and_then-ok (parse_hash hex_decode s) _ h in
      (
        hash,
        parsed,
        (visible_snapshot_set_lem repo caller visible hash set).0 (ground (arith, seen)),
      )

  diff_checked-ok :
      (q : DiffQuery) (from to : Hash) (repo repo' : Repo) (reachable : Bool) (view : DiffView)
      → diff_checked w similar hex_decode fuel q from to repo reachable ≡ (some (ok view), repo')
      → (reachable ≡ true) × (view.to_tree ≡ to) × (repo' ≡ repo)
  diff_checked-ok q from to repo repo' false view h = absurd (ground arith)
  diff_checked-ok q from to repo repo' true view h =
      by_answer (diff_trees w similar repo (options_of w similar hex_decode fuel q) fuel from to) h
    where
      by_answer :
          (r : Result Stop (List FileDiff))
          → answer w similar hex_decode fuel from to repo r ≡ (some (ok view), repo')
          → (true ≡ true) × (view.to_tree ≡ to) × (repo' ≡ repo)
      by_answer (ok ds) h = (refl, ground arith, ground arith)
      by_answer (err Stop.out_of_fuel) h = absurd (ground arith)
      by_answer (err (Stop.failed e)) h = absurd (ground arith)

  diff_resolved-ok :
      (repo repo' : Repo) (caller : PrincipalId) (q : DiffQuery) (to_snap_hash : Hash)
      (to_snap : Snapshot) (from : Result ApiError Hash) (view : DiffView)
      → diff_resolved w similar hex_decode fuel caller q to_snap_hash to_snap (from, repo)
        ≡ (some (ok view), repo')
      → (repo' ≡ repo)
        × (view.to_tree ≡ to_snap.tree)
        × Shows repo caller (Refs.list_changes repo) to_snap_hash
        × FromShown repo caller q.from
  diff_resolved-ok repo repo' caller q to_snap_hash to_snap from view h =
      let (from_tree, _, h1) = and_diff-ok from repo _ h in
      let (visible, set, h2) = and_diff-ok (visible_snapshot_set repo caller) repo _ h1 in
      let (from_seen, from_eq, h3) =
        and_diff-ok (from_is_visible w similar hex_decode fuel visible q.from) repo _ h2 in
      let (both, same_to, same_repo) =
        diff_checked-ok q from_tree to_snap.tree repo repo'
          (contains to_snap_hash visible && from_seen) view h3 in
      let from_true : from_seen ≡ true = ground (arith, both) in
      (
        same_repo,
        same_to,
        (visible_snapshot_set_lem repo caller visible to_snap_hash set).0 (ground (arith, both)),
        from_is_visible-FromShown repo caller visible q.from set (rw (from_true) at from_eq),
      )

  -- If diff_change answers a caller, the new side is the tree of a stored snapshot in the history
  -- of a listed change that the caller may see, and so is the snapshot that the request names as
  -- the old side, if it names one.
  pub diff_change-Shows :
      (repo repo' : Repo) (caller : PrincipalId) (id : Text) (q : DiffQuery) (view : DiffView)
      → diff_change w similar hex_decode fuel repo caller id q ≡ (some (ok view), repo')
      → (to_snap_hash : Hash) × (to_snap : Snapshot) × (read w ObjectKind.snapshot w.snapshot repo
            to_snap_hash
          ≡ ok to_snap)
        × (view.to_tree ≡ to_snap.tree)
        × Shows repo' caller (Refs.list_changes repo') to_snap_hash
        × FromShown repo' caller q.from
  unfolding diff_change
  diff_change-Shows repo repo' caller id q view h =
      let (change, _, h1) = and_diff-ok (load_for_read repo id caller) repo _ h in
      let (to_snap_hash, _, h2) =
        and_diff-ok (to_hash w similar hex_decode fuel change q.to) repo _ h1 in
      let (to_snap, there, h3) = and_diff-ok (read_snapshot w repo to_snap_hash) repo _ h2 in
      let from = from_tree_of w similar hex_decode fuel repo q.from to_snap in
      let (same, to_eq, shown, from_shown) =
        diff_resolved-ok from.1 repo' caller q to_snap_hash to_snap from.0 view h3 in
      (
        to_snap_hash,
        to_snap,
        map_err-ok from_fs _ there,
        to_eq,
        rw (same) shown,
        rw (same) from_shown,
      )
