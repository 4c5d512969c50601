-- ===== src/Fs/Materialize/Roundtrip.antt =====
-- A directory scanned, stored in a snapshot, and written out again.
use tig.Prelude.{
  ℕ, zero, suc, ◌<◌, ◌≤◌, Text, ◌≡◌, refl, none, some, List, [], ◌∷◌, Result, ok, arith,
}
use tig.Core.Object.{Hash, ObjectKind}
use tig.Core.Tree.{Tree, TreeEntry}
use tig.Core.Wire.{Wire, Snapshot, IsSound}
use tig.Store.Repo.{Repo}
use tig.Store.Objects.Laws.{IsContentAddressed}
use tig.Fs.TreeEdit.{read, read_tree}
use tig.Fs.TreeEdit.Extends.{Extends, read_tree-Extends}
use tig.Fs.Workdir.{Node, Entries, Os, depth, depth_node}
use tig.Fs.Workdir.Laws.{AllAbsent-nil, depth-entry}
use tig.Fs.Scan.{scan_dir}
use tig.Fs.Scan.Tracked.{tracked, IsTrackable, Shows, ShowsAll, ShowsAll-Extends}
use tig.Fs.Scan.Stored.{scan_dir-Stored}
use tig.Fs.Materialize.{
  MaterializeOptions, Stop, materialize_change_into, no_stats, walk_for_sealed, walk_kind,
  walk_entries, entry_path,
}
use tig.Fs.Materialize.Render.{created, tally, render_tree-ShowsAll}

-- What the scan of a directory has left in a later repository.
pub record Recorded (w : Wire) (ignore : List Text) (repo : Repo) (root : Hash) (es : Entries)
    : Type 0 where
  pub t : Tree
  pub tree : read_tree w repo root ≡ ok t
  pub shows : ShowsAll w repo t.entries (tracked ignore es)

pub scan_dir-Recorded :
    (w : Wire) (ignore : List Text)
    → IsSound w
    → (repo repo' later : Repo) (es : Entries) (root : Hash) → IsContentAddressed w repo
    → IsTrackable ignore es
    → scan_dir w ignore es repo ≡ (ok root, repo')
    → Extends w repo' later
    → Recorded w ignore later root es
scan_dir-Recorded w ignore sound repo repo' later es root v h run ext =
    let st = scan_dir-Stored w ignore sound repo es h v in
    let same_root : st.root ≡ root = ground (arith, st.run, run) in
    let same_repo : st.repo' ≡ repo' = ground (arith, st.run, run) in
    let ext' : Extends w st.repo' later = rw (same_repo) ext in
    record {
      t = st.t;
      tree = rw (← same_root) (read_tree-Extends w st.root ext' st.tree);
      shows = ShowsAll-Extends w st.t.entries (tracked ignore es) ext' st.shows;
    }

-- With a sound digest and serializers, after a successful scan, in an intact repository, of a
-- directory with UTF-8 names in which what is not ignored has names that a tree accepts, links
-- with UTF-8 targets and no special files, in any repository that holds at least what the scan
-- stored, materialize_change_into of a snapshot of the scanned tree, with fuel above its depth,
-- writes out the tracked part of that directory and counts its files and bytes.
pub materialize-scan_dir :
    (w : Wire) (os : Os) (opts : MaterializeOptions) (ignore : List Text)
    → IsSound w
    → (repo repo' later : Repo) (es : Entries) (root snapshot_hash : Hash) (snap : Snapshot)
      (fuel : ℕ)
    → IsContentAddressed w repo
    → IsTrackable ignore es
    → scan_dir w ignore es repo ≡ (ok root, repo')
    → Extends w repo' later
    → read w ObjectKind.snapshot w.snapshot later snapshot_hash ≡ ok snap
    → snap.tree ≡ root
    → depth (tracked ignore es) < fuel
    → materialize_change_into w os opts later fuel snapshot_hash none
      ≡ (ok (tally (tracked ignore es) no_stats), some (Node.dir (created os (tracked ignore es))))
unfolding materialize_change_into
materialize-scan_dir w os opts ignore sound repo repo' later es root snapshot_hash snap fuel v h run
      ext there same deep =
    let r = scan_dir-Recorded w ignore sound repo repo' later es root v h run ext in
    rw
      (
        there,
        same,
        render_tree-ShowsAll w os opts later fuel root r.t (tracked ignore es) Entries.nil no_stats
            r.tree r.shows deep (AllAbsent-nil (tracked ignore es)),
      )
      refl

module _ (w : Wire) (repo : Repo) where
  abbrev Finds : ℕ → (Hash → Text → List Text → Result Stop (List Text)) → Type 0
  Finds fuel go =
      (h : Hash) (path : Text) (out : List Text) (t : Tree) (es : Entries)
      → read_tree w repo h ≡ ok t
      → ShowsAll w repo t.entries es
      → depth es < fuel
      → go h path out ≡ ok out

  walk_kind-Shows :
      (fuel : ℕ) (go : Hash → Text → List Text → Result Stop (List Text))
      → Finds fuel go
      → (path : Text) (e : TreeEntry) (x : Node) (out : List Text) → Shows w repo e x
      → depth_node x ≤ fuel
      → walk_kind w repo go path e out e.kind ≡ ok out
  unfolding Shows depth
  walk_kind-Shows fuel go finds path e (Node.file mode bytes) out (k, m, r) h = rw (k) refl
  walk_kind-Shows fuel go finds path e (Node.symlink target) out (k, u, r) h = rw (k) refl
  walk_kind-Shows fuel go finds path e (Node.dir sub) out (k, t, r, all) h =
      rw (k) (finds e.target path out t sub r all (omega arith))
  walk_kind-Shows fuel go finds path e Node.other out x h = absurd x

  walk_entries-ShowsAll :
      (fuel : ℕ) (go : Hash → Text → List Text → Result Stop (List Text))
      → Finds fuel go
      → (path : Text) (l : List TreeEntry) (es : Entries) (out : List Text) → ShowsAll w repo l es
      → depth es ≤ fuel
      → walk_entries w repo go path l out ≡ ok out
  unfolding walk_entries ShowsAll
  walk_entries-ShowsAll fuel go finds path [] Entries.nil out s h = refl
  walk_entries-ShowsAll fuel go finds path [] (Entries.entry n x es) out s h = absurd s
  walk_entries-ShowsAll fuel go finds path (e ∷ l) Entries.nil out s h = absurd s
  walk_entries-ShowsAll fuel go finds path (e ∷ l) (Entries.entry n x es) out (p, f, shows, s) h =
      let deep = depth-entry n x es h in
      rw (walk_kind-Shows fuel go finds (entry_path path e.name) e x out shows deep.0)
        (walk_entries-ShowsAll fuel go finds path l es out s deep.1)

  -- A tree that shows a directory has no sealed entries.
  pub walk_for_sealed-ShowsAll : (fuel : ℕ) → Finds fuel (walk_for_sealed w repo fuel)
  unfolding walk_for_sealed
  walk_for_sealed-ShowsAll zero h path out t es r s d = absurd (omega arith)
  walk_for_sealed-ShowsAll (suc fuel) h path out t es r s d = rw (r) (
      walk_entries-ShowsAll fuel (walk_for_sealed w repo fuel) (walk_for_sealed-ShowsAll fuel) path
        t.entries es out s (omega arith))
