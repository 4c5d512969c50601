-- ===== src/Fs/SnapNow/Laws.antt =====
-- A snapshot of a working directory is complete: the directory can be written out from it.
use tig.Prelude.{
  ℕ, ◌<◌, ◌≡◌, refl, ◌∙◌, ◌⊎◌, Bool, Bool-cases, true, none, some, ok, inl, inr, arith,
}
use tig.Core.Object.{Hash, ObjectKind, encode}
use tig.Core.Change.{Change, ChangeId}
use tig.Core.Wire.{Wire, IsSound, Snapshot}
use tig.Store.Repo.{Repo}
use tig.Store.Refs
use tig.Store.Objects
use tig.Store.Objects.Laws.{IsContentAddressed}
use tig.Store.Gc.Sweep.{SameRefs}
use tig.Store.Workspace.{WorkspaceKind, current_change_id, set_current_change_id}
use tig.Fs.TreeEdit.{read}
use tig.Fs.TreeEdit.Extends.{Extends, read-Extends, put-Extends}
use tig.Fs.Workdir.{Node, Entries, Os, depth}
use tig.Fs.Scan.Tracked.{tracked, IsTrackable}
use tig.Fs.Scan.Stored.{scan_dir-Stored}
use tig.Fs.Scan.Refs.{scan_dir-KeepsRefs}
use tig.Fs.Snap.{SnapOptions, SnapOutcome}
use tig.Fs.Materialize.{MaterializeOptions, materialize_change_into, no_stats}
use tig.Fs.Materialize.Render.{created, tally}
use tig.Fs.Materialize.Roundtrip.{materialize-scan_dir}
use tig.Fs.SnapNow.{
  Place, Start, scan_ignore, start, pointed, moved, existing, bootstrap, snap_at, take_snap,
  snap_started, snap_now,
}

module _ (w : Wire) (timestamp now : ℕ) (fresh_id : ChangeId) where
  -- What a snap that is taken leaves.
  record Taken (p : Place) (tree_hash : Hash) (opts : SnapOptions) (s : Start) : Type 0 where
    snap_hash : Hash
    change : Change
    p' : Place
    run :
        take_snap w timestamp now fresh_id opts p tree_hash s
        ≡ (ok (SnapOutcome.snapped snap_hash tree_hash change s.fresh), p')
    extends : Extends w p.repo p'.repo
    there :
        read w ObjectKind.snapshot w.snapshot p'.repo snap_hash
        ≡ ok (snap_at w timestamp now fresh_id s tree_hash opts)

  -- Moving what is checked out touches no object.
  set_current_change_id-objects :
      (repo : Repo) (kind : WorkspaceKind) (id : ChangeId)
      → (set_current_change_id repo kind id).0.objects ≡ repo.objects
  unfolding set_current_change_id
  set_current_change_id-objects repo WorkspaceKind.main id = refl
  set_current_change_id-objects repo (WorkspaceKind.secondary m) id = refl

  pointed-objects :
      (s : Start) (change : Change) (repo : Repo) (kind : WorkspaceKind)
      → (pointed w timestamp now fresh_id s change repo kind).0.objects ≡ repo.objects
  pointed-objects s change repo kind = elim (Bool-cases s.fresh) [
    | inl fresh ↦ rw (fresh) (set_current_change_id-objects repo kind change.id)
    | inr old ↦ rw (old) refl
  ]

  -- Only the objects count for what can be read.
  Extends-objects :
      {repo mid mid' : Repo} → mid'.objects ≡ mid.objects → Extends w repo mid → Extends w repo mid'
  unfolding Objects.get
  Extends-objects e x = record {
    keeps = λ h obj there. rw (e) (x.keeps h obj there);
    addressed = record { framed = λ h f there. x.addressed.framed h f (rw (e) at there) };
  }

  read-objects :
      (repo repo' : Repo) (h : Hash)
      → repo'.objects ≡ repo.objects
      → read w ObjectKind.snapshot w.snapshot repo' h ≡ read w ObjectKind.snapshot w.snapshot repo h
  unfolding read Objects.get
  read-objects repo repo' h e = rw (e) refl

  take_snap-Taken :
      IsSound w
      → (p : Place) (tree_hash : Hash) (opts : SnapOptions) (s : Start)
      → IsContentAddressed w p.repo
      → Taken p tree_hash opts s
  unfolding Refs.put_change
  take_snap-Taken sound p tree_hash opts s v =
      let snap = snap_at w timestamp now fresh_id s tree_hash opts in
      let raw = encode ObjectKind.snapshot w.snapshot snap in
      let (x, back) =
        put-Extends w ObjectKind.snapshot w.snapshot p.repo snap sound sound.snapshot v in
      let snap_hash = (Objects.put w p.repo raw).0 in
      let stored = (Objects.put w p.repo raw).1 in
      let change = moved w timestamp now fresh_id s snap_hash in
      let after =
        (pointed w timestamp now fresh_id s change (Refs.put_change stored change) p.kind).0 in
      let same = pointed-objects s change (Refs.put_change stored change) p.kind in
      record {
        snap_hash = snap_hash;
        change = change;
        p' = (take_snap w timestamp now fresh_id opts p tree_hash s).1;
        run = refl;
        extends = Extends-objects same x;
        there = read-objects stored after snap_hash same ∙ back;
      }

  -- The change to snap can be loaded: there is none yet, or it and its snapshot are there.
  abbrev pub Loads : Repo → WorkspaceKind → Type 0
  Loads repo kind =
      (current_change_id repo kind ≡ none)
      ⊎ ((id : ChangeId) × (c : Change) × (prev : Snapshot) × (current_change_id repo kind
            ≡ some id)
          × (Refs.get_change repo id ≡ ok c)
          × (read w ObjectKind.snapshot w.snapshot repo c.current ≡ ok prev))

  Loads-SameRefs :
      (repo repo' : Repo) (kind : WorkspaceKind)
      → SameRefs repo' repo
      → Extends w repo repo'
      → Loads repo kind
      → Loads repo' kind
  unfolding current_change_id Refs.get_change Refs.head
  Loads-SameRefs repo repo' WorkspaceKind.main same x (inl none_yet) = inl (rw (same.head) none_yet)
  Loads-SameRefs repo repo' (WorkspaceKind.secondary m) same x (inl none_yet) = inl none_yet
  Loads-SameRefs repo repo' WorkspaceKind.main same x (inr (id, c, prev, e, there, r)) = inr (
    id,
    c,
    prev,
    rw (same.head) e,
    rw (same.changes) there,
    read-Extends w ObjectKind.snapshot w.snapshot c.current x r,
  )
  Loads-SameRefs repo repo' (WorkspaceKind.secondary m) same x (inr (id, c, prev, e, there, r)) =
      inr (
        id,
        c,
        prev,
        e,
        rw (same.changes) there,
        read-Extends w ObjectKind.snapshot w.snapshot c.current x r,
      )

  -- A forced snap of what can be loaded is taken.
  snap_started-Loads :
      (opts : SnapOptions) (p : Place) (tree_hash : Hash)
      → Loads p.repo p.kind
      → opts.force ≡ true
      → (s : Start) × (snap_started w timestamp now fresh_id opts p tree_hash
            (start w timestamp now fresh_id p.repo opts (current_change_id p.repo p.kind))
          ≡ take_snap w timestamp now fresh_id opts p tree_hash s)
  unfolding start
  snap_started-Loads opts p tree_hash (inl none_yet) forced =
      (bootstrap w timestamp now fresh_id opts, rw (none_yet) refl)
  snap_started-Loads opts p tree_hash (inr (id, c, prev, e, there, r)) forced =
      (existing w timestamp now fresh_id c, rw (e, there, r) (ground (arith, forced)))

  -- With a sound digest and serializers, in an intact repository, when every name of the working
  -- directory is UTF-8, what is not ignored has names that a tree accepts, links with UTF-8
  -- targets and no special files, and the workspace has no current change or one that loads with
  -- its snapshot, a forced snap_now succeeds with a new snapshot, and materialize_change_into of
  -- that snapshot into a fresh directory, with fuel above its depth, writes out the tracked part
  -- of the working directory: the same names, contents, links and directories, each file with the
  -- mode of a new file, made executable if its own is, and counts the files and their bytes.
  pub snap_now-materialize :
      IsSound w
      → (p : Place) (workdir : Entries) (opts : SnapOptions) (os : Os) (mopts : MaterializeOptions)
        (fuel : ℕ)
      → IsContentAddressed w p.repo
      → IsTrackable (scan_ignore opts) workdir
      → Loads p.repo p.kind
      → opts.force ≡ true
      → depth (tracked (scan_ignore opts) workdir) < fuel
      → (snap_hash : Hash) × (tree_hash : Hash) × (change : Change) × (fresh : Bool) × (p' : Place)
        × (snap_now w timestamp now fresh_id p workdir opts
            ≡ (ok (SnapOutcome.snapped snap_hash tree_hash change fresh), p'))
        × (materialize_change_into w os mopts p'.repo fuel snap_hash none ≡ (
          ok (tally (tracked (scan_ignore opts) workdir) no_stats),
          some (Node.dir (created os (tracked (scan_ignore opts) workdir))),
        ))
  unfolding snap_now
  snap_now-materialize sound p workdir opts os mopts fuel v h loads forced deep =
      let ignore = scan_ignore opts in
      let st = scan_dir-Stored w ignore sound p.repo workdir h v in
      let mid : Place = record p { repo = st.repo' } in
      let same : SameRefs st.repo' p.repo =
        rw (st.run) at (scan_dir-KeepsRefs w ignore workdir p.repo) in
      let (s, started) =
        snap_started-Loads opts mid st.root
          (Loads-SameRefs p.repo st.repo' p.kind same st.extends loads) forced in
      let taken = take_snap-Taken sound mid st.root opts s st.extends.addressed in
      (
        taken.snap_hash,
        st.root,
        taken.change,
        s.fresh,
        taken.p',
        rw (st.run) (started ∙ taken.run),
        materialize-scan_dir w os mopts ignore sound p.repo st.repo' taken.p'.repo workdir st.root
            taken.snap_hash (snap_at w timestamp now fresh_id s st.root opts) fuel v h st.run
            taken.extends taken.there refl deep,
      )
