-- ===== src/Fs/Materialize/Render.antt =====
-- Rendering a tree that shows a directory gives that directory.
use tig.Prelude.{
  ℕ, nat_eq, ◌+◌, ◌/◌, ◌%◌, ◌||◌, Bool, zero, suc, ◌<◌, ◌≤◌, Bytes, Text, ◌≡◌, refl, ap, ◌∙◌,
  Bool-cases, none, List, [], ◌∷◌, inl, inr, if◌then◌else◌, ok, length, arith,
}
use tig.Core.Object.{Hash}
use tig.Core.Tree.{Tree, TreeEntry}
use tig.Core.Wire.{Wire}
use tig.Store.Repo.{Repo}
use tig.Fs.TreeEdit.{read_tree}
use tig.Fs.Workdir.{Node, Entries, Os, find, set, is_executable, with_executable, depth, depth_node}
use tig.Fs.Workdir.Laws.{
  append, append-nil, append_assoc, set-new, set-set, AllAbsent, AllAbsent-nil, AllAbsent-set,
  write-new, create_dir-new, create_symlink-new, depth-entry, make_executable-set,
}
use tig.Fs.Scan.{unix_mode}
use tig.Fs.Scan.Tracked.{Shows, ShowsAll}
use tig.Fs.Materialize.{
  MaterializeOptions, RenderStats, Rendering, Outcome, entry_path, written, render_kind,
  render_entries, render_tree,
}

-- A mode with an executable bit: of the others, of the group or of the owner.
abbrev runs : ℕ → Bool
runs mode = nat_eq (mode % 2) 1 || nat_eq (mode / 8 % 2) 1 || nat_eq (mode / 64 % 2) 1

-- The three bits added where they are not set.
abbrev made_runnable : ℕ → ℕ
made_runnable mode =
    mode
    + (if nat_eq (mode % 2) 1 then 0 else 1)
    + (if nat_eq (mode / 8 % 2) 1 then 0 else 8)
    + (if nat_eq (mode / 64 % 2) 1 then 0 else 64)

-- A directory as it is written out: its files have the mode of a new file, with or without the
-- executable bits.
abbrev pub created_mode : Os → ℕ → ℕ
created_mode os mode = if runs mode then made_runnable os.new_mode else os.new_mode

is_executable-eq-runs : (mode : ℕ) → is_executable mode ≡ runs mode
unfolding is_executable
is_executable-eq-runs mode = ground arith

with_executable-eq-made_runnable : (mode : ℕ) → with_executable mode ≡ made_runnable mode
unfolding with_executable
with_executable-eq-made_runnable mode = ground arith

unfoldable mutual
  unfolding is_executable with_executable

  pub created_node : Os → Node → Node
  created_node os (Node.file mode bytes) = Node.file (created_mode os mode) bytes
  created_node os (Node.dir es) = Node.dir (created os es)
  created_node os (Node.symlink target) = Node.symlink target
  created_node os Node.other = Node.other

  pub created : Os → Entries → Entries
  created os Entries.nil = Entries.nil
  created os (Entries.entry n x es) = Entries.entry n (created_node os x) (created os es)

-- The files of a directory and their bytes, added to the counts.
unfoldable mutual
  pub tally_node : Node → RenderStats → RenderStats
  tally_node (Node.file _ bytes) s = record s {
    files = s.files + 1;
    bytes = s.bytes + length bytes;
  }
  tally_node (Node.dir es) s = tally es s
  tally_node _ s = s

  pub tally : Entries → RenderStats → RenderStats
  tally Entries.nil s = s
  tally (Entries.entry n x es) s = tally es (tally_node x s)

created_mode-eq :
    (os : Os) (mode : ℕ)
    → created_mode os mode
      ≡ (if is_executable mode then with_executable os.new_mode else os.new_mode)
created_mode-eq os mode =
    rw (is_executable-eq-runs mode, with_executable-eq-made_runnable os.new_mode) refl

is_executable-unix_mode : (mode : ℕ) → is_executable (unix_mode mode) ≡ is_executable mode
unfolding is_executable
is_executable-unix_mode mode = elim (Bool-cases (is_executable mode)) [
  | inl h ↦ rw (h) refl
  | inr h ↦ rw (h) refl
]

written-set :
    (os : Os) (e : TreeEntry) (mode : ℕ) (bytes : Bytes) (d : Entries)
    → e.mode ≡ unix_mode mode
    → written e (set e.name (Node.file os.new_mode bytes) d)
      ≡ set e.name (Node.file (created_mode os mode) bytes) d
written-set os e mode bytes d m =
    rw (created_mode-eq os mode, m, is_executable-unix_mode mode)
      (elim (Bool-cases (is_executable mode)) [
        | inl h ↦ rw (h) (make_executable-set e.name os.new_mode bytes d)
        | inr h ↦ rw (h) refl
      ])

module _ (w : Wire) (os : Os) (opts : MaterializeOptions) (repo : Repo) where
  abbrev Done : Entries → RenderStats → Outcome
  Done dir stats = (ok tt, record { dir = dir; stats = stats })

  -- Rendering subtrees that are at most so deep.
  abbrev Renders : ℕ → (Hash → Text → Rendering → Outcome) → Type 0
  Renders fuel go =
      (h : Hash) (path : Text) (stats : RenderStats) (t : Tree) (es : Entries)
      → read_tree w repo h ≡ ok t
      → ShowsAll w repo t.entries es
      → depth es < fuel
      → go h path (record { dir = Entries.nil; stats = stats })
        ≡ Done (created os es) (tally es stats)

  render_kind-Shows :
      (fuel : ℕ) (go : Hash → Text → Rendering → Outcome)
      → Renders fuel go
      → (path : Text) (e : TreeEntry) (x : Node) (d : Entries) (stats : RenderStats)
      → Shows w repo e x
      → depth_node x ≤ fuel
      → find e.name d ≡ none
      → render_kind w os opts repo go path e (record { dir = d; stats = stats }) e.kind
        ≡ Done (set e.name (created_node os x) d) (tally_node x stats)
  unfolding Shows created tally depth
  render_kind-Shows fuel go renders path e (Node.file mode bytes) d stats (k, m, r) h b =
      rw (k, r, write-new os e.name bytes d b, written-set os e mode bytes d m) refl
  render_kind-Shows fuel go renders path e (Node.symlink target) d stats (k, u, r) h b =
      rw (k, r, u, create_symlink-new e.name target d b) refl
  render_kind-Shows fuel go renders path e (Node.dir sub) d stats (k, t, r, all) h b =
      rw (k, create_dir-new e.name d b, renders e.target path stats t sub r all (omega arith))
        (ap (λ d'. Done d' (tally sub stats))
          (set-set e.name (Node.dir Entries.nil) (Node.dir (created os sub)) d))
  render_kind-Shows fuel go renders path e Node.other d stats x h b = absurd x

  render_entries-ShowsAll :
      (fuel : ℕ) (go : Hash → Text → Rendering → Outcome)
      → Renders fuel go
      → (path : Text) (l : List TreeEntry) (es d : Entries) (stats : RenderStats)
      → ShowsAll w repo l es
      → depth es ≤ fuel
      → AllAbsent d es
      → render_entries w os opts repo go path l (record { dir = d; stats = stats })
        ≡ Done (append d (created os es)) (tally es stats)
  unfolding render_entries ShowsAll created tally depth
  render_entries-ShowsAll fuel go renders path [] Entries.nil d stats s h a = rw (append-nil d) refl
  render_entries-ShowsAll fuel go renders path [] (Entries.entry n x es) d stats s h a = absurd s
  render_entries-ShowsAll fuel go renders path (e ∷ l) Entries.nil d stats s h a = absurd s
  render_entries-ShowsAll fuel go renders path (e ∷ l) (Entries.entry n x es) d stats
        (p, f, shows, s) h (b, a) =
      let x' = created_node os x in
      let absent : find e.name d ≡ none = rw (p) b in
      let deep : (depth_node x ≤ fuel) × (depth es ≤ fuel) = depth-entry n x es h in
      rw
        (render_kind-Shows fuel go renders (entry_path path e.name) e x d stats shows deep.0 absent)
        (render_entries-ShowsAll fuel go renders path l es (set e.name x' d) (tally_node x stats) s
            deep.1 (AllAbsent-set e.name x' d es (rw (p) f) a)
          ∙ ap (λ d'. Done d' (tally es (tally_node x stats)))
              (rw
                (
                  set-new e.name x' d absent,
                  append_assoc d (Entries.entry e.name x' Entries.nil) (created os es),
                  p,
                )
                refl))

  render_tree-Renders : (fuel : ℕ) → Renders fuel (render_tree w os opts repo fuel)
  unfolding render_tree
  render_tree-Renders zero h path stats t es r s d = absurd (omega arith)
  render_tree-Renders (suc fuel) h path stats t es r s d = rw (r) (
      render_entries-ShowsAll fuel (render_tree w os opts repo fuel) (render_tree-Renders fuel) path
        t.entries es Entries.nil stats s (omega arith) (AllAbsent-nil es))

  -- The same into a directory that has none of the names.
  pub render_tree-ShowsAll :
      (fuel : ℕ) (h : Hash) (t : Tree) (es d : Entries) (stats : RenderStats)
      → read_tree w repo h ≡ ok t
      → ShowsAll w repo t.entries es
      → depth es < fuel
      → AllAbsent d es
      → render_tree w os opts repo fuel h [] (record { dir = d; stats = stats })
        ≡ Done (append d (created os es)) (tally es stats)
  unfolding render_tree
  render_tree-ShowsAll zero h t es d stats r s deep a = absurd (omega arith)
  render_tree-ShowsAll (suc fuel) h t es d stats r s deep a = rw (r) (
      render_entries-ShowsAll fuel (render_tree w os opts repo fuel) (render_tree-Renders fuel) []
        t.entries es d stats s (omega arith) a)
