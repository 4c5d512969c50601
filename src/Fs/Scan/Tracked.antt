-- ===== src/Fs/Scan/Tracked.antt =====
-- What a scan records of a working directory, and what a stored tree shows of one.
use tig.Prelude.{Text, contains, ◌≡◌, true, false, none, List, [], ◌∷◌, if◌then◌else◌, ok, ◌⊎◌}
use tig.Prelude.BTree
use tig.Prelude.Map.{Map}
use tig.Core.Object.{ObjectKind}
use tig.Core.Tree.{EntryKind, Tree, TreeEntry, is_bad_name}
use tig.Core.Wire.{Wire}
use tig.Store.Repo.{Repo}
use tig.Fs.TreeEdit.{read, read_tree}
use tig.Fs.TreeEdit.Extends.{Extends, read-Extends, read_tree-Extends}
use tig.Fs.Utf8.{is_utf8, to_string_lossy}
use tig.Fs.Workdir.{Node, Entries, find}
use tig.Fs.Scan.{unix_mode}

abbrev pub of_list : Map Node → Entries
of_list [] = Entries.nil
of_list ((n, x) ∷ m) = Entries.entry n x (of_list m)

-- A directory without what is ignored, in the order of the names.
module _ (ignore : List Text) where
  unfoldable mutual
    unfolding to_string_lossy

    pub tracked_node : Node → Node
    tracked_node (Node.file mode bytes) = Node.file mode bytes
    tracked_node (Node.dir es) = Node.dir (of_list (tracked_list es []))
    tracked_node (Node.symlink target) = Node.symlink (to_string_lossy target)
    tracked_node Node.other = Node.other

    pub tracked_list : Entries → Map Node → Map Node
    tracked_list Entries.nil acc = acc
    tracked_list (Entries.entry n x es) acc =
        if contains n ignore
        then tracked_list es acc
        else tracked_list es (BTree.insert n (tracked_node x) acc)

  unfoldable pub tracked : Entries → Entries
  unfolding tracked_list
  tracked es = of_list (tracked_list es [])

  -- Everything that is not ignored can be recorded.
  unfoldable mutual
    pub IsTrackableNode : Node → Type 0
    IsTrackableNode (Node.file _ _) = Unit
    IsTrackableNode (Node.dir es) = IsTrackable es
    IsTrackableNode (Node.symlink target) = is_utf8 target ≡ true
    IsTrackableNode Node.other = ⊥

    pub IsTrackable : Entries → Type 0
    IsTrackable Entries.nil = Unit
    IsTrackable (Entries.entry n x es) =
        (is_utf8 n ≡ true)
        × ((contains n ignore ≡ true)
            ⊎ ((contains n ignore ≡ false) × (is_bad_name n ≡ false) × IsTrackableNode x))
        × IsTrackable es

-- The entry and the objects below it describe the node.
module _ (w : Wire) where
  unfoldable mutual
    pub Shows : Repo → TreeEntry → Node → Type 0
    Shows repo e (Node.file mode bytes) =
        (e.kind ≡ EntryKind.file)
        × (e.mode ≡ unix_mode mode)
        × (read w ObjectKind.blob w.blob repo e.target ≡ ok (record { bytes = bytes }))
    Shows repo e (Node.dir es) =
        (e.kind ≡ EntryKind.tree)
        × (t : Tree) × (read_tree w repo e.target ≡ ok t)
        × ShowsAll repo t.entries es
    Shows repo e (Node.symlink target) =
        (e.kind ≡ EntryKind.symlink)
        × (is_utf8 target ≡ true)
        × (read w ObjectKind.blob w.blob repo e.target ≡ ok (record { bytes = target }))
    Shows repo e Node.other = ⊥

    -- Entry by entry, no name twice.
    pub ShowsAll : Repo → List TreeEntry → Entries → Type 0
    ShowsAll repo [] Entries.nil = Unit
    ShowsAll repo (e ∷ l) (Entries.entry n x es) =
        (e.name ≡ n) × (find n es ≡ none) × Shows repo e x × ShowsAll repo l es
    ShowsAll repo _ _ = ⊥

  -- A later repository shows no less.
  mutual
    unfolding Shows ShowsAll

    pub Shows-Extends :
        {repo repo' : Repo} (e : TreeEntry) (x : Node)
        → Extends w repo repo'
        → Shows repo e x
        → Shows repo' e x
    Shows-Extends e (Node.file mode bytes) ext (k, m, r) =
        (k, m, read-Extends w ObjectKind.blob w.blob e.target ext r)
    Shows-Extends e (Node.dir es) ext (k, t, r, all) =
        (k, t, read_tree-Extends w e.target ext r, ShowsAll-Extends t.entries es ext all)
    Shows-Extends e (Node.symlink target) ext (k, u, r) =
        (k, u, read-Extends w ObjectKind.blob w.blob e.target ext r)
    Shows-Extends e Node.other ext s = s

    pub ShowsAll-Extends :
        {repo repo' : Repo} (l : List TreeEntry) (es : Entries)
        → Extends w repo repo'
        → ShowsAll repo l es
        → ShowsAll repo' l es
    ShowsAll-Extends [] Entries.nil ext s = tt
    ShowsAll-Extends [] (Entries.entry n x es) ext s = s
    ShowsAll-Extends (e ∷ l) Entries.nil ext s = s
    ShowsAll-Extends (e ∷ l) (Entries.entry n x es) ext (p, f, s, all) =
        (p, f, Shows-Extends e x ext s, ShowsAll-Extends l es ext all)
