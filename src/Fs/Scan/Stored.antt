-- ===== src/Fs/Scan/Stored.antt =====
-- After a scan the object store shows the directory.
use mathlib.Core.List.{append_assoc, append-nil}
use tig.Prelude.{
  Text, cmp, Ordering-cases, ◌≡◌, refl, ◌∙◌, false, List, [], ◌∷◌, ◌++◌, ok, inl, inr,
}
use tig.Prelude.BTree
use tig.Prelude.BTree.{Above, IsSorted, insert-IsSorted}
use tig.Prelude.Map.{Map}
use tig.Core.Object.{Hash, ObjectKind, encode}
use tig.Core.Tree
use tig.Core.Tree.{EntryKind, Tree, TreeEntry, is_bad_name, validate_name}
use tig.Core.Wire.{Wire, Blob, IsSound}
use tig.Store.Repo.{Repo}
use tig.Store.Objects
use tig.Store.Objects.Laws.{IsContentAddressed}
use tig.Fs.Action.{Action}
use tig.Fs.TreeEdit.{read_tree}
use tig.Fs.TreeEdit.Extends.{Extends, Extends-trans, put-Extends}
use tig.Fs.Utf8.{to_string_lossy}
use tig.Fs.Workdir.{Node, Entries}
use tig.Fs.Scan.{scanned, insert_all, store_children, build_entry, collect, scan_dir, unix_mode}
use tig.Fs.Scan.Tracked.{
  of_list, tracked_node, tracked_list, tracked, IsTrackable, IsTrackableNode, Shows, ShowsAll,
  Shows-Extends, ShowsAll-Extends,
}
use tig.Fs.Scan.Below.{find-Above, insert-AllBelow, BelowFirst, BelowFirst-next, BelowFirst-nil}

module _ (w : Wire) (ignore : List Text) where
  -- What building the entry of a node leaves.
  pub record Built (repo : Repo) (name : Text) (build : Action TreeEntry) (x : Node) : Type 0 where
    pub repo' : Repo
    pub e : TreeEntry
    pub run : build repo ≡ (ok e, repo')
    pub extends : Extends w repo repo'
    pub name_eq : e.name ≡ name
    pub shows : Shows w repo' e x

  abbrev Builds : Text → Action TreeEntry → Node → Type 0
  Builds name build x =
      (is_bad_name name ≡ false)
      × ((repo : Repo) → IsContentAddressed w repo → Built repo name build x)

  abbrev AllBuild : Map (Action TreeEntry) → Map Node → Type 0
  AllBuild [] [] = Unit
  AllBuild ((k, a) ∷ m) ((j, x) ∷ m') = (k ≡ j) × Builds k a x × AllBuild m m'
  AllBuild _ _ = ⊥

  AllBuild-insert :
      (k : Text) (a : Action TreeEntry) (x : Node) (m : Map (Action TreeEntry)) (m' : Map Node)
      → Builds k a x
      → AllBuild m m'
      → AllBuild (BTree.insert k a m) (BTree.insert k x m')
  unfolding BTree.insert
  AllBuild-insert k a x [] [] b h = (refl, b, tt)
  AllBuild-insert k a x [] (_ ∷ m') b h = absurd h
  AllBuild-insert k a x (_ ∷ m) [] b h = absurd h
  AllBuild-insert k a x ((i, b') ∷ m) ((j, y) ∷ m') b (p, q, h) =
      rw (p) (elim (Ordering-cases (cmp k j)) [
        | inl lt ↦ rw (lt, BTree.insert) (refl, b, (refl, rw (← p) q, h))
        | inr (inl eq) ↦ rw (eq, BTree.insert) (refl, b, h)
        | inr (inr gt) ↦ rw (gt, BTree.insert) (refl, rw (← p) q, AllBuild-insert k a x m m' b h)
      ])

  record Inserted (repo : Repo) (tree : Tree) (m : Map (Action TreeEntry)) (m' : Map Node)
      : Type 0 where
    repo' : Repo
    new : List TreeEntry
    run : insert_all w tree m repo ≡ (ok (record { entries = tree.entries ++ new }), repo')
    extends : Extends w repo repo'
    shows : ShowsAll w repo' new (of_list m')

  insert_all-Inserted :
      (repo : Repo) (tree : Tree) (m : Map (Action TreeEntry)) (m' : Map Node)
      → IsContentAddressed w repo
      → AllBuild m m'
      → IsSorted m'
      → BelowFirst tree.entries m'
      → Inserted repo tree m m'
  unfolding insert_all ShowsAll
  insert_all-Inserted repo tree [] [] v h s b = record {
    repo' = repo;
    new = [];
    run = rw (append-nil tree.entries) refl;
    extends = record { keeps = λ h obj e. e; addressed = v };
    shows = tt;
  }
  insert_all-Inserted repo tree [] (_ ∷ m') v h s b = absurd h
  insert_all-Inserted repo tree (_ ∷ m) [] v h s b = absurd h
  insert_all-Inserted repo tree ((i, build) ∷ m) ((j, x) ∷ m') v (p, (good, builds), h) (above, s)
        b =
      let built = builds repo v in
      let e : TreeEntry = built.e in
      let tree' : Tree = record { entries = tree.entries ++ (e ∷ []) } in
      let rest = insert_all-Inserted built.repo' tree' m m' built.extends.addressed h s (
        BelowFirst-next tree.entries e m' (rw (built.name_eq, p) b)
          (rw (built.name_eq, p) above)) in
      record {
        repo' = rest.repo';
        new = e ∷ rest.new;
        run =
            rw
              (
                built.run,
                insert-AllBelow tree e (rw (built.name_eq) good) (rw (built.name_eq, p) b),
                rest.run,
              )
              (rw (append_assoc tree.entries (e ∷ []) rest.new) refl);
        extends = Extends-trans w built.extends rest.extends;
        shows = (
          built.name_eq ∙ p,
          find-Above j m' above s,
          Shows-Extends w e x rest.extends built.shows,
          rest.shows,
        );
      }

  -- The entries that `collect` builds are those of the directory tracked.
  record Collected (es : Entries) (children : Map (Action TreeEntry)) (acc : Map Node)
      : Type 0 where
    m : Map (Action TreeEntry)
    run : collect w ignore es children ≡ ok m
    build : AllBuild m (tracked_list ignore es acc)
    sorted : IsSorted (tracked_list ignore es acc)

  -- What storing a directory leaves.
  pub record Stored (repo : Repo) (es : Entries) : Type 0 where
    pub repo' : Repo
    pub root : Hash
    pub t : Tree
    pub run : scan_dir w ignore es repo ≡ (ok root, repo')
    pub extends : Extends w repo repo'
    pub tree : read_tree w repo' root ≡ ok t
    pub shows : ShowsAll w repo' t.entries (tracked ignore es)

  Stored-Collected :
      IsSound w
      → (repo : Repo) (es : Entries) → IsContentAddressed w repo
      → Collected es [] []
      → Stored repo es
  unfolding scan_dir store_children tracked read_tree
  Stored-Collected sound repo es v c =
      let ins =
        insert_all-Inserted repo Tree.new c.m (tracked_list ignore es []) v c.build c.sorted
          (BelowFirst-nil (tracked_list ignore es [])) in
      let t : Tree = record { entries = ins.new } in
      let (x, back) =
        put-Extends w ObjectKind.tree w.tree ins.repo' t sound sound.tree ins.extends.addressed in
      record {
        repo' = (Objects.put w ins.repo' (encode ObjectKind.tree w.tree t)).1;
        root = (Objects.put w ins.repo' (encode ObjectKind.tree w.tree t)).0;
        t = t;
        run = rw (c.run, ins.run) refl;
        extends = Extends-trans w ins.extends x;
        tree = back;
        shows = ShowsAll-Extends w ins.new (tracked ignore es) x ins.shows;
      }

  module _ (sound : IsSound w) where
    mutual
      unfolding build_entry collect tracked_node tracked_list IsTrackable IsTrackableNode Shows
          ShowsAll scan_dir tracked

      build_entry-Built :
          (name : Text) (x : Node) (repo : Repo)
          → IsTrackableNode ignore x
          → IsContentAddressed w repo
          → Built repo name (build_entry w ignore name x) (tracked_node ignore x)
      build_entry-Built name (Node.file mode bytes) repo h v =
          let (x, back) =
            put-Extends w ObjectKind.blob w.blob repo (record { bytes = bytes }) sound sound.blob
              v in
          record {
            repo' =
                (Objects.put w repo (encode ObjectKind.blob w.blob (record { bytes = bytes }))).1;
            e =
                scanned name EntryKind.file (unix_mode mode)
                  (Objects.put w repo (encode ObjectKind.blob w.blob (record { bytes = bytes }))).0;
            run = refl;
            extends = x;
            name_eq = refl;
            shows = (refl, refl, back);
          }
      build_entry-Built name (Node.symlink target) repo h v =
          let blob : Blob = record { bytes = to_string_lossy target } in
          let (x, back) = put-Extends w ObjectKind.blob w.blob repo blob sound sound.blob v in
          record {
            repo' = (Objects.put w repo (encode ObjectKind.blob w.blob blob)).1;
            e =
                scanned name EntryKind.symlink Tree.symlink_mode
                  (Objects.put w repo (encode ObjectKind.blob w.blob blob)).0;
            run = refl;
            extends = x;
            name_eq = refl;
            shows = (refl, rw (h, to_string_lossy) h, back);
          }
      build_entry-Built name Node.other repo h v = absurd h
      build_entry-Built name (Node.dir es) repo h v =
          let st = Stored-Collected sound repo es v (collect-Collected es [] [] h tt tt) in
          record {
            repo' = st.repo';
            e = scanned name EntryKind.tree Tree.dir st.root;
            run = rw (st.run) refl;
            extends = st.extends;
            name_eq = refl;
            shows = (refl, st.t, st.tree, st.shows);
          }

      collect-Collected :
          (es : Entries) (children : Map (Action TreeEntry)) (acc : Map Node)
          → IsTrackable ignore es
          → AllBuild children acc
          → IsSorted acc
          → Collected es children acc
      collect-Collected Entries.nil children acc h b s = record {
        m = children;
        run = refl;
        build = b;
        sorted = s;
      }
      collect-Collected (Entries.entry n x es) children acc (u, c, h) b s = elim c [
        | inl ig ↦
            let rest = collect-Collected es children acc h b s in
            record {
              m = rest.m;
              run = rw (u, ig) rest.run;
              build = rw (ig) rest.build;
              sorted = rw (ig) rest.sorted;
            }
        | inr (tracked', good, hx) ↦
            let rest =
              collect-Collected es (BTree.insert n (build_entry w ignore n x) children)
                (BTree.insert n (tracked_node ignore x) acc) h
                (AllBuild-insert n (build_entry w ignore n x) (tracked_node ignore x) children acc
                  (good, λ repo v. build_entry-Built n x repo hx v) b)
                (insert-IsSorted n (tracked_node ignore x) acc s) in
            record {
              m = rest.m;
              run = rw (u, tracked') rest.run;
              build = rw (tracked') rest.build;
              sorted = rw (tracked') rest.sorted;
            }
      ]

    -- Scanning a directory that can be recorded succeeds.
    pub scan_dir-Stored :
        (repo : Repo) (es : Entries)
        → IsTrackable ignore es
        → IsContentAddressed w repo
        → Stored repo es
    scan_dir-Stored repo es h v =
        Stored-Collected sound repo es v (collect-Collected es [] [] h tt tt)
