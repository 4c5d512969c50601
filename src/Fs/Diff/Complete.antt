-- ===== src/Fs/Diff/Complete.antt =====
-- A diff without a path filter that reports nothing.
use tig.Prelude.{
  ℕ, zero, suc, Text, ◌==◌, eq_iff, ◌≡◌, refl, ◌⊎◌, Bool-cases, true, false, ◌&&◌, Option, none,
  some, List, [], ◌∷◌, ◌++◌, inl, inr, and_then-ok, map_err-ok, ok, map_err, arith,
}
use tig.Prelude.Map
use tig.Prelude.Map.{Map}
use tig.Core.Object.{Hash}
use tig.Core.Tree.{Tree, TreeEntry, entry_kind_eq}
use tig.Core.Wire.{Wire}
use tig.Store.Repo.{Repo}
use tig.Fs.TreeEdit.{read_tree}
use tig.Fs.Materialize.{Stop, entry_path}
use tig.Fs.Diff.{
  ChangeKind, FileDiff, DiffOptions, LineChange, Recurse, is_filtered_out, emit, is_tree, diff_both,
  diff_entry, diff_name, diff_names, by_name, names_of, diff_maps, same_hash, entries_of,
  diff_subtree, diff_trees,
}
use tig.Fs.Diff.Sound.{emit-Emitted}
use tig.Fs.Diff.Names.{In, In-names_of_kept, In-names_of}

module _ (w : Wire) (similar : Text → Text → ℕ → List (List LineChange)) (repo : Repo)
    (opts : DiffOptions) where
  -- An entry along a path, by its components.
  abbrev pub Reaches : Hash → Text → List Text → TreeEntry → Type 0
  Reaches h n [] e =
      (t : Tree) × (read_tree w repo h ≡ ok t) × (Map.get n (by_name t.entries []) ≡ some e)
  Reaches h n (m ∷ ms) e =
      (t : Tree) × (d : TreeEntry) × (read_tree w repo h ≡ ok t)
      × (Map.get n (by_name t.entries []) ≡ some d)
      × (is_tree w similar repo opts d ≡ true)
      × Reaches d.target m ms e

  -- The same content at a path.
  abbrev pub Keeps : Option Hash → Text → List Text → TreeEntry → Type 0
  Keeps none n ns e = ⊥
  Keeps (some h) n ns e =
      (e' : TreeEntry) × Reaches h n ns e'
      × (entry_kind_eq e.kind e'.kind ≡ true)
      × (e.target ≡ e'.target)

  abbrev Matches : Hash → Option Hash → Type 0
  Matches f t =
      (n : Text) (ns : List Text) (e : TreeEntry)
      → Reaches f n ns e
      → is_tree w similar repo opts e ≡ false
      → Keeps t n ns e

  abbrev Finds : Recurse w similar repo opts → Type 0
  Finds go =
      (f : Hash) (t : Option Hash) (prefix : Text) → go (some f) t prefix ≡ ok [] → Matches f t

  append-empty : (a b : List FileDiff) → a ++ b ≡ [] → (a ≡ []) × (b ≡ [])
  append-empty [] b h = (refl, h)
  append-empty (d ∷ a) b h = absurd (ground (arith, h))

  diff_names-empty :
      (go : Recurse w similar repo opts) (prefix : Text) (from to : Map TreeEntry)
      (names : Map (Unit {0})) (k : Text)
      → diff_names w similar repo opts go prefix from to names ≡ ok []
      → In k names
      → diff_name w similar repo opts go prefix from to k ≡ ok []
  unfolding diff_names
  diff_names-empty go prefix from to [] k h i = absurd i
  diff_names-empty go prefix from to ((name, u) ∷ names) k h i =
      let (here, e, h1) = and_then-ok (diff_name w similar repo opts go prefix from to name) _ h in
      let (rest, e', h2) =
        and_then-ok (diff_names w similar repo opts go prefix from to names) _ h1 in
      let (none_here, none_there) = append-empty here rest (ground (arith, h2)) in
      elim i [
        | inl same ↦ rw (← same) (rw (none_here) at e)
        | inr there ↦ diff_names-empty go prefix from to names k (rw (none_there) at e') there
      ]

  emit-not_empty :
      (path : Text) (kind : ChangeKind) (f t : Option TreeEntry)
      → emit w similar repo opts path kind f t ≡ ok []
      → ⊥
  emit-not_empty path kind f t h =
      let e = emit-Emitted w similar repo opts path kind f t [] h in ground (arith, e.one)

  -- What a silent comparison of two entries of the same name means.
  diff_both-empty :
      (go : Recurse w similar repo opts) (path : Text) (f t : TreeEntry)
      → diff_both w similar repo opts go path f t ≡ ok []
      → ((f.target ≡ t.target) × (entry_kind_eq f.kind t.kind ≡ true))
        ⊎ ((is_tree w similar repo opts f ≡ true)
            × (is_tree w similar repo opts t ≡ true)
            × (go (some f.target) (some t.target) path ≡ ok []))
  diff_both-empty go path f t h =
      elim (Bool-cases (f.target == t.target && entry_kind_eq f.kind t.kind)) [
        | inl same ↦ inl (ground (arith, same, eq_iff f.target t.target), ground (arith, same))
        | inr changed ↦
            elim (Bool-cases (is_tree w similar repo opts f && is_tree w similar repo opts t)) [
              | inl both ↦ inr (ground (arith, both), ground (arith, both), rw (changed, both) at h)
              | inr neither ↦ elim (Bool-cases (entry_kind_eq f.kind t.kind)) [
                | inl kinds ↦ absurd (emit-not_empty path _ _ _ (rw (changed, neither, kinds) at h))
                | inr kinds ↦ absurd (emit-not_empty path _ _ _ (rw (changed, neither, kinds) at h))
              ]
            ]
      ]

  is_tree-kinds :
      (f t : TreeEntry)
      → entry_kind_eq f.kind t.kind ≡ true
      → is_tree w similar repo opts f ≡ true
      → is_tree w similar repo opts t ≡ true
  is_tree-kinds f t k h = ground arith

  -- One level, with the entry of the other side.
  level_leaf :
      (go : Recurse w similar repo opts) (path : Text) (e : TreeEntry) (t : Option TreeEntry)
      → is_tree w similar repo opts e ≡ false
      → diff_entry w similar repo opts go path (some e) t ≡ ok []
      → (e' : TreeEntry) × (t ≡ some e')
        × (entry_kind_eq e.kind e'.kind ≡ true)
        × (e.target ≡ e'.target)
  level_leaf go path e none leaf h = absurd (emit-not_empty path _ _ _ (rw (leaf) at h))
  level_leaf go path e (some e') leaf h = elim (diff_both-empty go path e e' h) [
    | inl (target, kinds) ↦ (e', refl, kinds, target)
    | inr (tree, _, _) ↦ absurd (ground (arith, tree, leaf))
  ]

  level_tree :
      (go : Recurse w similar repo opts) (path : Text) (d : TreeEntry) (t : Option TreeEntry)
      (m : Text) (ms : List Text) (e : TreeEntry)
      → Finds go
      → is_tree w similar repo opts d ≡ true
      → diff_entry w similar repo opts go path (some d) t ≡ ok []
      → Reaches d.target m ms e
      → is_tree w similar repo opts e ≡ false
      → (d' : TreeEntry) × (t ≡ some d')
        × (is_tree w similar repo opts d' ≡ true)
        × Keeps (some d'.target) m ms e
  level_tree go path d none m ms e finds tree h reach leaf =
      absurd (finds d.target none path (rw (tree) at h) m ms e reach leaf)
  level_tree go path d (some d') m ms e finds tree h reach leaf =
      elim (diff_both-empty go path d d' h) [
        | inl (target, kinds) ↦
            (d', refl, is_tree-kinds d d' kinds tree, (e, rw (← target) reach, ground arith, refl))
        | inr (_, tree', below) ↦
            (d', refl, tree', finds d.target (some d'.target) path below m ms e reach leaf)
      ]

  -- An entry of the second side comes from its tree.
  abbrev Side : Option Hash → Text → TreeEntry → Type 0
  Side none n e = ⊥
  Side (some h) n e =
      (t : Tree) × (read_tree w repo h ≡ ok t) × (Map.get n (by_name t.entries []) ≡ some e)

  entries_of-Side :
      (t : Option Hash) (to : Map TreeEntry) (n : Text) (e : TreeEntry)
      → entries_of w similar repo opts t ≡ ok to
      → Map.get n to ≡ some e
      → Side t n e
  unfolding Map.get
  entries_of-Side none to n e h g = absurd (ground (arith, h, g))
  entries_of-Side (some f) to n e h g =
      let (t, r, h1) = and_then-ok (read_tree w repo f) _ h in
      let same : by_name t.entries [] ≡ to = ground (arith, h1) in (t, r, rw (same) g)

  Keeps-here :
      (t : Option Hash) (n : Text) (e e' : TreeEntry)
      → Side t n e'
      → entry_kind_eq e.kind e'.kind ≡ true
      → e.target ≡ e'.target
      → Keeps t n [] e
  Keeps-here none n e e' side kinds target = absurd side
  Keeps-here (some h) n e e' side kinds target = (e', side, kinds, target)

  Keeps-there :
      (t : Option Hash) (n m : Text) (ms : List Text) (e d : TreeEntry)
      → Side t n d
      → is_tree w similar repo opts d ≡ true
      → Keeps (some d.target) m ms e
      → Keeps t n (m ∷ ms) e
  Keeps-there none n m ms e d side tree below = absurd side
  Keeps-there (some h) n m ms e d (t, r, g) tree (e', reach, kinds, target) =
      (e', (t, d, r, g, tree, reach), kinds, target)

  module _ (unfiltered : opts.paths ≡ []) where
    passes : (path : Text) → is_filtered_out opts path ≡ false
    passes path = rw (unfiltered) refl

    -- The comparison of a name that the first side has.
    diff_entry_of_maps :
        (go : Recurse w similar repo opts) (prefix : Text) (from to : Map TreeEntry) (n : Text)
        (e : TreeEntry)
        → diff_maps w similar repo opts go prefix from to ≡ ok []
        → Map.get n from ≡ some e
        → diff_entry w similar repo opts go (entry_path prefix n) (some e) (Map.get n to) ≡ ok []
    diff_entry_of_maps go prefix from to n e h g =
        let silent =
          diff_names-empty go prefix from to (names_of to (names_of from [])) n h
            (In-names_of_kept n to (names_of from []) (In-names_of n from [] g)) in
        rw (passes (entry_path prefix n), g) at silent

    maps-Matches :
        (go : Recurse w similar repo opts) (prefix : Text) (f : Hash) (tf : Tree) (t : Option Hash)
        (to : Map TreeEntry)
        → Finds go
        → read_tree w repo f ≡ ok tf
        → entries_of w similar repo opts t ≡ ok to
        → diff_maps w similar repo opts go prefix (by_name tf.entries []) to ≡ ok []
        → Matches f t
    maps-Matches go prefix f tf t to finds rf rt h n [] e (tf', r, g) leaf =
        let same : tf' ≡ tf = ground (arith, r, rf) in
        let silent =
          diff_entry_of_maps go prefix (by_name tf.entries []) to n e h (rw (← same) g) in
        let (e', there, kinds, target) =
          level_leaf go (entry_path prefix n) e (Map.get n to) leaf silent in
        Keeps-here t n e e' (entries_of-Side t to n e' rt there) kinds target
    maps-Matches go prefix f tf t to finds rf rt h n (m ∷ ms) e (tf', d, r, g, tree, reach) leaf =
        let same : tf' ≡ tf = ground (arith, r, rf) in
        let silent =
          diff_entry_of_maps go prefix (by_name tf.entries []) to n d h (rw (← same) g) in
        let (d', there, tree', below) =
          level_tree go (entry_path prefix n) d (Map.get n to) m ms e finds tree silent reach
            leaf in
        Keeps-there t n m ms e d' (entries_of-Side t to n d' rt there) tree' below

    Matches-same : (f : Hash) → Matches f (some f)
    Matches-same f n ns e reach leaf = (e, reach, ground arith, refl)

    Matches-same_hash :
        (f : Hash) (t : Option Hash) → same_hash w similar repo opts (some f) t ≡ true → Matches f t
    Matches-same_hash f none h = absurd (ground (arith, h))
    Matches-same_hash f (some t) h = rw (← (eq_iff f t).0 h) (Matches-same f)

    diff_subtree-Finds : (fuel : ℕ) → Finds (diff_subtree w similar repo opts fuel)
    unfolding diff_subtree
    diff_subtree-Finds zero f t prefix h = absurd (ground (arith, h))
    diff_subtree-Finds (suc fuel) f t prefix h =
        elim (Bool-cases (same_hash w similar repo opts (some f) t)) [
          | inl same ↦ Matches-same_hash f t same
          | inr other ↦
              let (from, rf, h1) =
                and_then-ok (map_err Stop.failed (entries_of w similar repo opts (some f))) _
                  (rw (other) at h) in
              let (to, rt, h2) =
                and_then-ok (map_err Stop.failed (entries_of w similar repo opts t)) _ h1 in
              let (tf, read_from, built) =
                and_then-ok (read_tree w repo f) _ (map_err-ok Stop.failed _ rf) in
              let same : by_name tf.entries [] ≡ from = ground (arith, built) in
              maps-Matches (diff_subtree w similar repo opts fuel) prefix f tf t to
                (diff_subtree-Finds fuel) read_from (map_err-ok Stop.failed _ rt) (rw (same) h2)
        ]

    -- If diff_trees without a path filter reports nothing, then every entry that is no tree and is
    -- reached by a path in the old tree is reached by the same path in the new tree, with the same
    -- kind and target.
    pub diff_trees-Keeps :
        (fuel : ℕ) (from to : Hash) (n : Text) (ns : List Text) (e : TreeEntry)
        → diff_trees w similar repo opts fuel from to ≡ ok []
        → Reaches from n ns e
        → is_tree w similar repo opts e ≡ false
        → Keeps (some to) n ns e
    unfolding diff_trees
    diff_trees-Keeps fuel from to n ns e h reach leaf = elim (Bool-cases (from == to)) [
      | inl same ↦ Matches-same_hash from (some to) same n ns e reach leaf
      | inr other ↦ diff_subtree-Finds fuel from (some to) [] (rw (other) at h) n ns e reach leaf
    ]
