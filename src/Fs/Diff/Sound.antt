-- ===== src/Fs/Diff/Sound.antt =====
-- What a diff reports has changed, and passes the filter.
use tig.Prelude.{
  Result, Text, refl, ◌∙◌, ℕ, zero, suc, Bytes, ◌==◌, eq_refl, ◌≡◌, ◌≢◌, Bool-cases, true, false,
  ◌&&◌, Option, none, some, List, [], ◌∷◌, ◌++◌, inl, inr, and_then-ok, map_err-ok, ok, map_err,
  arith,
}
use tig.Prelude.Map
use tig.Prelude.Map.{Map}
use tig.Core.Object.{Hash}
use tig.Core.Tree.{EntryKind, TreeEntry, entry_kind_eq}
use tig.Core.Wire.{Wire}
use tig.Store.Repo.{Repo}
use tig.Fs.Materialize.{Stop, entry_path}
use tig.Fs.TreeEdit.{read_tree}
use tig.Fs.Diff.Reported.{
  HasTarget, Differs, Listed, Sub, AllReported, AllReported-append, AllReported-below, At-here,
  entry_path-eq-below,
}
use tig.Fs.Diff.{
  ChangeKind, FileDiff, DiffOptions, LineChange, Recurse, emit_change, content_change, kind_of,
  target_of, is_filtered_out, emit, is_tree, diff_both, diff_entry, diff_name, diff_names,
  same_hash, entries_of, diff_subtree, diff_trees,
}
use tig.Fs.Diff.Filter.{Passes-of_filter}

-- The reported changes are of the two trees, and pass the filter.
abbrev pub AllReal : Wire → Repo → DiffOptions → Hash → Hash → List FileDiff → Type 0
AllReal w repo opts from to ds = AllReported w repo opts.paths [] (some from) (some to) ds

entry_kind_eq_refl : (k : EntryKind) → entry_kind_eq k k ≡ true
entry_kind_eq_refl k = ground arith

eq_of_entry_kind_eq : (a b : EntryKind) → entry_kind_eq a b ≡ true → a ≡ b
eq_of_entry_kind_eq a b h = ground (arith, h)

ne_of_entry_kind_eq : (a b : EntryKind) → entry_kind_eq a b ≡ false → a ≢ b
ne_of_entry_kind_eq a b h e = ground (arith, h, e, entry_kind_eq_refl b)

ne_of_eq : (a b : Bytes) → a == b ≡ false → a ≢ b
ne_of_eq a b h e = ground (arith, h, e, eq_refl b)

module _ (w : Wire) (similar : Text → Text → ℕ → List (List LineChange)) (repo : Repo)
    (opts : DiffOptions) where
  pub record Emitted (path : Text) (kind : ChangeKind) (f t : Option TreeEntry) (ds : List FileDiff)
      : Type 0 where
    pub d : FileDiff
    pub one : ds ≡ d ∷ []
    pub path_eq : d.path ≡ path
    pub kind_eq : d.kind ≡ kind
    pub from_eq : d.from_target ≡ target_of f
    pub to_eq : d.to_target ≡ target_of t

  pub emit-Emitted :
      (path : Text) (kind : ChangeKind) (f t : Option TreeEntry) (ds : List FileDiff)
      → emit w similar repo opts path kind f t ≡ ok ds
      → Emitted path kind f t ds
  unfolding emit_change
  emit-Emitted path kind f t ds h =
      let (d, run, one) =
        and_then-ok (map_err Stop.failed (emit_change w similar repo opts path kind f t)) _ h in
      let (c, _, built) =
        and_then-ok
          (content_change w similar repo opts kind (kind_of kind f t) (target_of f) (target_of t)) _
          (map_err-ok Stop.failed (emit_change w similar repo opts path kind f t) run) in
      record {
        d = d;
        one = ground (arith, one);
        path_eq = ground (arith, built);
        kind_eq = ground (arith, built);
        from_eq = ground (arith, built);
        to_eq = ground (arith, built);
      }

  abbrev Reports : Text → Option Hash → Option Hash → List FileDiff → Type 0
  Reports prefix from to ds = AllReported w repo opts.paths prefix from to ds

  abbrev Real : Recurse w similar repo opts → Type 0
  Real go =
      (from to : Option Hash) (prefix : Text) (ds : List FileDiff)
      → go from to prefix ≡ ok ds
      → Reports prefix from to ds

  nothing :
      (prefix : Text) (from to : Option Hash) (ds : List FileDiff)
      → ◌≡◌ {A = Result Stop (List FileDiff)} (ok []) (ok ds)
      → Reports prefix from to ds
  nothing prefix from to ds h = let none_left : [] ≡ ds = ground (arith, h) in rw (← none_left) tt

  target_of-HasTarget :
      (f : Option TreeEntry) (target : Option Hash) → target ≡ target_of f → HasTarget f target
  target_of-HasTarget none target e = e
  target_of-HasTarget (some f) target e = e

  entries_of-Listed :
      (h : Option Hash) (m : Map TreeEntry)
      → entries_of w similar repo opts h ≡ ok m
      → Listed w repo h m
  entries_of-Listed none m e = ground (arith, e)
  entries_of-Listed (some h) m e =
      let (t, r, e1) = and_then-ok (read_tree w repo h) _ e in (t, r, ground (arith, e1))

  module _ (go : Recurse w similar repo opts) (real : Real go) (from to : Option Hash)
      (prefix : Text) (mf mt : Map TreeEntry) (lf : Listed w repo from mf)
      (lt : Listed w repo to mt) (n : Text)
      (seen : is_filtered_out opts (entry_path prefix n) ≡ false) where
    emit-Reports :
        (kind : ChangeKind) (f t : Option TreeEntry) (ds : List FileDiff)
        → Map.get n mf ≡ f
        → Map.get n mt ≡ t
        → Differs kind f t
        → emit w similar repo opts (entry_path prefix n) kind f t ≡ ok ds
        → Reports prefix from to ds
    emit-Reports kind f t ds ef et differs h =
        let e = emit-Emitted (entry_path prefix n) kind f t ds h in
        rw (e.one) (
          record {
            n = n;
            ns = [];
            f = f;
            t = t;
            path_eq = e.path_eq ∙ entry_path-eq-below prefix n;
            passes = rw (e.path_eq) (Passes-of_filter opts (entry_path prefix n) seen);
            from_at = rw (ef) at (At-here w repo from mf n lf);
            to_at = rw (et) at (At-here w repo to mt n lt);
            from_target = target_of-HasTarget f e.d.from_target e.from_eq;
            to_target = target_of-HasTarget t e.d.to_target e.to_eq;
            differs = rw (e.kind_eq) differs;
          },
          tt,
        )

    below-Reports :
        (f t : Option TreeEntry) (sub_from sub_to : Option Hash) (ds : List FileDiff)
        → Map.get n mf ≡ f
        → Map.get n mt ≡ t
        → Sub w repo f sub_from
        → Sub w repo t sub_to
        → go sub_from sub_to (entry_path prefix n) ≡ ok ds
        → Reports prefix from to ds
    below-Reports f t sub_from sub_to ds ef et sf st h =
        AllReported-below w repo opts.paths prefix from to mf mt n sub_from sub_to ds lf lt
          (rw (ef) sf) (rw (et) st) (real sub_from sub_to (entry_path prefix n) ds h)

    diff_both-Reports :
        (f t : TreeEntry) (ds : List FileDiff)
        → Map.get n mf ≡ some f
        → Map.get n mt ≡ some t
        → diff_both w similar repo opts go (entry_path prefix n) f t ≡ ok ds
        → Reports prefix from to ds
    diff_both-Reports f t ds ef et h =
        elim (Bool-cases (f.target == t.target && entry_kind_eq f.kind t.kind)) [
          | inl same ↦ nothing prefix from to ds (rw (same) at h)
          | inr changed ↦
              elim (Bool-cases (is_tree w similar repo opts f && is_tree w similar repo opts t)) [
                | inl both ↦
                    below-Reports (some f) (some t) (some f.target) (some t.target) ds ef et
                      (eq_of_entry_kind_eq f.kind EntryKind.tree (ground (arith, both)), refl)
                      (eq_of_entry_kind_eq t.kind EntryKind.tree (ground (arith, both)), refl)
                      (rw (changed, both) at h)
                | inr neither ↦ elim (Bool-cases (entry_kind_eq f.kind t.kind)) [
                  | inl kinds ↦
                      emit-Reports ChangeKind.modified (some f) (some t) ds ef et
                        (
                          f,
                          t,
                          refl,
                          refl,
                          eq_of_entry_kind_eq f.kind t.kind kinds,
                          ne_of_eq f.target t.target (ground (arith, changed, kinds)),
                        )
                        (rw (changed, neither, kinds) at h)
                  | inr kinds ↦
                      emit-Reports (ChangeKind.type_changed f.kind t.kind) (some f) (some t) ds ef
                        et (f, t, refl, refl, refl, refl, ne_of_entry_kind_eq f.kind t.kind kinds)
                        (rw (changed, neither, kinds) at h)
                ]
              ]
        ]

    diff_entry-Reports :
        (f t : Option TreeEntry) (ds : List FileDiff)
        → Map.get n mf ≡ f
        → Map.get n mt ≡ t
        → diff_entry w similar repo opts go (entry_path prefix n) f t ≡ ok ds
        → Reports prefix from to ds
    diff_entry-Reports none none ds ef et h = nothing prefix from to ds h
    diff_entry-Reports (some f) (some t) ds ef et h = diff_both-Reports f t ds ef et h
    diff_entry-Reports (some f) none ds ef et h =
        elim (Bool-cases (is_tree w similar repo opts f)) [
          | inl tree ↦
              below-Reports (some f) none (some f.target) none ds ef et
                (eq_of_entry_kind_eq f.kind EntryKind.tree tree, refl) refl (rw (tree) at h)
          | inr leaf ↦
              emit-Reports ChangeKind.removed (some f) none ds ef et (refl, f, refl)
                (rw (leaf) at h)
        ]
    diff_entry-Reports none (some t) ds ef et h =
        elim (Bool-cases (is_tree w similar repo opts t)) [
          | inl tree ↦
              below-Reports none (some t) none (some t.target) ds ef et refl
                (eq_of_entry_kind_eq t.kind EntryKind.tree tree, refl) (rw (tree) at h)
          | inr leaf ↦
              emit-Reports ChangeKind.added none (some t) ds ef et (refl, t, refl) (rw (leaf) at h)
        ]

  module _ (go : Recurse w similar repo opts) (real : Real go) (from to : Option Hash)
      (prefix : Text) (mf mt : Map TreeEntry) (lf : Listed w repo from mf)
      (lt : Listed w repo to mt) where
    diff_name-Reports :
        (n : Text) (ds : List FileDiff)
        → diff_name w similar repo opts go prefix mf mt n ≡ ok ds
        → Reports prefix from to ds
    diff_name-Reports n ds h = elim (Bool-cases (is_filtered_out opts (entry_path prefix n))) [
      | inl out ↦ nothing prefix from to ds (rw (out) at h)
      | inr seen ↦
          diff_entry-Reports go real from to prefix mf mt lf lt n seen (Map.get n mf) (Map.get n mt)
            ds refl refl (rw (seen) at h)
    ]

    diff_names-Reports :
        (names : Map (Unit {0})) (ds : List FileDiff)
        → diff_names w similar repo opts go prefix mf mt names ≡ ok ds
        → Reports prefix from to ds
    unfolding diff_names
    diff_names-Reports [] ds h = nothing prefix from to ds h
    diff_names-Reports ((name, u) ∷ names) ds h =
        let (here, e, h1) = and_then-ok (diff_name w similar repo opts go prefix mf mt name) _ h in
        let (rest, e', h2) =
          and_then-ok (diff_names w similar repo opts go prefix mf mt names) _ h1 in
        let same : here ++ rest ≡ ds = ground (arith, h2) in
        rw (← same) (
          AllReported-append w repo opts.paths prefix from to here rest
            (diff_name-Reports name here e) (diff_names-Reports names rest e'))

  diff_subtree-Real : (fuel : ℕ) → Real (diff_subtree w similar repo opts fuel)
  unfolding diff_subtree
  diff_subtree-Real zero f t prefix ds h = absurd (ground (arith, h))
  diff_subtree-Real (suc fuel) f t prefix ds h =
      elim (Bool-cases (same_hash w similar repo opts f t)) [
        | inl same ↦ nothing prefix f t ds (rw (same) at h)
        | inr other ↦
            let (from, rf, h1) =
              and_then-ok (map_err Stop.failed (entries_of w similar repo opts f)) _
                (rw (other) at h) in
            let (to, rt, h2) =
              and_then-ok (map_err Stop.failed (entries_of w similar repo opts t)) _ h1 in
            diff_names-Reports (diff_subtree w similar repo opts fuel) (diff_subtree-Real fuel) f t
              prefix from to (entries_of-Listed f from (map_err-ok Stop.failed _ rf))
              (entries_of-Listed t to (map_err-ok Stop.failed _ rt)) _ ds h2
      ]

  -- Each change that diff_trees reports is of a path at which the old tree holds its old target,
  -- or nothing if it has none, and the new tree likewise its new one: an added path is in the new
  -- tree only, a removed path in the old one only, a modified path has entries of one kind with
  -- two different targets, and a changed type has entries of the two different kinds that it
  -- names. Without path filters every path passes; with filters, one of them begins the path as a
  -- text, or the path begins it.
  pub diff_trees-AllReal :
      (fuel : ℕ) (from to : Hash) (ds : List FileDiff)
      → diff_trees w similar repo opts fuel from to ≡ ok ds
      → AllReal w repo opts from to ds
  unfolding diff_trees
  diff_trees-AllReal fuel from to ds h = elim (Bool-cases (from == to)) [
    | inl same ↦ nothing [] (some from) (some to) ds (rw (same) at h)
    | inr other ↦ diff_subtree-Real fuel (some from) (some to) [] ds (rw (other) at h)
  ]
