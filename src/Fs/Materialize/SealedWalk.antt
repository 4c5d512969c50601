-- ===== src/Fs/Materialize/SealedWalk.antt =====
-- A tree in which no sealed entry is found has none.
use mathlib.Core.List.{Memᴰ}
use tig.Prelude.{
  ℕ, zero, suc, Text, ◌≡◌, ◌≢◌, refl, sym, ◌∙◌, Result, ok, Result-cases, List, [], ◌∷◌, ◌++◌,
  and_then-ok, inl, inr, arith,
}
use tig.Core.Object.{Hash}
use tig.Core.Tree.{EntryKind, Tree, TreeEntry}
use tig.Core.Wire.{Wire}
use tig.Store.Repo.{Repo}
use tig.Fs.TreeEdit.{read_tree}
use tig.Fs.Materialize.{
  Stop, entry_path, walk_for_sealed, walk_entries, walk_kind, collect_sealed_paths,
}

module _ (w : Wire) (repo : Repo) where
  -- A sealed entry in the tree or in a tree below it.
  pub data HasSealed : Hash → Type 0 where
    here :
        {h : Hash} {t : Tree} {e : TreeEntry}
        → read_tree w repo h ≡ ok t
        → Memᴰ e t.entries
        → e.kind ≡ EntryKind.sealed
        → HasSealed h
    below :
        {h : Hash} {t : Tree} {e : TreeEntry}
        → read_tree w repo h ≡ ok t
        → Memᴰ e t.entries
        → e.kind ≡ EntryKind.tree
        → HasSealed e.target
        → HasSealed h

  abbrev IsClear : TreeEntry → Type 0
  IsClear e = (e.kind ≢ EntryKind.sealed) × (e.kind ≡ EntryKind.tree → ¬ HasSealed e.target)

  abbrev Clears : (Hash → Text → List Text → Result Stop (List Text)) → Type 0
  Clears go =
      (h : Hash) (path : Text) (out : List Text)
      → go h path out ≡ ok []
      → (out ≡ []) × (¬ HasSealed h)

  append-not_empty : (xs : List Text) (x : Text) → xs ++ (x ∷ []) ≢ []
  append-not_empty [] x h = ground (arith, h)
  append-not_empty (y ∷ ys) x h = ground (arith, h)

  other_kind :
      (e : TreeEntry) (k : EntryKind)
      → e.kind ≡ k
      → k ≢ EntryKind.sealed
      → k ≢ EntryKind.tree
      → IsClear e
  other_kind e k same s t = ((λ x. s (sym same ∙ x)), λ x. absurd (t (sym same ∙ x)))

  walk_kind-IsClear :
      (go : Hash → Text → List Text → Result Stop (List Text))
      → Clears go
      → (path : Text) (e : TreeEntry) (out : List Text) (k : EntryKind) → e.kind ≡ k
      → walk_kind w repo go path e out k ≡ ok []
      → (out ≡ []) × IsClear e
  walk_kind-IsClear go clears path e out EntryKind.sealed k h =
      absurd (append-not_empty out path (ground (arith, h)))
  walk_kind-IsClear go clears path e out EntryKind.tree k h =
      let (empty, clear) = clears e.target path out h in
      (empty, ((λ s. ground (arith, s, k)), λ _. clear))
  walk_kind-IsClear go clears path e out EntryKind.file k h = (
    ground (arith, h),
    other_kind e EntryKind.file k (λ x. ground (arith, x)) (λ x. ground (arith, x)),
  )
  walk_kind-IsClear go clears path e out EntryKind.symlink k h = (
    ground (arith, h),
    other_kind e EntryKind.symlink k (λ x. ground (arith, x)) (λ x. ground (arith, x)),
  )
  walk_kind-IsClear go clears path e out EntryKind.submodule k h = (
    ground (arith, h),
    other_kind e EntryKind.submodule k (λ x. ground (arith, x)) (λ x. ground (arith, x)),
  )
  walk_kind-IsClear go clears path e out EntryKind.conflict k h = (
    ground (arith, h),
    other_kind e EntryKind.conflict k (λ x. ground (arith, x)) (λ x. ground (arith, x)),
  )

  all-IsClear :
      (x : TreeEntry) (es : List TreeEntry)
      → IsClear x
      → ((e : TreeEntry) → Memᴰ e es → IsClear e)
      → (e : TreeEntry) → Memᴰ e (x ∷ es)
      → IsClear e
  all-IsClear x es clear rest e (Memᴰ.head {x = y} {xs} same) = rw (same) clear
  all-IsClear x es clear rest e (Memᴰ.tail {x = y} {xs} m) = rest e m

  not_HasSealed :
      (h : Hash) (t : Tree)
      → read_tree w repo h ≡ ok t
      → ((e : TreeEntry) → Memᴰ e t.entries → IsClear e)
      → ¬ HasSealed h
  not_HasSealed h t there clear (here {t = t'} {e} r m k) =
      let same : t' ≡ t = ground (arith, there, r) in (clear e (rw (same) at m)).0 k
  not_HasSealed h t there clear (below {t = t'} {e} r m k s) =
      let same : t' ≡ t = ground (arith, there, r) in (clear e (rw (same) at m)).1 k s

  walk_entries-IsClear :
      (go : Hash → Text → List Text → Result Stop (List Text))
      → Clears go
      → (path : Text) (es : List TreeEntry) (out : List Text)
      → walk_entries w repo go path es out ≡ ok []
      → (out ≡ []) × ((e : TreeEntry) → Memᴰ e es → IsClear e)
  unfolding walk_entries
  walk_entries-IsClear go clears path [] out h = (ground (arith, h), λ e m. elim m [ ])
  walk_entries-IsClear go clears path (x ∷ es) out h =
      let (mid, first, h1) =
        and_then-ok (walk_kind w repo go (entry_path path x.name) x out x.kind) _ h in
      let (mid_empty, rest) = walk_entries-IsClear go clears path es mid h1 in
      let (empty, clear) =
        walk_kind-IsClear go clears (entry_path path x.name) x out x.kind refl
          (rw (mid_empty) at first) in
      (empty, all-IsClear x es clear rest)

  walk_for_sealed-Clears : (fuel : ℕ) → Clears (walk_for_sealed w repo fuel)
  unfolding walk_for_sealed
  walk_for_sealed-Clears zero h path out r = absurd (ground (arith, r))
  walk_for_sealed-Clears (suc fuel) h path out r = elim (Result-cases (read_tree w repo h)) [
    | inr (e, missing) ↦ absurd (ground (arith, missing, r))
    | inl (t, there) ↦
        let (empty, clear) =
          walk_entries-IsClear (walk_for_sealed w repo fuel) (walk_for_sealed-Clears fuel) path
            t.entries out (rw (there) at r) in
        (empty, not_HasSealed h t there clear)
  ]

  pub collect_sealed_paths-not_HasSealed :
      (fuel : ℕ) (h : Hash) → collect_sealed_paths w repo fuel h ≡ ok [] → ¬ HasSealed h
  collect_sealed_paths-not_HasSealed fuel h r = (walk_for_sealed-Clears fuel h [] [] r).1
