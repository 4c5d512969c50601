-- ===== src/Fs/Restore/Laws.antt =====
-- What a restore does to the working directory, whether it succeeds or not.
use tig.Prelude.{
  text, ℕ, Text, ◌≡◌, refl, eq_iff, ◌⊎◌, Bool, Bool-cases, true, false, is_none, List, [], ◌∷◌, inl,
  inr, Result, Result-cases, ok, err, and_then, arith,
}
use tig.Core.Object.{Hash, ObjectKind}
use tig.Core.Wire.{Wire, Snapshot}
use tig.Store.Repo.{Repo}
use tig.Fs.Action.{FsError}
use tig.Fs.TreeEdit.{read}
use tig.Fs.TreeEdit.Extends.{Extends}
use tig.Fs.Workdir.{Entries, Os}
use tig.Fs.Scan.{scan}
use tig.Fs.Materialize.{Stop, collect_sealed_paths}
use tig.Fs.Materialize.SealedWalk.{HasSealed, collect_sealed_paths-not_HasSealed}
use tig.Fs.Restore.Cleared.{Cleared}
use tig.Fs.Restore.{
  RestoreOptions, restore_tree_into, sealed_check, dirty_check, compare_scan, refuse_sealed,
}

-- What no scan tracks.
abbrev pub ignored : List Text
ignored = text ".tig" ∷ text ".tig-worktrees" ∷ []

module _ (w : Wire) (os : Os) (fuel : ℕ) where
  -- The directory scans to the tree of the current snapshot.
  abbrev IsClean : Repo → Entries → Hash → Type 0
  IsClean repo workdir current_snapshot =
      (current : Snapshot) × (repo' : Repo) × (scan w workdir repo ≡ (ok current.tree, repo'))
      × (read w ObjectKind.snapshot w.snapshot repo' current_snapshot ≡ ok current)

  -- The checks that a restore has passed before it touches the directory.
  pub record Passed (repo : Repo) (target_snapshot : Hash) (workdir : Entries)
      (current_snapshot : Hash) (opts : RestoreOptions) : Type 0 where
    pub target : Snapshot
    pub target_eq : read w ObjectKind.snapshot w.snapshot repo target_snapshot ≡ ok target
    pub unsealed : (is_none opts.materialize.unsealer ≡ false) ⊎ (¬ HasSealed w repo target.tree)
    pub clean : (opts.force ≡ true) ⊎ IsClean repo workdir current_snapshot

  checked :
      (p : Result Stop (Unit {0}) × Repo)
      → ((r : Repo) × (p ≡ (ok tt, r))) ⊎ ((e : Stop) × (r : Repo) × (p ≡ (err e, r)))
  checked (ok tt, r) = inl (r, refl)
  checked (err e, r) = inr (e, r, refl)

  refuse_sealed-ok : (r : Result Stop (List Text)) → and_then r refuse_sealed ≡ ok tt → r ≡ ok []
  refuse_sealed-ok (ok []) h = refl
  refuse_sealed-ok (ok (_ ∷ _)) h = cc
  refuse_sealed-ok (err e) h = cc

  sealed_check-ok :
      (repo : Repo) (tree : Hash) (opts : RestoreOptions)
      → sealed_check w os fuel repo tree opts ≡ ok tt
      → (is_none opts.materialize.unsealer ≡ false) ⊎ (¬ HasSealed w repo tree)
  sealed_check-ok repo tree opts h = elim (Bool-cases (is_none opts.materialize.unsealer)) [
    | inl b ↦ inr (
        collect_sealed_paths-not_HasSealed w repo fuel tree
          (refuse_sealed-ok (collect_sealed_paths w repo fuel tree) (rw (b) at h)))
    | inr b ↦ inl b
  ]

  compare_scan-ok :
      (repo : Repo) (current_snapshot : Hash) (scanned : Result FsError Hash × Repo)
      → compare_scan w os fuel current_snapshot scanned ≡ (ok tt, repo)
      → (current : Snapshot) × (scanned ≡ (ok current.tree, repo))
        × (read w ObjectKind.snapshot w.snapshot repo current_snapshot ≡ ok current)
  compare_scan-ok repo current_snapshot (err e, r) h = absurd (ground arith)
  compare_scan-ok repo current_snapshot (ok tree, r) h =
      elim (Result-cases (read w ObjectKind.snapshot w.snapshot r current_snapshot)) [
        | inl (current, there) ↦
            (current, ground (arith, there, eq_iff tree current.tree), ground (arith, there))
        | inr (e, missing) ↦ absurd (ground (arith, missing))
      ]

  dirty_check-ok :
      (repo repo' : Repo) (workdir : Entries) (current_snapshot : Hash) (force : Bool)
      → dirty_check w os fuel repo workdir current_snapshot force ≡ (ok tt, repo')
      → (force ≡ true) ⊎ IsClean repo workdir current_snapshot
  dirty_check-ok repo repo' workdir current_snapshot true h = inl refl
  dirty_check-ok repo repo' workdir current_snapshot false h =
      let (current, run, there) = compare_scan-ok repo' current_snapshot (scan w workdir repo) h in
      inr (current, repo', run, there)

  -- A restore, whether it succeeds or not, leaves the working directory as it was, or its target
  -- snapshot was read, an unsealer is given or no sealed entry is in the tree of the target or in
  -- a tree below it, and it was forced or the directory scanned to the tree of the current
  -- snapshot.
  pub restore_tree_into-Passed :
      (repo : Repo) (target_snapshot : Hash) (workdir : Entries) (current_snapshot : Hash)
      (opts : RestoreOptions)
      → ((restore_tree_into w os fuel repo target_snapshot workdir current_snapshot opts).2
          ≡ workdir)
        ⊎ Passed repo target_snapshot workdir current_snapshot opts
  unfolding restore_tree_into
  restore_tree_into-Passed repo target_snapshot workdir current_snapshot opts =
      elim (Result-cases (read w ObjectKind.snapshot w.snapshot repo target_snapshot)) [
        | inr (e, missing) ↦ inl (rw (missing) refl)
        | inl (target, there) ↦ elim (Result-cases (sealed_check w os fuel repo target.tree opts)) [
          | inr (e, sealed) ↦ inl (rw (there, sealed) refl)
          | inl (u, unsealed) ↦
              elim (checked (dirty_check w os fuel repo workdir current_snapshot opts.force)) [
                | inr (e, r, dirty) ↦ inl (rw (there, unsealed, dirty) refl)
                | inl (r, clean) ↦ inr (record {
                  target = target;
                  target_eq = there;
                  unsealed = sealed_check-ok repo target.tree opts unsealed;
                  clean = dirty_check-ok repo r workdir current_snapshot opts.force clean;
                })
              ]
        ]
      ]
