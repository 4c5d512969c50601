-- ===== src/Store/Gc/Sweep.antt =====
-- What a collection leaves in the store.
use tig.Prelude.{
  ℕ, ◌+◌, ◌≡◌, refl, sym, ap, ◌==◌, eq_iff, contains, Bytes, Bool, true, false, ◌&&◌, not, Option,
  none, some, List, [], ◌∷◌, inl, inr, length, is_none, if◌then◌else◌, Result, ok, err, arith,
  Bool-cases,
}
use tig.Prelude.Map
use tig.Prelude.Map.{Map, get-remove}
use tig.Core.Object.{Hash}
use tig.Core.Wire.{Wire}
use tig.Store.Error.{StoreError}
use tig.Store.Repo.{Repo}
use tig.Store.Objects
use tig.Store.Objects.{iter_all}
use tig.Store.OpLog.{OpLog}
use tig.Store.Gc.{
  GcOptions, GcSummary, unmarked, count_marked, remove_all, sweep, mark, fuel_for, collect_roots,
  collect_garbage,
}
use tig.Store.Gc.Reach.{Reach}
use tig.Store.Gc.Mark.{mark_exact}

-- Whether a hash is among the files to remove.
listed : Hash → List (Hash × ℕ) → Bool
listed h [] = false
listed h ((j, _) ∷ files) = if j == h then true else listed h files

file_of_remove_all :
    (files : List (Hash × ℕ)) (repo : Repo) (h : Hash)
    → Map.get h (remove_all files repo).objects
      ≡ (if listed h files then none else Map.get h repo.objects)
unfolding remove_all listed Objects.remove
file_of_remove_all [] repo h = refl
file_of_remove_all ((j, n) ∷ files) repo h =
    ground (arith, file_of_remove_all files (Objects.remove repo j) h, get-remove j h repo.objects)

listed-unmarked :
    (h : Hash) (marked : List Hash) (m : Map Bytes)
    → listed h (unmarked marked (iter_all m))
      ≡ (not (contains h marked) && not (is_none (Map.get h m)))
unfolding listed unmarked iter_all Map.get
listed-unmarked h marked [] = ground arith
listed-unmarked h marked ((j, f) ∷ m) = ground (arith, listed-unmarked h marked m, eq_iff j h)

file_of_sweep :
    (repo : Repo) (opts : GcOptions) (roots marked : List Hash) (h : Hash)
    → opts.dry_run ≡ false
    → Map.get h (sweep repo opts roots marked).1.objects
      ≡ (if contains h marked then Map.get h repo.objects else none)
unfolding sweep
file_of_sweep repo opts roots marked h real = ground (
  arith,
  file_of_remove_all (unmarked marked (iter_all repo.objects)) repo h,
  listed-unmarked h marked repo.objects,
)

-- Everything but the objects.
pub record SameRefs (a b : Repo) : Type 0 where
  pub changes : a.changes ≡ b.changes
  pub bookmarks : a.bookmarks ≡ b.bookmarks
  pub head : a.head ≡ b.head
  pub workspaces : a.workspaces ≡ b.workspaces

SameRefs-remove_all :
    (files : List (Hash × ℕ)) (repo : Repo) → SameRefs (remove_all files repo) repo
unfolding remove_all Objects.remove
SameRefs-remove_all [] repo = record {
  changes = refl;
  bookmarks = refl;
  head = refl;
  workspaces = refl;
}
SameRefs-remove_all ((j, n) ∷ files) repo =
    let ih = SameRefs-remove_all files (Objects.remove repo j) in
    record {
      changes = ih.changes;
      bookmarks = ih.bookmarks;
      head = ih.head;
      workspaces = ih.workspaces;
    }

SameRefs-sweep :
    (repo : Repo) (opts : GcOptions) (roots marked : List Hash)
    → SameRefs (sweep repo opts roots marked).1 repo
unfolding sweep
SameRefs-sweep repo opts roots marked = elim (Bool-cases opts.dry_run) [
  | inl dry ↦
      rw (dry, sweep) (record { changes = refl; bookmarks = refl; head = refl; workspaces = refl })
  | inr real ↦ rw (real, sweep) (SameRefs-remove_all (unmarked marked (iter_all repo.objects)) repo)
]

pub count_files :
    (marked : List Hash) (files : List (Hash × ℕ))
    → count_marked marked files + length (unmarked marked files) ≡ length files
unfolding count_marked unmarked
count_files marked [] = omega arith
count_files marked ((h, n) ∷ files) = ground (arith, count_files marked files)

module _ (w : Wire) (repo : Repo) (log : OpLog) (opts : GcOptions) (roots : List Hash)
    (summary : GcSummary) (repo' : Repo) where
  -- A collection that succeeds has marked, and swept by what it marked.
  swept :
      collect_roots repo log opts ≡ ok roots
      → collect_garbage w repo log opts ≡ some (ok summary, repo')
      → (marked : List Hash) × (mark w (fuel_for w repo repo.objects roots) repo roots []
          ≡ some (ok marked))
        × (sweep repo opts roots marked ≡ (summary, repo'))
  unfolding collect_garbage
  swept r e = by_mark (mark w (fuel_for w repo repo.objects roots) repo roots []) refl
    where
      by_mark :
          (m : Option (Result StoreError (List Hash)))
          → mark w (fuel_for w repo repo.objects roots) repo roots [] ≡ m
          → (marked : List Hash) × (mark w (fuel_for w repo repo.objects roots) repo roots []
              ≡ some (ok marked))
            × (sweep repo opts roots marked ≡ (summary, repo'))
      by_mark none m = ground arith
      by_mark (some (err x)) m = ground arith
      by_mark (some (ok marked)) m = (marked, m, ground arith)

  collect_garbage_exact :
      collect_roots repo log opts ≡ ok roots
      → collect_garbage w repo log opts ≡ some (ok summary, repo')
      → opts.dry_run ≡ false
      → ((h : Hash) → Reach w repo roots h → Objects.get w repo' h ≡ Objects.get w repo h)
        × ((h : Hash) → ¬ Reach w repo roots h → Objects.get w repo' h ≡ err StoreError.not_found)
        × SameRefs repo' repo
  unfolding Objects.get
  collect_garbage_exact r e real =
      let (marked, m, s) = swept r e in
      let files = λ (h : Hash). file_of_sweep repo opts roots marked h real in
      let exact = λ (h : Hash). mark_exact w repo marked roots _ h m in
      let same : repo' ≡ (sweep repo opts roots marked).1 =
        ap (λ (p : GcSummary × Repo). p.1) (sym s) in
      (
        λ h reach. rw same (rw (files h, (exact h).1 reach)),
        λ h unreached. elim (Bool-cases (contains h marked)) [
          | inl c ↦ absurd (unreached ((exact h).0 c))
          | inr c ↦ rw same (rw (files h, c))
        ],
        rw same (SameRefs-sweep repo opts roots marked),
      )

  -- After a garbage collection that is no dry run and succeeds, every object that can be reached
  -- from the roots it collected, without following symlinks and submodules, reads as it did
  -- before.
  pub collect_garbage_keeps :
      collect_roots repo log opts ≡ ok roots
      → collect_garbage w repo log opts ≡ some (ok summary, repo')
      → opts.dry_run ≡ false
      → (h : Hash) → Reach w repo roots h
      → Objects.get w repo' h ≡ Objects.get w repo h
  collect_garbage_keeps r e real h reach = (collect_garbage_exact r e real).0 h reach

  -- After a garbage collection that is no dry run and succeeds, a hash that cannot be reached from
  -- the roots (symlinks and submodules are not followed) reads as not found.
  pub collect_garbage_removes :
      collect_roots repo log opts ≡ ok roots
      → collect_garbage w repo log opts ≡ some (ok summary, repo')
      → opts.dry_run ≡ false
      → (h : Hash) → ¬ Reach w repo roots h
      → Objects.get w repo' h ≡ err StoreError.not_found
  collect_garbage_removes r e real h unreached = (collect_garbage_exact r e real).1 h unreached

  -- A successful collection that is no dry run leaves the changes, the bookmarks, the head and the
  -- workspaces as they were.
  pub collect_garbage_refs :
      collect_roots repo log opts ≡ ok roots
      → collect_garbage w repo log opts ≡ some (ok summary, repo')
      → opts.dry_run ≡ false
      → SameRefs repo' repo
  collect_garbage_refs r e real = (collect_garbage_exact r e real).2

  -- A successful dry run leaves the repository as it was.
  pub collect_garbage_dry :
      collect_roots repo log opts ≡ ok roots
      → collect_garbage w repo log opts ≡ some (ok summary, repo')
      → opts.dry_run ≡ true
      → repo' ≡ repo
  unfolding sweep
  collect_garbage_dry r e dry = let (marked, m, s) = swept r e in ground arith

  -- The summary of a successful collection counts every stored file as kept or as removed.
  pub collect_garbage_counts :
      collect_roots repo log opts ≡ ok roots
      → collect_garbage w repo log opts ≡ some (ok summary, repo')
      → summary.kept + summary.removed ≡ length (iter_all repo.objects)
  unfolding sweep
  collect_garbage_counts r e =
      let (marked, m, s) = swept r e in ground (arith, count_files marked (iter_all repo.objects))
