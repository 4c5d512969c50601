-- ===== src/Store/Gc/Fuel.antt =====
-- The fuel of the mark loop: each pop is a root or a hash that a stored object names.
use tig.Prelude.{
  ℕ, zero, suc, ◌+◌, ◌≤◌, ◌≡◌, ◌≢◌, refl, ◌==◌, eq_iff, contains, Bytes, false, Option, none, some,
  List, [], ◌∷◌, inl, inr, length, if◌then◌else◌, Result, ok, err, arith, Bool-cases, Option-cases,
  Result-cases,
}
use tig.Prelude.Map
use tig.Prelude.Map.{Map}
use tig.Core.Object.{Hash, ObjectKind, RawObject, decode}
use tig.Core.Tree.{TreeEntry}
use tig.Core.Wire.{Wire}
use tig.Store.Error.{StoreError}
use tig.Store.Repo.{Repo}
use tig.Store.Objects
use tig.Store.OpLog.{OpLog}
use tig.Store.Gc.{
  GcOptions, entry_targets, push_all, expand, expand_kind, expand_read, mark, pushes, fuel_for,
  collect_roots, collect_garbage, finish, mark_and_sweep,
}

length-push_all : (ps queue : List Hash) → length (push_all ps queue) ≡ length ps + length queue
unfolding push_all
length-push_all [] queue = omega arith
length-push_all (p ∷ ps) queue = omega (arith, length-push_all ps (p ∷ queue))

length-entry_targets :
    (es : List TreeEntry) (queue : List Hash)
    → length (entry_targets es queue) ≡ length (entry_targets es []) + length queue
unfolding entry_targets
length-entry_targets [] queue = omega arith
length-entry_targets (e ∷ es) queue = ground (
  arith,
  length-entry_targets es queue,
  length-entry_targets es (e.target ∷ queue),
  length-entry_targets es (e.target ∷ []),
)

module _ (w : Wire) (repo : Repo) where
  length-expand_kind :
      (k : ObjectKind) (raw : RawObject) (queue queue' : List Hash)
      → expand_kind w k raw queue ≡ ok queue'
      → length queue' ≡ length queue + pushes w (expand_kind w k raw [])
  length-expand_kind ObjectKind.blob raw queue queue' e = ground arith
  length-expand_kind ObjectKind.sealed raw queue queue' e = ground arith
  length-expand_kind ObjectKind.conflict raw queue queue' e = ground arith
  length-expand_kind ObjectKind.snapshot raw queue queue' e =
      by_snapshot (decode ObjectKind.snapshot w.snapshot raw) refl
    where
      by_snapshot :
          (r : Result _ _)
          → decode ObjectKind.snapshot w.snapshot raw ≡ r
          → length queue' ≡ length queue + pushes w (expand_kind w ObjectKind.snapshot raw [])
      by_snapshot (ok s) d = ground (
        arith,
        length-push_all s.parents (s.tree ∷ queue),
        length-push_all s.parents (s.tree ∷ []),
      )
      by_snapshot (err x) d = ground arith
  length-expand_kind ObjectKind.tree raw queue queue' e =
      by_tree (decode ObjectKind.tree w.tree raw) refl
    where
      by_tree :
          (r : Result _ _)
          → decode ObjectKind.tree w.tree raw ≡ r
          → length queue' ≡ length queue + pushes w (expand_kind w ObjectKind.tree raw [])
      by_tree (ok t) d = ground (arith, length-entry_targets t.entries queue)
      by_tree (err x) d = ground arith

  length-expand :
      (h : Hash) (queue queue' : List Hash)
      → expand w repo h queue ≡ ok queue'
      → length queue' ≡ length queue + pushes w (expand w repo h [])
  unfolding expand
  length-expand h queue queue' e = by_read (Objects.get w repo h) e
    where
      by_read :
          (r : Result StoreError RawObject)
          → expand_read w r queue ≡ ok queue'
          → length queue' ≡ length queue + pushes w (expand_read w r [])
      by_read (ok raw) e = length-expand_kind raw.kind raw queue queue' e
      by_read (err StoreError.not_found) e = ground arith
      by_read (err _) e = ground arith

  pushes_missing : (h : Hash) → Map.get h repo.objects ≡ none → pushes w (expand w repo h []) ≡ 0
  unfolding expand Objects.get
  pushes_missing h e = ground arith

  -- What the files that are not yet marked can still add to the queue.
  weight : List Hash → Map Bytes → ℕ
  weight marked [] = 0
  weight marked ((h, f) ∷ m) =
      (if contains h marked then 0 else pushes w (expand w repo h [])) + weight marked m

  weight-cons :
      (h : Hash) (marked : List Hash) (m : Map Bytes) → weight (h ∷ marked) m ≤ weight marked m
  unfolding weight contains
  weight-cons h marked [] = omega arith
  weight-cons h marked ((j, f) ∷ m) = ground (arith, weight-cons h marked m)

  weight-mark :
      (h : Hash) (marked : List Hash) (m : Map Bytes)
      → contains h marked ≡ false
      → Map.get h m ≢ none
      → weight (h ∷ marked) m + pushes w (expand w repo h []) ≤ weight marked m
  unfolding weight contains Map.get
  weight-mark h marked [] new there = absurd (there refl)
  weight-mark h marked ((j, f) ∷ m) new there = elim (Bool-cases (j == h)) [
    | inl same ↦
        let e : j ≡ h = (eq_iff j h).0 same in
        rw e (ground (arith, weight-cons h marked m, eq_iff h h))
    | inr other ↦ ground (arith, weight-mark h marked m)
  ]

  less_work :
      (fuel : ℕ) (i : Hash) (queue queue' marked : List Hash)
      → contains i marked ≡ false
      → expand w repo i queue ≡ ok queue'
      → length (i ∷ queue) + weight marked repo.objects ≤ suc fuel
      → length queue' + weight (i ∷ marked) repo.objects ≤ fuel
  less_work fuel i queue queue' marked new e h = elim (Option-cases (Map.get i repo.objects)) [
    | inl absent ↦ omega (
      arith,
      length-expand i queue queue' e,
      pushes_missing i absent,
      weight-cons i marked repo.objects,
    )
    | inr (f, there) ↦
        omega
          (arith, length-expand i queue queue' e, weight-mark i marked repo.objects new (λ p. cc))
  ]

  mark_enough :
      (fuel : ℕ) (queue marked : List Hash)
      → length queue + weight marked repo.objects ≤ fuel
      → mark w fuel repo queue marked ≢ none
  unfolding mark
  mark_enough zero [] marked h = λ p. cc
  mark_enough (suc fuel) [] marked h = λ p. cc
  mark_enough zero (i ∷ queue) marked h = absurd (omega arith)
  mark_enough (suc fuel) (i ∷ queue) marked h = elim (Bool-cases (contains i marked)) [
    | inl old ↦ rw (old, mark) (mark_enough fuel queue marked (omega arith))
    | inr new ↦ elim (Result-cases (expand w repo i queue)) [
      | inl (queue', e) ↦
          rw (new, mark, e)
            (mark_enough fuel queue' (i ∷ marked) (less_work fuel i queue queue' marked new e h))
      | inr (x, e) ↦ rw (new, mark, e) (λ p. cc)
    ]
  ]

  fuel_for-eq :
      (m : Map Bytes) (roots : List Hash) → fuel_for w repo m roots ≡ length roots + weight [] m
  unfolding fuel_for weight contains
  fuel_for-eq [] roots = omega arith
  fuel_for-eq ((h, f) ∷ m) roots = omega (arith, fuel_for-eq m roots)

  -- The fuel given to the mark loop is enough: a collection always ends with a result.
  pub collect_garbage_ends :
      (log : OpLog) (opts : GcOptions) → collect_garbage w repo log opts ≢ none
  unfolding collect_garbage
  collect_garbage_ends log opts = by_roots (collect_roots repo log opts)
    where
      by_roots : (r : Result StoreError (List Hash)) → mark_and_sweep w repo opts r ≢ none
      by_roots (err e) = λ p. cc
      by_roots (ok roots) =
          by_marked (mark w (fuel_for w repo repo.objects roots) repo roots [])
            (mark_enough _ roots [] (omega (arith, fuel_for-eq repo.objects roots)))
        where
          by_marked :
              (m : Option (Result StoreError (List Hash)))
              → m ≢ none
              → finish w repo opts roots m ≢ none
          by_marked none n = absurd (n refl)
          by_marked (some (ok marked)) n = λ p. cc
          by_marked (some (err e)) n = λ p. cc
