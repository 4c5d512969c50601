-- ===== src/Store/Gc/Roots.antt =====
-- The roots of a collection, and what they protect: the snapshots of every change on disk, and
-- those that the operation log captured.
use tig.Prelude.{
  ◌≡◌, refl, ap, ◌∙◌, ◌==◌, eq_iff, contains, Bool, true, false, ◌||◌, none, some, List, [], ◌∷◌,
  ◌++◌, inl, inr, ok, arith, Result-cases, Bool-cases,
}
use tig.Prelude.Map
use tig.Prelude.Map.{Map}
use tig.Core.Object.{Hash}
use tig.Core.Wire.{Wire}
use tig.Core.Change.{Change, ChangeId}
use tig.Store.Repo.{Repo}
use tig.Store.Objects
use tig.Store.Refs.{get_change, list_changes, ids, insert_id, is_hidden}
use tig.Store.OpLog.{Op, OpKind, OpLog, RefSnapshot}
use tig.Store.Gc.{
  GcOptions, GcSummary, add, add_all, add_change, live_roots, capture_roots, kind_roots, log_roots,
  collect_roots, collect_garbage,
}
use tig.Store.Gc.Reach.{root}
use tig.Store.Gc.Sweep.{collect_garbage_keeps}

abbrev pub names_change : Hash → Change → Bool
names_change h c = h == c.current || contains h c.history

unfoldable pub captures : Hash → List RefSnapshot → Bool
captures h [] = false
captures h (RefSnapshot.change _ (some c) ∷ ss) = names_change h c || captures h ss
captures h (_ ∷ ss) = captures h ss

abbrev pub snaps : Hash → OpKind → Bool
snaps h (OpKind.snap g _) = h == g
snaps h _ = false

-- Some operation of the log took the snapshot or captured a change that names it.
unfoldable pub is_logged : Hash → List Op → Bool
unfolding captures
is_logged h [] = false
is_logged h (op ∷ ops) = snaps h op.kind || captures h (op.before ++ op.after) || is_logged h ops

module _ (h : Hash) where
  contains-add :
      (g : Hash) (roots : List Hash) → contains h (add g roots) ≡ (h == g || contains h roots)
  unfolding add contains
  contains-add g roots = ground (arith, eq_iff h g)

  contains-add_all :
      (hs roots : List Hash) → contains h (add_all hs roots) ≡ (contains h hs || contains h roots)
  unfolding add_all contains
  contains-add_all [] roots = refl
  contains-add_all (g ∷ hs) roots =
      ground (arith, contains-add_all hs (add g roots), contains-add g roots)

  contains-add_change :
      (c : Change) (roots : List Hash)
      → contains h (add_change c roots) ≡ (names_change h c || contains h roots)
  unfolding add_change
  contains-add_change c roots =
      ground (arith, contains-add_all c.history (add c.current roots), contains-add c.current roots)

  contains-capture_roots :
      (ss : List RefSnapshot) (roots : List Hash)
      → contains h (capture_roots ss roots) ≡ (captures h ss || contains h roots)
  unfolding capture_roots captures
  contains-capture_roots [] roots = refl
  contains-capture_roots (RefSnapshot.change i (some c) ∷ ss) roots =
      ground (arith, contains-capture_roots ss (add_change c roots), contains-add_change c roots)
  contains-capture_roots (RefSnapshot.change i none ∷ ss) roots = contains-capture_roots ss roots
  contains-capture_roots (_ ∷ ss) roots = contains-capture_roots ss roots

  contains-kind_roots :
      (k : OpKind) (roots : List Hash)
      → contains h (kind_roots k roots) ≡ (snaps h k || contains h roots)
  contains-kind_roots (OpKind.snap g m) roots = contains-add g roots
  contains-kind_roots _ roots = refl

  contains-log_roots :
      (ops : List Op) (roots : List Hash)
      → contains h (log_roots ops roots) ≡ (is_logged h ops || contains h roots)
  unfolding log_roots is_logged
  contains-log_roots [] roots = refl
  contains-log_roots (op ∷ ops) roots = ground (
    arith,
    contains-log_roots ops (capture_roots (op.before ++ op.after) (kind_roots op.kind roots)),
    contains-capture_roots (op.before ++ op.after) (kind_roots op.kind roots),
    contains-kind_roots op.kind roots,
  )

  live_roots_keeps :
      (repo : Repo) (is : List ChangeId) (roots roots' : List Hash)
      → live_roots repo is roots ≡ ok roots'
      → contains h roots ≡ true
      → contains h roots' ≡ true
  unfolding live_roots
  live_roots_keeps repo [] roots roots' e m = ground arith
  live_roots_keeps repo (i ∷ is) roots roots' e m = elim (Result-cases (get_change repo i)) [
    | inl (c, g) ↦
        live_roots_keeps repo is (add_change c roots) roots' (rw (g, live_roots) at e)
          (ground (arith, contains-add_change c roots))
    | inr (x, g) ↦ ground arith
  ]

  contains-live_roots :
      (repo : Repo) (is : List ChangeId) (roots roots' : List Hash) (i : ChangeId) (c : Change)
      → live_roots repo is roots ≡ ok roots'
      → contains i is ≡ true
      → get_change repo i ≡ ok c
      → names_change h c ≡ true
      → contains h roots' ≡ true
  unfolding live_roots contains
  contains-live_roots repo [] roots roots' i c e m g n = cc
  contains-live_roots repo (j ∷ is) roots roots' i c e m g n =
      elim (Result-cases (get_change repo j)) [
        | inl (d, gd) ↦
            let next : live_roots repo is (add_change d roots) ≡ ok roots' =
              rw (gd, live_roots) at e in
            elim (Bool-cases (i == j)) [
              | inl same ↦
                  let found : d ≡ c = ground (arith, eq_iff i j) in
                  live_roots_keeps repo is (add_change d roots) roots' next
                    (ground (arith, contains-add_change d roots, ap (names_change h) found))
              | inr other ↦
                  contains-live_roots repo is (add_change d roots) roots' i c next (ground arith) g
                    n
            ]
        | inr (x, gd) ↦ ground arith
      ]

contains-insert_id :
    (i j : ChangeId) (js : List ChangeId) → contains i (insert_id j js) ≡ (i == j || contains i js)
unfolding contains insert_id
contains-insert_id i j [] = refl
contains-insert_id i j (k ∷ ks) = ground (arith, contains-insert_id i j ks)

contains-ids :
    (i : ChangeId) (m : Map Change) (c : Change)
    → is_hidden i ≡ false
    → Map.get i m ≡ some c
    → contains i (ids m) ≡ true
unfolding ids Map.get
contains-ids i [] c v e = cc
contains-ids i ((j, d) ∷ m) c v e = elim (Bool-cases (j == i)) [
  | inl same ↦
      let p : j ≡ i = (eq_iff j i).0 same in
      rw (ap is_hidden p ∙ v, ids) (contains-insert_id i j (ids m) ∙ ground (arith, eq_iff i j))
  | inr other ↦
      let ih = contains-ids i m c v (ground arith) in
      elim (Bool-cases (is_hidden j)) [
        | inl hidden ↦ rw (hidden, ids) ih
        | inr shown ↦ rw (shown, ids) (contains-insert_id i j (ids m) ∙ ground arith)
      ]
]

module _ (w : Wire) (repo : Repo) (log : OpLog) (opts : GcOptions) (summary : GcSummary)
    (repo' : Repo) where
  rooted :
      collect_garbage w repo log opts ≡ some (ok summary, repo')
      → (roots : List Hash) × (collect_roots repo log opts ≡ ok roots)
  unfolding collect_garbage
  rooted e = elim (Result-cases (collect_roots repo log opts)) [
    | inl (roots, r) ↦ (roots, r)
    | inr (x, r) ↦ ground arith
  ]

  -- After a successful collection that is no dry run, every snapshot that a stored change, no
  -- dotfile, names, as its current one or in its history, reads as it did before.
  pub collect_garbage_keeps_changes :
      collect_garbage w repo log opts ≡ some (ok summary, repo')
      → opts.dry_run ≡ false
      → (i : ChangeId) (c : Change) (h : Hash) → is_hidden i ≡ false
      → get_change repo i ≡ ok c
      → names_change h c ≡ true
      → Objects.get w repo' h ≡ Objects.get w repo h
  unfolding collect_roots list_changes get_change
  collect_garbage_keeps_changes e real i c h v g n =
      let (roots, r) = rooted e in
      collect_garbage_keeps w repo log opts roots summary repo' r e real h (
        root (elim (Result-cases (live_roots repo (list_changes repo) [])) [
          | inl (live, l) ↦
              let listed : contains i (list_changes repo) ≡ true =
                contains-ids i repo.changes c v (ground arith) in
              let there = contains-live_roots h repo (list_changes repo) [] live i c l listed g n in
              ground (arith, contains-log_roots h log.ops live)
          | inr (x, l) ↦ ground arith
        ]))

  -- With the operation log included, after a successful collection that is no dry run, every
  -- snapshot that a logged operation took or captured reads as it did before.
  pub collect_garbage_keeps_logged :
      collect_garbage w repo log opts ≡ some (ok summary, repo')
      → opts.dry_run ≡ false
      → opts.include_oplog_snapshots ≡ true
      → (h : Hash) → is_logged h log.ops ≡ true
      → Objects.get w repo' h ≡ Objects.get w repo h
  unfolding collect_roots
  collect_garbage_keeps_logged e real all h n =
      let (roots, r) = rooted e in
      collect_garbage_keeps w repo log opts roots summary repo' r e real h (
        root (elim (Result-cases (live_roots repo (list_changes repo) [])) [
          | inl (live, l) ↦ ground (arith, contains-log_roots h log.ops live)
          | inr (x, l) ↦ ground arith
        ]))
