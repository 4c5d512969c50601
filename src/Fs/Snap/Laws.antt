-- ===== src/Fs/Snap/Laws.antt =====
-- What `snap_change_directly` stores, and undoing it.
use tig.Prelude.{
  ℕ, ◌+◌, true, false, eq_iff, ◌≡◌, ◌≢◌, ◌==◌, ◌⊎◌, inl, inr, Bool-cases, Option-cases, none, refl,
  ap, ◌∙◌, some, [], ◌∷◌, ◌++◌, ok, arith,
}
use tig.Prelude.Map.{get-put}
use tig.Core.Object.{Hash, ObjectKind, encode}
use tig.Core.Vis.{PrincipalId}
use tig.Core.Change.{Change, ChangeId, advance}
use tig.Core.Wire.{Wire, IsSound, Snapshot}
use tig.Store.Repo.{Repo}
use tig.Store.Refs
use tig.Store.Objects
use tig.Store.Objects.Laws.{IsContentAddressed}
use tig.Store.OpLog.{Op, OpLog, OpKind, RefSnapshot, append, finalize}
use tig.Store.OpLog.Pick.{top, tail, standing, standing-append}
use tig.Store.Undo.{UndoOutcome, undo_once, read_current}
use tig.Store.Undo.Once.{undo_once_lem}
use tig.Fs.TreeEdit.{read}
use tig.Fs.TreeEdit.Extends.{Extends, put-Extends}
use tig.Fs.Snap.{
  SnapOptions, SnapOutcome, new_snapshot, snap_op, is_unchanged, snap_change_directly,
  take_snapshot,
}

pub advance-id : (c : Change) (h : Hash) → (advance c h).id ≡ c.id
unfolding advance
advance-id c h = ground arith

-- The refs are no part of the object store.
pub put_change-IsContentAddressed :
    (w : Wire) (repo : Repo) (c : Change)
    → IsContentAddressed w repo
    → IsContentAddressed w (Refs.put_change repo c)
unfolding Refs.put_change
put_change-IsContentAddressed w repo c v = record { framed = v.framed }

pub read-put_change :
    (w : Wire) (repo : Repo) (c : Change) (h : Hash)
    → read w ObjectKind.snapshot w.snapshot (Refs.put_change repo c) h
      ≡ read w ObjectKind.snapshot w.snapshot repo h
unfolding Refs.put_change read Objects.get
read-put_change w repo c h = refl

pub put_change-Extends :
    (w : Wire) (repo mid : Repo) (c : Change)
    → Extends w repo mid
    → Extends w repo (Refs.put_change mid c)
unfolding Refs.put_change Objects.get
put_change-Extends w repo mid c x = record {
  keeps = x.keeps;
  addressed = put_change-IsContentAddressed w mid c x.addressed;
}

pub get_change-put_change :
    (repo : Repo) (c : Change) (id : ChangeId)
    → c.id ≡ id
    → Refs.get_change (Refs.put_change repo c) id ≡ ok c
unfolding Refs.put_change Refs.get_change
get_change-put_change repo c id e = ground (arith, get-put c.id id c repo.changes, eq_iff c.id id)

pub read_change :
    (repo : Repo) (id : ChangeId) (c : Change)
    → read_current repo (RefSnapshot.change id (some c)) ≡ RefSnapshot.change id (some c)
    → Refs.get_change repo id ≡ ok c
unfolding read_current
read_change repo id c e = ground arith

-- A change moved to a snapshot: its history gets it, unless it was current already.
abbrev pub Advanced : Change → Hash → Change → Type 0
Advanced c snapshot c' =
    (c'.current ≡ snapshot)
    × (((c.current ≡ snapshot) × (c'.history ≡ c.history))
        ⊎ ((c.current ≢ snapshot) × (c'.history ≡ c.history ++ (snapshot ∷ []))))
    × (c'.id ≡ c.id)
    × (c'.author ≡ c.author)
    × (c'.visibility ≡ c.visibility)
    × (c'.state ≡ c.state)
    × (c'.description ≡ c.description)
    × (c'.bookmark ≡ c.bookmark)

advance-Advanced : (c : Change) (snapshot : Hash) → Advanced c snapshot (advance c snapshot)
unfolding advance
advance-Advanced c snapshot = elim (Bool-cases (c.current == snapshot)) [
  | inl same ↦
      let e = (eq_iff c.current snapshot).0 same in
      rw (same) (e, inl (e, refl), refl, refl, refl, refl, refl, refl)
  | inr other ↦ rw (other) (
    refl,
    inr ((λ e. ground (arith, other, eq_iff c.current snapshot, e)), refl),
    refl,
    refl,
    refl,
    refl,
    refl,
    refl,
  )
]

module _ (w : Wire) (timestamp now : ℕ) (repo : Repo) (log : OpLog) (id : ChangeId)
    (new_tree : Hash) (opts : SnapOptions) (change : Change) (prev : Snapshot) where
  pub snap-unchanged :
      Refs.get_change repo id ≡ ok change
      → read w ObjectKind.snapshot w.snapshot repo change.current ≡ ok prev
      → is_unchanged prev new_tree opts ≡ true
      → snap_change_directly w timestamp now repo log id new_tree opts
        ≡ (ok (SnapOutcome.unchanged change), repo, log)
  unfolding snap_change_directly
  snap-unchanged there seen same = rw (there, seen, same) refl

  pub snap-taken :
      Refs.get_change repo id ≡ ok change
      → read w ObjectKind.snapshot w.snapshot repo change.current ≡ ok prev
      → is_unchanged prev new_tree opts ≡ false
      → snap_change_directly w timestamp now repo log id new_tree opts
        ≡ take_snapshot w timestamp now repo log id new_tree opts change
  unfolding snap_change_directly
  snap-taken there seen differs = rw (there, seen, differs) refl

  abbrev pub snapshot_put : Hash × Repo
  snapshot_put =
      Objects.put w repo
        (encode ObjectKind.snapshot w.snapshot (new_snapshot timestamp change new_tree opts))

  abbrev pub snap_record : Op
  snap_record =
      finalize log.next_id now
        (snap_op id snapshot_put.0 change (advance change snapshot_put.0) opts)

  is_unchanged_of_differs :
      (prev.tree ≢ new_tree) ⊎ ((opts.message ≢ none) ⊎ (opts.force ≡ true))
      → is_unchanged prev new_tree opts ≡ false
  is_unchanged_of_differs (inl tree) = elim (Bool-cases (prev.tree == new_tree)) [
    | inl same ↦ absurd (tree ((eq_iff prev.tree new_tree).0 same))
    | inr other ↦ rw (other) refl
  ]
  is_unchanged_of_differs (inr (inl message)) = elim (Option-cases opts.message) [
    | inl missing ↦ absurd (message missing)
    | inr (m, given) ↦ ground (arith, given)
  ]
  is_unchanged_of_differs (inr (inr force)) = ground (arith, force)

  -- With a sound digest and serializers, for a change stored under its own id in an intact store,
  -- with a new tree, a message or force, snap_change_directly stores a snapshot of the new tree by
  -- the author of the options, with the time, the message and the change's current snapshot as its
  -- only parent, and stores the change with that snapshot as its current one, appended to its
  -- history unless it was current already, and otherwise as it was. It keeps the store intact, and
  -- the snap, with the record of the change before and after it, is on top of the standing
  -- operations.
  pub snap_change_directly_lem :
      IsSound w
      → IsContentAddressed w repo
      → Refs.get_change repo id ≡ ok change
      → change.id ≡ id
      → read w ObjectKind.snapshot w.snapshot repo change.current ≡ ok prev
      → (prev.tree ≢ new_tree) ⊎ ((opts.message ≢ none) ⊎ (opts.force ≡ true))
      → (snapshot : Hash) × (repo' : Repo) × (log' : OpLog) × (change' : Change)
        × (snap_change_directly w timestamp now repo log id new_tree opts
            ≡ (ok (SnapOutcome.snapped snapshot new_tree change' false), repo', log'))
        × (read w ObjectKind.snapshot w.snapshot repo' snapshot
            ≡ ok (record {
              parents = change.current ∷ [];
              tree = new_tree;
              author = opts.author;
              timestamp_ns = timestamp;
              message = opts.message;
              op_id = none;
            }))
        × Advanced change snapshot change'
        × (Refs.get_change repo' id ≡ ok change')
        × IsContentAddressed w repo'
        × (standing log'.ops
            ≡ record {
              id = log.next_id;
              ts_ns = now;
              actor = opts.author;
              kind = OpKind.snap snapshot opts.message;
              before = RefSnapshot.change id (some change) ∷ [];
              after = RefSnapshot.change id (some change') ∷ [];
            }
              ∷ standing log.ops)
  unfolding append
  snap_change_directly_lem s v there own seen differs =
      let (x, back) =
        put-Extends w ObjectKind.snapshot w.snapshot repo
          (new_snapshot timestamp change new_tree opts) s s.snapshot v in
      let change' : Change = advance change snapshot_put.0 in
      (
        snapshot_put.0,
        Refs.put_change snapshot_put.1 change',
        record { next_id = log.next_id + 1; ops = log.ops ++ (snap_record ∷ []) },
        change',
        snap-taken there seen (is_unchanged_of_differs differs),
        read-put_change w snapshot_put.1 change' snapshot_put.0 ∙ back,
        advance-Advanced change snapshot_put.0,
        get_change-put_change snapshot_put.1 change' id (advance-id change snapshot_put.0 ∙ own),
        put_change-IsContentAddressed w snapshot_put.1 change' x.addressed,
        standing-append log.ops snap_record,
      )

  -- For a change stored under its own id, with a new tree, a message or force,
  -- snap_change_directly succeeds, and an undo right after it succeeds too, brings the record of
  -- the change back as it was, and leaves the standing operations as they were before the
  -- snapshot.
  pub undo_once-snap :
      (later : ℕ) (actor : PrincipalId)
      → Refs.get_change repo id ≡ ok change
      → change.id ≡ id
      → read w ObjectKind.snapshot w.snapshot repo change.current ≡ ok prev
      → is_unchanged prev new_tree opts ≡ false
      → (outcome : SnapOutcome) × (repo' : Repo) × (log' : OpLog) × (snap_change_directly w
            timestamp now repo log id new_tree opts
          ≡ (ok outcome, repo', log'))
        × (undone : UndoOutcome) × (repo'' : Repo) × (log'' : OpLog) × (undo_once later repo' log'
              actor
            ≡ (ok (some undone), repo'', log''))
        × (Refs.get_change repo'' id ≡ ok change)
        × (standing log''.ops ≡ standing log.ops)
  unfolding append
  undo_once-snap later actor there own seen differs =
      let log' : OpLog = record {
        next_id = log.next_id + 1;
        ops = log.ops ++ (snap_record ∷ []);
      } in
      let repo' : Repo = Refs.put_change snapshot_put.1 (advance change snapshot_put.0) in
      let stack : standing log'.ops ≡ snap_record ∷ standing log.ops =
        standing-append log.ops snap_record in
      let (repo'', run, (reads, _), left) =
        undo_once_lem later repo' log' actor snap_record (ap top stack) (own, tt) (tt, tt) in
      (
        _,
        repo',
        log',
        snap-taken there seen differs,
        _,
        repo'',
        _,
        run,
        read_change repo'' id change reads,
        left ∙ ap tail stack,
      )
