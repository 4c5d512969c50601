-- ===== src/Daemon/Edit/Patch.antt =====
-- `patch_tree_path` from end to end.
use tig.Prelude.{
  Bytes, Text, false, eq_iff, ◌≡◌, refl, sym, ap, ◌∙◌, inl, inr, List, [], Result, ok, arith,
  Bool-cases, ℕ,
}
use tig.Core.Object.{Hash, ObjectKind, encode}
use tig.Core.Tree.{is_empty_text}
use tig.Core.Change.{Change, ChangeId, advance}
use tig.Core.Change.History.{advance_lem}
use tig.Core.Wire.{Wire, IsSound, Snapshot, Sealed, SealAlgo}
use tig.Store.Repo.{Repo}
use tig.Store.Refs
use tig.Store.Objects
use tig.Store.Objects.Laws.{IsContentAddressed}
use tig.Store.OpLog.{OpLog}
use tig.Fs.TreeEdit.{read, split_path, read_blob_at_path}
use tig.Fs.TreeEdit.Extends.{Extends, read-Extends, lookup_entry-Extends, put-Extends}
use tig.Fs.TreeEdit.Level.{CanWrite}
use tig.Fs.TreeEdit.Keeps.{edits-KeepRefs}
use tig.Fs.TreeEdit.Roundtrip.{write_blob-BlobWritten, read_blob-BlobWritten, read_blob-Extends}
use tig.Fs.Snap.{
  SnapOutcome, SnapOptions, new_snapshot, is_unchanged, snap_change_directly, take_snapshot,
}
use tig.Fs.Snap.Laws.{
  snap-unchanged, snap-taken, advance-id, read-put_change, get_change-put_change,
  put_change-Extends,
}
use tig.Fs.Action.{FsError}
use tig.Daemon.Access.{load_mutable_change}
use tig.Daemon.Access.Laws.{load_mutable_change_lem}
use tig.Daemon.Edit.{outcome_change, patch_tree_path, load_for_write, edit_options}

-- What a snapshot of a tree leaves, whether it was already the current one or not.
record Holds (w : Wire) (timestamp now : ℕ) (mid : Repo) (log : OpLog) (id : ChangeId)
    (new_tree : Hash) (opts : SnapOptions) : Type 0 where
  outcome : SnapOutcome
  after : Repo
  log' : OpLog
  snapshot : Snapshot
  run : snap_change_directly w timestamp now mid log id new_tree opts ≡ (ok outcome, after, log')
  extends : Extends w mid after
  stored : Refs.get_change after id ≡ ok (outcome_change outcome)
  shows : read w ObjectKind.snapshot w.snapshot after (outcome_change outcome).current ≡ ok snapshot
  tree : snapshot.tree ≡ new_tree

snap-Holds :
    (w : Wire)
    → IsSound w
    → (timestamp now : ℕ) (mid : Repo) (log : OpLog) (new_tree : Hash) (opts : SnapOptions)
      (c : Change) (prev : Snapshot)
    → IsContentAddressed w mid
    → Refs.get_change mid c.id ≡ ok c
    → read w ObjectKind.snapshot w.snapshot mid c.current ≡ ok prev
    → Holds w timestamp now mid log c.id new_tree opts
snap-Holds w s timestamp now mid log new_tree opts c prev v there seen =
    elim (Bool-cases (is_unchanged prev new_tree opts)) [
      | inl same ↦ record {
        outcome = SnapOutcome.unchanged c;
        after = mid;
        log' = log;
        snapshot = prev;
        run = snap-unchanged w timestamp now mid log c.id new_tree opts c prev there seen same;
        extends = record { keeps = λ h obj e. e; addressed = v };
        stored = there;
        shows = seen;
        tree = ground (arith, eq_iff prev.tree new_tree);
      }
      | inr differs ↦
          let snap : Snapshot = new_snapshot timestamp c new_tree opts in
          let put : Hash × Repo = Objects.put w mid (encode ObjectKind.snapshot w.snapshot snap) in
          let c' : Change = advance c put.0 in
          let (x, back) = put-Extends w ObjectKind.snapshot w.snapshot mid snap s s.snapshot v in
          record {
            outcome = SnapOutcome.snapped put.0 new_tree c' false;
            after = Refs.put_change put.1 c';
            log' = (take_snapshot w timestamp now mid log c.id new_tree opts c).2;
            snapshot = snap;
            run = snap-taken w timestamp now mid log c.id new_tree opts c prev there seen differs;
            extends = put_change-Extends w mid put.1 c' x;
            stored = get_change-put_change put.1 c' c.id (advance-id c put.0);
            shows =
                ap (read w ObjectKind.snapshot w.snapshot (Refs.put_change put.1 c'))
                  (advance_lem c put.0).0
                ∙ read-put_change w put.1 c' put.0
                ∙ back;
            tree = refl;
          }
    ]

-- stands for the sealed object that `edits-KeepRefs` is about too
abbrev no_sealed : Sealed
no_sealed = record {
  algo = SealAlgo.x25519_xchacha20_poly1305;
  ephemeral_pk = [];
  recipients = [];
  ciphertext = [];
  nonce = [];
  aad = [];
}

get_change-changes :
    (a b : Repo) (id : ChangeId)
    → a.changes ≡ b.changes
    → Refs.get_change a id ≡ Refs.get_change b id
unfolding Refs.get_change
get_change-changes a b id e = rw e refl

-- In an intact repository with a sound digest and serializers, when the author of a change stored
-- under its own non-empty id sends bytes for an accepted path whose existing directories can be
-- read, patch_tree_path succeeds, answers with the change as now stored, keeps the store intact,
-- and in the tree of the current snapshot of the change the path reads as those bytes.
pub read_blob-patch_tree_path :
    (w : Wire)
    → IsSound w
    → (timestamp now : ℕ) (repo : Repo) (log : OpLog) (c : Change) (prev : Snapshot) (path : Text)
      (body : Bytes) (p : Text) (ps : List Text)
    → IsContentAddressed w repo
    → Refs.get_change repo c.id ≡ ok c
    → is_empty_text c.id ≡ false
    → read w ObjectKind.snapshot w.snapshot repo c.current ≡ ok prev
    → split_path path ≡ ok (p, ps)
    → CanWrite w repo prev.tree ps p
    → (c' : Change) × (repo' : Repo) × (log' : OpLog) × (snapshot : Snapshot) × (patch_tree_path w
          timestamp now repo log c.author c.id path body
        ≡ (ok c', repo', log'))
      × (Refs.get_change repo' c.id ≡ ok c')
      × (read w ObjectKind.snapshot w.snapshot repo' c'.current ≡ ok snapshot)
      × IsContentAddressed w repo'
      × (read_blob_at_path w repo' snapshot.tree path ≡ ok body)
unfolding patch_tree_path load_for_write
read_blob-patch_tree_path w s timestamp now repo log c prev path body p ps v there named seen parts
      can =
    let b = write_blob-BlobWritten w s repo prev.tree path body p ps v parts can in
    let refs : b.repo'.changes ≡ repo.changes =
      ap (λ (r : Result FsError Hash × Repo). r.1.changes) (sym b.run)
      ∙ (edits-KeepRefs w prev.tree path body no_sealed repo).0.changes in
    let held =
      snap-Holds w s timestamp now b.repo' log b.root' (edit_options c.author) c prev
        b.extends.addressed (get_change-changes b.repo' repo c.id refs ∙ there)
        (read-Extends w ObjectKind.snapshot w.snapshot c.current b.extends seen) in
    let loaded : load_mutable_change repo c.id c.author ≡ ok c =
      (load_mutable_change_lem repo c.id c.author c).0.1 (there, refl) in
    let written : read_blob_at_path w b.repo' b.root' path ≡ ok body =
      read_blob-BlobWritten w parts b in
    (
      outcome_change held.outcome,
      held.after,
      held.log',
      held.snapshot,
      rw (named, loaded, seen, b.run, held.run) refl,
      held.stored,
      held.shows,
      held.extends.addressed,
      ap (λ t. read_blob_at_path w held.after t path) held.tree
          ∙ read_blob-Extends w b.root' b.root' path p ps body held.extends parts
              (λ e. lookup_entry-Extends w b.root' p ps held.extends) written,
    )
