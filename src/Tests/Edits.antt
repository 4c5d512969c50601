-- ===== src/Tests/Edits.antt =====
-- The daemon's writing handlers on the small repository.
use tig.Prelude.{
  ℕ, Bytes, Text, text, ◌≡◌, ◌≢◌, refl, sym, ◌∙◌, ◌==◌, cmp, eq_iff, Option, none, some, List, [],
  ◌∷◌, Result, ok, err, true, false,
}
use tig.Core.Object.{Hash, ObjectKind}
use tig.Core.Vis.{VisLabel}
use tig.Core.Change.{Change, ChangeState}
use tig.Core.Wire.{Snapshot, Sealed, SealAlgo}
use tig.Store.Repo.{Repo}
use tig.Store.Refs
use tig.Store.Objects.Laws.{IsContentAddressed}
use tig.Store.OpLog.{OpLog}
use tig.Store.OpLog.Pick.{standing}
use tig.Store.Undo.{UndoOutcome, undo_once}
use tig.Fs.TreeEdit.{read, read_tree, split_path, read_blob_at_path}
use tig.Fs.TreeEdit.Level.{CanWrite}
use tig.Daemon.Error.{ApiError}
use tig.Daemon.Edit.{
  patch_tree_path, delete_tree_path, snap_change, transition_change, transitioned,
}
use tig.Daemon.Edit.Laws.{only_author_writes, undo_once-transition_change}
use tig.Daemon.Edit.Patch.{read_blob-patch_tree_path}
use tig.Tests.Wire.{plain, plain-IsSound}
use tig.Tests.Data.{tree, tree_put, snapshot, repo, repo-IsContentAddressed, change, log}

stored_change : Refs.get_change repo (text "c1") ≡ ok change
unfolding Refs.get_change tig.Prelude.Map.get Refs.put_change tig.Prelude.Map.put
    tig.Store.Objects.put tig.Prelude.◌==◌ tig.Core.Object.hash tig.Core.Object.encode
stored_change = refl

names_differ : (text "ann" == text "bob") ≡ false
unfolding ◌==◌ cmp
names_differ = refl

false-true : false ≡ true → ⊥
false-true e = cc

bob_is_not_ann : text "ann" ≢ text "bob"
bob_is_not_ann e = false-true (sym names_differ ∙ (eq_iff (text "ann") (text "bob")).1 e)

only_author_writes_example :
    (e : ApiError) × (patch_tree_path plain 6 7 repo log
        (text "bob")
        (text "c1")
        (text "a")
        (3 ∷ [])
      ≡ (err e, repo, log))
    × (delete_tree_path plain 6 7 repo log (text "bob") (text "c1") (text "a") ≡ (err e, repo, log))
    × (snap_change plain 6 7 repo log
          (text "bob")
          (text "c1")
          (some (text "ann"))
          (some (text "m"))
          none
        ≡ (err e, repo, log))
    × (transition_change
          (λ s. s)
          7
          repo
          log
          (text "bob")
          (text "c1")
          (some (text "landed"))
          (some (text "public"))
        ≡ (err e, repo, log))
only_author_writes_example =
    only_author_writes plain (λ s. s) 6 7 repo log (text "bob") (text "c1") (text "a") (3 ∷ [])
      (some (text "ann")) (some (text "m")) (some (text "landed")) (some (text "public")) none
      change stored_change bob_is_not_ann

abbrev landed : Change
landed = record change { state = ChangeState.landed; visibility = VisLabel.public }

accepted : transitioned (λ s. s) 7 change (some (text "landed")) (some (text "public")) ≡ ok landed
unfolding tig.Prelude.◌==◌
accepted = refl

undo_once-transition_change_example :
    (repo' : Repo) × (log' : OpLog) × (transition_change
        (λ s. s)
        7
        repo
        log
        (text "ann")
        (text "c1")
        (some (text "landed"))
        (some (text "public"))
      ≡ (ok landed, repo', log'))
    × (undone : UndoOutcome) × (repo'' : Repo) × (log'' : OpLog) × (undo_once 8 repo' log'
          (text "bob")
        ≡ (ok (some undone), repo'', log''))
    × (Refs.get_change repo'' (text "c1") ≡ ok change)
    × (standing log''.ops ≡ standing log.ops)
undo_once-transition_change_example =
    undo_once-transition_change (λ s. s) 7 8 repo log (text "bob") (some (text "landed"))
      (some (text "public")) change landed stored_change refl accepted

abbrev sealed : Sealed
sealed = record {
  algo = SealAlgo.x25519_xchacha20_poly1305;
  ephemeral_pk = 1 ∷ [];
  recipients = [];
  ciphertext = 2 ∷ [];
  nonce = [];
  aad = [];
}

seen_snapshot : read plain ObjectKind.snapshot plain.snapshot repo change.current ≡ ok snapshot
unfolding read tig.Store.Objects.get tig.Prelude.Map.get Refs.put_change tig.Store.Objects.put
    tig.Prelude.Map.put tig.Prelude.◌==◌ tig.Core.Object.hash tig.Core.Object.encode
    tig.Core.Object.from_tag tig.Core.Object.verify tig.Core.Object.decode
seen_snapshot = refl

parts : split_path (text "d/x") ≡ ok (text "d", text "x" ∷ [])
unfolding split_path tig.Prelude.◌==◌ tig.Core.Tree.contains_byte
parts = refl

writable : CanWrite plain repo tree_put.0 (text "x" ∷ []) (text "d")
unfolding read_tree tig.Store.Objects.get tig.Prelude.Map.get Refs.put_change tig.Store.Objects.put
    tig.Prelude.Map.put tig.Prelude.◌==◌ tig.Core.Object.hash tig.Core.Object.encode
    tig.Core.Object.from_tag tig.Core.Object.verify tig.Core.Object.decode tig.Core.Tree.get
    tig.Core.Tree.binary_search
writable = (tree, refl, tt)

read_blob-patch_tree_path_example :
    (c' : Change) × (repo' : Repo) × (log' : OpLog) × (snap : Snapshot) × (patch_tree_path plain 6 7
        repo log
        (text "ann")
        (text "c1")
        (text "d/x")
        (9 ∷ [])
      ≡ (ok c', repo', log'))
    × (Refs.get_change repo' (text "c1") ≡ ok c')
    × (read plain ObjectKind.snapshot plain.snapshot repo' c'.current ≡ ok snap)
    × IsContentAddressed plain repo'
    × (read_blob_at_path plain repo' snap.tree (text "d/x") ≡ ok (9 ∷ []))
read_blob-patch_tree_path_example =
    read_blob-patch_tree_path plain plain-IsSound 6 7 repo log change snapshot (text "d/x") (9 ∷ [])
      (text "d") (text "x" ∷ []) repo-IsContentAddressed stored_change refl seen_snapshot parts
      writable
