-- ===== src/Daemon/Edit/Laws.antt =====
-- The writing handlers: who may call them, and undoing a transition.
use tig.Prelude.{
  ℕ, ◌+◌, Bytes, Text, Bool, false, ◌≡◌, ◌≢◌, refl, sym, ap, ◌∙◌, Option, some, [], ◌∷◌, ◌++◌,
  Result, ok, err, and_then, arith, Result-cases, inl, inr,
}
use tig.Core.Tree.{is_empty_text}
use tig.Core.Vis.{PrincipalId}
use tig.Core.Change.{Change, ChangeId}
use tig.Core.Wire.{Wire}
use tig.Store.Repo.{Repo}
use tig.Store.Refs
use tig.Store.OpLog.{Op, OpLog, append, finalize}
use tig.Store.OpLog.Pick.{top, tail, standing, standing-append}
use tig.Store.Undo.{UndoOutcome, undo_once}
use tig.Store.Undo.Once.{undo_once_lem}
use tig.Fs.Snap.Laws.{read_change}
use tig.Daemon.Error.{ApiError}
use tig.Daemon.Access.{load_mutable_change}
use tig.Daemon.Access.Laws.{load_mutable_change_lem}
use tig.Daemon.Edit.{
  load_for_write, patch_tree_path, delete_tree_path, snap_change, transition_change, transitioned,
  transition_op,
}

load_for_write-author :
    (repo : Repo) (id : Text) (caller : PrincipalId) (c : Change)
    → load_for_write repo id caller ≡ ok c
    → (Refs.get_change repo id ≡ ok c) × (c.author ≡ caller)
unfolding load_for_write
load_for_write-author repo id caller c e =
    (load_mutable_change_lem repo id caller c).0.0 (ground arith)

load_for_write-refuses :
    (repo : Repo) (id : Text) (caller : PrincipalId) (c : Change)
    → Refs.get_change repo id ≡ ok c
    → c.author ≢ caller
    → (e : ApiError) × (load_for_write repo id caller ≡ err e)
load_for_write-refuses repo id caller c there other =
    elim (Result-cases (load_for_write repo id caller)) [
      | inr refused ↦ refused
      | inl (d, loaded) ↦
          let (there', own) = load_for_write-author repo id caller d loaded in
          absurd (other (ground (arith, there, there', own)))
    ]

-- A caller who is not the author of a stored change gets an error from each handler that edits,
-- deletes, snaps or transitions it, and neither the repository nor the log changes.
pub only_author_writes :
    (w : Wire) (to_lowercase : Text → Text) (timestamp now : ℕ) (repo : Repo) (log : OpLog)
    (caller : PrincipalId) (id path : Text) (body : Bytes) (author : Option PrincipalId)
    (message state visibility : Option Text) (force : Option Bool) (c : Change)
    → Refs.get_change repo id ≡ ok c
    → c.author ≢ caller
    → (e : ApiError) × (patch_tree_path w timestamp now repo log caller id path body
        ≡ (err e, repo, log))
      × (delete_tree_path w timestamp now repo log caller id path ≡ (err e, repo, log))
      × (snap_change w timestamp now repo log caller id author message force ≡ (err e, repo, log))
      × (transition_change to_lowercase now repo log caller id state visibility
          ≡ (err e, repo, log))
unfolding patch_tree_path delete_tree_path snap_change transition_change
only_author_writes w to_lowercase timestamp now repo log caller id path body author message state
      visibility force c there other =
    let (e, refused) = load_for_write-refuses repo id caller c there other in
    (e, rw refused refl, rw refused refl, rw refused refl, rw refused refl)

-- A chain of two parses around a record with a fixed id.
id-and_then :
    {S V : Type 0} (r : Result ApiError S) (q : Result ApiError V) (build : S → V → Change)
    (i : ChangeId) {c : Change}
    → ((s : S) (v : V) → (build s v).id ≡ i)
    → and_then r (λ s. and_then q λ v. ok (build s v)) ≡ ok c
    → c.id ≡ i
id-and_then (ok s) (ok v) build i same e = ground (arith, same s v)
id-and_then (ok s) (err x) build i same e = ground arith
id-and_then (err x) q build i same e = ground arith

-- When the author of a change, stored under its own non-empty id, asks for a transition that is
-- accepted, transition_change succeeds, and an undo right after it brings the record of the change
-- and the standing operations back.
pub undo_once-transition_change :
    (to_lowercase : Text → Text) (now later : ℕ) (repo : Repo) (log : OpLog) (actor : PrincipalId)
    (state visibility : Option Text) (before change : Change)
    → Refs.get_change repo before.id ≡ ok before
    → is_empty_text before.id ≡ false
    → transitioned to_lowercase now before state visibility ≡ ok change
    → (repo' : Repo) × (log' : OpLog) × (transition_change to_lowercase now repo log before.author
          before.id state visibility
        ≡ (ok change, repo', log'))
      × (undone : UndoOutcome) × (repo'' : Repo) × (log'' : OpLog) × (undo_once later repo' log'
            actor
          ≡ (ok (some undone), repo'', log''))
      × (Refs.get_change repo'' before.id ≡ ok before)
      × (standing log''.ops ≡ standing log.ops)
unfolding transition_change load_for_write append
undo_once-transition_change to_lowercase now later repo log actor state visibility before change
      there named accepted =
    let same : change.id ≡ before.id =
      id-and_then _ _ (λ s v. record before { state = s; visibility = v }) before.id (λ s v. refl)
        accepted in
    let loaded : load_mutable_change repo before.id before.author ≡ ok before =
      (load_mutable_change_lem repo before.id before.author before).0.1 (there, refl) in
    let op : Op = finalize log.next_id now (transition_op before.author before change) in
    let log' : OpLog = record { next_id = log.next_id + 1; ops = log.ops ++ (op ∷ []) } in
    let repo' : Repo = Refs.put_change repo change in
    let stack : standing log'.ops ≡ op ∷ standing log.ops = standing-append log.ops op in
    let (repo'', run, (reads, _), left) =
      undo_once_lem later repo' log' actor op (ap top stack) (sym same, tt) (tt, tt) in
    (
      repo',
      log',
      rw (named, loaded, accepted) refl,
      _,
      repo'',
      _,
      run,
      ap (Refs.get_change repo'') (sym same) ∙ read_change repo'' change.id before reads,
      left ∙ ap tail stack,
    )
