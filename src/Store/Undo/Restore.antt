-- ===== src/Store/Undo/Restore.antt =====
-- Writing captured refs back.
use tig.Prelude.{
  Option-cases, inl, inr, ◌≡◌, refl, ◌∙◌, eq_iff, eq_refl, none, some, List, [], ◌∷◌, ok, arith,
}
use tig.Prelude.Map
use tig.Prelude.Map.{get-put, get-remove}
use tig.Store.Repo.{Repo}
use tig.Store.Refs.{
  put_change, get_change, delete_change, set_bookmark, get_bookmark, delete_bookmark, head,
  set_head, clear_head, put_workspace, get_workspace, delete_workspace,
}
use tig.Store.OpLog.{RefSnapshot}
use tig.Store.Undo.{read_current, restore_ref, restore_all}
use tig.Store.Undo.Apart.{Apart, ApartFrom, AllApart, IsWritable, AllWritable}

-- A captured ref that can be written is written, and then reads as captured; refs apart from it
-- read as before.
pub record Restores (s : RefSnapshot) (repo repo' : Repo) : Type 0 where
  pub written : restore_ref s repo ≡ ok repo'
  pub reads : read_current repo' s ≡ s
  pub others : (t : RefSnapshot) → Apart s t → read_current repo' t ≡ read_current repo t

restore_ref-reads :
    (s : RefSnapshot) (repo : Repo)
    → IsWritable s
    → (repo' : Repo) × (restore_ref s repo ≡ ok repo') × (read_current repo' s ≡ s)
unfolding restore_ref read_current head set_head clear_head put_change get_change delete_change
    put_workspace get_workspace delete_workspace set_bookmark get_bookmark delete_bookmark
restore_ref-reads (RefSnapshot.head none) repo w = (_, refl, refl)
restore_ref-reads (RefSnapshot.head (some id)) repo w = (_, refl, ground arith)
restore_ref-reads (RefSnapshot.change id none) repo w =
    (_, refl, ground (arith, get-remove id id repo.changes, eq_refl id))
restore_ref-reads (RefSnapshot.change id (some c)) repo w =
    (_, refl, ground (arith, get-put c.id id c repo.changes, eq_iff c.id id))
restore_ref-reads (RefSnapshot.workspace id none) repo w =
    elim (Option-cases (Map.get id repo.workspaces)) [
      | inl absent ↦ (repo, ground arith, ground arith)
      | inr (m, there) ↦ (
        record repo { workspaces = Map.remove id repo.workspaces },
        ground arith,
        ground (arith, get-remove id id repo.workspaces, eq_refl id),
      )
    ]
restore_ref-reads (RefSnapshot.workspace id (some m)) repo w =
    (_, refl, ground (arith, get-put m.id id m repo.workspaces, eq_iff m.id id))
restore_ref-reads (RefSnapshot.bookmark name none) repo w =
    (_, refl, ground (arith, get-remove name name repo.bookmarks, eq_refl name))
restore_ref-reads (RefSnapshot.bookmark name (some id)) repo w = (
  record repo { bookmarks = Map.put name id repo.bookmarks },
  ground arith,
  ground (arith, get-put name name id repo.bookmarks, eq_refl name),
)

restore_ref-others :
    (s t : RefSnapshot) (repo repo' : Repo)
    → IsWritable s
    → Apart s t
    → restore_ref s repo ≡ ok repo'
    → read_current repo' t ≡ read_current repo t
unfolding restore_ref read_current head set_head clear_head put_change get_change delete_change
    put_workspace get_workspace delete_workspace set_bookmark get_bookmark delete_bookmark
restore_ref-others (RefSnapshot.head none) (RefSnapshot.head _) repo repo' w a e = absurd a
restore_ref-others (RefSnapshot.head none) _ repo repo' w a e = ground arith
restore_ref-others (RefSnapshot.head (some id)) (RefSnapshot.head _) repo repo' w a e = absurd a
restore_ref-others (RefSnapshot.head (some id)) _ repo repo' w a e = ground arith
restore_ref-others (RefSnapshot.change i none) (RefSnapshot.change j _) repo repo' w a e =
    ground (arith, get-remove i j repo.changes, eq_iff i j)
restore_ref-others (RefSnapshot.change i none) _ repo repo' w a e = ground arith
restore_ref-others (RefSnapshot.change i (some c)) (RefSnapshot.change j _) repo repo' w a e =
    ground (arith, get-put c.id j c repo.changes, eq_iff c.id j)
restore_ref-others (RefSnapshot.change i (some c)) _ repo repo' w a e = ground arith
restore_ref-others (RefSnapshot.workspace i none) (RefSnapshot.workspace j _) repo repo' w a e =
    ground (arith, get-remove i j repo.workspaces, eq_iff i j)
restore_ref-others (RefSnapshot.workspace i none) _ repo repo' w a e = ground arith
restore_ref-others (RefSnapshot.workspace i (some m)) (RefSnapshot.workspace j _) repo repo' w a e =
    ground (arith, get-put m.id j m repo.workspaces, eq_iff m.id j)
restore_ref-others (RefSnapshot.workspace i (some m)) _ repo repo' w a e = ground arith
restore_ref-others (RefSnapshot.bookmark i none) (RefSnapshot.bookmark j _) repo repo' w a e =
    ground (arith, get-remove i j repo.bookmarks, eq_iff i j)
restore_ref-others (RefSnapshot.bookmark i none) _ repo repo' w a e = ground arith
restore_ref-others (RefSnapshot.bookmark i (some id)) (RefSnapshot.bookmark j _) repo repo' w a e =
    ground (arith, get-put i j id repo.bookmarks, eq_iff i j)
restore_ref-others (RefSnapshot.bookmark i (some id)) _ repo repo' w a e = ground arith

pub restore_ref-Restores :
    (s : RefSnapshot) (repo : Repo) → IsWritable s → (repo' : Repo) × Restores s repo repo'
restore_ref-Restores s repo w =
    let (repo', e, r) = restore_ref-reads s repo w in
    (
      repo',
      record { written = e; reads = r; others = λ t a. restore_ref-others s t repo repo' w a e },
    )

abbrev pub AllRead : Repo → List RefSnapshot → Type 0
AllRead repo [] = Unit
AllRead repo (s ∷ ss) = (read_current repo s ≡ s) × AllRead repo ss

-- Captures of different refs are all written back, and no other ref is touched.
pub restore_all_lem :
    (ss : List RefSnapshot) (repo : Repo)
    → AllWritable ss
    → AllApart ss
    → (repo' : Repo) × (restore_all ss repo ≡ (ok tt, repo'))
      × AllRead repo' ss
      × ((t : RefSnapshot) → ApartFrom t ss → read_current repo' t ≡ read_current repo t)
unfolding restore_all
restore_all_lem [] repo w a = (repo, refl, tt, λ t _. refl)
restore_all_lem (s ∷ ss) repo (w, ws) (a, rest) =
    let (r1, one) = restore_ref-Restores s repo w in
    let (r2, e, reads, others) = restore_all_lem ss r1 ws rest in
    (
      r2,
      rw (one.written, restore_all) e,
      (others s a ∙ one.reads, reads),
      λ t (b, bs). others t bs ∙ one.others t b,
    )
