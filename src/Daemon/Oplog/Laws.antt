-- ===== src/Daemon/Oplog/Laws.antt =====
-- What the operation log shows of changes.
use mathlib.Core.List.{Memᴰ}
use tig.Prelude.{
  Option, contains, true, ◌||◌, ◌==◌, eq_iff, ◌≡◌, refl, ap, ◌∙◌, inl, inr, some, List, [], ◌∷◌,
  ◌++◌, ok, arith, Result-cases, Bool-cases,
}
use tig.Core.Vis.{PrincipalId, MaySee, can_see_iff}
use tig.Core.Change.{Change, ChangeId}
use tig.Store.Error.{StoreError}
use tig.Store.Repo.{Repo, WorkspaceManifest, WorkspaceId}
use tig.Store.Refs
use tig.Store.OpLog.{Op, RefSnapshot}
use tig.Daemon.Oplog.{
  referenced, collect_ids, sort, dedup, referenced_change_ids, all_visible, is_op_visible,
}

contains-insert_id :
    (g id : ChangeId) (ids : List ChangeId)
    → contains g (Refs.insert_id id ids) ≡ (g == id || contains g ids)
unfolding contains Refs.insert_id
contains-insert_id g id [] = refl
contains-insert_id g id (j ∷ js) = ground (arith, contains-insert_id g id js)

contains-sort : (g : ChangeId) (ids : List ChangeId) → contains g (sort ids) ≡ contains g ids
unfolding contains sort
contains-sort g [] = refl
contains-sort g (id ∷ ids) = ground (arith, contains-insert_id g id (sort ids), contains-sort g ids)

contains-dedup : (g : ChangeId) (ids : List ChangeId) → contains g (dedup ids) ≡ contains g ids
unfolding contains dedup
contains-dedup g [] = refl
contains-dedup g (a ∷ []) = refl
contains-dedup g (a ∷ b ∷ ids) =
    ground (arith, contains-dedup g (b ∷ ids), eq_iff a b, eq_iff g a, eq_iff g b)

-- Every listed change is stored and may be seen.
AllSeen : Repo → PrincipalId → List ChangeId → Type 0
AllSeen repo caller ids =
    (id : ChangeId)
    → contains id ids ≡ true
    → (c : Change) × (Refs.get_change repo id ≡ ok c) × MaySee c.visibility c.author (some caller)

all_visible-AllSeen :
    (repo : Repo) (caller : PrincipalId) (ids : List ChangeId)
    → all_visible repo caller ids ≡ ok true
    → AllSeen repo caller ids
unfolding all_visible AllSeen contains
all_visible-AllSeen repo caller [] e g m = ground arith
all_visible-AllSeen repo caller (id ∷ ids) e g m = elim (Result-cases (Refs.get_change repo id)) [
  | inr (StoreError.not_found, missing) ↦ ground arith
  | inr (_, failed) ↦ ground arith
  | inl (c, stored) ↦ elim (Bool-cases (g == id)) [
    | inl here ↦ (
      c,
      ap (Refs.get_change repo) ((eq_iff g id).0 here) ∙ stored,
      (can_see_iff c.visibility c.author (some caller)).0 (ground arith),
    )
    | inr later ↦ all_visible-AllSeen repo caller ids (ground arith) g (ground arith)
  ]
]

-- The change that a captured ref names, if any: the target of the head, a change itself, and the
-- change that the manifest of a workspace is at.
pub data Names : RefSnapshot → ChangeId → Type 0 where
  head : {id : ChangeId} → Names (RefSnapshot.head (some id)) id
  change : {id : ChangeId} {value : Option Change} → Names (RefSnapshot.change id value) id
  workspace :
      {ws : WorkspaceId} {m : WorkspaceManifest} {id : ChangeId}
      → m.change_id ≡ id
      → Names (RefSnapshot.workspace ws (some m)) id

contains-append_left :
    (id : ChangeId) (xs ys : List ChangeId) → contains id xs ≡ true → contains id (xs ++ ys) ≡ true
unfolding contains
contains-append_left id [] ys h = absurd (ground (arith, h))
contains-append_left id (x ∷ xs) ys h = elim (Bool-cases (id == x)) [
  | inl here ↦ rw (here) refl
  | inr later ↦ ground (arith, contains-append_left id xs ys (ground arith))
]

contains-append_right :
    (id : ChangeId) (xs ys : List ChangeId) → contains id ys ≡ true → contains id (xs ++ ys) ≡ true
unfolding contains
contains-append_right id [] ys h = h
contains-append_right id (x ∷ xs) ys h = ground (arith, contains-append_right id xs ys h)

contains-referenced :
    {s : RefSnapshot} {id : ChangeId} → Names s id → contains id (referenced s) ≡ true
unfolding contains
contains-referenced (head {id}) = ground (arith, eq_iff id id)
contains-referenced (change {id} {value}) = ground (arith, eq_iff id id)
contains-referenced (workspace {ws} {m} {id} e) = ground (arith, eq_iff id m.change_id, e)

contains-collect_ids :
    {s : RefSnapshot} {id : ChangeId} (captured : List RefSnapshot)
    → Memᴰ s captured
    → Names s id
    → contains id (collect_ids captured) ≡ true
unfolding collect_ids
contains-collect_ids {s} {id} captured (Memᴰ.head {x} {xs} e) named =
    contains-append_left id (referenced x) (collect_ids xs) (rw (e) at (contains-referenced named))
contains-collect_ids {s} {id} captured (Memᴰ.tail {x} {xs} m) named =
    contains-append_right id (referenced x) (collect_ids xs) (contains-collect_ids xs m named)

-- If an operation is shown whole to a caller, each change that one of its captured refs names, as
-- the target of the head, as the change itself, or as the change of a workspace's manifest, is
-- stored and may be seen by the caller.
pub is_op_visible_lem :
    (repo : Repo) (op : Op) (caller : PrincipalId) (s : RefSnapshot) (id : ChangeId)
    → is_op_visible repo op caller ≡ ok true
    → Memᴰ s (op.before ++ op.after)
    → Names s id
    → (c : Change) × (Refs.get_change repo id ≡ ok c) × MaySee c.visibility c.author (some caller)
unfolding is_op_visible AllSeen
is_op_visible_lem repo op caller s id e there named =
    all_visible-AllSeen repo caller (referenced_change_ids op) e id (
      unfold referenced_change_ids in
      (contains-dedup id (sort (collect_ids (op.before ++ op.after)))
        ∙ contains-sort id (collect_ids (op.before ++ op.after))
        ∙ contains-collect_ids (op.before ++ op.after) there named))
