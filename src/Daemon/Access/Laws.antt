-- ===== src/Daemon/Access/Laws.antt =====
-- The access checks against the policy.
use tig.Prelude.{
  true, ◌||◌, ◌&&◌, ◌==◌, eq_iff, eq_refl, ◌≡◌, refl, ◌≢◌, ◌↔◌, ◌⊎◌, inl, inr, some, List, [], ◌∷◌,
  ◌++◌, ok, err, arith, Result-cases, contains, Bool-cases, ap, sym,
}
use tig.Core.Object.{Hash}
use tig.Core.Vis.{PrincipalId, can_mutate, MaySee, as_author, can_see_iff}
use tig.Core.Change.{Change, ChangeId}
use tig.Store.Repo.{Repo}
use tig.Store.Refs
use tig.Daemon.Error.{ApiError}
use tig.Daemon.Access.{
  load_visible_change, load_mutable_change, sees, snapshots_of, visible_snapshot_set,
}

-- load_visible_change hands out a change exactly if it is stored and the visibility policy lets
-- the caller see it, and its only error is 404.
pub load_visible_change_lem :
    (repo : Repo) (id : ChangeId) (caller : PrincipalId) (change : Change)
    → ((load_visible_change repo id caller ≡ ok change) ↔ (
        (Refs.get_change repo id ≡ ok change)
        × MaySee change.visibility change.author (some caller)))
      × ((load_visible_change repo id caller ≡ err ApiError.not_found)
          ⊎ ((c : Change) × (load_visible_change repo id caller ≡ ok c)))
unfolding load_visible_change
load_visible_change_lem repo id caller change = elim (Result-cases (Refs.get_change repo id)) [
  | inl (c, there) ↦ (
    (
      λ loaded. (
        ground arith,
        (can_see_iff change.visibility change.author (some caller)).0 (ground arith),
      ),
      λ (there', may).
          ground (arith, (can_see_iff change.visibility change.author (some caller)).1 may),
    ),
    found c there,
  )
  | inr (_, missing) ↦ (ground arith, inl (ground arith))
]
  where
    found :
        (c : Change)
        → Refs.get_change repo id ≡ ok c
        → (load_visible_change repo id caller ≡ err ApiError.not_found)
          ⊎ ((d : Change) × (load_visible_change repo id caller ≡ ok d))
    found c there = elim (Bool-cases (sees caller c)) [
      | inl visible ↦ inr (c, ground arith)
      | inr hidden ↦ inl (ground arith)
    ]

author_sees : (caller : PrincipalId) (c : Change) → c.author ≡ caller → sees caller c ≡ true
author_sees caller c own =
    (can_see_iff c.visibility c.author (some caller)).1 (as_author (ap some (sym own)))

-- load_mutable_change hands out a stored change exactly to its author, and answers with a conflict
-- exactly to a caller who sees the change and is not its author.
pub load_mutable_change_lem :
    (repo : Repo) (id : ChangeId) (caller : PrincipalId) (change : Change)
    → ((load_mutable_change repo id caller ≡ ok change)
        ↔ ((Refs.get_change repo id ≡ ok change) × (change.author ≡ caller)))
      × ((load_mutable_change repo id caller ≡ err ApiError.conflict)
          ↔ ((c : Change) × (load_visible_change repo id caller ≡ ok c) × (c.author ≢ caller)))
unfolding load_mutable_change can_mutate
load_mutable_change_lem repo id caller change = (
  (
    λ loaded.
        (ground (arith, eq_iff caller change.author), ground (arith, eq_iff caller change.author)),
    λ (there, own). ground (arith, eq_iff caller change.author, author_sees caller change own),
  ),
  (
    λ refused. conflicting refused (Result-cases (load_visible_change repo id caller)),
    λ (c, seen, other). ground (arith, seen, eq_iff caller c.author, other),
  ),
)
  where
    conflicting :
        load_mutable_change repo id caller ≡ err ApiError.conflict
        → ((c : Change) × (load_visible_change repo id caller ≡ ok c))
          ⊎ ((e : ApiError) × (load_visible_change repo id caller ≡ err e))
        → (c : Change) × (load_visible_change repo id caller ≡ ok c) × (c.author ≢ caller)
    conflicting refused (inl (c, seen)) = (c, seen, λ own. ground (arith, eq_iff caller c.author))
    conflicting refused (inr (e, hidden)) =
        ground (arith, (load_visible_change_lem repo id caller change).1)

-- Which snapshots a set of changes shows.
unfoldable pub Shows : Repo → PrincipalId → List ChangeId → Hash → Type 0
Shows repo caller ids h =
    (id : ChangeId) × (c : Change) × (contains id ids ≡ true)
    × (Refs.get_change repo id ≡ ok c)
    × MaySee c.visibility c.author (some caller)
    × (contains h c.history ≡ true)

contains-append :
    (h : Hash) (xs ys : List Hash) → contains h (xs ++ ys) ≡ (contains h xs || contains h ys)
unfolding contains
contains-append h [] ys = refl
contains-append h (x ∷ xs) ys = ground (arith, contains-append h xs ys)

snapshots_of-Shows :
    (repo : Repo) (caller : PrincipalId) (ids : List ChangeId) (hs : List Hash) (h : Hash)
    → snapshots_of repo caller ids ≡ ok hs
    → contains h hs ≡ true
    → Shows repo caller ids h
unfolding snapshots_of Shows contains
snapshots_of-Shows repo caller [] hs h e there = ground arith
snapshots_of-Shows repo caller (id ∷ ids) hs h e there =
    elim (Result-cases (Refs.get_change repo id)) [
      | inr (_, missing) ↦ ground arith
      | inl (c, stored) ↦ elim (Result-cases (snapshots_of repo caller ids)) [
        | inr (_, failed) ↦ ground arith
        | inl (rest, more) ↦
            let later : contains h rest ≡ true → Shows repo caller (id ∷ ids) h = λ found.
              let (i, d, m, stored', may, s) =
                snapshots_of-Shows repo caller ids rest h more found in
              (i, d, ground arith, stored', may, s) in
            elim (Bool-cases (sees caller c && contains h c.history)) [
              | inl here ↦ (
                id,
                c,
                ground (arith, eq_refl id),
                stored,
                (can_see_iff c.visibility c.author (some caller)).0 (ground arith),
                ground arith,
              )
              | inr elsewhere ↦ later (ground (arith, contains-append h c.history rest))
            ]
      ]
    ]

Shows-snapshots_of :
    (repo : Repo) (caller : PrincipalId) (ids : List ChangeId) (hs : List Hash) (h : Hash)
    → snapshots_of repo caller ids ≡ ok hs
    → Shows repo caller ids h
    → contains h hs ≡ true
unfolding snapshots_of Shows contains
Shows-snapshots_of repo caller [] hs h e (i, d, m, _, _, _) = ground arith
Shows-snapshots_of repo caller (id ∷ ids) hs h e (i, d, m, stored, may, there) =
    elim (Result-cases (Refs.get_change repo id)) [
      | inr (_, missing) ↦ ground arith
      | inl (c, stored') ↦ elim (Result-cases (snapshots_of repo caller ids)) [
        | inr (_, failed) ↦ ground arith
        | inl (rest, more) ↦
            let visible = (can_see_iff d.visibility d.author (some caller)).1 may in
            elim (Bool-cases (i == id)) [
              | inl here ↦
                  let same = (eq_iff i id).0 here in
                  let same_change : c ≡ d = ground (arith, ap (Refs.get_change repo) same) in
                  ground (arith, contains-append h c.history rest)
              | inr later ↦
                  let found =
                    Shows-snapshots_of repo caller ids rest h more
                      (i, d, ground arith, stored, may, there) in
                  ground (arith, contains-append h c.history rest)
            ]
      ]
    ]

-- The set of snapshots that raw fetches are gated by holds exactly those in the history of a
-- listed change that the policy lets the caller see.
pub visible_snapshot_set_lem :
    (repo : Repo) (caller : PrincipalId) (hs : List Hash) (h : Hash)
    → visible_snapshot_set repo caller ≡ ok hs
    → (contains h hs ≡ true) ↔ Shows repo caller (Refs.list_changes repo) h
unfolding visible_snapshot_set
visible_snapshot_set_lem repo caller hs h e = (
  snapshots_of-Shows repo caller (Refs.list_changes repo) hs h e,
  Shows-snapshots_of repo caller (Refs.list_changes repo) hs h e,
)
