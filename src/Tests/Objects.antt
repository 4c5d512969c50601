-- ===== src/Tests/Objects.antt =====
-- The object store and the access rules on concrete data.
use mathlib.Core.List.{Memᴰ}
use tig.Store.OpLog.{RefSnapshot}
use tig.Prelude.{
  ℕ, Bytes, Text, text, contains, ◌≡◌, ◌≢◌, ◌↔◌, ◌⊎◌, refl, Option, none, some, List, [], ◌∷◌, ◌++◌,
  Result, ok, err, true, false,
}
use tig.Core.Object.{Hash, RawObject, ObjectKind, encode, hash}
use tig.Core.Vis.{can_see, can_mutate, MaySee}
use tig.Core.Change.{Change}
use tig.Core.Change.History.{IsTracked, last?, advance_all, advance_all-IsTracked}
use tig.Store.Refs
use tig.Store.Objects
use tig.Store.Objects.{frame, unframe}
use tig.Store.Objects.Laws.{get-put_self}
use tig.Daemon.Error.{ApiError}
use tig.Daemon.Access.{load_visible_change, load_mutable_change, visible_snapshot_set}
use tig.Daemon.Access.Laws.{
  Shows, load_visible_change_lem, load_mutable_change_lem, visible_snapshot_set_lem,
}
use tig.Daemon.Oplog.{is_op_visible}
use tig.Daemon.Oplog.Laws.{Names, is_op_visible_lem}
use tig.Tests.Wire.{plain, plain-IsSound}
use tig.Tests.Data.{blob_put, snapshot_put, repo, repo-IsContentAddressed, change, op}

abbrev blob : RawObject
blob = record { kind = ObjectKind.blob; bytes = 4 ∷ 2 ∷ [] }

abbrev stored : RawObject
stored = record { kind = ObjectKind.blob; bytes = 2 ∷ 7 ∷ 8 ∷ [] }

read_stored : Objects.get plain repo blob_put.0 ≡ ok stored
unfolding Objects.get tig.Prelude.Map.get Refs.put_change Objects.put tig.Prelude.Map.put
    tig.Prelude.◌==◌ hash encode tig.Core.Object.from_tag tig.Core.Object.verify
read_stored = refl

get-put_self_example :
    Objects.get plain (Objects.put plain repo blob).1 (Objects.put plain repo blob).0 ≡ ok blob
get-put_self_example = get-put_self plain plain-IsSound repo blob repo-IsContentAddressed

writes : can_mutate (text "ann") (some (text "ann")) ≡ true
unfolding can_mutate tig.Prelude.◌==◌
writes = refl

change-IsTracked : IsTracked change
unfolding last?
change-IsTracked = record { ends = refl; moves = tt }

advance_all-IsTracked_example :
    IsTracked (advance_all change ((1 ∷ []) ∷ (1 ∷ []) ∷ (2 ∷ []) ∷ []))
    × ((more : List Hash) × ((advance_all change ((1 ∷ []) ∷ (1 ∷ []) ∷ (2 ∷ []) ∷ [])).history
          ≡ change.history ++ more))
advance_all-IsTracked_example =
    advance_all-IsTracked change ((1 ∷ []) ∷ (1 ∷ []) ∷ (2 ∷ []) ∷ []) change-IsTracked

load_visible_change_lem_example :
    ((load_visible_change repo (text "c1") (text "bob") ≡ ok change) ↔ (
      (Refs.get_change repo (text "c1") ≡ ok change)
      × MaySee change.visibility change.author (some (text "bob"))))
    × ((load_visible_change repo (text "c1") (text "bob") ≡ err ApiError.not_found)
        ⊎ ((c : Change) × (load_visible_change repo (text "c1") (text "bob") ≡ ok c)))
load_visible_change_lem_example = load_visible_change_lem repo (text "c1") (text "bob") change

load_mutable_change_lem_example :
    ((load_mutable_change repo (text "c1") (text "ann") ≡ ok change)
      ↔ ((Refs.get_change repo (text "c1") ≡ ok change) × (change.author ≡ text "ann")))
    × ((load_mutable_change repo (text "c1") (text "ann") ≡ err ApiError.conflict) ↔ (
        (c : Change) × (load_visible_change repo (text "c1") (text "ann") ≡ ok c)
        × (c.author ≢ text "ann")))
load_mutable_change_lem_example = load_mutable_change_lem repo (text "c1") (text "ann") change

seen_by_author : visible_snapshot_set repo (text "ann") ≡ ok (snapshot_put.0 ∷ [])
unfolding visible_snapshot_set Refs.put_change tig.Prelude.Map.put Objects.put tig.Prelude.Map.get
    tig.Prelude.◌==◌ hash encode Refs.get_change can_see
seen_by_author = refl

visible_snapshot_set_lem_example :
    (contains snapshot_put.0 (snapshot_put.0 ∷ []) ≡ true)
    ↔ Shows repo (text "ann") (Refs.list_changes repo) snapshot_put.0
visible_snapshot_set_lem_example =
    visible_snapshot_set_lem repo (text "ann") (snapshot_put.0 ∷ []) snapshot_put.0 seen_by_author

shown_to_author : is_op_visible repo op (text "ann") ≡ ok true
unfolding is_op_visible Refs.insert_id tig.Prelude.cmp tig.Prelude.◌==◌ Refs.get_change
    tig.Prelude.Map.get Refs.put_change tig.Prelude.Map.put Objects.put hash encode can_see
shown_to_author = refl

is_op_visible_lem_example :
    (c : Change) × (Refs.get_change repo (text "c1") ≡ ok c)
    × MaySee c.visibility c.author (some (text "ann"))
is_op_visible_lem_example =
    is_op_visible_lem repo op (text "ann") (RefSnapshot.change (text "c1") none) (text "c1")
      shown_to_author (Memᴰ.head refl) Names.change
