-- ===== src/Tests/OpFormat.antt =====
-- A serializer of operations for the tests.
use tig.Prelude.{ℕ, zero, suc, Bytes, ◌≡◌, refl, Option, none, some, [], ◌∷◌, ◌⊎◌, inl, inr}
use tig.Core.Change.{Change, ChangeState}
use tig.Core.Vis.{VisLabel}
use tig.Core.Object.{Codec, RoundTrips}
use tig.Store.Repo.{WorkspaceManifest}
use tig.Store.OpLog.{Op, OpKind, RefSnapshot}
use tig.Tests.Format.{
  Format, Taken, then_take, nat_format, list_format, option_format, via, codec, codec-RoundTrips,
  ◌then◌,
}

module _ {A B : Type 0} (f : Format A) (g : Format B) where
  abbrev write_either : A ⊎ B → Bytes → Bytes
  write_either (inl a) rest = 0 ∷ f.write a rest
  write_either (inr b) rest = 1 ∷ g.write b rest

  abbrev take_either : Bytes → Taken (A ⊎ B)
  take_either [] = none
  take_either (zero ∷ rest) = then_take (f.take rest) λ a rest'. some (inl a, rest')
  take_either (suc _ ∷ rest) = then_take (g.take rest) λ b rest'. some (inr b, rest')

  pub take_either-write_either :
      (s : A ⊎ B) (rest : Bytes) → take_either (write_either s rest) ≡ some (s, rest)
  take_either-write_either (inl a) rest = rw (f.law a rest) refl
  take_either-write_either (inr b) rest = rw (g.law b rest) refl

  abbrev either_format : Format (A ⊎ B)
  either_format = record {
    write = write_either;
    take = take_either;
    law = take_either-write_either;
  }

abbrev text_format : Format Bytes
text_format = list_format nat_format

abbrev state_code : ChangeState → ℕ
state_code ChangeState.working = 0
state_code ChangeState.draft = 1
state_code ChangeState.review = 2
state_code ChangeState.landed = 3
state_code ChangeState.abandoned = 4

abbrev state_of : ℕ → ChangeState
state_of zero = ChangeState.working
state_of (suc zero) = ChangeState.draft
state_of (suc (suc zero)) = ChangeState.review
state_of (suc (suc (suc zero))) = ChangeState.landed
state_of _ = ChangeState.abandoned

pub state_of-state_code : (s : ChangeState) → state_of (state_code s) ≡ s
state_of-state_code ChangeState.working = refl
state_of-state_code ChangeState.draft = refl
state_of-state_code ChangeState.review = refl
state_of-state_code ChangeState.landed = refl
state_of-state_code ChangeState.abandoned = refl

abbrev state_format : Format ChangeState
state_format = via nat_format state_code state_of state_of-state_code

-- The labels as a number and a text.
abbrev label_parts : VisLabel → ℕ × Bytes
label_parts VisLabel.public = (0, [])
label_parts VisLabel.private = (1, [])
label_parts (VisLabel.org t) = (2, t)
label_parts (VisLabel.team t) = (3, t)
label_parts (VisLabel.principal p) = (4, p)

abbrev label_of : ℕ × Bytes → VisLabel
label_of (zero, _) = VisLabel.public
label_of (suc zero, _) = VisLabel.private
label_of (suc (suc zero), t) = VisLabel.org t
label_of (suc (suc (suc zero)), t) = VisLabel.team t
label_of (suc (suc (suc (suc _))), t) = VisLabel.principal t

pub label_of-label_parts : (l : VisLabel) → label_of (label_parts l) ≡ l
label_of-label_parts VisLabel.public = refl
label_of-label_parts VisLabel.private = refl
label_of-label_parts (VisLabel.org t) = refl
label_of-label_parts (VisLabel.team t) = refl
label_of-label_parts (VisLabel.principal p) = refl

abbrev label_format : Format VisLabel
label_format = via (nat_format then text_format) label_parts label_of label_of-label_parts

abbrev change_format : Format Change
change_format =
    via
      (text_format
        then text_format
        then option_format text_format
        then text_format
        then state_format
        then list_format text_format
        then text_format
        then label_format)
      (λ c. (
        c.id,
        (
          c.current,
          (c.bookmark, (c.description, (c.state, (c.history, (c.author, c.visibility))))),
        ),
      ))
      (λ (id, (current, (bookmark, (description, (state, (history, (author, visibility))))))).
        record {
          id = id;
          current = current;
          bookmark = bookmark;
          description = description;
          state = state;
          history = history;
          author = author;
          visibility = visibility;
        })
      (λ c. refl)

abbrev manifest_format : Format WorkspaceManifest
manifest_format =
    via (text_format then text_format then text_format then text_format then nat_format)
      (λ m. (m.id, (m.name, (m.location, (m.change_id, m.created_ns)))))
      (λ (id, (name, (location, (change_id, created_ns)))). record {
        id = id;
        name = name;
        location = location;
        change_id = change_id;
        created_ns = created_ns;
      })
      (λ m. refl)

abbrev Refs : Type 0
Refs =
    Option Bytes
    ⊎ ((Bytes × Option Change) ⊎ ((Bytes × Option WorkspaceManifest) ⊎ (Bytes × Option Bytes)))

abbrev ref_parts : RefSnapshot → Refs
ref_parts (RefSnapshot.head o) = inl o
ref_parts (RefSnapshot.change i o) = inr (inl (i, o))
ref_parts (RefSnapshot.workspace i o) = inr (inr (inl (i, o)))
ref_parts (RefSnapshot.bookmark i o) = inr (inr (inr (i, o)))

abbrev ref_of : Refs → RefSnapshot
ref_of (inl o) = RefSnapshot.head o
ref_of (inr (inl (i, o))) = RefSnapshot.change i o
ref_of (inr (inr (inl (i, o)))) = RefSnapshot.workspace i o
ref_of (inr (inr (inr (i, o)))) = RefSnapshot.bookmark i o

pub ref_of-ref_parts : (r : RefSnapshot) → ref_of (ref_parts r) ≡ r
ref_of-ref_parts (RefSnapshot.head o) = refl
ref_of-ref_parts (RefSnapshot.change i o) = refl
ref_of-ref_parts (RefSnapshot.workspace i o) = refl
ref_of-ref_parts (RefSnapshot.bookmark i o) = refl

abbrev ref_format : Format RefSnapshot
ref_format =
    via
      (either_format (option_format text_format) (
        either_format (text_format then option_format change_format) (
          either_format (text_format then option_format manifest_format)
            (text_format then option_format text_format))))
      ref_parts ref_of ref_of-ref_parts

abbrev Named : Type 0
Named = Bytes × Bytes

abbrev Kinds : Type 0
Kinds =
    (Bytes × Option Bytes)
    ⊎ (Named
        ⊎ (Named ⊎ (Named ⊎ ((Bytes × (ChangeState × (ChangeState × (VisLabel × VisLabel)))) ⊎ ℕ))))

abbrev kind_parts : OpKind → Kinds
kind_parts (OpKind.snap h m) = inl (h, m)
kind_parts (OpKind.change_new i d) = inr (inl (i, d))
kind_parts (OpKind.wt_make i n) = inr (inr (inl (i, n)))
kind_parts (OpKind.wt_drop i n) = inr (inr (inr (inl (i, n))))
kind_parts (OpKind.change_transition i s s' v v') =
    inr (inr (inr (inr (inl (i, (s, (s', (v, v'))))))))
kind_parts (OpKind.undo i) = inr (inr (inr (inr (inr i))))

abbrev kind_of : Kinds → OpKind
kind_of (inl (h, m)) = OpKind.snap h m
kind_of (inr (inl (i, d))) = OpKind.change_new i d
kind_of (inr (inr (inl (i, n)))) = OpKind.wt_make i n
kind_of (inr (inr (inr (inl (i, n))))) = OpKind.wt_drop i n
kind_of (inr (inr (inr (inr (inl (i, (s, (s', (v, v'))))))))) = OpKind.change_transition i s s' v v'
kind_of (inr (inr (inr (inr (inr i))))) = OpKind.undo i

pub kind_of-kind_parts : (k : OpKind) → kind_of (kind_parts k) ≡ k
kind_of-kind_parts (OpKind.snap h m) = refl
kind_of-kind_parts (OpKind.change_new i d) = refl
kind_of-kind_parts (OpKind.wt_make i n) = refl
kind_of-kind_parts (OpKind.wt_drop i n) = refl
kind_of-kind_parts (OpKind.change_transition i s s' v v') = refl
kind_of-kind_parts (OpKind.undo i) = refl

abbrev named_format : Format Named
named_format = text_format then text_format

abbrev kind_format : Format OpKind
kind_format =
    via
      (either_format (text_format then option_format text_format) (
        either_format named_format (
          either_format named_format (
            either_format named_format (
              either_format
                (text_format then state_format then state_format then label_format
                  then label_format)
                nat_format)))))
      kind_parts kind_of kind_of-kind_parts

abbrev op_format : Format Op
op_format =
    via
      (nat_format
        then nat_format
        then text_format
        then kind_format
        then list_format ref_format
        then list_format ref_format)
      (λ o. (o.id, (o.ts_ns, (o.actor, (o.kind, (o.before, o.after))))))
      (λ (id, (ts_ns, (actor, (kind, (before, after))))). record {
        id = id;
        ts_ns = ts_ns;
        actor = actor;
        kind = kind;
        before = before;
        after = after;
      })
      (λ o. refl)

abbrev pub op_codec : Codec Op
op_codec = codec op_format

pub op_codec-RoundTrips : RoundTrips op_codec
op_codec-RoundTrips = codec-RoundTrips op_format
