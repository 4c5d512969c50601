-- ===== src/Core/Change/History.antt =====
-- The history of a change under `advance`.
use mathlib.Core.List.{append-nil, append_assoc}
use tig.Prelude.{
  sym, ap, ◌∙◌, ◌==◌, eq_iff, ◌≡◌, refl, ◌≢◌, inl, inr, Option, none, some, List, [], ◌∷◌, ◌++◌,
  arith, Bool-cases, Text,
}
use tig.Core.Object.{Hash}
use tig.Core.Vis.{PrincipalId}
use tig.Core.Change.{ChangeId, Change, new, new_private_draft, advance}

unfoldable pub last? : List Hash → Option Hash
last? [] = none
last? (h ∷ []) = some h
last? (h ∷ g ∷ hs) = last? (g ∷ hs)

abbrev pub NoRepeats : List Hash → Type 0
NoRepeats [] = Unit
NoRepeats (h ∷ []) = Unit
NoRepeats (h ∷ g ∷ hs) = (h ≢ g) × NoRepeats (g ∷ hs)

pub record IsTracked (c : Change) : Type 0 where
  pub ends : last? c.history ≡ some c.current
  pub moves : NoRepeats c.history

last?-append : (hs : List Hash) (h : Hash) → last? (hs ++ (h ∷ [])) ≡ some h
unfolding last?
last?-append [] h = refl
last?-append (g ∷ []) h = refl
last?-append (g ∷ f ∷ hs) h = last?-append (f ∷ hs) h

NoRepeats-append :
    (hs : List Hash) (g h : Hash)
    → last? hs ≡ some g
    → g ≢ h
    → NoRepeats hs
    → NoRepeats (hs ++ (h ∷ []))
unfolding last?
NoRepeats-append [] g h e n r = tt
NoRepeats-append (f ∷ []) g h e n r = (λ p. n (ground arith), tt)
NoRepeats-append (f ∷ k ∷ hs) g h e n (d, r) = (d, NoRepeats-append (k ∷ hs) g h e n r)

-- New changes are tracked, drafts too.
pub new-IsTracked :
    (id : ChangeId) (description : Text) (author : PrincipalId) (h : Hash)
    → IsTracked (new id description author h)
      × IsTracked (new_private_draft id description author h)
unfolding new_private_draft last?
new-IsTracked id description author h =
    (record { ends = refl; moves = tt }, record { ends = refl; moves = tt })

pub advance-IsTracked : (c : Change) (h : Hash) → IsTracked c → IsTracked (advance c h)
unfolding advance
advance-IsTracked c h t = elim (Bool-cases (c.current == h)) [
  | inl same ↦ rw same t
  | inr moved ↦ rw moved (record {
    ends = last?-append c.history h;
    moves =
        NoRepeats-append c.history c.current h t.ends (ground (arith, eq_iff c.current h)) t.moves;
  })
]

-- What `advance` does: it points at the snapshot, and appends it exactly if it is a new one.
pub advance_lem :
    (c : Change) (h : Hash)
    → ((advance c h).current ≡ h)
      × ((c.current ≡ h → advance c h ≡ c))
      × ((c.current ≢ h → (advance c h).history ≡ c.history ++ (h ∷ [])))
unfolding advance
advance_lem c h = ground (arith, eq_iff c.current h)

unfoldable pub advance_all : Change → List Hash → Change
advance_all c [] = c
advance_all c (h ∷ hs) = advance_all (advance c h) hs

-- However often a change is advanced, its history still ends at its current snapshot, names no
-- snapshot twice in a row, and extends the old history.
pub advance_all-IsTracked :
    (c : Change) (hs : List Hash)
    → IsTracked c
    → IsTracked (advance_all c hs)
      × ((more : List Hash) × ((advance_all c hs).history ≡ c.history ++ more))
unfolding advance_all
advance_all-IsTracked c [] t = (t, ([], sym (append-nil c.history)))
advance_all-IsTracked c (h ∷ hs) t =
    let (tracked, (more, e)) = advance_all-IsTracked (advance c h) hs (advance-IsTracked c h t) in
    let (_, stays, moves) = advance_lem c h in
    elim (Bool-cases (c.current == h)) [
      | inl same ↦
          let still = stays ((eq_iff c.current h).0 same) in
          (tracked, (more, e ∙ ap (λ (d : Change). d.history ++ more) still))
      | inr other ↦
          let grows = moves (λ p. ground (arith, eq_iff c.current h)) in
          (
            tracked,
            (
              (h ∷ []) ++ more,
              e ∙ ap (λ (hs : List Hash). hs ++ more) grows ∙ append_assoc c.history (h ∷ []) more,
            ),
          )
    ]
