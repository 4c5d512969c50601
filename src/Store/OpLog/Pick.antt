-- ===== src/Store/OpLog/Pick.antt =====
-- The operations that still stand, as a stack: an operation is pushed, an undo pops the last one.
use mathlib.Core.List.{reverse, reverse-cons, append_assoc, append-nil}
use tig.Prelude.{
  ℕ, zero, suc, Option, none, some, List, [], ◌∷◌, ◌++◌, if◌then◌else◌, ◌≡◌, refl, sym, ◌∙◌, ap,
  arith,
}
use tig.Store.OpLog.{Op, is_undo, pick_back, pick_op_to_undo}

abbrev pub tail : List Op → List Op
tail [] = []
tail (op ∷ ops) = ops

abbrev pub apply_op : List Op → Op → List Op
apply_op stack op = if is_undo op.kind then tail stack else op ∷ stack

unfoldable pub standing_from : List Op → List Op → List Op
standing_from stack [] = stack
standing_from stack (op ∷ ops) = standing_from (apply_op stack op) ops

-- The stack after a log, its top first.
unfoldable pub standing : List Op → List Op
unfolding standing_from
standing ops = standing_from [] ops

unfoldable pub nth : List Op → ℕ → Option Op
nth [] n = none
nth (op ∷ ops) zero = some op
nth (op ∷ ops) (suc n) = nth ops n

abbrev pub top : List Op → Option Op
top [] = none
top (op ∷ _) = some op

nth-zero : (ops : List Op) → nth ops 0 ≡ top ops
unfolding nth
nth-zero [] = refl
nth-zero (op ∷ ops) = refl

-- The stack, from the log read backwards.
standing_back : List Op → List Op
standing_back [] = []
standing_back (op ∷ ops) = apply_op (standing_back ops) op

pick_back-eq-nth : (ops : List Op) (d : ℕ) → pick_back ops d ≡ nth (standing_back ops) d
unfolding pick_back standing_back nth
pick_back-eq-nth [] d = refl
pick_back-eq-nth (op ∷ ops) zero = ground (arith, pick_back-eq-nth ops 1)
pick_back-eq-nth (op ∷ ops) (suc d) =
    ground (arith, pick_back-eq-nth ops (suc (suc d)), pick_back-eq-nth ops d)

standing_back-reverse :
    (ops rest : List Op)
    → standing_back (reverse ops ++ rest) ≡ standing_from (standing_back rest) ops
unfolding standing_back standing_from
standing_back-reverse [] rest = refl
standing_back-reverse (op ∷ ops) rest =
    rw (reverse-cons, append_assoc) (standing_back-reverse ops (op ∷ rest))

-- pick_op_to_undo, which walks the log backwards counting undos, picks the top of the stack in
-- which every operation is pushed and every undo pops, and nothing when the stack is empty.
pub pick_op_to_undo-eq-top : (ops : List Op) → pick_op_to_undo ops ≡ top (standing ops)
unfolding pick_op_to_undo standing
pick_op_to_undo-eq-top ops =
    let backwards : standing_back (reverse ops) ≡ standing_from [] ops =
      ap standing_back (sym (append-nil (reverse ops)))
      ∙ (unfold standing_back in standing_back-reverse ops []) in
    pick_back-eq-nth (reverse ops) 0 ∙ ap (λ l. nth l 0) backwards ∙ nth-zero (standing_from [] ops)

standing_from-append :
    (stack ops more : List Op)
    → standing_from stack (ops ++ more) ≡ standing_from (standing_from stack ops) more
unfolding standing_from
standing_from-append stack [] more = refl
standing_from-append stack (op ∷ ops) more = standing_from-append (apply_op stack op) ops more

pub standing-append :
    (ops : List Op) (op : Op) → standing (ops ++ (op ∷ [])) ≡ apply_op (standing ops) op
unfolding standing
standing-append ops op = standing_from-append [] ops (op ∷ [])
