-- ===== src/Prelude/BTree.antt =====
-- `BTreeMap` with texts as its keys: a list of keys and values in the order of the keys.
use mathlib.Core.List.{[], ◌∷◌}
use mathlib.Core.Path.{◌≡◌}
use Prim.Native.Nat.{Ordering}
use native.Mathlib.Omega.{arith}
use tig.Prelude.ByteString.{Text, cmp, eq_of_cmp, cmp_swap}
use tig.Prelude.Map.{Map}

module _ {ℓ} {V : Type ℓ} where
  unfoldable pub insert : Text → V → Map V → Map V
  insert k v [] = (k, v) ∷ []
  insert k v ((j, u) ∷ m) = elim (cmp k j) [
    | Ordering.lt ↦ (k, v) ∷ (j, u) ∷ m
    | Ordering.eq ↦ (k, v) ∷ m
    | Ordering.gt ↦ (j, u) ∷ insert k v m
  ]

  -- The first key, if there is one, is above a text.
  abbrev pub Above : Text → Map V → Type 0
  Above k [] = Unit
  Above k ((j, _) ∷ _) = cmp k j ≡ Ordering.lt

  abbrev pub IsSorted : Map V → Type 0
  IsSorted [] = Unit
  IsSorted ((k, _) ∷ m) = Above k m × IsSorted m

  Above-insert :
      (j k : Text) (v : V) (m : Map V) → cmp j k ≡ Ordering.lt → Above j m → Above j (insert k v m)
  unfolding insert
  Above-insert j k v [] h a = h
  Above-insert j k v ((i, u) ∷ m) h a = ground (arith, h, a)

  pub insert-IsSorted : (k : Text) (v : V) (m : Map V) → IsSorted m → IsSorted (insert k v m)
  unfolding insert
  insert-IsSorted k v [] s = (tt, tt)
  insert-IsSorted k v ((j, u) ∷ m) (a, s) =
      ground
        (arith, a, s, eq_of_cmp k j, cmp_swap k j, Above-insert j k v m, insert-IsSorted k v m s)
