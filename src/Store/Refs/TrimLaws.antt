-- ===== src/Store/Refs/TrimLaws.antt =====
-- Trimming twice is trimming once.
use mathlib.Core.List.{reverse, reverse-reverse, reverse-cons, reverse-append}
use tig.Prelude.{ℕ, Text, false, [], ◌∷◌, ◌++◌, ◌≡◌, refl, ap, inl, inr, arith, Bool-cases}
use tig.Store.Refs.Trim.{is_space, trim_start, trim}

abbrev StartsSolid : Text → Type 0
StartsSolid [] = Unit
StartsSolid (c ∷ cs) = is_space c ≡ false

trim_start-StartsSolid : (s : Text) → StartsSolid (trim_start s)
unfolding trim_start
trim_start-StartsSolid [] = tt
trim_start-StartsSolid (c ∷ cs) = elim (Bool-cases (is_space c)) [
  | inl space ↦ rw (space, trim_start) (trim_start-StartsSolid cs)
  | inr solid ↦ rw (solid, trim_start) solid
]

trim_start-eq_self : (s : Text) → StartsSolid s → trim_start s ≡ s
unfolding trim_start
trim_start-eq_self [] h = refl
trim_start-eq_self (c ∷ cs) h = rw h

trim_start-snoc :
    (s : Text) (c : ℕ) → is_space c ≡ false → trim_start (s ++ (c ∷ [])) ≡ trim_start s ++ (c ∷ [])
unfolding trim_start
trim_start-snoc [] c h = rw h
trim_start-snoc (d ∷ s) c h = ground (arith, trim_start-snoc s c h)

abbrev trim_end : Text → Text
trim_end s = reverse (trim_start (reverse s))

trim_end-StartsSolid : (s : Text) → StartsSolid s → StartsSolid (trim_end s)
unfolding trim_start
trim_end-StartsSolid [] h = tt
trim_end-StartsSolid (c ∷ cs) h =
    rw (reverse-cons, trim_start-snoc (reverse cs) c h, reverse-append) h

pub trim-trim : (s : Text) → trim (trim s) ≡ trim s
unfolding trim
trim-trim s =
    let solid = trim_end-StartsSolid (trim_start s) (trim_start-StartsSolid s) in
    rw (trim_start-eq_self (trim_end (trim_start s)) solid, reverse-reverse)
      (ap reverse (trim_start-eq_self _ (trim_start-StartsSolid (reverse (trim_start s)))))
