-- ===== src/Fs/Diff/Filter.antt =====
-- What passes the path filter.
use mathlib.Core.List.{Memᴰ}
use tig.Prelude.{
  Text, starts_with, strip_prefix, Option-cases, not, ◌⊎◌, refl, ◌≡◌, Bool-cases, true, false, ◌&&◌,
  some, List, [], ◌∷◌, ◌++◌, inl, inr, arith,
}
use tig.Fs.Diff.Reported.{Begins, Passes}
use tig.Fs.Diff.{any_path, no_paths, DiffOptions, is_filtered_out}

Begins-strip_prefix :
    (p path : Text) (rest : Text) → strip_prefix p path ≡ some rest → path ≡ p ++ rest
unfolding strip_prefix
Begins-strip_prefix [] path rest h = ground (arith, h)
Begins-strip_prefix (c ∷ p) [] rest h = absurd (ground (arith, h))
Begins-strip_prefix (c ∷ p) (d ∷ path) rest h = ground (arith, h, Begins-strip_prefix p path rest)

starts_with-Begins : (p path : Text) → starts_with p path ≡ true → Begins p path
unfolding starts_with
starts_with-Begins p path h = elim (Option-cases (strip_prefix p path)) [
  | inl missing ↦ absurd (ground (arith, missing, h))
  | inr (rest, there) ↦ (rest, Begins-strip_prefix p path rest there)
]

any_path-Passes :
    (paths : List Text) (path : Text)
    → any_path paths path ≡ true
    → (p : Text) × Memᴰ p paths × (Begins p path ⊎ Begins path p)
unfolding any_path
any_path-Passes [] path h = absurd (ground (arith, h))
any_path-Passes (p ∷ ps) path h = elim (Bool-cases (starts_with p path)) [
  | inl a ↦ (p, Memᴰ.head refl, inl (starts_with-Begins p path a))
  | inr a ↦ elim (Bool-cases (starts_with path p)) [
    | inl b ↦ (p, Memᴰ.head refl, inr (starts_with-Begins path p b))
    | inr b ↦
        let (q, m, begins) = any_path-Passes ps path (rw (a, b) at h) in (q, Memᴰ.tail m, begins)
  ]
]

pub Passes-of_filter :
    (opts : DiffOptions) (path : Text) → is_filtered_out opts path ≡ false → Passes opts.paths path
Passes-of_filter opts path h = by_paths opts.paths h
  where
    by_paths :
        (paths : List Text)
        → not (no_paths paths) && not (any_path paths path) ≡ false
        → Passes paths path
    by_paths [] h = inl refl
    by_paths (p ∷ ps) h = inr (any_path-Passes (p ∷ ps) path (ground (arith, h)))
