-- ===== src/Fs/Restore/Cleared.antt =====
-- What clearing a working directory means, apart from how `clear_workdir` does it.
use tig.Prelude.{
  ℕ, ◌+◌, Text, text, eq_iff, ◌≡◌, refl, ◌⊎◌, Bool-cases, true, ◌==◌, inl, inr, arith,
}
use tig.Fs.Utf8.{to_string_lossy}
use tig.Fs.Workdir.{Node, Entries}
use tig.Fs.Materialize.{is_workspace_internal}
use tig.Fs.Restore.{kept, removed}

-- The three names that belong to tig.
abbrev pub IsInternal : Text → Type 0
IsInternal name =
    (to_string_lossy name ≡ text ".tig")
    ⊎ ((to_string_lossy name ≡ text ".tig-worktrees")
        ⊎ (to_string_lossy name ≡ text ".tig-workspace"))

-- The second directory is the first without what is not tig's own, of which there are `n`.
pub data Cleared : Entries → Entries → ℕ → Type 0 where
  nil : Cleared Entries.nil Entries.nil 0
  keep :
      {name : Text} {x : Node} {es rest : Entries} {n : ℕ}
      → IsInternal name
      → Cleared es rest n
      → Cleared (Entries.entry name x es) (Entries.entry name x rest) n
  clear :
      {name : Text} {x : Node} {es rest : Entries} {n : ℕ}
      → (¬ IsInternal name)
      → Cleared es rest n
      → Cleared (Entries.entry name x es) rest (n + 1)

IsInternal-of_true :
    (name : Text) → is_workspace_internal (to_string_lossy name) ≡ true → IsInternal name
IsInternal-of_true name h =
    let t = to_string_lossy name in
    elim (Bool-cases (t == text ".tig")) [
      | inl a ↦ inl ((eq_iff t (text ".tig")).0 a)
      | inr a ↦ elim (Bool-cases (t == text ".tig-worktrees")) [
        | inl b ↦ inr (inl ((eq_iff t (text ".tig-worktrees")).0 b))
        | inr b ↦ inr (inr ((eq_iff t (text ".tig-workspace")).0 (rw (a, b) at h)))
      ]
    ]

true_of_internal :
    (name : Text) → IsInternal name → is_workspace_internal (to_string_lossy name) ≡ true
true_of_internal name (inl e) = ground (arith, (eq_iff (to_string_lossy name) (text ".tig")).1 e)
true_of_internal name (inr (inl e)) =
    ground (arith, (eq_iff (to_string_lossy name) (text ".tig-worktrees")).1 e)
true_of_internal name (inr (inr e)) =
    ground (arith, (eq_iff (to_string_lossy name) (text ".tig-workspace")).1 e)

pub Cleared-eq :
    {es rest : Entries} {n : ℕ} → Cleared es rest n → (kept es ≡ rest) × (removed es ≡ n)
unfolding kept removed
Cleared-eq nil = (refl, refl)
Cleared-eq (keep {name} {x} {es} {rest} {n} i c) =
    let (k, r) = Cleared-eq c in rw (true_of_internal name i, k, r) (refl, refl)
Cleared-eq (clear {name} {x} {es} {rest} {n} i c) =
    let (k, r) = Cleared-eq c in
    elim (Bool-cases (is_workspace_internal (to_string_lossy name))) [
      | inl b ↦ absurd (i (IsInternal-of_true name b))
      | inr b ↦ rw (b, k, r) (refl, refl)
    ]

-- `clear_workdir` clears any directory.
pub clear_workdir-Cleared : (es : Entries) → Cleared es (kept es) (removed es)
unfolding kept removed
clear_workdir-Cleared Entries.nil = Cleared.nil
clear_workdir-Cleared (Entries.entry name x es) =
    elim (Bool-cases (is_workspace_internal (to_string_lossy name))) [
      | inl b ↦ rw (b) (Cleared.keep (IsInternal-of_true name b) (clear_workdir-Cleared es))
      | inr b ↦ rw (b) (
          Cleared.clear (λ i. ground (arith, b, true_of_internal name i))
            (clear_workdir-Cleared es))
    ]
