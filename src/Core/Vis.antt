-- ===== src/Core/Vis.antt =====
-- crates/tig-core/src/vis.rs: who may see a change, and who may write it.
use tig.Prelude.{
  Text, ◌==◌, eq_iff, eq_refl, ◌≡◌, refl, ◌↔◌, Bool, true, false, ◌||◌, Option, none, some, arith,
  inl, inr, Bool-cases,
}

-- `PrincipalId`, by its name.
abbrev pub PrincipalId : Type 0
PrincipalId = Text

pub data VisLabel : Type 0 where
  public : VisLabel
  private : VisLabel
  org : Text → VisLabel
  team : Text → VisLabel
  principal : PrincipalId → VisLabel

-- `caller.map(|c| c == author).unwrap_or(false)`
abbrev is_caller : PrincipalId → Option PrincipalId → Bool
is_caller author none = false
is_caller author (some c) = c == author

abbrev is_caller_or : PrincipalId → PrincipalId → Option PrincipalId → Bool
is_caller_or author allowed none = false
is_caller_or author allowed (some c) = c == author || c == allowed

unfoldable pub can_see : VisLabel → PrincipalId → Option PrincipalId → Bool
can_see VisLabel.public author caller = true
can_see VisLabel.private author caller = is_caller author caller
can_see (VisLabel.org _) author caller = is_caller author caller
can_see (VisLabel.team _) author caller = is_caller author caller
can_see (VisLabel.principal allowed) author caller = is_caller_or author allowed caller

unfoldable pub can_mutate : PrincipalId → Option PrincipalId → Bool
can_mutate author caller = is_caller author caller

-- The policy as rules: the public, the author, the named principal.
pub data MaySee (v : VisLabel) (author : PrincipalId) (caller : Option PrincipalId) : Type 0 where
  anyone : v ≡ VisLabel.public → MaySee v author caller
  as_author : caller ≡ some author → MaySee v author caller
  as_named : (p : PrincipalId) → v ≡ VisLabel.principal p → caller ≡ some p → MaySee v author caller

MaySee-of_is_caller :
    (v : VisLabel) (author : PrincipalId) (caller : Option PrincipalId)
    → is_caller author caller ≡ true
    → MaySee v author caller
MaySee-of_is_caller v author none h = cc
MaySee-of_is_caller v author (some c) h = as_author (ground (arith, eq_iff c author))

MaySee-of_can_see :
    (v : VisLabel) (author : PrincipalId) (caller : Option PrincipalId)
    → can_see v author caller ≡ true
    → MaySee v author caller
unfolding can_see
MaySee-of_can_see VisLabel.public author caller h = anyone refl
MaySee-of_can_see VisLabel.private author caller h = MaySee-of_is_caller _ author caller h
MaySee-of_can_see (VisLabel.org _) author caller h = MaySee-of_is_caller _ author caller h
MaySee-of_can_see (VisLabel.team _) author caller h = MaySee-of_is_caller _ author caller h
MaySee-of_can_see (VisLabel.principal allowed) author none h = cc
MaySee-of_can_see (VisLabel.principal allowed) author (some c) h = elim (Bool-cases (c == author)) [
  | inl yes_author ↦ as_author (ground (arith, eq_iff c author))
  | inr other ↦ as_named allowed refl (ground (arith, eq_iff c allowed))
]

can_see_of_MaySee :
    (v : VisLabel) (author : PrincipalId) (caller : Option PrincipalId)
    → MaySee v author caller
    → can_see v author caller ≡ true
unfolding can_see
can_see_of_MaySee v author caller (anyone e) = rw e
can_see_of_MaySee v author caller (as_author e) = ground (arith, eq_refl author)
can_see_of_MaySee v author caller (as_named p e f) = ground (arith, eq_refl p)

-- can_see holds exactly if the policy lets the caller in: the label is public, the caller is the
-- author, or the caller is the named principal.
pub can_see_iff :
    (v : VisLabel) (author : PrincipalId) (caller : Option PrincipalId)
    → (can_see v author caller ≡ true) ↔ MaySee v author caller
can_see_iff v author caller = (MaySee-of_can_see v author caller, can_see_of_MaySee v author caller)

-- A caller who may mutate a change is its author and may see it, whatever its label.
pub can_mutate-can_see :
    (v : VisLabel) (author : PrincipalId) (caller : Option PrincipalId)
    → can_mutate author caller ≡ true
    → (caller ≡ some author) × (can_see v author caller ≡ true)
unfolding can_mutate can_see
can_mutate-can_see v author none h = cc
can_mutate-can_see v author (some c) h = ground (arith, eq_iff c author)
