-- ===== src/Store/Refs/Trim.antt =====
-- `str::trim` on ASCII text.
use mathlib.Core.List.{reverse}
use tig.Prelude.{ℕ, Text, Bool, ◌||◌, ◌&&◌, [], ◌∷◌, leb, nat_eq, if◌then◌else◌}

-- tab, newline, vertical tab, form feed, carriage return, space
abbrev pub is_space : ℕ → Bool
is_space c = nat_eq c 32 || leb 9 c && leb c 13

unfoldable pub trim_start : Text → Text
trim_start [] = []
trim_start (c ∷ cs) = if is_space c then trim_start cs else c ∷ cs

unfoldable pub trim : Text → Text
unfolding trim_start
trim s = reverse (trim_start (reverse (trim_start s)))
