-- ===== src/Prelude/Prefixes.antt =====
-- `strip_prefix`, `starts_with` and `ends_with` of texts.
use mathlib.Core.Bool.{Bool, not}
use mathlib.Core.Option.{Option, none, some}
use mathlib.Core.List.{[], ◌∷◌, reverse}
use tig.Prelude.Tests.{nat_eq, is_none, if◌then◌else◌}
use tig.Prelude.ByteString.{Text}

unfoldable pub strip_prefix : Text → Text → Option Text
strip_prefix [] t = some t
strip_prefix (_ ∷ _) [] = none
strip_prefix (c ∷ p) (d ∷ t) = let rest = strip_prefix p t in if nat_eq c d then rest else none

-- The prefix is the first argument.
unfoldable pub starts_with : Text → Text → Bool
unfolding strip_prefix
starts_with p t = not (is_none (strip_prefix p t))

unfoldable pub ends_with : Text → Text → Bool
unfolding starts_with
ends_with p t = starts_with (reverse p) (reverse t)
