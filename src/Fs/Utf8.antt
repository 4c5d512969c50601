-- ===== src/Fs/Utf8.antt =====
-- `std::str::from_utf8` and `OsStr::to_string_lossy` on a byte string of the file system.
use tig.Prelude.{ℕ, Bytes, Bool, true, false, ◌&&◌, List, [], ◌∷◌, ◌++◌, ltb, leb, if◌then◌else◌}

-- The range of a continuation byte.
abbrev pub Range : Type 0
Range = ℕ × ℕ

abbrev in_range : ℕ → ℕ → ℕ → Bool
in_range low high b = leb low b && leb b high

abbrev continuation : Range
continuation = (0x80, 0xBF)

pub data Lead : Type 0 where
  bad : Lead
  followed_by : List Range → Lead

-- What has to follow a first byte.
unfoldable pub lead : ℕ → Lead
lead b =
    if ltb b 0x80
    then followed_by []
    else if in_range 0xC2 0xDF b
    then followed_by (continuation ∷ [])
    else if in_range 0xE0 0xE0 b
    then followed_by ((0xA0, 0xBF) ∷ continuation ∷ [])
    else if in_range 0xED 0xED b
    then followed_by ((0x80, 0x9F) ∷ continuation ∷ [])
    else if in_range 0xE1 0xEF b
    then followed_by (continuation ∷ continuation ∷ [])
    else if in_range 0xF0 0xF0 b
    then followed_by ((0x90, 0xBF) ∷ continuation ∷ continuation ∷ [])
    else if in_range 0xF1 0xF3 b
    then followed_by (continuation ∷ continuation ∷ continuation ∷ [])
    else if in_range 0xF4 0xF4 b
    then followed_by ((0x80, 0x8F) ∷ continuation ∷ continuation ∷ [])
    else bad

abbrev started : Lead → (List Range → Bool) → Bool
started bad f = false
started (followed_by rs) f = f rs

abbrev accepted : List Range → ℕ → (List Range → Bool) → Bool
accepted [] b f = started (lead b) f
accepted ((low, high) ∷ rs) b f = in_range low high b && f rs

-- The validity of the rest of a string, after a prefix that wants bytes in the given ranges.
unfoldable pub valid_after : List Range → Bytes → Bool
unfolding lead
valid_after [] [] = true
valid_after (_ ∷ _) [] = false
valid_after rs (b ∷ bs) = accepted rs b (λ rs'. valid_after rs' bs)

unfoldable pub is_utf8 : Bytes → Bool
unfolding valid_after
is_utf8 bs = valid_after [] bs

-- U+FFFD
abbrev replacement : Bytes
replacement = 0xEF ∷ 0xBF ∷ 0xBD ∷ []

abbrev begun : Lead → ℕ → (List Range → Bytes → Bytes) → Bytes
begun bad b f = replacement ++ f [] []
begun (followed_by []) b f = b ∷ f [] []
begun (followed_by rs) b f = f rs (b ∷ [])

-- A byte that does not continue the sequence begun ends it, and begins another.
abbrev next : List Range → Bytes → ℕ → (List Range → Bytes → Bytes) → Bytes
next [] seen b f = begun (lead b) b f
next ((low, high) ∷ []) seen b f =
    if in_range low high b then seen ++ (b ∷ f [] []) else replacement ++ begun (lead b) b f
next ((low, high) ∷ rs) seen b f =
    if in_range low high b then f rs (seen ++ (b ∷ [])) else replacement ++ begun (lead b) b f

-- Every maximal part that begins no character is replaced. `seen` are the bytes of a character begun.
unfoldable pub replace_invalid : List Range → Bytes → Bytes → Bytes
unfolding lead
replace_invalid [] seen [] = []
replace_invalid (_ ∷ _) seen [] = replacement
replace_invalid rs seen (b ∷ bs) = next rs seen b (λ rs' seen'. replace_invalid rs' seen' bs)

unfoldable pub to_string_lossy : Bytes → Bytes
unfolding is_utf8 replace_invalid
to_string_lossy bs = if is_utf8 bs then bs else replace_invalid [] [] bs
