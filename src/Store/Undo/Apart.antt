-- ===== src/Store/Undo/Apart.antt =====
-- When two captured refs are different refs, and which captures can be written back exactly.
use tig.Prelude.{◌≡◌, ◌≢◌, none, some, List, [], ◌∷◌, false}
use tig.Store.Refs.{is_bad_bookmark}
use tig.Store.Refs.Trim.{trim}
use tig.Store.OpLog.{RefSnapshot}

abbrev pub Apart : RefSnapshot → RefSnapshot → Type 0
Apart (RefSnapshot.head _) (RefSnapshot.head _) = ⊥
Apart (RefSnapshot.change i _) (RefSnapshot.change j _) = i ≢ j
Apart (RefSnapshot.workspace i _) (RefSnapshot.workspace j _) = i ≢ j
Apart (RefSnapshot.bookmark i _) (RefSnapshot.bookmark j _) = i ≢ j
Apart _ _ = Unit

abbrev pub ApartFrom : RefSnapshot → List RefSnapshot → Type 0
ApartFrom s [] = Unit
ApartFrom s (t ∷ ts) = Apart t s × ApartFrom s ts

abbrev pub AllApart : List RefSnapshot → Type 0
AllApart [] = Unit
AllApart (s ∷ ss) = ApartFrom s ss × AllApart ss

-- A record stands under its own id, an id has no space around it, a bookmark's name is accepted.
abbrev pub IsWritable : RefSnapshot → Type 0
IsWritable (RefSnapshot.head none) = Unit
IsWritable (RefSnapshot.head (some id)) = trim id ≡ id
IsWritable (RefSnapshot.change id none) = Unit
IsWritable (RefSnapshot.change id (some c)) = c.id ≡ id
IsWritable (RefSnapshot.workspace id none) = Unit
IsWritable (RefSnapshot.workspace id (some m)) = m.id ≡ id
IsWritable (RefSnapshot.bookmark name none) = Unit
IsWritable (RefSnapshot.bookmark name (some id)) = (is_bad_bookmark name ≡ false) × (trim id ≡ id)

abbrev pub AllWritable : List RefSnapshot → Type 0
AllWritable [] = Unit
AllWritable (s ∷ ss) = IsWritable s × AllWritable ss
