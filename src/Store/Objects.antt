-- ===== src/Store/Objects.antt =====
-- crates/tig-store/src/objects.rs: the content-addressed object store.
pub mod Laws
use tig.Prelude.{
  ℕ, Bytes, Bool, Option, none, some, List, [], ◌∷◌, length, is_none, not, if◌then◌else◌, Result,
  ok, err, and_then, map_err,
}
use tig.Prelude.Map
use tig.Prelude.Map.{Map}
use tig.Core.Object.{Hash, RawObject, tag, from_tag, hash, verify}
use tig.Core.Wire.{Wire}
use tig.Store.Error.{StoreError}
use tig.Store.Repo.{Repo}

unfoldable pub frame : RawObject → Bytes
frame obj = tag obj.kind ∷ obj.bytes

unfoldable pub unframe : Bytes → Result StoreError RawObject
unframe [] = err StoreError.corrupt
unframe (b ∷ bytes) =
    and_then (map_err StoreError.core (from_tag b))
      λ kind. ok (record { kind = kind; bytes = bytes })

module _ (w : Wire) where
  -- Identical hash, identical content: an object that is there is not written again.
  unfoldable pub put : Repo → RawObject → Hash × Repo
  unfolding frame
  put repo obj =
      let h = hash w.blake3 obj in
      if not (is_none (Map.get h repo.objects))
      then (h, repo)
      else (h, record repo { objects = Map.put h (frame obj) repo.objects })

  -- The bytes read are checked against the hash asked for.
  abbrev pub read_file : Hash → Option Bytes → Result StoreError RawObject
  read_file h none = err StoreError.not_found
  read_file h (some bytes) =
      and_then (unframe bytes)
        λ raw. and_then (map_err StoreError.core (verify w.blake3 raw h)) λ _. ok raw

  unfoldable pub get : Repo → Hash → Result StoreError RawObject
  unfolding unframe
  get repo h = read_file h (Map.get h repo.objects)

unfoldable pub has : Repo → Hash → Bool
has repo h = not (is_none (Map.get h repo.objects))

unfoldable pub remove : Repo → Hash → Repo
remove repo h = record repo { objects = Map.remove h repo.objects }

-- Every hash with the size of its file.
unfoldable pub iter_all : Map Bytes → List (Hash × ℕ)
iter_all [] = []
iter_all ((h, f) ∷ m) = (h, length f) ∷ iter_all m
