-- ===== src/Store/Objects/Laws.antt =====
-- The object store as a content-addressed map.
use tig.Prelude.{
  Bytes, ◌&&◌, ◌⊎◌, ◌==◌, eq_iff, eq_refl, ◌≡◌, refl, sym, ◌∙◌, Bool-cases, Option-cases, inl, inr,
  none, some, [], ◌∷◌, is_none, if◌then◌else◌, ok, arith,
}
use tig.Prelude.Map
use tig.Prelude.Map.{get-put}
use tig.Core.Object.{Hash, RawObject, from_tag-tag, tag-from_tag, hash, verify}
use tig.Core.Wire.{Wire, IsSound}
use tig.Store.Repo.{Repo}
use tig.Store.Objects.{frame, unframe, put, get}

-- Parsing the framed bytes of an object gives the object back.
pub unframe-frame : (obj : RawObject) → unframe (frame obj) ≡ ok obj
unfolding unframe frame
unframe-frame obj = rw from_tag-tag

-- A frame determines its object.
pub frame-unframe : (f : Bytes) (obj : RawObject) → unframe f ≡ ok obj → frame obj ≡ f
unfolding unframe frame
frame-unframe [] obj h = cc
frame-unframe (b ∷ bs) obj h = ground (arith, tag-from_tag b obj.kind)

module _ (w : Wire) where
  hash-frame : (obj : RawObject) → hash w.blake3 obj ≡ w.blake3 (frame obj)
  unfolding hash frame
  hash-frame obj = refl

  -- Whatever the files hold, an object that get returns has the hash that was asked for.
  pub hash-get :
      (repo : Repo) (h : Hash) (obj : RawObject) → get w repo h ≡ ok obj → hash w.blake3 obj ≡ h
  unfolding get verify
  hash-get repo h obj e = ground (arith, eq_iff (hash w.blake3 obj) h)

  -- Every file holds the frame of an object, under the object's hash.
  pub record IsContentAddressed (repo : Repo) : Type 0 where
    pub framed :
        (h : Hash) (f : Bytes)
        → Map.get h repo.objects ≡ some f
        → (obj : RawObject) × (f ≡ frame obj) × (hash w.blake3 obj ≡ h)

  -- The files after a `put`.
  pub file_of_put :
      (repo : Repo) (obj : RawObject) (j : Hash)
      → Map.get j (put w repo obj).1.objects ≡ (
          if is_none (Map.get (hash w.blake3 obj) repo.objects) && hash w.blake3 obj == j
          then some (frame obj)
          else Map.get j repo.objects)
  unfolding put frame
  file_of_put repo obj j = ground (arith, get-put (hash w.blake3 obj) j (frame obj) repo.objects)

  pub hash_of_put : (repo : Repo) (obj : RawObject) → (put w repo obj).0 ≡ hash w.blake3 obj
  unfolding put
  hash_of_put repo obj = ground arith

  -- put keeps the object store intact: every file holds the frame of an object, under the hash of
  -- that object.
  pub put-IsContentAddressed :
      (repo : Repo) (obj : RawObject)
      → IsContentAddressed repo
      → IsContentAddressed (put w repo obj).1
  put-IsContentAddressed repo obj v = record {
    framed = λ j f e.
        elim (Bool-cases
          (is_none (Map.get (hash w.blake3 obj) repo.objects) && hash w.blake3 obj == j)) [
            | inl new ↦ (
              obj,
              ground (arith, file_of_put repo obj j),
              ground (arith, eq_iff (hash w.blake3 obj) j),
            )
            | inr old ↦ v.framed j f (ground (arith, file_of_put repo obj j))
          ];
  }

  -- An intact object is read.
  get_of_file :
      (repo : Repo) (h : Hash) (obj : RawObject)
      → Map.get h repo.objects ≡ some (frame obj)
      → hash w.blake3 obj ≡ h
      → get w repo h ≡ ok obj
  unfolding get verify
  get_of_file repo h obj e p =
      rw (e, get) (ground (arith, unframe-frame obj, eq_iff (hash w.blake3 obj) h))

  -- Every object that was readable before a put reads the same after it.
  pub get-put_keeps :
      (repo : Repo) (obj old : RawObject) (h : Hash)
      → get w repo h ≡ ok old
      → get w (put w repo obj).1 h ≡ ok old
  unfolding get
  get-put_keeps repo obj old h e =
      ground (arith, file_of_put repo obj h, eq_iff (hash w.blake3 obj) h)

  -- With a collision-free digest, in an intact store, an object that was put is read back under
  -- the hash that put returned.
  pub get-put_self :
      IsSound w
      → (repo : Repo) (obj : RawObject) → IsContentAddressed repo
      → get w (put w repo obj).1 (put w repo obj).0 ≡ ok obj
  get-put_self s repo obj v = rw (hash_of_put repo obj) (
      get_of_file (put w repo obj).1 (hash w.blake3 obj) obj
        (stored (Option-cases (Map.get (hash w.blake3 obj) repo.objects))) refl)
    where
      stored :
          (Map.get (hash w.blake3 obj) repo.objects ≡ none)
            ⊎ ((f : Bytes) × (Map.get (hash w.blake3 obj) repo.objects ≡ some f))
          → Map.get (hash w.blake3 obj) (put w repo obj).1.objects ≡ some (frame obj)
      stored (inl absent) =
          ground (arith, file_of_put repo obj (hash w.blake3 obj), eq_refl (hash w.blake3 obj))
      stored (inr (f, present)) =
          let (old, e, p) = v.framed (hash w.blake3 obj) f present in
          let same : frame old ≡ frame obj =
            s.collision_free (frame old) (frame obj) (sym (hash-frame old) ∙ p ∙ hash-frame obj) in
          ground (arith, file_of_put repo obj (hash w.blake3 obj), same)
