-- ===== src/Fs/TreeEdit/Roundtrip.antt =====
-- Writing a file at a path and reading paths back.
use tig.Prelude.{
  Bytes, Text, ◌≡◌, refl, Option, none, some, List, [], ◌∷◌, ok, err, and_then, arith, ◌⊎◌,
  Result-cases, inl, inr,
}
use tig.Core.Object.{Hash, ObjectKind, encode}
use tig.Core.Tree
use tig.Core.Tree.{Tree, TreeEntry, EntryKind, regular}
use tig.Core.Wire.{Wire, IsSound, Blob}
use tig.Store.Repo.{Repo}
use tig.Store.Objects
use tig.Store.Objects.Laws.{IsContentAddressed}
use tig.Fs.Action.{FsError}
use tig.Fs.TreeEdit.{read, lookup_entry, split_path, read_blob_at_path, read_file_entry}
use tig.Fs.TreeEdit.Write.{write_blob_at_path, leaf_entry}
use tig.Fs.TreeEdit.Extends.{
  Extends, Extends-trans, read-Extends, read_tree-Extends, lookup_entry-Extends, put-Extends,
}
use tig.Fs.TreeEdit.Level.{Diverges, Below, CanWrite}
use tig.Fs.TreeEdit.Insert.{last_name, rewrite_insert_lem}
use tig.Fs.TreeEdit.Paths.{split_path-AllGood}

Below-map :
    (w : Wire) (o : Option TreeEntry) {P Q : Hash → Type 0}
    → ((h : Hash) → P h → Q h)
    → Below w o P
    → Below w o Q
Below-map w none f b = tt
Below-map w (some e) f (k, b) = (k, f e.target b)

CanWrite-Extends :
    (w : Wire) {repo repo' : Repo} (h : Hash) (ps : List Text) (p : Text)
    → Extends w repo repo'
    → CanWrite w repo h ps p
    → CanWrite w repo' h ps p
CanWrite-Extends w h [] p x (t, r) = (t, read_tree-Extends w h x r)
CanWrite-Extends w h (n ∷ ns) p x (t, r, below) = (
  t,
  read_tree-Extends w h x r,
  Below-map w (Tree.get t p) (λ sub. CanWrite-Extends w sub ns n x) below,
)

-- What a write of a file leaves: the run, and the file's bytes under the entry written.
pub record BlobWritten (w : Wire) (repo : Repo) (root : Hash) (path : Text) (p : Text)
    (ps : List Text) (bytes : Bytes) : Type 0 where
  pub root' : Hash
  pub repo' : Repo
  pub target : Hash
  pub run : write_blob_at_path w root path bytes repo ≡ (ok root', repo')
  pub content : read w ObjectKind.blob w.blob repo' target ≡ ok (record { bytes = bytes })
  pub before :
      (q : Text) (qs : List Text) (old : TreeEntry)
      → Diverges p ps q qs
      → lookup_entry w repo root q qs ≡ ok old
      → lookup_entry w repo' root' q qs ≡ ok old
  pub found :
      lookup_entry w repo' root' p ps
      ≡ ok (leaf_entry (last_name w p ps) target EntryKind.file regular)
  pub extends : Extends w repo repo'

pub write_blob-BlobWritten :
    (w : Wire)
    → IsSound w
    → (repo : Repo) (root : Hash) (path : Text) (bytes : Bytes) (p : Text) (ps : List Text)
    → IsContentAddressed w repo
    → split_path path ≡ ok (p, ps)
    → CanWrite w repo root ps p
    → BlobWritten w repo root path p ps bytes
unfolding write_blob_at_path
write_blob-BlobWritten w s repo root path bytes p ps v parts can =
    let blob : Blob = record { bytes = bytes } in
    let (x, back) = put-Extends w ObjectKind.blob w.blob repo blob s s.blob v in
    let mid : Repo = (Objects.put w repo (encode ObjectKind.blob w.blob blob)).1 in
    let target : Hash = (Objects.put w repo (encode ObjectKind.blob w.blob blob)).0 in
    let (root', repo', run, wr) =
      rewrite_insert_lem w s target EntryKind.file regular mid root p ps x.addressed
        (split_path-AllGood path p ps parts) (CanWrite-Extends w root ps p x can) in
    record {
      root' = root';
      repo' = repo';
      target = target;
      run = rw (parts, run) refl;
      content = read-Extends w ObjectKind.blob w.blob target wr.extends back;
      before = λ q qs old apart there.
          wr.others q qs old apart (lookup_entry-Extends w root q qs x there);
      found = wr.found;
      extends = Extends-trans w x wr.extends;
    }

pub read_blob-BlobWritten :
    (w : Wire) {repo : Repo} {root : Hash} {path p : Text} {ps : List Text} {bytes : Bytes}
    → split_path path ≡ ok (p, ps)
    → (b : BlobWritten w repo root path p ps bytes)
    → read_blob_at_path w b.repo' b.root' path ≡ ok bytes
unfolding read_blob_at_path
read_blob-BlobWritten w parts b = rw (parts, b.found, b.content) refl

-- With a sound digest and serializers, in an intact object store, writing bytes at an accepted
-- path whose existing directories can be read succeeds, keeps the store intact, and reading that
-- path below the new root gives the bytes.
pub read_blob-write_blob :
    (w : Wire)
    → IsSound w
    → (repo : Repo) (root : Hash) (path : Text) (bytes : Bytes) (p : Text) (ps : List Text)
    → IsContentAddressed w repo
    → split_path path ≡ ok (p, ps)
    → CanWrite w repo root ps p
    → (root' : Hash) × (repo' : Repo) × (write_blob_at_path w root path bytes repo
        ≡ (ok root', repo'))
      × IsContentAddressed w repo'
      × (read_blob_at_path w repo' root' path ≡ ok bytes)
unfolding read_blob_at_path
read_blob-write_blob w s repo root path bytes p ps v parts can =
    let b = write_blob-BlobWritten w s repo root path bytes p ps v parts can in
    (b.root', b.repo', b.run, b.extends.addressed, read_blob-BlobWritten w parts b)

read_file_entry-Extends :
    (w : Wire) {repo repo' : Repo} (e : TreeEntry) (old : Bytes)
    → Extends w repo repo'
    → read_file_entry w repo e ≡ ok old
    → read_file_entry w repo' e ≡ ok old
read_file_entry-Extends w {repo} e old x seen =
    elim (Result-cases (read w ObjectKind.blob w.blob repo e.target)) [
      | inl (blob, there) ↦ ground (arith, read-Extends w ObjectKind.blob w.blob e.target x there)
      | inr (_, missing) ↦ ground arith
    ]

-- A read survives when its lookup does.
pub read_blob-Extends :
    (w : Wire) {repo repo' : Repo} (root root' : Hash) (path q : Text) (qs : List Text)
    (old : Bytes)
    → Extends w repo repo'
    → split_path path ≡ ok (q, qs)
    → ((e : TreeEntry)
        → lookup_entry w repo root q qs ≡ ok e
        → lookup_entry w repo' root' q qs ≡ ok e)
    → read_blob_at_path w repo root path ≡ ok old
    → read_blob_at_path w repo' root' path ≡ ok old
unfolding read_blob_at_path
read_blob-Extends w {repo} {repo'} root root' path q qs old x parts keeps =
    rw (parts) (by_entry (Result-cases (lookup_entry w repo root q qs)))
  where
    by_entry :
        ((e : TreeEntry) × (lookup_entry w repo root q qs ≡ ok e))
          ⊎ ((e : FsError) × (lookup_entry w repo root q qs ≡ err e))
        → and_then (lookup_entry w repo root q qs) (read_file_entry w repo) ≡ ok old
        → and_then (lookup_entry w repo' root' q qs) (read_file_entry w repo') ≡ ok old
    by_entry (inl (e, there)) seen =
        rw (keeps e there) (read_file_entry-Extends w e old x (ground arith))
    by_entry (inr (_, missing)) seen = ground arith

-- With a sound digest and serializers, in an intact object store, after bytes were written at an
-- accepted path whose existing directories can be read, a file that was read at a path that
-- branches off reads the same below the new root, and still below the old root.
pub read_blob-write_blob_elsewhere :
    (w : Wire)
    → IsSound w
    → (repo repo' : Repo) (root root' : Hash) (path : Text) (bytes : Bytes) (p : Text)
      (ps : List Text) (other : Text) (q : Text) (qs : List Text) (old : Bytes)
    → IsContentAddressed w repo
    → split_path path ≡ ok (p, ps)
    → CanWrite w repo root ps p
    → split_path other ≡ ok (q, qs)
    → Diverges p ps q qs
    → write_blob_at_path w root path bytes repo ≡ (ok root', repo')
    → read_blob_at_path w repo root other ≡ ok old
    → (read_blob_at_path w repo' root' other ≡ ok old)
      × (read_blob_at_path w repo' root other ≡ ok old)
read_blob-write_blob_elsewhere w s repo repo' root root' path bytes p ps other q qs old v parts can
      parts' apart run seen =
    let b = write_blob-BlobWritten w s repo root path bytes p ps v parts can in
    let same_repo : b.repo' ≡ repo' = ground (arith, b.run) in
    let same_root : b.root' ≡ root' = ground (arith, b.run) in
    (
      rw (← same_repo, ← same_root)
          (read_blob-Extends w root b.root' other q qs old b.extends parts'
            (λ e. b.before q qs e apart) seen),
      rw (← same_repo) (
          read_blob-Extends w root root other q qs old b.extends parts'
            (λ e. lookup_entry-Extends w root q qs b.extends) seen),
    )
