-- ===== src/Tests/Wire.antt =====
-- A digest and serializers for the tests: the digest is the bytes themselves, so none collide.
use tig.Prelude.{ℕ, zero, suc, Bytes, ◌≡◌, refl}
use tig.Core.Tree.{EntryKind, Tree, TreeEntry}
use tig.Core.Wire.{Wire, Blob, Snapshot, Sealed, SealAlgo, RecipientWrap, IsSound}
use tig.Tests.Format.{
  Format, nat_format, list_format, option_format, via, codec, codec-RoundTrips, ◌then◌,
}

abbrev bytes_format : Format Bytes
bytes_format = list_format nat_format

abbrev kind_code : EntryKind → ℕ
kind_code EntryKind.file = 0
kind_code EntryKind.tree = 1
kind_code EntryKind.symlink = 2
kind_code EntryKind.sealed = 3
kind_code EntryKind.conflict = 4
kind_code EntryKind.submodule = 5

abbrev kind_of : ℕ → EntryKind
kind_of zero = EntryKind.file
kind_of (suc zero) = EntryKind.tree
kind_of (suc (suc zero)) = EntryKind.symlink
kind_of (suc (suc (suc zero))) = EntryKind.sealed
kind_of (suc (suc (suc (suc zero)))) = EntryKind.conflict
kind_of _ = EntryKind.submodule

pub kind_of-kind_code : (k : EntryKind) → kind_of (kind_code k) ≡ k
kind_of-kind_code EntryKind.file = refl
kind_of-kind_code EntryKind.tree = refl
kind_of-kind_code EntryKind.symlink = refl
kind_of-kind_code EntryKind.sealed = refl
kind_of-kind_code EntryKind.conflict = refl
kind_of-kind_code EntryKind.submodule = refl

abbrev kind_format : Format EntryKind
kind_format = via nat_format kind_code kind_of kind_of-kind_code

abbrev entry_format : Format TreeEntry
entry_format =
    via
      (bytes_format
        then kind_format
        then bytes_format
        then nat_format
        then option_format bytes_format)
      (λ e. (e.name, (e.kind, (e.target, (e.mode, e.vis)))))
      (λ (name, (kind, (target, (mode, vis)))). record {
        name = name;
        kind = kind;
        target = target;
        mode = mode;
        vis = vis;
      })
      (λ e. refl)

abbrev tree_format : Format Tree
tree_format =
    via (list_format entry_format) (λ t. t.entries) (λ es. record { entries = es }) (λ t. refl)

abbrev blob_format : Format Blob
blob_format = via bytes_format (λ b. b.bytes) (λ bs. record { bytes = bs }) (λ b. refl)

abbrev snapshot_format : Format Snapshot
snapshot_format =
    via
      (list_format bytes_format
        then bytes_format
        then bytes_format
        then nat_format
        then option_format bytes_format
        then option_format nat_format)
      (λ s. (s.parents, (s.tree, (s.author, (s.timestamp_ns, (s.message, s.op_id))))))
      (λ (parents, (tree, (author, (timestamp_ns, (message, op_id))))). record {
        parents = parents;
        tree = tree;
        author = author;
        timestamp_ns = timestamp_ns;
        message = message;
        op_id = op_id;
      })
      (λ s. refl)

abbrev wrap_format : Format RecipientWrap
wrap_format =
    via (bytes_format then bytes_format then bytes_format)
      (λ r. (r.recipient_pk, (r.wrapped_key, r.wrap_nonce)))
      (λ (pk, (key, nonce)). record { recipient_pk = pk; wrapped_key = key; wrap_nonce = nonce })
      (λ r. refl)

pub sealed_back : (algo : SealAlgo) → SealAlgo.x25519_xchacha20_poly1305 ≡ algo
sealed_back SealAlgo.x25519_xchacha20_poly1305 = refl

abbrev algo_format : Format SealAlgo
algo_format = via nat_format (λ _. 0) (λ _. SealAlgo.x25519_xchacha20_poly1305) sealed_back

abbrev sealed_format : Format Sealed
sealed_format =
    via
      (algo_format
        then bytes_format
        then list_format wrap_format
        then bytes_format
        then bytes_format
        then bytes_format)
      (λ s. (s.algo, (s.ephemeral_pk, (s.recipients, (s.ciphertext, (s.nonce, s.aad))))))
      (λ (algo, (ephemeral_pk, (recipients, (ciphertext, (nonce, aad))))). record {
        algo = algo;
        ephemeral_pk = ephemeral_pk;
        recipients = recipients;
        ciphertext = ciphertext;
        nonce = nonce;
        aad = aad;
      })
      (λ s. refl)

abbrev pub plain : Wire
plain = record {
  blake3 = λ bs. bs;
  blob = codec blob_format;
  tree = codec tree_format;
  snapshot = codec snapshot_format;
  sealed = codec sealed_format;
}

pub plain-IsSound : IsSound plain
plain-IsSound = record {
  collision_free = λ a b e. e;
  blob = codec-RoundTrips blob_format;
  tree = codec-RoundTrips tree_format;
  snapshot = codec-RoundTrips snapshot_format;
  sealed = codec-RoundTrips sealed_format;
}
