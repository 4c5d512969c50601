-- ===== src/Vis/Principals.antt =====
-- crates/tig-vis/src/principal.rs: identities, each in a JSON file. The directory vis/keys is a map of
-- the files by their path in it. The file system does not fail.
use tig.Prelude.{
  Bytes, Text, text, cmp, Ordering, ◌==◌, Bool, not, ◌||◌, none, some, is_none, List, [], ◌∷◌, ◌++◌,
  starts_with, ends_with, if◌then◌else◌, Result, ok, err, and_then, ok_or,
}
use tig.Prelude.Map
use tig.Prelude.Map.{Map}
use tig.Core.Tree.{contains_byte, is_empty_text}
use tig.Vis.Error.{VisError}
use tig.Vis.Libs.{Libs, Principal, PrincipalKind}
use tig.Vis.Keys.{
  to_hex, secret_key_from_hex, sign_public_key_from_hex, sign_secret_key_from_hex, public,
  sign_public,
}
use tig.Vis.Seal.{refuse}

-- A key pair is given by its secret.
module _ (l : Libs) where
  abbrev pub new_local : Text → PrincipalKind → Bytes → Principal
  new_local id kind secret = record {
    id = id;
    kind = kind;
    pubkey = public l secret;
    secret_hex = some (to_hex l secret);
    sign_pubkey_hex = none;
    sign_secret_hex = none;
  }

  abbrev pub new_local_full : Text → PrincipalKind → Bytes → Bytes → Principal
  new_local_full id kind seal_secret sign_secret = record {
    id = id;
    kind = kind;
    pubkey = public l seal_secret;
    secret_hex = some (to_hex l seal_secret);
    sign_pubkey_hex = some (to_hex l (sign_public l sign_secret));
    sign_secret_hex = some (to_hex l sign_secret);
  }

  abbrev pub new_remote : Text → PrincipalKind → Bytes → Principal
  new_remote id kind pubkey = record {
    id = id;
    kind = kind;
    pubkey = pubkey;
    secret_hex = none;
    sign_pubkey_hex = none;
    sign_secret_hex = none;
  }

  abbrev pub has_secret : Principal → Bool
  has_secret p = not (is_none p.secret_hex)

  abbrev pub has_sign_pubkey : Principal → Bool
  has_sign_pubkey p = not (is_none p.sign_pubkey_hex)

  abbrev pub secret : Principal → Result VisError Bytes
  secret p = and_then (ok_or VisError.secret_missing p.secret_hex) (secret_key_from_hex l)

  abbrev pub sign_pubkey : Principal → Result VisError Bytes
  sign_pubkey p =
      and_then (ok_or VisError.secret_missing p.sign_pubkey_hex) (sign_public_key_from_hex l)

  abbrev pub sign_secret : Principal → Result VisError Bytes
  sign_secret p =
      and_then (ok_or VisError.secret_missing p.sign_secret_hex) (sign_secret_key_from_hex l)

abbrev pub Files : Type 0
Files = Map Bytes

abbrev pub path_for : Text → Text
path_for id = id ++ text ".json"

unfoldable pub validate_id : Text → Result VisError (Unit {0})
unfolding contains_byte
validate_id id =
    refuse
      (is_empty_text id
        || contains_byte b'/' id
        || contains_byte b'\\' id
        || contains_byte 0 id
        || id == text "."
        || id == text "..")
      VisError.crypto

module _ (l : Libs) where
  abbrev parsed : Bytes → Result VisError Principal
  parsed bytes = ok_or VisError.json (l.principal_json.from_bytes bytes)

  unfoldable pub put : Files → Principal → Result VisError Files
  unfolding validate_id
  put files p =
      and_then (validate_id p.id)
        λ _. ok (Map.put (path_for p.id) (l.principal_json.to_bytes p) files)

  unfoldable pub put_new : Files → Principal → Result VisError Files
  unfolding put
  put_new files p =
      if not (is_none (Map.get (path_for p.id) files))
      then err VisError.identity_already_exists
      else put files p

  unfoldable pub get : Files → Text → Result VisError Principal
  get files id = and_then (ok_or VisError.identity_not_found (Map.get (path_for id) files)) parsed

  unfoldable pub delete : Files → Text → Result VisError Files
  delete files id =
      if is_none (Map.get (path_for id) files)
      then err VisError.identity_not_found
      else ok (Map.remove (path_for id) files)

  -- Hidden files and those that are no records are skipped.
  unfoldable pub read_files : Files → Result VisError (List Principal)
  unfolding ends_with starts_with
  read_files [] = ok []
  read_files ((name, bytes) ∷ files) =
      if not (ends_with (text ".json") name) || starts_with (text ".") name
      then read_files files
      else and_then (parsed bytes) λ p. and_then (read_files files) λ ps. ok (p ∷ ps)

-- One insertion of the stable sort by id.
unfoldable pub insert_by_id : Principal → List Principal → List Principal
insert_by_id p [] = p ∷ []
insert_by_id p (q ∷ qs) = elim (cmp p.id q.id) [
  | Ordering.gt ↦ q ∷ insert_by_id p qs
  | _ ↦ p ∷ q ∷ qs
]

unfoldable pub sort_by_id : List Principal → List Principal
unfolding insert_by_id
sort_by_id [] = []
sort_by_id (p ∷ ps) = insert_by_id p (sort_by_id ps)

unfoldable pub list : Libs → Files → Result VisError (List Principal)
unfolding read_files sort_by_id
list l files = and_then (read_files l files) λ ps. ok (sort_by_id ps)
