-- ===== src/Fs/Diff.antt =====
-- crates/tig-fs/src/diff.rs: the difference of two trees. The line differ, `similar`, is a parameter: the
-- hunks of two texts for a context, each with its line changes.
pub mod Reported
pub mod Filter
pub mod Names
pub mod Complete
pub mod Sound
use tig.Prelude.{
  ℕ, zero, suc, ◌+◌, Bytes, Text, ◌==◌, Bool, true, false, not, ◌&&◌, ◌||◌, Option, none, some,
  is_none, List, [], ◌∷◌, ◌++◌, nat_eq, leb, take, starts_with, if◌then◌else◌, Result, ok, err,
  and_then, map_err,
}
use tig.Prelude.BTree
use tig.Prelude.Map
use tig.Prelude.Map.{Map}
use tig.Core.Object.{Hash, ObjectKind}
use tig.Core.Tree.{EntryKind, Tree, TreeEntry, entry_kind_eq, contains_byte}
use tig.Core.Wire.{Wire, Blob}
use tig.Store.Repo.{Repo}
use tig.Fs.Action.{FsError}
use tig.Fs.TreeEdit.{read, read_tree}
use tig.Fs.Utf8.{to_string_lossy}
use tig.Fs.Materialize.{Stop, entry_path}

pub data ChangeKind : Type 0 where
  added removed modified : ChangeKind
  type_changed : EntryKind → EntryKind → ChangeKind

pub data HunkLine : Type 0 where
  context add remove : Text → HunkLine

pub record Hunk : Type 0 where
  pub from_start : ℕ
  pub from_len : ℕ
  pub to_start : ℕ
  pub to_len : ℕ
  pub lines : List HunkLine

pub record FileDiff : Type 0 where
  pub path : Text
  pub kind : ChangeKind
  pub entry_kind : EntryKind
  pub from_target : Option Hash
  pub to_target : Option Hash
  pub binary : Bool
  pub hunks : Option (List Hunk)

pub record DiffOptions : Type 0 where
  pub no_hunks : Bool
  pub paths : List Text
  pub context_lines : ℕ

pub data ChangeTag : Type 0 where
  equal insert delete : ChangeTag

pub record LineChange : Type 0 where
  pub tag : ChangeTag
  pub old_index : Option ℕ
  pub new_index : Option ℕ
  pub value : Text

-- A text without its last character, if that is the given one.
unfoldable pub drop_last : ℕ → Text → Text
drop_last c [] = []
drop_last c (x ∷ []) = if nat_eq x c then [] else x ∷ []
drop_last c (x ∷ y ∷ s) = x ∷ drop_last c (y ∷ s)

abbrev pub strip_eol : Text → Text
strip_eol s = drop_last 13 (drop_last 10 s)

abbrev hunk_line : ChangeTag → Text → HunkLine
hunk_line ChangeTag.equal s = HunkLine.context s
hunk_line ChangeTag.insert s = HunkLine.add s
hunk_line ChangeTag.delete s = HunkLine.remove s

-- The start and the length of a side so far.
abbrev pub Span : Type 0
Span = Option ℕ × ℕ

abbrev track : Option ℕ → Span → Span
track none span = span
track (some i) (none, len) = (some i, len + 1)
track (some _) (some start, len) = (some start, len + 1)

abbrev start_line : Option ℕ → ℕ
start_line none = 0
start_line (some i) = i + 1

-- The loop over the changes of a hunk.
unfoldable pub hunk_of : List LineChange → Span → Span → List HunkLine → Hunk
unfolding drop_last
hunk_of [] (from_start, from_len) (to_start, to_len) lines = record {
  from_start = start_line from_start;
  from_len = from_len;
  to_start = start_line to_start;
  to_len = to_len;
  lines = lines;
}
hunk_of (c ∷ cs) from to lines =
    hunk_of cs (track c.old_index from) (track c.new_index to)
      (lines ++ (hunk_line c.tag (strip_eol c.value) ∷ []))

unfoldable pub hunks_of : List (List LineChange) → List Hunk
unfolding hunk_of
hunks_of [] = []
hunks_of (h ∷ hs) = hunk_of h (none, 0) (none, 0) [] ∷ hunks_of hs

-- A NUL in the first 8 KiB.
unfoldable pub is_binary : Bytes → Bool
unfolding contains_byte
is_binary bytes = contains_byte 0 (take 8192 bytes)

abbrev at_least_one : ℕ → ℕ
at_least_one n = if nat_eq n 0 then 1 else n

abbrev target_of : Option TreeEntry → Option Hash
target_of none = none
target_of (some e) = some e.target

abbrev kind_of : ChangeKind → Option TreeEntry → Option TreeEntry → EntryKind
kind_of ChangeKind.removed (some f) _ = f.kind
kind_of _ _ (some t) = t.kind
kind_of _ (some f) none = f.kind
kind_of _ none none = EntryKind.file

-- Not a change of type.
abbrev keeps_type : ChangeKind → Bool
keeps_type (ChangeKind.type_changed _ _) = false
keeps_type _ = true

-- A `BTreeMap` of the entries by name.
unfoldable pub by_name : List TreeEntry → Map TreeEntry → Map TreeEntry
unfolding BTree.insert
by_name [] m = m
by_name (e ∷ es) m = by_name es (BTree.insert e.name e m)

-- The sorted names without repetitions.
unfoldable pub names_of : {V : Type 0} → Map V → Map (Unit {0}) → Map (Unit {0})
unfolding BTree.insert
names_of [] m = m
names_of ((name, _) ∷ es) m = names_of es (BTree.insert name tt m)

-- The filter compares texts, not components.
unfoldable pub any_path : List Text → Text → Bool
unfolding starts_with
any_path [] path = false
any_path (p ∷ ps) path = starts_with p path || starts_with path p || any_path ps path

abbrev no_paths : List Text → Bool
no_paths [] = true
no_paths (_ ∷ _) = false

abbrev pub is_filtered_out : DiffOptions → Text → Bool
is_filtered_out opts path = not (no_paths opts.paths) && not (any_path opts.paths path)

module _ (w : Wire) (similar : Text → Text → ℕ → List (List LineChange)) (repo : Repo)
    (opts : DiffOptions) where
  abbrev pub blob_diff_hunks : Text → Text → ℕ → List Hunk
  blob_diff_hunks from to radius = hunks_of (similar from to (at_least_one radius))

  abbrev read_side : Option Hash → Result FsError Bytes
  read_side none = ok []
  read_side (some h) = and_then (read w ObjectKind.blob w.blob repo h) λ blob. ok blob.bytes

  abbrev compare_bytes : Bytes → Bytes → Bool × Option (List Hunk)
  compare_bytes from_bytes to_bytes =
      if is_binary from_bytes || is_binary to_bytes then (true, none) else (
        false,
        some (
            blob_diff_hunks (to_string_lossy from_bytes) (to_string_lossy to_bytes)
              (at_least_one opts.context_lines)),
      )

  abbrev compare_sides : Option Hash → Option Hash → Result FsError (Bool × Option (List Hunk))
  compare_sides from_target to_target = and_then (read_side from_target) λ from_bytes.
      and_then (read_side to_target) λ to_bytes. ok (compare_bytes from_bytes to_bytes)

  abbrev content_change :
      ChangeKind
      → EntryKind
      → Option Hash
      → Option Hash
      → Result FsError (Bool × Option (List Hunk))
  content_change kind entry_kind from_target to_target =
      if keeps_type kind && entry_kind_eq entry_kind EntryKind.file && not opts.no_hunks
      then compare_sides from_target to_target
      else ok (false, none)

  unfoldable pub emit_change :
      Text → ChangeKind → Option TreeEntry → Option TreeEntry → Result FsError FileDiff
  unfolding read to_string_lossy hunks_of is_binary
  emit_change path kind f t =
      let entry_kind = kind_of kind f t in
      and_then (content_change kind entry_kind (target_of f) (target_of t)) λ (binary, hunks).
        ok (record {
          path = path;
          kind = kind;
          entry_kind = entry_kind;
          from_target = target_of f;
          to_target = target_of t;
          binary = binary;
          hunks = hunks;
        })

  abbrev pub Diffs : Type 0
  Diffs = Result Stop (List FileDiff)

  abbrev pub emit : Text → ChangeKind → Option TreeEntry → Option TreeEntry → Diffs
  emit path kind f t = and_then (map_err Stop.failed (emit_change path kind f t)) λ d. ok (d ∷ [])

  abbrev pub Recurse : Type 0
  Recurse = Option Hash → Option Hash → Text → Diffs

  abbrev pub is_tree : TreeEntry → Bool
  is_tree e = entry_kind_eq e.kind EntryKind.tree

  abbrev pub diff_both : Recurse → Text → TreeEntry → TreeEntry → Diffs
  diff_both go path f t =
      if f.target == t.target && entry_kind_eq f.kind t.kind
      then ok []
      else if is_tree f && is_tree t
      then go (some f.target) (some t.target) path
      else if not (entry_kind_eq f.kind t.kind)
      then emit path (ChangeKind.type_changed f.kind t.kind) (some f) (some t)
      else emit path ChangeKind.modified (some f) (some t)

  abbrev pub diff_entry : Recurse → Text → Option TreeEntry → Option TreeEntry → Diffs
  diff_entry go path (some f) (some t) = diff_both go path f t
  diff_entry go path (some f) none =
      if is_tree f then go (some f.target) none path else emit path ChangeKind.removed (some f) none
  diff_entry go path none (some t) =
      if is_tree t then go none (some t.target) path else emit path ChangeKind.added none (some t)
  diff_entry go path none none = ok []

  abbrev pub diff_name : Recurse → Text → Map TreeEntry → Map TreeEntry → Text → Diffs
  diff_name go prefix from to name =
      let path = entry_path prefix name in
      if is_filtered_out opts path
      then ok []
      else diff_entry go path (Map.get name from) (Map.get name to)

  -- The loop over the names.
  unfoldable pub diff_names :
      Recurse → Text → Map TreeEntry → Map TreeEntry → Map (Unit {0}) → Diffs
  unfolding emit_change any_path
  diff_names go prefix from to [] = ok []
  diff_names go prefix from to ((name, _) ∷ names) =
      and_then (diff_name go prefix from to name)
        λ here. and_then (diff_names go prefix from to names) λ rest. ok (here ++ rest)

  abbrev pub entries_of : Option Hash → Result FsError (Map TreeEntry)
  entries_of none = ok []
  entries_of (some h) = and_then (read_tree w repo h) λ t. ok (by_name t.entries [])

  abbrev pub same_hash : Option Hash → Option Hash → Bool
  same_hash (some f) (some t) = f == t
  same_hash _ _ = false

  abbrev pub diff_maps : Recurse → Text → Map TreeEntry → Map TreeEntry → Diffs
  diff_maps go prefix from to = diff_names go prefix from to (names_of to (names_of from []))

  -- What was emitted before an error is dropped with it.
  unfoldable pub diff_subtree : ℕ → Option Hash → Option Hash → Text → Diffs
  unfolding diff_names by_name names_of read_tree
  diff_subtree zero from to prefix = err Stop.out_of_fuel
  diff_subtree (suc fuel) from to prefix =
      if same_hash from to
      then ok []
      else and_then (map_err Stop.failed (entries_of from)) λ from_entries.
        and_then (map_err Stop.failed (entries_of to))
          λ to_entries. diff_maps (diff_subtree fuel) prefix from_entries to_entries

  unfoldable pub diff_trees : ℕ → Hash → Hash → Diffs
  unfolding diff_subtree
  diff_trees fuel from to = if from == to then ok [] else diff_subtree fuel (some from) (some to) []
