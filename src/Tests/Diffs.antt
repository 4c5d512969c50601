-- ===== src/Tests/Diffs.antt =====
-- Two trees with a file that differs, and a tree with itself in another directory.
use tig.Prelude.{
  ℕ, Text, text, ◌≡◌, refl, Bool, true, false, Option, none, some, List, [], ◌∷◌, Result, ok, err,
}
use tig.Prelude.Map
use tig.Core.Object.{Hash, ObjectKind, encode}
use tig.Core.Tree.{EntryKind, Tree, TreeEntry, regular, exec}
use tig.Store.Repo.{Repo, init}
use tig.Store.Objects
use tig.Fs.TreeEdit.{read_tree}
use tig.Fs.TreeEdit.Write.{leaf_entry}
use tig.Fs.Diff.{DiffOptions, FileDiff, LineChange, diff_trees}
use tig.Fs.Diff.Sound.{AllReal, diff_trees-AllReal}
use tig.Fs.Diff.Complete.{Reaches, Keeps, diff_trees-Keeps}
use tig.Tests.Wire.{plain}

abbrev similar : Text → Text → ℕ → List (List LineChange)
similar from to radius = []

abbrev options : DiffOptions
options = record { no_hunks = true; paths = []; context_lines = 3 }

abbrev old_entry : TreeEntry
old_entry = leaf_entry (text "a") (7 ∷ []) EntryKind.file regular

-- Of the same content, executable.
abbrev same_entry : TreeEntry
same_entry = leaf_entry (text "a") (7 ∷ []) EntryKind.file exec

abbrev new_entry : TreeEntry
new_entry = leaf_entry (text "a") (8 ∷ []) EntryKind.file regular

abbrev tree_of : TreeEntry → Tree
tree_of e = record { entries = e ∷ [] }

abbrev put_1 : Hash × Repo
put_1 = Objects.put plain init (encode ObjectKind.tree plain.tree (tree_of old_entry))

abbrev put_2 : Hash × Repo
put_2 = Objects.put plain put_1.1 (encode ObjectKind.tree plain.tree (tree_of new_entry))

abbrev put_3 : Hash × Repo
put_3 = Objects.put plain put_2.1 (encode ObjectKind.tree plain.tree (tree_of same_entry))

abbrev repo : Repo
repo = put_3.1

abbrev changes : List FileDiff
changes =
    record {
      path = text "a";
      kind = tig.Fs.Diff.ChangeKind.modified;
      entry_kind = EntryKind.file;
      from_target = some (7 ∷ []);
      to_target = some (8 ∷ []);
      binary = false;
      hunks = none;
    }
    ∷ []

differs : diff_trees plain similar repo options 2 put_1.0 put_2.0 ≡ ok changes
unfolding diff_trees tig.Prelude.◌==◌ Objects.put Map.get tig.Core.Object.hash Map.put encode
    Objects.get tig.Core.Object.from_tag tig.Core.Object.verify tig.Core.Object.decode
differs = refl

diff_trees-AllReal_example : AllReal plain repo options put_1.0 put_2.0 changes
diff_trees-AllReal_example =
    diff_trees-AllReal plain similar repo options 2 put_1.0 put_2.0 changes differs

-- A change of the mode alone is no difference.
silent : diff_trees plain similar repo options 2 put_1.0 put_3.0 ≡ ok []
unfolding diff_trees tig.Prelude.◌==◌ Objects.put Map.get tig.Core.Object.hash Map.put encode
    Objects.get tig.Core.Object.from_tag tig.Core.Object.verify tig.Core.Object.decode
silent = refl

there : Reaches plain similar repo options put_1.0 (text "a") [] old_entry
unfolding read_tree Objects.get Map.get Objects.put Map.put tig.Prelude.◌==◌ tig.Core.Object.hash
    encode tig.Core.Object.from_tag tig.Core.Object.verify tig.Core.Object.decode
    tig.Fs.Diff.by_name
there = (tree_of old_entry, refl, refl)

diff_trees-Keeps_example : Keeps plain similar repo options (some put_3.0) (text "a") [] old_entry
diff_trees-Keeps_example =
    diff_trees-Keeps plain similar repo options refl 2 put_1.0 put_3.0 (text "a") [] old_entry
      silent there refl
