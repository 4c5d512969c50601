-- ===== src/Fs/Workdir.antt =====
-- A working directory, as the calls of the file system see it.
pub mod Laws
use tig.Prelude.{
  ℕ, zero, suc, ◌+◌, ◌-◌, ◌*◌, ◌/◌, ◌%◌, ◌<◌, ◌≤◌, Bytes, Text, Bool, true, false, not, ◌==◌,
  Option, none, some, nat_eq, length, ltb, is_none, if◌then◌else◌, Result, ok, err, and_then,
}
use tig.Fs.Action.{FsError}

-- A regular file has its permission bits and its content. `other` is a socket, a fifo or a device.
mutual
  pub data Node : Type 0 where
    file : ℕ → Bytes → Node
    dir : Entries → Node
    symlink : Bytes → Node
    other : Node

  pub data Entries : Type 0 where
    nil : Entries
    entry : Text → Node → Entries → Entries

-- `mode & 0o111 != 0`
unfoldable pub is_executable : ℕ → Bool
is_executable mode = not (nat_eq (mode % 2 + mode / 8 % 2 + mode / 64 % 2) 0)

-- `mode | 0o111`
unfoldable pub with_executable : ℕ → ℕ
with_executable mode = mode + (1 - mode % 2) + 8 * (1 - mode / 8 % 2) + 64 * (1 - mode / 64 % 2)

unfoldable pub find : Text → Entries → Option Node
find name nil = none
find name (entry n x es) = if n == name then some x else find name es

-- The entry of that name replaced, or a new one after the others.
unfoldable pub set : Text → Node → Entries → Entries
set name x nil = entry name x nil
set name x (entry n y es) =
    let rest = set name x es in if n == name then entry n x es else entry n y rest

-- How deep directories are nested.
unfoldable mutual
  pub depth : Entries → ℕ
  depth nil = 0
  depth (entry n x es) = if ltb (depth es) (depth_node x) then depth_node x else depth es

  pub depth_node : Node → ℕ
  depth_node (file _ _) = 0
  depth_node (dir es) = suc (depth es)
  depth_node (symlink _) = 0
  depth_node other = 0

-- What is outside the directory: the permission bits of a file that `fs::write` creates, and a write
-- to what a symbolic link leads to, or to a device.
pub record Os : Type 0 where
  pub new_mode : ℕ
  pub write_special : Node → Bytes → Result FsError (Unit {0})

abbrev write_at : Os → Text → Bytes → Entries → Option Node → Result FsError Entries
write_at os name bytes es none = ok (set name (Node.file os.new_mode bytes) es)
write_at os name bytes es (some (Node.file mode _)) = ok (set name (Node.file mode bytes) es)
write_at os name bytes es (some (Node.dir _)) = err FsError.io
write_at os name bytes es (some x) = and_then (os.write_special x bytes) λ _. ok es

-- `fs::write`
unfoldable pub write : Os → Text → Bytes → Entries → Result FsError Entries
unfolding find set
write os name bytes es = write_at os name bytes es (find name es)

abbrev make_executable_at : Text → Entries → Option Node → Entries
make_executable_at name es (some (Node.file mode bytes)) =
    set name (Node.file (with_executable mode) bytes) es
make_executable_at name es _ = es

-- `set_permissions` with `mode() | 0o111`
unfoldable pub make_executable : Text → Entries → Entries
unfolding find set with_executable
make_executable name es = make_executable_at name es (find name es)

-- `fs::create_dir`
unfoldable pub create_dir : Text → Entries → Result FsError Entries
unfolding find set
create_dir name es =
    if is_none (find name es) then ok (set name (Node.dir Entries.nil) es) else err FsError.io

-- `std::os::unix::fs::symlink`
unfoldable pub create_symlink : Text → Bytes → Entries → Result FsError Entries
unfolding find set
create_symlink name target es =
    if is_none (find name es) then ok (set name (Node.symlink target) es) else err FsError.io
