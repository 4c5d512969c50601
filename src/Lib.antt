-- ===== src/Lib.antt =====
-- tig: a version control system with content-addressed objects, mutable changes, an operation log
-- and an HTTP daemon. This library models its core, from the Rust sources under crates/.
--
-- Parts, from the bottom up, each with the files that it models:
--   Core (crates/tig-core/src): Object (object.rs, hash.rs), Tree (tree.rs), Change (change.rs,
--     id.rs), Vis (vis.rs), Wire (blob.rs, snapshot.rs, sealed.rs and the serializers).
--   Store (crates/tig-store/src): Repo is the state of a repository; Objects (objects.rs) reads and
--     writes its object files, Refs (refs.rs, workspace.rs) its mutable refs, Workspace
--     (workspace.rs) the change that a working directory is at, OpLog, LogFile and Undo (oplog.rs)
--     its operation log in memory and in a file, Gc (gc.rs) collects what neither refs nor log can
--     reach.
--   Fs (crates/tig-fs/src): TreeEdit (tree_edit.rs) reads and writes a path through the object store,
--     Snap and SnapNow (snap.rs) make a tree or a working directory the next snapshot of a change and
--     log it. Workdir is a working directory; Scan (scan.rs) stores one as a tree, Materialize
--     (materialize.rs) writes a tree out, Restore (restore.rs) puts one in place of a directory, and
--     Diff (diff.rs) compares two trees. Utf8 is the test and the repair of texts of the standard
--     library.
--   Vis (crates/tig-vis/src): Keys (keys.rs), Seal (seal.rs), Tokens (tokens.rs), Principals
--     (principal.rs), Error (error.rs); Libs has the third-party functions.
--   Daemon (crates/tigd/src): Access, Oplog, Edit, Caller, Read and Manage (handlers.rs), Error
--     (error.rs).
--   Prelude holds byte strings, maps, results; Tests runs the theorems on concrete data.
-- Definitions keep the names of the functions they model; a loop of a function is a definition
-- beside it.
--
-- Conventions. A function that changes the repository takes it and returns it; in Fs an action
-- returns it beside a result, since what was stored before an error stays stored. Directories of files
-- are association lists keyed by byte strings. Text is the list of its UTF-8 bytes, and the text refs
-- are trimmed of ASCII white space. Message texts of errors are left out. The file system does not
-- fail, but for what the code itself runs into (a name that is taken, a special file), and JSON
-- records are kept as values. Clocks, fresh ULIDs and random bytes are arguments. A `HashSet` is a
-- list without repetitions. Ids of changes and workspaces are file names, so they contain no `/`.
-- Handlers are modelled up to the view that they serialize.
--
-- Third-party code is a parameter: `Core.Wire.Wire` has the digest BLAKE3 and the serializer of each
-- object type. `Core.Wire.IsSound` states what theorems rely on where they need it: the digest does not
-- collide on the strings that are hashed, and each serializer is undone by its parser. A concrete
-- `Wire` that is sound stands in Tests.Wire. `Vis.Libs.Libs` has hex, base64, JSON, X25519, HKDF,
-- XChaCha20-Poly1305 and Ed25519; `Vis.Libs.CanSeal` and `CanSign` state that what was encrypted is
-- decrypted with the same key, nonce and path, that key agreement is symmetric, that signatures
-- verify, and the lengths. Instances stand in Tests.VisLibs. The line differ `similar`, the lower
-- casing of texts, `hex::decode` and `HeaderValue::to_str` are arguments. `Fs.Workdir.Os` has the mode
-- of a new file and what a write to a special file gives.
--
-- `binary_search_by` is modelled as a scan that finds the first name that is not below the one
-- sought. On entries that are not in ascending order the standard library leaves its answer open,
-- and the model fixes one; theorems on looking up and inserting speak of the code for trees in
-- order, which are the only ones that it writes.
--
-- Fuel. The mark loop of the collector takes the number of the roots and of all hashes that stored
-- objects name. Each popped hash was pushed once, so that is enough (Store.Gc.Fuel). The reader of
-- the log file takes one unit for each byte, and a record has at least four, so that is enough
-- (Store.LogFile.Truncated). The walks down stored trees (rendering, sealed entries, diff) take their
-- depth as an argument; fuel above the depth of the directory that was stored is enough
-- (Fs.Materialize.Roundtrip), and a result that ran out of fuel is told apart from any error.
--
-- Not modelled: blame and grep, the canonical order of CBOR maps, the texts of hashes in hex, the
-- listing of workspaces, the clone of a donor directory, followed symlinks, watch, the views for
-- JSON, the one-line summary of an operation, the command line, HTTP. The rest is input and output.
pub mod Prelude
pub mod Core
pub mod Store
pub mod Fs
pub mod Vis
pub mod Daemon
pub mod Tests
