-- ===== src/Fs/Action.antt =====
-- crates/tig-fs/src/error.rs, and actions on a repository: `?` returns early, and what was written
-- before it stays written.
use tig.Prelude.{Result, ok, err}
use tig.Core.Error.{CoreError}
use tig.Core.Object.{Hash, RawObject}
use tig.Core.Wire.{Wire}
use tig.Store.Error.{StoreError}
use tig.Store.Repo.{Repo}
use tig.Store.Objects

pub data FsError : Type 0 where
  io walk unsupported_file_kind escapes_workdir notify : FsError
  core : CoreError → FsError
  store : StoreError → FsError

abbrev pub Action : Type 0 → Type 0
Action A = Repo → Result FsError A × Repo

abbrev pub continue : {A B : Type 0} → Result FsError A → (A → Action B) → Action B
continue (ok a) f repo = f a repo
continue (err e) f repo = (err e, repo)

infixl 5 ◌>>=◌
abbrev pub ◌>>=◌ : {A B : Type 0} → Action A → (A → Action B) → Action B
◌>>=◌ m f repo = let (r, repo') = m repo in continue r f repo'

abbrev pub pure : {A : Type 0} → A → Action A
pure a repo = (ok a, repo)

abbrev pub raise : {A : Type 0} → FsError → Action A
raise e repo = (err e, repo)

-- a step that reads the repository
abbrev pub reading : {A : Type 0} → (Repo → Result FsError A) → Action A
reading f repo = (f repo, repo)

abbrev pub put : Wire → RawObject → Action Hash
put w obj repo = let (h, repo') = Objects.put w repo obj in (ok h, repo')
