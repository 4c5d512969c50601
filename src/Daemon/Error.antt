-- ===== src/Daemon/Error.antt =====
-- crates/tigd/src/error.rs: the error of a handler, and what the other crates' errors become.
use tig.Core.Error.{CoreError}
use tig.Store.Error.{StoreError}
use tig.Fs.Action.{FsError}

pub data ApiError : Type 0 where
  not_found bad_request conflict unauthorized internal : ApiError

abbrev pub from_core : CoreError → ApiError
from_core _ = ApiError.bad_request

abbrev pub from_store : StoreError → ApiError
from_store StoreError.not_found = ApiError.not_found
from_store StoreError.already_exists = ApiError.conflict
from_store StoreError.json = ApiError.internal
from_store StoreError.io = ApiError.internal
from_store StoreError.corrupt = ApiError.internal
from_store (StoreError.core _) = ApiError.bad_request

abbrev pub from_fs : FsError → ApiError
from_fs (FsError.core _) = ApiError.bad_request
from_fs (FsError.store s) = from_store s
from_fs FsError.io = ApiError.internal
from_fs FsError.walk = ApiError.internal
from_fs FsError.notify = ApiError.internal
from_fs FsError.unsupported_file_kind = ApiError.bad_request
from_fs FsError.escapes_workdir = ApiError.bad_request
