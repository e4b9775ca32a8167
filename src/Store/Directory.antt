-- ===== src/Store/Directory.antt =====
-- `LocalFilesystemBackend`, on the directory of a segment store: the segment files and the
-- temporary files that become segment files, each under the number of its segment.
use ketebe_oss.Base.{ℕ, Bool, true, false, Option, none, some, take, not, if◌then◌else◌}
use ketebe_oss.Base.Result.{Result, ok, err}
use ketebe_oss.Base.Map.{Map, get, insert, remove}
use ketebe_oss.Core.Values.{Bytes}
use ketebe_oss.Base.Order.{number_ord}
use ketebe_oss.Segment.Build.{
  StorageBackendError, backend_io, location_exists, unsupported_capability,
}

pub record Directory : Type 0 where
  pub segments : Map ℕ Bytes
  pub temporaries : Map ℕ Bytes

-- Which call of the file system fails in an operation: none, one before any file is changed, the
-- opening of the new file, a write after so many bytes, a call behind the writing of the whole file
-- up to the rename, or the sync of the directory.
pub data Fault : Type 0 where
  no_fault early_fails open_fails rename_fails sync_fails : Fault
  write_fails : ℕ → Fault

-- Whether an existence check tells what is there, or fails: `Path::exists` then answers that nothing
-- is.
pub data Check : Type 0 where
  told check_fails : Check

pub record BackendCapabilities : Type 0 where
  pub range_read : Bool
  pub atomic_publish : Bool
  pub list : Bool
  pub delete : Bool

abbrev pub local_filesystem : BackendCapabilities
local_filesystem = record { range_read = true; atomic_publish = true; list = true; delete = true }

unfoldable pub validate_segment_store : BackendCapabilities → Result StorageBackendError (Unit {0})
validate_segment_store c =
    if not c.atomic_publish
    then err (unsupported_capability "atomic_publish")
    else if not c.list
    then err (unsupported_capability "list")
    else if not c.delete
    then err (unsupported_capability "delete")
    else ok tt

abbrev pub is_there : Option Bytes → Bool
is_there none = false
is_there (some bytes) = true

unfoldable pub read_file : Fault → Directory → ℕ → Result StorageBackendError Bytes
read_file no_fault d id = elim (get id d.segments) [ none ↦ err backend_io | some b ↦ ok b ]
read_file _ d id = err backend_io

unfoldable pub exists_file : Check → Directory → ℕ → Bool
exists_file told d id = is_there (get id d.segments)
exists_file check_fails d id = false

-- The file at its place, and the temporary file gone.
abbrev pub renamed : Directory → ℕ → Bytes → Directory
renamed d id bytes = record {
  segments = insert id bytes d.segments;
  temporaries = remove id d.temporaries;
}

abbrev pub with_temporary : Directory → ℕ → Bytes → Directory
with_temporary d id bytes = record {
  segments = d.segments;
  temporaries = insert id bytes d.temporaries;
}

unfoldable pub publish_atomic :
    Check → Fault → Directory → ℕ → Bytes → Result StorageBackendError (Unit {0}) × Directory
publish_atomic check fault d id bytes =
    if exists_file check d id then (err (location_exists id), d) else elim fault [
      | early_fails ↦ (err backend_io, d)
      | open_fails ↦
          (err backend_io, record { segments = d.segments; temporaries = remove id d.temporaries })
      | write_fails k ↦ (err backend_io, with_temporary d id (take k bytes))
      | rename_fails ↦ (err backend_io, with_temporary d id bytes)
      | sync_fails ↦ (err backend_io, renamed d id bytes)
      | no_fault ↦ (ok tt, renamed d id bytes)
    ]

abbrev pub without : Directory → ℕ → Directory
without d id = record { segments = remove id d.segments; temporaries = d.temporaries }

unfoldable pub delete_file :
    Check → Fault → Directory → ℕ → Result StorageBackendError Bool × Directory
delete_file check fault d id = if not (exists_file check d id) then (ok false, d) else elim fault [
  | no_fault ↦ (ok true, without d id)
  | sync_fails ↦ (err backend_io, without d id)
  | _ ↦ (err backend_io, d)
]
