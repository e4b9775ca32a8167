-- ===== src/Store/Segments.antt =====
-- `SegmentStore` of segment.rs, over the local backend.
use ketebe_oss.Base.{ℕ, Bool, List, if◌then◌else◌}
use ketebe_oss.Base.Result.{Result, ok, err, ◌>>=◌, map_err}
use ketebe_oss.Segment.Build.{Segment, SegmentError, backend, location_exists}
use ketebe_oss.Segment.Format.{decode_segment}
use ketebe_oss.Segment.Encode.{encode_segment}
use ketebe_oss.Store.Directory.{
  Directory, Fault, Check, BackendCapabilities, validate_segment_store, read_file, exists_file,
  publish_atomic, delete_file,
}

-- `SegmentStore::from_backend`.
unfoldable pub from_backend : BackendCapabilities → Result SegmentError (Unit {0})
from_backend capabilities = map_err backend (validate_segment_store capabilities)

-- What `publish` does with the encoded segment.
unfoldable pub store_encoded :
    Check → Fault → Directory → ℕ → Result SegmentError (List ℕ) → Result SegmentError ℕ × Directory
store_encoded check fault d id (err e) = (err e, d)
store_encoded check fault d id (ok bytes) =
    let (outcome, after) = publish_atomic check fault d id bytes in
    (map_err backend outcome >>= λ _. ok id, after)

-- `publish`: the answer is the location of the segment. The first existence check is its own, the
-- second that of the backend.
unfoldable pub publish :
    Check → Check → Fault → Directory → Segment → Result SegmentError ℕ × Directory
publish first second fault d s =
    if exists_file first d s.id
    then (err (backend (location_exists s.id)), d)
    else store_encoded second fault d s.id (encode_segment s)

unfoldable pub open_segment : Fault → Directory → ℕ → Result SegmentError Segment
open_segment fault d id = map_err backend (read_file fault d id) >>= λ bytes. decode_segment bytes

unfoldable pub delete_segment : Check → Fault → Directory → ℕ → Result SegmentError Bool × Directory
delete_segment check fault d id =
    let (outcome, after) = delete_file check fault d id in (map_err backend outcome, after)
