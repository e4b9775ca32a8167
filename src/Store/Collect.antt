-- ===== src/Store/Collect.antt =====
-- The listing of `SegmentStore`, and `garbage_collect_segment_store` of compaction.rs.
use ketebe_oss.Base.{ℕ, Bool, false, ◌||◌, List, [], ◌∷◌, map, ◌==◌, if◌then◌else◌}
use ketebe_oss.Base.Result.{Result, ok, err, ◌>>=◌, map_err}
use ketebe_oss.Segment.Build.{SegmentError, StorageBackendError, backend_io, backend}
use ketebe_oss.Compaction.Merge.{CompactionError, segment}
use ketebe_oss.Store.Directory.{Directory, Fault, Check, no_fault}
use ketebe_oss.Store.Segments.{delete_segment}

-- The files that end in ".kseg": a name has twenty digits, so that the order of the names is the
-- order of the numbers.
unfoldable pub list_segments : Fault → Directory → Result StorageBackendError (List ℕ)
list_segments no_fault d = ok (map (λ e. e.0) d.segments)
list_segments _ d = err backend_io

unfoldable pub list_segment_ids : Fault → Directory → Result SegmentError (List ℕ)
list_segment_ids fault d = map_err backend (list_segments fault d)

unfoldable pub contains : ℕ → List ℕ → Bool
contains id [] = false
contains id (x ∷ xs) = id == x || contains id xs

-- The loop over the listed ids: the ids that it removes, and the directory behind it. The check
-- and the fault are those of the deletion of an id.
unfoldable pub collect :
    List ℕ
    → (ℕ → Check)
    → (ℕ → Fault)
    → Directory
    → List ℕ
    → Result CompactionError (List ℕ) × Directory
collect retained checks faults d [] = (ok [], d)
collect retained checks faults d (id ∷ ids) =
    let (outcome, after) = delete_segment (checks id) (faults id) d id in
    let kept = collect retained checks faults d ids in
    let (removed, end) = collect retained checks faults after ids in
    if contains id retained then kept else elim outcome [
      | ok was_there ↦ (removed >>= λ rest. ok (if was_there then id ∷ rest else rest), end)
      | err e ↦ (err (segment e), after)
    ]

-- What follows the listing.
unfoldable pub collect_listed :
    List ℕ
    → (ℕ → Check)
    → (ℕ → Fault)
    → Directory
    → Result SegmentError (List ℕ)
    → Result CompactionError (List ℕ) × Directory
collect_listed retained checks faults d (ok ids) = collect retained checks faults d ids
collect_listed retained checks faults d (err e) = (err (segment e), d)

unfoldable pub garbage_collect :
    List ℕ
    → Fault
    → (ℕ → Check)
    → (ℕ → Fault)
    → Directory
    → Result CompactionError (List ℕ) × Directory
garbage_collect retained list_fault checks faults d =
    collect_listed retained checks faults d (list_segment_ids list_fault d)
