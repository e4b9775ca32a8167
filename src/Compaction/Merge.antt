-- ===== src/Compaction/Merge.antt =====
-- `compact_segments`.
use ketebe_oss.Base.{ℕ, none, some, List, [], ◌∷◌, leb, if◌then◌else◌}
use ketebe_oss.Base.Result.{Result, ok, err, ◌>>=◌, map_err}
use ketebe_oss.Base.Map.{Map, get, insert}
use ketebe_oss.Core.Values.{CollectionId, RecordId, Record, SequenceNumber}
use ketebe_oss.Core.RecordOrder.{record_id_ord, same_collection}
use ketebe_oss.Wal.Frame.{WalMutation, upsert, delete, mutation_sequence}
use ketebe_oss.Segment.Build.{Segment, SegmentError, Tombstone, from_mutations}

-- `io` and `invalid_segment_filename` are of the directory functions alone.
pub data CompactionError : Type 0 where
  io insufficient_segments collection_mismatch invalid_segment_filename : CompactionError
  segment : SegmentError → CompactionError

pub data LatestKind : Type 0 where
  record_kind : Record → LatestKind
  tombstone_kind : LatestKind

pub record LatestValue : Type 0 where
  pub sequence : SequenceNumber
  pub kind : LatestKind

abbrev pub Latest : Type 0
Latest = Map RecordId LatestValue

unfoldable pub apply_latest : Latest → RecordId → SequenceNumber → LatestKind → Latest
apply_latest latest id sequence kind =
    let inserted = insert id (record { sequence = sequence; kind = kind }) latest in
    elim (get id latest) [
      | some existing ↦ if leb sequence existing.sequence then latest else inserted
      | none ↦ inserted
    ]

unfoldable pub gather_records : Latest → List Record → Latest
unfolding apply_latest
gather_records latest [] = latest
gather_records latest (r ∷ rs) =
    gather_records (apply_latest latest r.id r.sequence_number (record_kind r)) rs

unfoldable pub gather_tombstones : Latest → List Tombstone → Latest
unfolding apply_latest
gather_tombstones latest [] = latest
gather_tombstones latest (t ∷ ts) =
    gather_tombstones (apply_latest latest t.record_id t.sequence_number tombstone_kind) ts

-- The loop over the segments.
unfoldable pub gather_segments :
    CollectionId → Latest → List Segment → Result CompactionError Latest
unfolding gather_records gather_tombstones
gather_segments collection latest [] = ok latest
gather_segments collection latest (s ∷ ss) =
    let rest =
      gather_segments collection (gather_tombstones (gather_records latest s.records) s.tombstones)
        ss in
    if same_collection s.collection_id collection then rest else err collection_mismatch

-- The `match` on the kind of a value.
unfoldable pub mutation_for : CollectionId → RecordId → SequenceNumber → LatestKind → WalMutation
mutation_for collection id sequence (record_kind r) = upsert collection r
mutation_for collection id sequence tombstone_kind = delete collection id sequence

abbrev pub to_mutation : CollectionId → RecordId → LatestValue → WalMutation
to_mutation collection id value = mutation_for collection id value.sequence value.kind

unfoldable pub mutations_of : CollectionId → Latest → List WalMutation
unfolding mutation_for
mutations_of collection [] = []
mutations_of collection ((id, value) ∷ rest) =
    to_mutation collection id value ∷ mutations_of collection rest

-- `sort_by_key`, which keeps the order of mutations with one sequence number.
unfoldable pub insert_by_sequence : WalMutation → List WalMutation → List WalMutation
insert_by_sequence m [] = m ∷ []
insert_by_sequence m (x ∷ xs) =
    let later = x ∷ insert_by_sequence m xs in
    if leb (mutation_sequence m) (mutation_sequence x) then m ∷ x ∷ xs else later

unfoldable pub sort_by_sequence : List WalMutation → List WalMutation
unfolding insert_by_sequence
sort_by_sequence [] = []
sort_by_sequence (m ∷ ms) = insert_by_sequence m (sort_by_sequence ms)

unfoldable pub compact_segments : ℕ → List Segment → Result CompactionError Segment
unfolding gather_segments mutations_of sort_by_sequence
compact_segments replacement [] = err insufficient_segments
compact_segments replacement (s ∷ []) = err insufficient_segments
compact_segments replacement (s ∷ t ∷ ss) = do
  latest ← gather_segments s.collection_id [] (s ∷ t ∷ ss)
  map_err segment
      (from_mutations replacement (sort_by_sequence (mutations_of s.collection_id latest)))
