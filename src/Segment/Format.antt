-- ===== src/Segment/Format.antt =====
-- `encode_segment` and `decode_segment`, on the codec of Codec.
use ketebe_oss.Base.{ℕ, zero, suc, none, some, List, [], ◌∷◌, ◌++◌, ltb, if◌then◌else◌}
use ketebe_oss.Base.Result.{Result, ok, err, map_err}
use ketebe_oss.Base.Map.{Map, get, insert}
use ketebe_oss.Core.Values.{Bytes, CollectionId, RecordId, Record, new_collection_id}
use ketebe_oss.Core.RecordOrder.{record_id_ord}
use ketebe_oss.Codec.Words.{checked_add}
use ketebe_oss.Codec.Envelope.{Format, unseal, envelope_header_len}
use ketebe_oss.Codec.Cursor.{Cursor, new_cursor, is_finished, Reader, ◌>>=◌, pure, fail, lift}
use ketebe_oss.Segment.Codec.{
  read_u32, read_u64, read_string, read_record_id, read_vector, read_metadata,
}
use ketebe_oss.Segment.Build.{
  Segment, Tombstone, SegmentError, corrupt, domain, invalid_magic, checksum_mismatch,
  unsupported_version,
}

-- `checked_add` and `ok_or`.
abbrev pub segment_len : ℕ → Result SegmentError ℕ
segment_len payload_len = elim (checked_add envelope_header_len payload_len) [
  | some total ↦ ok total
  | none ↦ err (corrupt "segment length overflow")
]

abbrev pub segment_format : Format SegmentError
segment_format = record {
  magic = (b'K', b'T', b'S', b'G');
  version = 1;
  expected_len = segment_len;
  truncated_header = corrupt "truncated header";
  invalid_magic = invalid_magic;
  length_mismatch = corrupt "segment length mismatch";
  checksum_mismatch = checksum_mismatch;
  unsupported_version = unsupported_version;
}

-- The set of the record ids that were read.
abbrev pub Seen : Type 0
Seen = Map RecordId (Unit {0})

unfoldable pub read_record : Reader SegmentError Record
read_record = do
  id ← read_record_id
  sequence ← read_u64
  v ← read_vector
  m ← read_metadata
  pure (record { id = id; vector = v; metadata = m; sequence_number = sequence })

-- The loop over the records.
unfoldable pub read_records : ℕ → Seen → List Record → Reader SegmentError (Seen × List Record)
unfolding read_record
read_records zero seen records = pure (seen, records)
read_records (suc n) seen records = do
  r ← read_record
  elim (get r.id seen) [
    | some u ↦ fail (corrupt "duplicate record id")
    | none ↦ read_records n (insert r.id tt seen) (records ++ r ∷ [])
  ]

-- The loop over the tombstones.
unfoldable pub read_tombstones : ℕ → Seen → List Tombstone → Reader SegmentError (List Tombstone)
read_tombstones zero seen tombstones = pure tombstones
read_tombstones (suc n) seen tombstones = do
  id ← read_record_id
  elim (get id seen) [
    | some u ↦ fail (corrupt "record and tombstone overlap")
    | none ↦ do
      sequence ← read_u64
      read_tombstones n seen
          (tombstones ++ record { record_id = id; sequence_number = sequence } ∷ [])
  ]

unfoldable pub read_contents : CollectionId → ℕ → ℕ → ℕ → Reader SegmentError Segment
unfolding read_records read_tombstones
read_contents collection id min_sequence max_sequence = do
  record_count ← read_u32
  (seen, records) ← read_records record_count [] []
  tombstone_count ← read_u32
  tombstones ← read_tombstones tombstone_count seen []
  pure (record {
    id = id;
    collection_id = collection;
    min_sequence = min_sequence;
    max_sequence = max_sequence;
    records = records;
    tombstones = tombstones;
  })

unfoldable pub read_segment : Reader SegmentError Segment
unfolding read_contents
read_segment = do
  name ← read_string
  collection ← lift (map_err domain (new_collection_id name))
  id ← read_u64
  min_sequence ← read_u64
  max_sequence ← read_u64
  if ltb max_sequence min_sequence
      then fail (corrupt "invalid sequence range")
      else read_contents collection id min_sequence max_sequence

-- The check that the cursor has read all of the payload.
unfoldable pub finish : Result SegmentError (Segment × Cursor) → Result SegmentError Segment
unfolding is_finished
finish (ok (s, c)) = if is_finished c then ok s else err (corrupt "trailing payload bytes")
finish (err e) = err e

unfoldable pub decode_segment : Bytes → Result SegmentError Segment
unfolding unseal read_segment finish
decode_segment bytes = elim (unseal segment_format bytes) [
  | ok payload ↦ finish (read_segment (new_cursor payload))
  | err e ↦ err e
]
