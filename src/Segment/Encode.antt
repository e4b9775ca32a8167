-- ===== src/Segment/Encode.antt =====
-- `encode_segment`.
use ketebe_oss.Base.{List, [], ◌∷◌, ◌++◌, length}
use ketebe_oss.Base.Result.{Result, ok, ◌>>=◌}
use ketebe_oss.Core.Values.{Bytes, Record}
use ketebe_oss.Codec.Words.{to_le_bytes}
use ketebe_oss.Codec.Envelope.{seal}
use ketebe_oss.Segment.Codec.{
  write_len, write_string, write_record_id, write_vector, write_metadata,
}
use ketebe_oss.Segment.Build.{Segment, SegmentError, Tombstone}
use ketebe_oss.Segment.Format.{segment_format}

unfoldable pub write_record : Record → Result SegmentError Bytes
write_record r = do
  id ← write_record_id r.id
  v ← write_vector r.vector
  m ← write_metadata r.metadata
  ok (id ++ (to_le_bytes 8 r.sequence_number ++ (v ++ m)))

unfoldable pub write_records : List Record → Result SegmentError Bytes
unfolding write_record
write_records [] = ok []
write_records (r ∷ rs) = do first ← write_record r; rest ← write_records rs; ok (first ++ rest)

unfoldable pub write_tombstones : List Tombstone → Result SegmentError Bytes
write_tombstones [] = ok []
write_tombstones (t ∷ ts) = do
  id ← write_record_id t.record_id
  rest ← write_tombstones ts
  ok (id ++ (to_le_bytes 8 t.sequence_number ++ rest))

-- The payload of a segment file.
unfoldable pub write_segment : Segment → Result SegmentError Bytes
unfolding write_records write_tombstones
write_segment s = do
  name ← write_string s.collection_id
  record_count ← write_len (length s.records) "too many records"
  records ← write_records s.records
  tombstone_count ← write_len (length s.tombstones) "too many tombstones"
  tombstones ← write_tombstones s.tombstones
  ok (
      name
      ++ (to_le_bytes 8 s.id
          ++ (to_le_bytes 8 s.min_sequence
              ++ (to_le_bytes 8 s.max_sequence
                  ++ (record_count ++ (records ++ (tombstone_count ++ tombstones)))))))

unfoldable pub encode_segment : Segment → Result SegmentError Bytes
unfolding write_segment seal
encode_segment s = do payload ← write_segment s; ok (seal segment_format payload)
