-- ===== src/Segment/Codec.antt =====
-- The writers and the cursor of segment.rs: those of wal.rs, with the errors of segments.
use ketebe_oss.Base.{ℕ, String}
use ketebe_oss.Base.Result.{Result}
use ketebe_oss.Core.Values.{Bytes, RecordId, Vector, Metadata, MetadataValue}
use ketebe_oss.Codec.Cursor
use ketebe_oss.Codec.Cursor.{CodecErrors, Reader}
use ketebe_oss.Codec.Read
use ketebe_oss.Codec.Write
use ketebe_oss.Segment.Build.{SegmentError, corrupt, domain}

abbrev pub segment_errors : CodecErrors SegmentError
segment_errors = record {
  corrupt = corrupt;
  domain = domain;
  unexpected_end = "unexpected payload end";
}

abbrev pub write_len : ℕ → String → Result SegmentError Bytes
write_len = Write.write_len segment_errors

abbrev pub write_string : Bytes → Result SegmentError Bytes
write_string = Write.write_string segment_errors

abbrev pub write_record_id : RecordId → Result SegmentError Bytes
write_record_id = Write.write_record_id segment_errors

abbrev pub write_vector : Vector → Result SegmentError Bytes
write_vector = Write.write_vector segment_errors

abbrev pub write_metadata_value : MetadataValue → Result SegmentError Bytes
write_metadata_value = Write.write_metadata_value segment_errors

abbrev pub write_metadata : Metadata → Result SegmentError Bytes
write_metadata = Write.write_metadata segment_errors

abbrev pub take_bytes : ℕ → Reader SegmentError Bytes
take_bytes = Cursor.take_bytes segment_errors

abbrev pub read_u8 : Reader SegmentError ℕ
read_u8 = Cursor.read_u8 segment_errors

abbrev pub read_u32 : Reader SegmentError ℕ
read_u32 = Cursor.read_u32 segment_errors

abbrev pub read_u64 : Reader SegmentError ℕ
read_u64 = Cursor.read_u64 segment_errors

abbrev pub read_string : Reader SegmentError Bytes
read_string = Read.read_string segment_errors

abbrev pub read_record_id : Reader SegmentError RecordId
read_record_id = Read.read_record_id segment_errors

abbrev pub read_vector : Reader SegmentError Vector
read_vector = Read.read_vector segment_errors

abbrev pub read_metadata : Reader SegmentError Metadata
read_metadata = Read.read_metadata segment_errors

abbrev pub read_metadata_value : Reader SegmentError MetadataValue
read_metadata_value = Read.read_metadata_value segment_errors
