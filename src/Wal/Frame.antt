-- ===== src/Wal/Frame.antt =====
-- Mutations, their payloads and their frames, as wal.rs writes them.
use ketebe_oss.Base.{ℕ, String, [], ◌∷◌, ◌++◌, length, ltb, if◌then◌else◌}
use ketebe_oss.Base.Result.{Result, ok, err, ◌>>=◌}
use ketebe_oss.Core.Values.{Bytes, DomainError, CollectionId, RecordId, Record, SequenceNumber}
use ketebe_oss.Codec.Words.{to_le_bytes, u32_limit}
use ketebe_oss.Codec.Crc.{crc32}
use ketebe_oss.Codec.Cursor.{CodecErrors}
use ketebe_oss.Codec.Write.{write_string, write_record_id, write_vector, write_metadata}

-- `io` stands for any `std::io::Error`, and `domain` carries the error whose text the program keeps.
pub data WalError : Type 0 where
  io invalid_magic : WalError
  unsupported_version invalid_operation checksum_mismatch : ℕ → WalError
  corrupt_frame : String → WalError
  sequence_regression : ℕ → ℕ → WalError
  domain : DomainError → WalError

abbrev pub wal_errors : CodecErrors WalError
wal_errors = record {
  corrupt = corrupt_frame;
  domain = domain;
  unexpected_end = "unexpected payload end";
}

pub data WalMutation : Type 0 where
  upsert : CollectionId → Record → WalMutation
  delete : CollectionId → RecordId → SequenceNumber → WalMutation

-- `WalMutation::sequence_number`.
abbrev pub mutation_sequence : WalMutation → SequenceNumber
mutation_sequence (upsert c r) = r.sequence_number
mutation_sequence (delete c id n) = n

abbrev pub magic : Bytes
magic = b'K' ∷ b'T' ∷ b'W' ∷ b'L' ∷ []

abbrev pub version : ℕ
version = 1

abbrev pub header_len : ℕ
header_len = 24

abbrev pub op_upsert : ℕ
op_upsert = 1

abbrev pub op_delete : ℕ
op_delete = 2

unfoldable pub encode_payload : WalMutation → Result WalError (ℕ × Bytes)
encode_payload (upsert c r) = do
  name ← write_string wal_errors c
  id ← write_record_id wal_errors r.id
  v ← write_vector wal_errors r.vector
  m ← write_metadata wal_errors r.metadata
  ok (op_upsert, name ++ (id ++ (v ++ m)))
encode_payload (delete c id n) = do
  name ← write_string wal_errors c
  i ← write_record_id wal_errors id
  ok (op_delete, name ++ i)

-- The 24 bytes before a payload.
unfoldable pub frame_header : ℕ → ℕ → ℕ → ℕ → Bytes
unfolding to_le_bytes
frame_header operation payload_len sequence checksum =
    magic
    ++ (version
        ∷ operation
        ∷ (to_le_bytes 2 0
            ++ (to_le_bytes 4 payload_len ++ (to_le_bytes 8 sequence ++ to_le_bytes 4 checksum))))

unfoldable pub frame_of : ℕ → ℕ × Bytes → Result WalError Bytes
unfolding frame_header
frame_of sequence (operation, payload) =
    if ltb (length payload) u32_limit
    then ok (frame_header operation (length payload) sequence (crc32 payload) ++ payload)
    else err (corrupt_frame "payload too large")

unfoldable pub encode_frame : WalMutation → Result WalError Bytes
unfolding frame_of
encode_frame m = encode_payload m >>= frame_of (mutation_sequence m)
