-- ===== src/Wal/Payload.antt =====
-- `decode_payload` of wal.rs.
use ketebe_oss.Base.{ℕ, ◌==◌, if◌then◌else◌}
use ketebe_oss.Base.Result.{Result, ok, err, map_err}
use ketebe_oss.Core.Values.{Bytes, CollectionId, RecordId, new_collection_id}
use ketebe_oss.Codec.Cursor.{Cursor, new_cursor, is_finished, Reader, ◌>>=◌, pure, fail, lift}
use ketebe_oss.Codec.Read.{read_string, read_record_id, read_vector, read_metadata}
use ketebe_oss.Wal.Frame.{
  WalError, invalid_operation, corrupt_frame, domain, wal_errors, WalMutation, upsert, delete,
  op_upsert, op_delete,
}

unfoldable pub decode_operation : ℕ → ℕ → CollectionId → RecordId → Reader WalError WalMutation
decode_operation operation sequence c id =
    if operation == op_upsert
    then (do
      v ← read_vector wal_errors
      m ← read_metadata wal_errors
      pure (upsert c (record { id = id; vector = v; metadata = m; sequence_number = sequence })))
    else if operation == op_delete
    then pure (delete c id sequence)
    else fail (invalid_operation operation)

unfoldable pub decode_mutation : ℕ → ℕ → Reader WalError WalMutation
unfolding decode_operation
decode_mutation operation sequence = do
  name ← read_string wal_errors
  c ← lift (map_err domain (new_collection_id name))
  id ← read_record_id wal_errors
  decode_operation operation sequence c id

unfoldable pub finish : Result WalError (WalMutation × Cursor) → Result WalError WalMutation
unfolding is_finished
finish (ok (m, c)) = if is_finished c then ok m else err (corrupt_frame "trailing payload bytes")
finish (err e) = err e

unfoldable pub decode_payload : ℕ → ℕ → Bytes → Result WalError WalMutation
unfolding decode_mutation finish
decode_payload operation sequence payload =
    finish (decode_mutation operation sequence (new_cursor payload))
