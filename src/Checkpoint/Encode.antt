-- ===== src/Checkpoint/Encode.antt =====
-- `encode_checkpoint`.
use ketebe_oss.Base.{ℕ, List, [], ◌∷◌, ◌++◌, length}
use ketebe_oss.Base.Result.{Result, ok, ◌>>=◌}
use ketebe_oss.Core.Values.{Bytes}
use ketebe_oss.Codec.Words.{to_le_bytes}
use ketebe_oss.Codec.Envelope.{seal}
use ketebe_oss.Codec.Write.{write_len}
use ketebe_oss.Checkpoint.File.{Checkpoint, CheckpointError, checkpoint_errors, checkpoint_format}

-- The loop over the segment ids.
unfoldable pub write_ids : List ℕ → Bytes
write_ids [] = []
write_ids (n ∷ ns) = to_le_bytes 8 n ++ write_ids ns

unfoldable pub encode_checkpoint : Checkpoint → Result CheckpointError Bytes
unfolding write_ids seal write_len
encode_checkpoint c = do
  collection_len ← write_len checkpoint_errors (length c.collection_id) "collection ID too long"
  segment_count ← write_len checkpoint_errors (length c.segments) "too many segment IDs"
  ok (
      seal checkpoint_format (
        collection_len
        ++ (c.collection_id
            ++ (to_le_bytes 8 c.sequence_number ++ (segment_count ++ write_ids c.segments)))))
