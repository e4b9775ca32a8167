-- ===== src/Checkpoint/File.antt =====
-- `Checkpoint::new` and `decode_checkpoint`.
use ketebe_oss.Base.{ℕ, zero, suc, ◌+◌, ◌%◌, String, List, [], ◌∷◌, ◌++◌, leb, ◌==◌, if◌then◌else◌}
use ketebe_oss.Base.Result.{Result, ok, err, map_err}
use ketebe_oss.Core.Values.{Bytes, DomainError, CollectionId, SequenceNumber, new_collection_id}
use ketebe_oss.Core.Utf8.{is_utf8}
use ketebe_oss.Codec.Words.{usize_limit}
use ketebe_oss.Codec.Envelope.{Format, unseal, envelope_header_len}
use ketebe_oss.Codec.Cursor.{
  CodecErrors, Cursor, new_cursor, is_finished, Reader, ◌>>=◌, pure, fail, lift, take_bytes,
  read_u32, read_u64,
}

pub record Checkpoint : Type 0 where
  pub collection_id : CollectionId
  pub segments : List ℕ
  pub sequence_number : SequenceNumber

-- `io` stands for any `std::io::Error`.
pub data CheckpointError : Type 0 where
  io invalid_magic checksum_mismatch : CheckpointError
  unsupported_version : ℕ → CheckpointError
  corrupt : String → CheckpointError
  domain : DomainError → CheckpointError

-- `sort_unstable` on numbers.
unfoldable pub insert_id : ℕ → List ℕ → List ℕ
insert_id n [] = n ∷ []
insert_id n (x ∷ xs) = let later = x ∷ insert_id n xs in if leb n x then n ∷ x ∷ xs else later

unfoldable pub sort_ids : List ℕ → List ℕ
unfolding insert_id
sort_ids [] = []
sort_ids (n ∷ ns) = insert_id n (sort_ids ns)

-- `Vec::dedup`: of neighbours that are equal the first stays.
unfoldable pub dedup_after : ℕ → List ℕ → List ℕ
dedup_after n [] = []
dedup_after n (x ∷ xs) =
    let same = dedup_after n xs in
    let other = x ∷ dedup_after x xs in if n == x then same else other

unfoldable pub dedup : List ℕ → List ℕ
unfolding dedup_after
dedup [] = []
dedup (x ∷ xs) = x ∷ dedup_after x xs

-- `Checkpoint::new`.
unfoldable pub new_checkpoint : CollectionId → List ℕ → SequenceNumber → Checkpoint
unfolding sort_ids dedup
new_checkpoint collection segments sequence = record {
  collection_id = collection;
  segments = dedup (sort_ids segments);
  sequence_number = sequence;
}

abbrev pub checkpoint_errors : CodecErrors CheckpointError
checkpoint_errors = record {
  corrupt = corrupt;
  domain = domain;
  unexpected_end = "truncated payload";
}

-- The addition `HEADER_LEN + payload_len` wraps.
abbrev pub checkpoint_format : Format CheckpointError
checkpoint_format = record {
  magic = (b'K', b'T', b'C', b'P');
  version = 1;
  expected_len = λ payload_len. ok ((envelope_header_len + payload_len) % usize_limit);
  truncated_header = corrupt "truncated header";
  invalid_magic = invalid_magic;
  length_mismatch = corrupt "payload length mismatch";
  checksum_mismatch = checksum_mismatch;
  unsupported_version = unsupported_version;
}

-- The loop over the segment ids.
unfoldable pub read_ids : ℕ → List ℕ → Reader CheckpointError (List ℕ)
read_ids zero segments = pure segments
read_ids (suc n) segments = do id ← read_u64 checkpoint_errors; read_ids n (segments ++ id ∷ [])

-- `from_utf8` and `CollectionId::new`.
unfoldable pub check_collection : Bytes → Reader CheckpointError CollectionId
check_collection bytes =
    if is_utf8 bytes
    then lift (map_err domain (new_collection_id bytes))
    else fail (corrupt "collection ID is not UTF-8")

unfoldable pub read_checkpoint : Reader CheckpointError (CollectionId × List ℕ × SequenceNumber)
unfolding read_ids check_collection
read_checkpoint = do
  collection_len ← read_u32 checkpoint_errors
  bytes ← take_bytes checkpoint_errors collection_len
  collection ← check_collection bytes
  sequence ← read_u64 checkpoint_errors
  segment_count ← read_u32 checkpoint_errors
  segments ← read_ids segment_count []
  pure (collection, segments, sequence)

-- The check that the cursor has read all of the payload, and `Checkpoint::new`.
unfoldable pub finish :
    Result CheckpointError ((CollectionId × List ℕ × SequenceNumber) × Cursor)
    → Result CheckpointError Checkpoint
unfolding is_finished new_checkpoint
finish (ok ((collection, segments, sequence), c)) =
    if is_finished c
    then ok (new_checkpoint collection segments sequence)
    else err (corrupt "trailing payload bytes")
finish (err e) = err e

unfoldable pub decode_checkpoint : Bytes → Result CheckpointError Checkpoint
unfolding unseal read_checkpoint finish
decode_checkpoint bytes = elim (unseal checkpoint_format bytes) [
  | ok payload ↦ finish (read_checkpoint (new_cursor payload))
  | err e ↦ err e
]
