-- ===== src/Checkpoint/RoundTrip.antt =====
-- `encode_checkpoint`, and then `decode_checkpoint`.
use ketebe_oss.Base.{
  ℕ, ◌+◌, ◌^◌, ◌<◌, ◌≡◌, ap, ◌∙◌, subst, List, [], ◌∷◌, ◌++◌, append-nil, append_assoc, length, All,
  arith, ◌%◌,
}
use ketebe_oss.Base.Result.{ok, >>=-eq-ok}
use ketebe_oss.Core.Values.{Bytes, CollectionId}
use ketebe_oss.Codec.Words.{usize_limit, to_le_bytes}
use ketebe_oss.Codec.Envelope.{seal, unseal, unseal-seal, length-seal, envelope_header_len}
use ketebe_oss.Codec.Cursor.{new_cursor, pure}
use ketebe_oss.Codec.Write.{write_len}
use ketebe_oss.Codec.Reads.{
  Reads, Reads-on, Reads-pure, Reads-bind, Reads-check, Reads-lift, Reads-read_u32, Reads-read_u64,
  Reads-take_bytes, At-new,
}
use ketebe_oss.Codec.RoundTrip.WellFormed.{IsCollectionId}
use ketebe_oss.Codec.RoundTrip.Scalars.{write_len-eq-ok}
use ketebe_oss.Checkpoint.File.{
  Checkpoint, new_checkpoint, checkpoint_errors, checkpoint_format, read_ids, check_collection,
  read_checkpoint, finish, decode_checkpoint,
}
use ketebe_oss.Checkpoint.Encode.{write_ids, encode_checkpoint}
use ketebe_oss.Checkpoint.Normal.{IsRising, normal-rising}

-- A checkpoint that the Rust types can hold and that `Checkpoint::new` can return.
pub record IsCheckpoint (c : Checkpoint) : Type 0 where
  pub collection : IsCollectionId c.collection_id
  pub segments : All (λ n. n < 2 ^ 64) c.segments
  pub rising : IsRising c.segments
  pub sequence_number : c.sequence_number < 2 ^ 64

Reads-read_ids :
    (ns acc : List ℕ)
    → All (λ n. n < 2 ^ 64) ns
    → Reads (read_ids (length ns) acc) (acc ++ ns) (write_ids ns)
unfolding read_ids write_ids
Reads-read_ids [] acc h =
    subst (λ a. Reads (pure a) (acc ++ []) []) (append-nil acc) (Reads-pure (acc ++ []))
Reads-read_ids (n ∷ ns) acc (small, rest) =
    Reads-bind _ (to_le_bytes 8 n) (write_ids ns) (Reads-read_u64 checkpoint_errors n small)
      (rw (← append_assoc acc (n ∷ []) ns) (Reads-read_ids ns (acc ++ n ∷ []) rest))

Reads-check_collection : (c : CollectionId) → IsCollectionId c → Reads (check_collection c) c []
unfolding check_collection
Reads-check_collection c wf = rw wf.is_text (Reads-lift checkpoint_errors _ c (rw wf.accepted))

module _ (c : Checkpoint) (wf : IsCheckpoint c) where
  Reads-read_checkpoint :
      {b d : Bytes}
      → write_len checkpoint_errors (length c.collection_id) "collection ID too long" ≡ ok b
      → write_len checkpoint_errors (length c.segments) "too many segment IDs" ≡ ok d
      → Reads read_checkpoint
          (c.collection_id, c.segments, c.sequence_number)
          (b
            ++ (c.collection_id
                ++ (to_le_bytes 8 c.sequence_number ++ (d ++ write_ids c.segments))))
  unfolding read_checkpoint
  Reads-read_checkpoint {b} {d} wrote_len wrote_count =
      let (short, shape) =
        write_len-eq-ok checkpoint_errors (length c.collection_id) "collection ID too long"
          wrote_len in
      let (few, shape') =
        write_len-eq-ok checkpoint_errors (length c.segments) "too many segment IDs" wrote_count in
      Reads-bind _ b _
        (Reads-on _ shape (Reads-read_u32 checkpoint_errors (length c.collection_id) short))
        (Reads-bind _ c.collection_id _ (Reads-take_bytes checkpoint_errors c.collection_id) (
          Reads-bind _ [] _ (Reads-check_collection c.collection_id wf.collection) (
            Reads-bind _ (to_le_bytes 8 c.sequence_number) _
              (Reads-read_u64 checkpoint_errors c.sequence_number wf.sequence_number)
              (Reads-bind _ d (write_ids c.segments)
                (Reads-on _ shape' (Reads-read_u32 checkpoint_errors (length c.segments) few))
                (Reads-check _ (write_ids c.segments) (Reads-read_ids c.segments [] wf.segments)
                  (Reads-pure (c.collection_id, c.segments, c.sequence_number)))))))

new_checkpoint-rising :
    (c : Checkpoint)
    → IsRising c.segments
    → new_checkpoint c.collection_id c.segments c.sequence_number ≡ c
unfolding new_checkpoint
new_checkpoint-rising c h = λ i. record c { segments = normal-rising c.segments h i }

-- The file that `encode_checkpoint` makes of a checkpoint, if it fits the address space, decodes to
-- that checkpoint.
pub decode_checkpoint-encode_checkpoint :
    (c : Checkpoint) (bytes : Bytes)
    → IsCheckpoint c
    → encode_checkpoint c ≡ ok bytes
    → length bytes < usize_limit
    → decode_checkpoint bytes ≡ ok c
unfolding encode_checkpoint decode_checkpoint finish
decode_checkpoint-encode_checkpoint c bytes wf h fits =
    let (b, wrote_len, h1) =
      >>=-eq-ok (write_len checkpoint_errors (length c.collection_id) "collection ID too long") _
        h in
    let (d, wrote_count, h2) =
      >>=-eq-ok (write_len checkpoint_errors (length c.segments) "too many segment IDs") _ h1 in
    let payload : Bytes =
      b ++ (c.collection_id ++ (to_le_bytes 8 c.sequence_number ++ (d ++ write_ids c.segments))) in
    let shape : bytes ≡ seal checkpoint_format payload = cc in
    let size : length bytes ≡ envelope_header_len + length payload =
      ap length shape ∙ length-seal checkpoint_format payload in
    let total : (envelope_header_len + length payload) % usize_limit
        ≡ envelope_header_len + length payload =
      omega (arith, size, fits) in
    let opened : unseal checkpoint_format bytes ≡ ok payload =
      rw shape (unseal-seal checkpoint_format payload (omega (arith, size, fits)) (ap ok total)) in
    let read =
      Reads-read_checkpoint c wf wrote_len wrote_count (new_cursor payload) []
        (rw append-nil (At-new payload (omega (arith, size, fits)))) in
    rw (opened, decode_checkpoint, read, finish) (ground (arith, new_checkpoint-rising c wf.rising))
