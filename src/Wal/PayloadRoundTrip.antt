-- ===== src/Wal/PayloadRoundTrip.antt =====
-- `encode_payload`, and then `decode_payload`.
use ketebe_oss.Base.{ℕ, ◌^◌, ◌<◌, ◌≡◌, [], ◌++◌, append-nil, length, arith}
use ketebe_oss.Base.Result.{ok, >>=-eq-ok}
use ketebe_oss.Core.Values.{Bytes}
use ketebe_oss.Codec.Words.{usize_limit}
use ketebe_oss.Codec.Cursor.{new_cursor}
use ketebe_oss.Codec.Write.{write_string, write_record_id, write_vector, write_metadata}
use ketebe_oss.Codec.Reads.{
  Reads, Reads-on, Reads-pure, Reads-bind, Reads-check, Reads-lift, At-new,
}
use ketebe_oss.Codec.RoundTrip.WellFormed.{IsRecordId, IsCollectionId, IsRecord}
use ketebe_oss.Codec.RoundTrip.Scalars.{Reads-read_string, Reads-read_record_id, Reads-read_vector}
use ketebe_oss.Codec.RoundTrip.Metadata.{Reads-read_metadata}
use ketebe_oss.Wal.Frame.{
  wal_errors, WalMutation, upsert, delete, mutation_sequence, encode_payload,
}
use ketebe_oss.Wal.Payload.{decode_mutation, decode_payload}

-- A mutation that the Rust types can hold.
abbrev pub IsMutation : WalMutation → Type 0
IsMutation (upsert c r) = IsCollectionId c × IsRecord r
IsMutation (delete c id n) = IsCollectionId c × IsRecordId id × (n < 2 ^ 64)

Reads-decode_mutation :
    (m : WalMutation) {op : ℕ} {w : Bytes}
    → IsMutation m
    → encode_payload m ≡ ok (op, w)
    → Reads (decode_mutation op (mutation_sequence m)) m w
unfolding encode_payload decode_mutation
Reads-decode_mutation (upsert c r) {op} {w} (hc, hr) h =
    let (a, wrote_name, h1) = >>=-eq-ok (write_string wal_errors c) _ h in
    let (b, wrote_id, h2) = >>=-eq-ok (write_record_id wal_errors r.id) _ h1 in
    let (v, wrote_vector, h3) = >>=-eq-ok (write_vector wal_errors r.vector) _ h2 in
    let (d, wrote_metadata, h4) = >>=-eq-ok (write_metadata wal_errors r.metadata) _ h3 in
    let shape : w ≡ a ++ (b ++ (v ++ d)) = cc in
    let operation : op ≡ 1 = cc in
    rw operation (
      Reads-on _ shape (
        Reads-bind _ a (b ++ (v ++ d)) (Reads-read_string wal_errors c hc.is_text wrote_name) (
          Reads-bind _ [] (b ++ (v ++ d)) (Reads-lift wal_errors _ c (rw hc.accepted)) (
            Reads-bind _ b (v ++ d) (Reads-read_record_id wal_errors r.id hr.id wrote_id) (
              Reads-bind _ v d (Reads-read_vector wal_errors r.vector hr.vector wrote_vector) (
                Reads-check _ d
                  (Reads-read_metadata wal_errors r.metadata hr.metadata wrote_metadata)
                  (Reads-pure (upsert c r))))))))
Reads-decode_mutation (delete c id n) {op} {w} (hc, hid, hn) h =
    let (a, wrote_name, h1) = >>=-eq-ok (write_string wal_errors c) _ h in
    let (b, wrote_id, h2) = >>=-eq-ok (write_record_id wal_errors id) _ h1 in
    let shape : w ≡ a ++ b = cc in
    let operation : op ≡ 2 = cc in
    rw operation (
      Reads-on _ shape (
        Reads-bind _ a b (Reads-read_string wal_errors c hc.is_text wrote_name) (
          Reads-bind _ [] b (Reads-lift wal_errors _ c (rw hc.accepted)) (
            Reads-check _ b (Reads-read_record_id wal_errors id hid wrote_id)
              (Reads-pure (delete c id n))))))

-- A payload that the encoder made of a well-formed mutation, and that fits the address space,
-- decodes to that mutation.
pub decode_payload-encode_payload :
    (m : WalMutation) (op : ℕ) (payload : Bytes)
    → IsMutation m
    → encode_payload m ≡ ok (op, payload)
    → length payload < usize_limit
    → decode_payload op (mutation_sequence m) payload ≡ ok m
unfolding decode_payload
decode_payload-encode_payload m op payload wf h fits =
    let read =
      Reads-decode_mutation m wf h (new_cursor payload) [] (rw append-nil (At-new payload fits)) in
    rw read (ground arith)
