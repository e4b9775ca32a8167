-- ===== src/Segment/RoundTrip.antt =====
-- `encode_segment`, and then `decode_segment`.
use ketebe_oss.Base.{
  ℕ, ◌+◌, ◌^◌, ◌<◌, ◌≤◌, ◌≡◌, ap, ◌∙◌, subst, false, none, List, [], ◌∷◌, ◌++◌, append-nil,
  append_assoc, length, All, arith, ltb,
}
use ketebe_oss.Base.Result.{ok, >>=-eq-ok}
use ketebe_oss.Base.Map.{get, insert}
use ketebe_oss.Core.Values.{Bytes, Record}
use ketebe_oss.Core.RecordOrder.{record_id_ord}
use ketebe_oss.Codec.Words.{usize_limit, to_le_bytes, checked_add}
use ketebe_oss.Codec.Envelope.{seal, unseal, unseal-seal, length-seal, envelope_header_len}
use ketebe_oss.Codec.Cursor.{new_cursor, pure}
use ketebe_oss.Segment.Codec.{
  segment_errors, write_len, write_string, write_record_id, write_vector, write_metadata,
}
use ketebe_oss.Codec.Reads.{
  Reads, Reads-on, Reads-pure, Reads-bind, Reads-check, Reads-lift, Reads-read_u32, Reads-read_u64,
  At-new,
}
use ketebe_oss.Codec.RoundTrip.WellFormed.{IsRecordId, IsCollectionId, IsRecord}
use ketebe_oss.Codec.RoundTrip.Scalars.{
  Reads-read_string, Reads-read_record_id, Reads-read_vector, write_len-eq-ok,
}
use ketebe_oss.Codec.RoundTrip.Metadata.{Reads-read_metadata}
use ketebe_oss.Segment.Build.{Segment, Tombstone}
use ketebe_oss.Segment.Format.{
  segment_format, segment_len, Seen, read_record, read_records, read_tombstones, read_contents,
  read_segment, finish, decode_segment,
}
use ketebe_oss.Segment.Encode.{
  write_record, write_records, write_tombstones, write_segment, encode_segment,
}

abbrev pub IsTombstone : Tombstone → Type 0
IsTombstone t = IsRecordId t.record_id × (t.sequence_number < 2 ^ 64)

-- The set after the records of a list, and what it means that none of them is there before.
abbrev pub seen_after : Seen → List Record → Seen
seen_after seen [] = seen
seen_after seen (r ∷ rs) = seen_after (insert r.id tt seen) rs

abbrev pub AllNew : Seen → List Record → Type 0
AllNew seen [] = Unit {0}
AllNew seen (r ∷ rs) = (get r.id seen ≡ none) × AllNew (insert r.id tt seen) rs

-- A segment that the Rust types can hold, in which no record id has two records or a record and a
-- tombstone, and whose range is one.
pub record IsSegment (s : Segment) : Type 0 where
  pub collection : IsCollectionId s.collection_id
  pub id : s.id < 2 ^ 64
  pub min_sequence : s.min_sequence < 2 ^ 64
  pub max_sequence : s.max_sequence < 2 ^ 64
  pub range : s.min_sequence ≤ s.max_sequence
  pub records : All IsRecord s.records
  pub tombstones : All IsTombstone s.tombstones
  pub new : AllNew [] s.records
  pub disjoint : All (λ t. get t.record_id (seen_after [] s.records) ≡ none) s.tombstones

Reads-read_record :
    (r : Record) {w : Bytes} → IsRecord r → write_record r ≡ ok w → Reads read_record r w
unfolding read_record write_record
Reads-read_record r {w} wf h =
    let (b, wrote_id, h1) = >>=-eq-ok (write_record_id r.id) _ h in
    let (v, wrote_vector, h2) = >>=-eq-ok (write_vector r.vector) _ h1 in
    let (m, wrote_metadata, h3) = >>=-eq-ok (write_metadata r.metadata) _ h2 in
    let n : Bytes = to_le_bytes 8 r.sequence_number in
    Reads-on (b ++ (n ++ (v ++ m))) (cc) (
      Reads-bind _ b (n ++ (v ++ m)) (Reads-read_record_id segment_errors r.id wf.id wrote_id) (
        Reads-bind _ n (v ++ m) (Reads-read_u64 segment_errors r.sequence_number wf.sequence_number)
          (Reads-bind _ v m (Reads-read_vector segment_errors r.vector wf.vector wrote_vector) (
            Reads-check _ m
              (Reads-read_metadata segment_errors r.metadata wf.metadata wrote_metadata)
              (Reads-pure r)))))

Reads-read_records :
    (rs : List Record) (seen : Seen) (acc : List Record) {w : Bytes}
    → All IsRecord rs
    → AllNew seen rs
    → write_records rs ≡ ok w
    → Reads (read_records (length rs) seen acc) (seen_after seen rs, acc ++ rs) w
unfolding read_records write_records
Reads-read_records [] seen acc {w} wf new h = Reads-on [] (cc) (
    subst (λ a. Reads (pure (seen, a)) (seen, acc ++ []) []) (append-nil acc)
      (Reads-pure (seen, acc ++ [])))
Reads-read_records (r ∷ rs) seen acc {w} (wr, wrs) (absent, new) h =
    let (b, first, h1) = >>=-eq-ok (write_record r) _ h in
    let (bs, rest, h2) = >>=-eq-ok (write_records rs) _ h1 in
    Reads-on (b ++ bs) (cc) (
      Reads-bind _ b bs (Reads-read_record r wr first) (
        rw absent (
          rw (← append_assoc acc (r ∷ []) rs)
            (Reads-read_records rs (insert r.id tt seen) (acc ++ r ∷ []) wrs new rest))))

Reads-read_tombstones :
    (ts : List Tombstone) (seen : Seen) (acc : List Tombstone) {w : Bytes}
    → All IsTombstone ts
    → All (λ t. get t.record_id seen ≡ none) ts
    → write_tombstones ts ≡ ok w
    → Reads (read_tombstones (length ts) seen acc) (acc ++ ts) w
unfolding read_tombstones write_tombstones
Reads-read_tombstones [] seen acc {w} wf new h =
    Reads-on [] (cc)
      (subst (λ a. Reads (pure a) (acc ++ []) []) (append-nil acc) (Reads-pure (acc ++ [])))
Reads-read_tombstones (t ∷ ts) seen acc {w} (wt, wts) (absent, new) h =
    let (b, first, h1) = >>=-eq-ok (write_record_id t.record_id) _ h in
    let (bs, rest, h2) = >>=-eq-ok (write_tombstones ts) _ h1 in
    let n : Bytes = to_le_bytes 8 t.sequence_number in
    Reads-on (b ++ (n ++ bs)) (cc) (
      Reads-bind _ b (n ++ bs) (Reads-read_record_id segment_errors t.record_id wt.0 first) (
        rw absent (
          Reads-bind _ n bs (Reads-read_u64 segment_errors t.sequence_number wt.1) (
            rw (← append_assoc acc (t ∷ []) ts)
              (Reads-read_tombstones ts seen (acc ++ t ∷ []) wts new rest)))))

-- The part of the payload behind the sequence range.
Reads-read_contents :
    (s : Segment) {b bs d ds : Bytes}
    → IsSegment s
    → write_len (length s.records) "too many records" ≡ ok b
    → write_records s.records ≡ ok bs
    → write_len (length s.tombstones) "too many tombstones" ≡ ok d
    → write_tombstones s.tombstones ≡ ok ds
    → Reads
        (read_contents s.collection_id s.id s.min_sequence s.max_sequence)
        s
        (b ++ (bs ++ (d ++ ds)))
unfolding read_contents
Reads-read_contents s {b} {bs} {d} {ds} wf wrote_count wrote_records wrote_count' wrote_tombstones =
    let (few, shape) =
      write_len-eq-ok segment_errors (length s.records) "too many records" wrote_count in
    let (few', shape') =
      write_len-eq-ok segment_errors (length s.tombstones) "too many tombstones" wrote_count' in
    Reads-bind _ b (bs ++ (d ++ ds))
      (Reads-on _ shape (Reads-read_u32 segment_errors (length s.records) few))
      (Reads-bind _ bs (d ++ ds)
        (Reads-read_records s.records [] [] wf.records wf.new wrote_records)
        (Reads-bind _ d ds
          (Reads-on _ shape' (Reads-read_u32 segment_errors (length s.tombstones) few'))
          (Reads-check _ ds
            (Reads-read_tombstones s.tombstones (seen_after [] s.records) [] wf.tombstones
              wf.disjoint wrote_tombstones)
            (Reads-pure s))))

Reads-read_segment :
    (s : Segment) {w : Bytes} → IsSegment s → write_segment s ≡ ok w → Reads read_segment s w
unfolding read_segment write_segment
Reads-read_segment s {w} wf h =
    let (a, wrote_name, h1) = >>=-eq-ok (write_string s.collection_id) _ h in
    let (b, wrote_count, h2) = >>=-eq-ok (write_len (length s.records) "too many records") _ h1 in
    let (bs, wrote_records, h3) = >>=-eq-ok (write_records s.records) _ h2 in
    let (d, wrote_count', h4) =
      >>=-eq-ok (write_len (length s.tombstones) "too many tombstones") _ h3 in
    let (ds, wrote_tombstones, h5) = >>=-eq-ok (write_tombstones s.tombstones) _ h4 in
    let word : ℕ → Bytes = to_le_bytes 8 in
    let body : Bytes = b ++ (bs ++ (d ++ ds)) in
    let ordered : ltb s.max_sequence s.min_sequence ≡ false = ground (arith, wf.range) in
    Reads-on (a ++ (word s.id ++ (word s.min_sequence ++ (word s.max_sequence ++ body)))) (cc) (
      Reads-bind _ a _
        (Reads-read_string segment_errors s.collection_id wf.collection.is_text wrote_name)
        (Reads-bind _ [] _ (Reads-lift segment_errors _ s.collection_id (rw wf.collection.accepted))
          (Reads-bind _ (word s.id) _ (Reads-read_u64 segment_errors s.id wf.id) (
            Reads-bind _ (word s.min_sequence) _
              (Reads-read_u64 segment_errors s.min_sequence wf.min_sequence)
              (Reads-bind _ (word s.max_sequence) body
                (Reads-read_u64 segment_errors s.max_sequence wf.max_sequence)
                (rw ordered (
                  Reads-read_contents s wf wrote_count wrote_records wrote_count'
                    wrote_tombstones)))))))

segment_len-ok :
    (n : ℕ) → envelope_header_len + n < usize_limit → segment_len n ≡ ok (envelope_header_len + n)
unfolding checked_add
segment_len-ok n h = ground (arith, h)

-- The file that `encode_segment` makes of a well-formed segment, if it fits the address space,
-- decodes to that segment.
pub decode_segment-encode_segment :
    (s : Segment) (bytes : Bytes)
    → IsSegment s
    → encode_segment s ≡ ok bytes
    → length bytes < usize_limit
    → decode_segment bytes ≡ ok s
unfolding encode_segment decode_segment finish
decode_segment-encode_segment s bytes wf h fits =
    let (payload, written, made) = >>=-eq-ok (write_segment s) _ h in
    let shape : bytes ≡ seal segment_format payload = cc in
    let size : length bytes ≡ envelope_header_len + length payload =
      ap length shape ∙ length-seal segment_format payload in
    let read =
      Reads-read_segment s wf written (new_cursor payload) []
        (rw append-nil (At-new payload (omega (arith, size, fits)))) in
    let opened : unseal segment_format bytes ≡ ok payload = rw shape (
      unseal-seal segment_format payload (omega (arith, size, fits))
        (segment_len-ok (length payload) (omega (arith, size, fits)))) in
    rw (opened, decode_segment, read, finish) (ground arith)
