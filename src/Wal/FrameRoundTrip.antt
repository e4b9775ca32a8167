-- ===== src/Wal/FrameRoundTrip.antt =====
-- One round of `decode_log` on a frame that `encode_frame` made, and on a torn one.
use ketebe_oss.Base.{
  ℕ, ◌+◌, ◌-◌, ◌^◌, ◌<◌, ◌≤◌, ◌≡◌, refl, ap, ap₂, ◌∙◌, Option, [], ◌++◌, append_assoc, length, take,
  drop, length-append, take-length-append, take_past, length-take, inl, inr, Bool-cases, ltb→lt,
  ltb_false→le, arith, ==_refl, ltb, if◌then◌else◌, le→ltb_false, lt→ltb,
}
use ketebe_oss.Base.Result.{ok, >>=-eq-ok}
use ketebe_oss.Core.Values.{Bytes}
use ketebe_oss.Codec.Words.{u32_limit, from_le_bytes-to_le_bytes, checked_add}
use ketebe_oss.Codec.Crc.{crc32, crc32-lt}
use ketebe_oss.Wal.Frame.{
  WalMutation, mutation_sequence, encode_payload, encode_frame, frame_header, frame_of, header_len,
}
use ketebe_oss.Wal.Log.{
  torn, next, validate_header, check_order, next_frame, whole_frame, byte_at, word_at, frame_length,
}
use ketebe_oss.Wal.PayloadRoundTrip.{IsMutation, decode_payload-encode_payload}

pub record FrameOf (m : WalMutation) (frame : Bytes) : Type 0 where
  pub op : ℕ
  pub payload : Bytes
  pub encoded : encode_payload m ≡ ok (op, payload)
  pub small : length payload < u32_limit
  pub shape :
      frame ≡ frame_header op (length payload) (mutation_sequence m) (crc32 payload) ++ payload

frame_of-eq-ok :
    (m : WalMutation) (op : ℕ) (payload frame : Bytes)
    → encode_payload m ≡ ok (op, payload)
    → frame_of (mutation_sequence m) (op, payload) ≡ ok frame
    → FrameOf m frame
unfolding frame_of
frame_of-eq-ok m op payload frame e h = record {
  op = op;
  payload = payload;
  encoded = e;
  small = ground arith;
  shape = ground arith;
}

pub encode_frame-eq-ok :
    (m : WalMutation) (frame : Bytes) → encode_frame m ≡ ok frame → FrameOf m frame
unfolding encode_frame
encode_frame-eq-ok m frame h =
    let ((op, payload), e, made) = >>=-eq-ok (encode_payload m) _ h in
    frame_of-eq-ok m op payload frame e made

-- The fields of a header, and what stands behind it.
module _ (op len sequence crc : ℕ) where
  abbrev header : Bytes
  header = frame_header op len sequence crc

  take-header : (xs : Bytes) → take header_len (header ++ xs) ≡ header
  unfolding frame_header
  take-header xs = refl

  drop-header : (xs : Bytes) → drop header_len (header ++ xs) ≡ xs
  unfolding frame_header
  drop-header xs = refl

  length-header : (xs : Bytes) → length (header ++ xs) ≡ 24 + length xs
  unfolding frame_header
  length-header xs = omega arith

  length-header_alone : length header ≡ 24
  unfolding frame_header
  length-header_alone = refl

  header-IsValid : validate_header header ≡ ok tt
  unfolding frame_header validate_header
  header-IsValid = refl

  header-op : byte_at 5 header ≡ op
  unfolding frame_header byte_at
  header-op = refl

  header-len : len < u32_limit → word_at 4 8 header ≡ len
  unfolding frame_header word_at
  header-len h = from_le_bytes-to_le_bytes 4 len h

  header-sequence : sequence < 2 ^ 64 → word_at 8 12 header ≡ sequence
  unfolding frame_header word_at
  header-sequence h = from_le_bytes-to_le_bytes 8 sequence h

  header-crc : crc < u32_limit → word_at 4 20 header ≡ crc
  unfolding frame_header word_at
  header-crc h = from_le_bytes-to_le_bytes 4 crc h

mutation_sequence-lt : (m : WalMutation) → IsMutation m → mutation_sequence m < 2 ^ 64
mutation_sequence-lt (WalMutation.upsert c r) (hc, hr) = hr.sequence_number
mutation_sequence-lt (WalMutation.delete c id n) (hc, hid, hn) = hn

pub length-frame :
    (m : WalMutation) {frame : Bytes} (f : FrameOf m frame) → length frame ≡ 24 + length f.payload
length-frame m f =
    ap length f.shape
    ∙ length-header f.op (length f.payload) (mutation_sequence m) (crc32 f.payload) f.payload

module _ (m : WalMutation) {frame : Bytes} (f : FrameOf m frame) (previous : Option ℕ)
    (rest : Bytes) where
  abbrev head : Bytes
  head = header f.op (length f.payload) (mutation_sequence m) (crc32 f.payload)

  payload_slice :
      drop header_len (take (24 + length f.payload) (head ++ (f.payload ++ rest))) ≡ f.payload
  payload_slice =
      let size =
        length-header f.op (length f.payload) (mutation_sequence m) (crc32 f.payload) f.payload in
      rw (← size, ← append_assoc head f.payload rest, take-length-append (head ++ f.payload) rest)
        (drop-header f.op _ _ _ f.payload)

  whole_frame-frame :
      IsMutation m
      → check_order previous (mutation_sequence m) ≡ ok tt
      → whole_frame previous (head ++ (f.payload ++ rest)) (24 + length f.payload)
        ≡ ok (next m (mutation_sequence m) (24 + length f.payload))
  unfolding whole_frame
  whole_frame-frame wf ordered = rw (
    take-header f.op (length f.payload) (mutation_sequence m) (crc32 f.payload) (f.payload ++ rest),
    payload_slice,
    header-sequence f.op (length f.payload) (mutation_sequence m) (crc32 f.payload)
        (mutation_sequence-lt m wf),
    header-op f.op (length f.payload) (mutation_sequence m) (crc32 f.payload),
    header-crc f.op (length f.payload) (mutation_sequence m) (crc32 f.payload) (crc32-lt f.payload),
    ordered,
    ==_refl (crc32 f.payload),
    decode_payload-encode_payload m f.op f.payload wf f.encoded (omega (arith, f.small)),
  )

  -- The header alone decides how long the frame is.
  next_frame-head :
      (xs : Bytes)
      → next_frame previous (head ++ xs) ≡ (
          if ltb (24 + length xs) (24 + length f.payload)
          then ok torn
          else whole_frame previous (head ++ xs) (24 + length f.payload))
  unfolding next_frame checked_add frame_length
  next_frame-head xs = ground (
    arith,
    take-header f.op (length f.payload) (mutation_sequence m) (crc32 f.payload) xs,
    length-header f.op (length f.payload) (mutation_sequence m) (crc32 f.payload) xs,
    header-IsValid f.op (length f.payload) (mutation_sequence m) (crc32 f.payload),
    header-len f.op (length f.payload) (mutation_sequence m) (crc32 f.payload) f.small,
    f.small,
  )

-- In order behind `previous`, a frame is read as its entry, whatever follows it.
pub next_frame-frame :
    (m : WalMutation) (frame : Bytes) (previous : Option ℕ) (rest : Bytes)
    → IsMutation m
    → encode_frame m ≡ ok frame
    → check_order previous (mutation_sequence m) ≡ ok tt
    → next_frame previous (frame ++ rest) ≡ ok (next m (mutation_sequence m) (length frame))
next_frame-frame m frame previous rest wf e ordered =
    let f = encode_frame-eq-ok m frame e in
    let room : 24 + length f.payload ≤ 24 + length (f.payload ++ rest) =
      omega (arith, length-append f.payload rest) in
    rw (length-frame m f, f.shape, append_assoc (head m f previous rest) f.payload rest)
      (next_frame-head m f previous rest (f.payload ++ rest)
        ∙ rw (le→ltb_false _ _ room) (whole_frame-frame m f previous rest wf ordered))

next_frame-short :
    (previous : Option ℕ) (rest : Bytes)
    → length rest < header_len
    → next_frame previous rest ≡ ok torn
unfolding next_frame
next_frame-short previous rest h = rw (lt→ltb _ _ h)

-- A frame that is cut short is read as a torn tail.
pub next_frame-torn :
    (m : WalMutation) (frame : Bytes) (previous : Option ℕ) (k : ℕ)
    → encode_frame m ≡ ok frame
    → k < length frame
    → next_frame previous (take k frame) ≡ ok torn
next_frame-torn m frame previous k e short = elim (Bool-cases (ltb k header_len)) [
  | inl early ↦
      next_frame-short previous (take k frame)
        (omega (arith, length-take k frame, ltb→lt k header_len early))
  | inr late ↦
      let f = encode_frame-eq-ok m frame e in
      let hdr = head m f previous [] in
      let j : ℕ = k - 24 in
      let whole =
        length-header_alone f.op (length f.payload) (mutation_sequence m) (crc32 f.payload) in
      let split : k ≡ length hdr + j = omega (arith, whole, ltb_false→le k header_len late) in
      let cut : take k frame ≡ hdr ++ take j f.payload =
        ap₂ take split f.shape ∙ take_past hdr f.payload j in
      let missing : 24 + length (take j f.payload) < 24 + length f.payload =
        omega (
          arith,
          length-take j f.payload,
          length-frame m f,
          ltb_false→le k header_len late,
          short,
        ) in
      rw cut (next_frame-head m f previous [] (take j f.payload) ∙ rw (lt→ltb _ _ missing))
]
