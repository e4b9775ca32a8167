-- ===== src/Wal/Log.antt =====
-- The log file: `decode_log`, `Wal::append_batch`, `Wal::open` and `Wal::replay`.
use ketebe_oss.Base.{
  ℕ, zero, suc, Bool, false, ◌&&◌, Option, none, some, List, [], ◌∷◌, ◌++◌, length, take, drop, ltb,
  leb, ◌==◌, if◌then◌else◌,
}
use ketebe_oss.Base.Result.{Result, ok, err, ◌>>=◌}
use ketebe_oss.Core.Values.{Bytes}
use ketebe_oss.Codec.Words.{from_le_bytes, checked_add}
use ketebe_oss.Codec.Crc.{crc32}
use ketebe_oss.Wal.Frame.{
  WalError, io, invalid_magic, unsupported_version, checksum_mismatch, corrupt_frame,
  sequence_regression, WalMutation, mutation_sequence, version, header_len, encode_frame,
}
use ketebe_oss.Wal.Payload.{decode_payload}

unfoldable pub byte_at : ℕ → Bytes → ℕ
byte_at zero [] = 0
byte_at zero (b ∷ bs) = b
byte_at (suc i) [] = 0
byte_at (suc i) (b ∷ bs) = byte_at i bs

-- The little-endian word of `w` bytes at position `i` of a header.
unfoldable pub word_at : ℕ → ℕ → Bytes → ℕ
word_at w i header = from_le_bytes (take w (drop i header))

is_magic : Bytes → Bool
is_magic (a ∷ b ∷ c ∷ d ∷ []) = a == b'K' && b == b'T' && c == b'W' && d == b'L'
is_magic _ = false

unfoldable pub validate_header : Bytes → Result WalError (Unit {0})
unfolding is_magic byte_at
validate_header header =
    if is_magic (take 4 header)
    then (if byte_at 4 header == version
        then ok tt
        else err (unsupported_version (byte_at 4 header)))
    else err invalid_magic

-- The guard `current <= previous` of the decoder and of the writer.
unfoldable pub check_order : Option ℕ → ℕ → Result WalError (Unit {0})
check_order none current = ok tt
check_order (some previous) current =
    if leb current previous then err (sequence_regression previous current) else ok tt

-- What one round of the loop of `decode_log` finds: a torn tail, or an entry, its sequence number
-- and the length of its frame.
pub data Found : Type 0 where
  torn : Found
  next : WalMutation → ℕ → ℕ → Found

unfoldable pub frame_length : Option ℕ → Result WalError ℕ
frame_length none = err (corrupt_frame "payload length overflow")
frame_length (some n) = ok n

unfoldable pub whole_frame : Option ℕ → Bytes → ℕ → Result WalError Found
unfolding byte_at word_at check_order
whole_frame previous rest frame_len =
    let header = take header_len rest in
    let sequence = word_at 8 12 header in
    let payload = drop header_len (take frame_len rest) in
    check_order previous sequence >>= λ _.
    if crc32 payload == word_at 4 20 header
    then (decode_payload (byte_at 5 header) sequence payload >>= λ m.
        ok (next m sequence frame_len))
    else err (checksum_mismatch sequence)

-- One round of the loop, on the bytes from `offset` on.
unfoldable pub next_frame : Option ℕ → Bytes → Result WalError Found
unfolding validate_header frame_length whole_frame word_at checked_add
next_frame previous rest =
    if ltb (length rest) header_len
    then ok torn
    else (validate_header (take header_len rest) >>= λ _.
        frame_length (checked_add header_len (word_at 4 8 (take header_len rest))) >>= λ frame_len.
        if ltb (length rest) frame_len then ok torn else whole_frame previous rest frame_len)

pub record ReplayResult : Type 0 where
  pub entries : List WalMutation
  pub ignored_tail_bytes : ℕ

-- The loop. Each round passes 24 bytes at least, so the bytes that are left are fuel enough.
unfoldable pub decode_frames :
    ℕ → Option ℕ → List WalMutation → Bytes → Result WalError ReplayResult
decode_frames zero previous entries rest = ok (record { entries = entries; ignored_tail_bytes = 0 })
decode_frames (suc fuel) previous entries [] =
    ok (record { entries = entries; ignored_tail_bytes = 0 })
decode_frames (suc fuel) previous entries (b ∷ bs) = elim (next_frame previous (b ∷ bs)) [
  | err e ↦ err e
  | ok torn ↦ ok (record { entries = entries; ignored_tail_bytes = length (b ∷ bs) })
  | ok (next m sequence frame_len) ↦
      decode_frames fuel (some sequence) (entries ++ m ∷ []) (drop frame_len (b ∷ bs))
]

unfoldable pub decode_log : Bytes → Result WalError ReplayResult
unfolding decode_frames
decode_log bytes = decode_frames (length bytes) none [] bytes

-- `replay_path`; no file is the empty log.
unfoldable pub replay_path : Option Bytes → Result WalError ReplayResult
unfolding decode_log
replay_path none = ok (record { entries = []; ignored_tail_bytes = 0 })
replay_path (some bytes) = decode_log bytes

pub data SyncPolicy : Type 0 where
  durable buffered : SyncPolicy

-- `Wal`, with the contents of its file.
pub record Wal : Type 0 where
  pub file : Bytes
  pub sync_policy : SyncPolicy
  pub last_sequence : Option ℕ

-- The sequence number of the last entry, or what was there before.
abbrev pub last_sequence_of : Option ℕ → List WalMutation → Option ℕ
last_sequence_of previous [] = previous
last_sequence_of previous (m ∷ ms) = last_sequence_of (some (mutation_sequence m)) ms

contents : Option Bytes → Bytes
contents none = []
contents (some bytes) = bytes

-- `Wal::open_with_policy` on the file at the path, if there is one.
unfoldable pub open_with_policy : Option Bytes → SyncPolicy → Result WalError Wal
unfolding contents
open_with_policy file policy = replay_path file >>= λ replay. ok (record {
  file = contents file;
  sync_policy = policy;
  last_sequence = last_sequence_of none replay.entries;
})

-- The loop of `append_batch`: the bytes of all frames, and the last sequence number.
unfoldable pub encode_batch : Option ℕ → List WalMutation → Result WalError (Bytes × Option ℕ)
unfolding check_order
encode_batch previous [] = ok ([], previous)
encode_batch previous (m ∷ ms) = check_order previous (mutation_sequence m) >>= λ _.
    encode_frame m >>= λ frame.
    encode_batch (some (mutation_sequence m)) ms >>= λ rest. ok (frame ++ rest.0, rest.1)

-- What the file system does with a write: all is stored, `write_all` stops after some bytes, or the
-- bytes are stored and `flush` or `sync_data` fails.
pub data WriteOutcome : Type 0 where
  written flush_failed sync_failed : WriteOutcome
  write_failed : ℕ → WriteOutcome

unfoldable pub commit : WriteOutcome → Wal → Bytes → Option ℕ → Result WalError (Unit {0}) × Wal
commit (write_failed k) wal encoded last =
    (err io, record wal { file = wal.file ++ take k encoded })
commit flush_failed wal encoded last = (err io, record wal { file = wal.file ++ encoded })
commit sync_failed wal encoded last = elim wal.sync_policy [
  | durable ↦ (err io, record wal { file = wal.file ++ encoded })
  | buffered ↦ (ok tt, record wal { file = wal.file ++ encoded; last_sequence = last })
]
commit written wal encoded last =
    (ok tt, record wal { file = wal.file ++ encoded; last_sequence = last })

unfoldable pub store_batch :
    WriteOutcome → Wal → Result WalError (Bytes × Option ℕ) → Result WalError (Unit {0}) × Wal
unfolding commit
store_batch outcome wal (err e) = (err e, wal)
store_batch outcome wal (ok (encoded, last)) = commit outcome wal encoded last

-- `Wal::append_batch`.
unfoldable pub append_batch :
    WriteOutcome → Wal → List WalMutation → Result WalError (Unit {0}) × Wal
unfolding store_batch
append_batch outcome wal [] = (ok tt, wal)
append_batch outcome wal (m ∷ ms) =
    store_batch outcome wal (encode_batch wal.last_sequence (m ∷ ms))

-- `Wal::append`.
unfoldable pub append : WriteOutcome → Wal → WalMutation → Result WalError (Unit {0}) × Wal
unfolding append_batch
append outcome wal m = append_batch outcome wal (m ∷ [])
