-- ===== src/Wal/TornTail.antt =====
-- Opening a log with a torn tail, and appending to it.
use ketebe_oss.Base.{
  ℕ, zero, suc, ◌<◌, ◌≤◌, ◌≡◌, ap, ◌∙◌, Option, none, some, List, [], ◌∷◌, ◌++◌, append-nil,
  append_assoc, length, length-append, length-take, take, take_within, arith, lt→ltb,
}
use ketebe_oss.Base.Result.{ok, err}
use ketebe_oss.Core.Values.{Bytes}
use ketebe_oss.Wal.Frame.{
  WalError, io, invalid_magic, WalMutation, mutation_sequence, encode_frame, magic, frame_header,
  header_len,
}
use ketebe_oss.Wal.Log.{
  torn, next_frame, validate_header, decode_frames, decode_log, replay_path, last_sequence_of,
  encode_batch, Wal, WriteOutcome, written, write_failed, append, commit, open_with_policy,
  SyncPolicy,
}
use ketebe_oss.Wal.FrameRoundTrip.{encode_frame-eq-ok, length-frame}
use ketebe_oss.Wal.Replay.{IsLog, InOrder, decode_frames-torn, decode_frames-log}
use ketebe_oss.Wal.Durability.{IsWal, replayed}

next_frame-short :
    (previous : Option ℕ) (rest : Bytes)
    → length rest < header_len
    → next_frame previous rest ≡ ok torn
unfolding next_frame
next_frame-short previous rest h = rw (lt→ltb _ _ h)

-- The log with the first `k` bytes of a magic behind it.
abbrev pub torn_file : Bytes → ℕ → Bytes
torn_file bytes k = bytes ++ take k magic

decode_log-torn :
    (ms : List WalMutation) (bytes : Bytes) (k : ℕ)
    → IsLog none ms bytes
    → decode_log (torn_file bytes k) ≡ ok (replayed ms (length (take k magic)))
unfolding decode_log
decode_log-torn ms bytes k h =
    decode_frames-log ms none [] bytes (take k magic) _ _ h (omega arith) (λ fuel enough.
      decode_frames-torn fuel _ ms (take k magic) enough
        (next_frame-short _ (take k magic) (omega (arith, length-take k magic))))

-- Behind one to three bytes of a magic the magic of a frame is not in its place.
next_frame-misplaced :
    (k : ℕ) (m : WalMutation) {frame : Bytes} (previous : Option ℕ)
    → 0 < k
    → k < 4
    → encode_frame m ≡ ok frame
    → next_frame previous (take k magic ++ frame) ≡ err invalid_magic
unfolding next_frame validate_header frame_header
next_frame-misplaced zero m previous h h' e = absurd (omega arith)
next_frame-misplaced (suc zero) m {frame} previous h h' e =
    rw (encode_frame-eq-ok m frame e).shape (ground arith)
next_frame-misplaced (suc (suc zero)) m {frame} previous h h' e =
    rw (encode_frame-eq-ok m frame e).shape (ground arith)
next_frame-misplaced (suc (suc (suc zero))) m {frame} previous h h' e =
    rw (encode_frame-eq-ok m frame e).shape (ground arith)
next_frame-misplaced (suc (suc (suc (suc k)))) m previous h h' e = absurd (omega arith)

decode_frames-err :
    (fuel : ℕ) (previous : Option ℕ) (entries : List WalMutation) (bytes : Bytes) {x : WalError}
    → 0 < length bytes
    → length bytes ≤ fuel
    → next_frame previous bytes ≡ err x
    → decode_frames fuel previous entries bytes ≡ err x
unfolding decode_frames
decode_frames-err fuel previous entries [] h enough e = absurd (omega arith)
decode_frames-err zero previous entries (b ∷ bs) h enough e = absurd (omega arith)
decode_frames-err (suc fuel) previous entries (b ∷ bs) h enough e = rw (e, decode_frames)

decode_log-behind_torn :
    (ms : List WalMutation) (bytes : Bytes) (k : ℕ) (m : WalMutation) {frame : Bytes}
    → IsLog none ms bytes
    → 0 < k
    → k < 4
    → encode_frame m ≡ ok frame
    → decode_log (torn_file bytes k ++ frame) ≡ err invalid_magic
unfolding decode_log
decode_log-behind_torn ms bytes k m {frame} h low high e =
    let f = encode_frame-eq-ok m frame e in
    rw (append_assoc bytes (take k magic) frame) (
      decode_frames-log ms none [] bytes (take k magic ++ frame) _ _ h (omega arith) (λ fuel enough.
        decode_frames-err fuel _ ms (take k magic ++ frame)
          (omega (arith, length-append (take k magic) frame, length-frame m f)) enough
          (next_frame-misplaced k m _ low high e)))

-- A log whose last write left one to three bytes of a frame opens without an error, and it accepts
-- a next mutation that encodes and is in order with success; the file that this leaves cannot be replayed any more.
pub append-torn_file :
    (ms : List WalMutation) (bytes : Bytes) (k : ℕ) (m : WalMutation) (frame : Bytes)
    (policy : SyncPolicy)
    → IsLog none ms bytes
    → 0 < k
    → k < 4
    → encode_frame m ≡ ok frame
    → InOrder (last_sequence_of none ms) m
    → (w : Wal) × (open_with_policy (some (torn_file bytes k)) policy ≡ ok w)
      × ((append written w m).0 ≡ ok tt)
      × (replay_path (some (append written w m).1.file) ≡ err invalid_magic)
unfolding open_with_policy append commit encode_batch replay_path
append-torn_file ms bytes k m frame policy h low high e ordered = (
  record {
    file = torn_file bytes k;
    sync_policy = policy;
    last_sequence = last_sequence_of none ms;
  },
  rw (decode_log-torn ms bytes k h, replay_path),
  rw (ordered, e),
  rw (ordered, e, append-nil frame) (decode_log-behind_torn ms bytes k m h low high e),
)

-- The first bytes of a frame are those of the magic.
take-frame :
    (k : ℕ) (m : WalMutation) {frame : Bytes}
    → k < 4
    → encode_frame m ≡ ok frame
    → take k frame ≡ take k magic
unfolding frame_header
take-frame k m {frame} high e =
    let f = encode_frame-eq-ok m frame e in rw f.shape (take_within magic _ k (omega arith))

append-commit :
    (outcome : WriteOutcome) (w : Wal) (m : WalMutation) (frame : Bytes)
    → encode_frame m ≡ ok frame
    → InOrder w.last_sequence m
    → append outcome w m ≡ commit outcome w frame (some (mutation_sequence m))
unfolding append encode_batch
append-commit outcome w m frame e ordered = rw (ordered, e, append-nil frame)

-- When the write of a mutation that encodes and is in order stops after one to three bytes, the append
-- fails, a second attempt succeeds, and the file that it leaves cannot be replayed.
pub retry-write_failed :
    (ms : List WalMutation) (w : Wal) (k : ℕ) (m : WalMutation) (frame : Bytes)
    → IsWal ms w
    → 0 < k
    → k < 4
    → encode_frame m ≡ ok frame
    → InOrder w.last_sequence m
    → ((append (write_failed k) w m).0 ≡ err io)
      × ((append written (append (write_failed k) w m).1 m).0 ≡ ok tt)
      × (replay_path (some (append written (append (write_failed k) w m).1 m).1.file)
          ≡ err invalid_magic)
unfolding commit replay_path
retry-write_failed ms w k m frame is low high e ordered =
    let torn_wal : Wal = record w { file = w.file ++ take k magic } in
    let failed : append (write_failed k) w m ≡ (err io, torn_wal) =
      append-commit (write_failed k) w m frame e ordered
      ∙ ap (λ xs. (err io, record w { file = w.file ++ xs })) (take-frame k m high e) in
    let again = append-commit written torn_wal m frame e ordered in
    (
      ap (λ r. r.0) failed,
      (rw (failed, again)),
      (rw (failed, again) (decode_log-behind_torn ms w.file k m is.logged low high e)),
    )
