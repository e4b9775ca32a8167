-- ===== src/Tests/Logs.antt =====
-- The log: appends, crashes, replays, and a log with a torn tail.
use ketebe_oss.Base.{
  ℕ, ◌+◌, ◌*◌, ◌≤◌, ◌≡◌, refl, none, some, List, [], ◌∷◌, ◌++◌, length, take, arith,
}
use ketebe_oss.Base.Result.{ok, err}
use ketebe_oss.Core.Values.{Bytes, new_collection_id}
use ketebe_oss.Codec.Write.{write_record_id, write_vector, write_metadata}
use ketebe_oss.Codec.Cursor.{Cursor, ◌>>=◌, lift, take_bytes, read_u8, read_u32, read_u64}
use ketebe_oss.Codec.Words.{to_le_bytes, from_le_bytes}
use ketebe_oss.Codec.Crc.{crc32}
use ketebe_oss.Core.Utf8.{is_utf8}
use ketebe_oss.Codec.Fuel.{read_metadata-fuel}
use ketebe_oss.Codec.Read.{
  read_record_id, read_metadata_value, value_within, read_metadata, read_map,
}
use ketebe_oss.Wal.Frame.{
  WalError, io, WalMutation, invalid_magic, wal_errors, encode_payload, encode_frame, magic,
}
use ketebe_oss.Wal.Payload.{decode_payload}
use ketebe_oss.Wal.Log.{
  Wal, durable, next_frame, written, write_failed, append, append_batch, decode_log, decode_frames,
  open_with_policy, replay_path, check_order, encode_batch,
}
use ketebe_oss.Wal.PayloadRoundTrip.{decode_payload-encode_payload}
use ketebe_oss.Wal.Durability.{IsWal, replayed, replay-append_batch}
use ketebe_oss.Wal.Crash.{whole_frames, replay-crash, append_batch-regression}
use ketebe_oss.Wal.TornTail.{torn_file, append-torn_file, retry-write_failed}
use ketebe_oss.Wal.Order.{Rising, decode_log-Rising, decode_log-fuel}
use ketebe_oss.Tests.Samples.{
  empty_wal, first_mutation, second_mutation, first_mutation-IsMutation, second_mutation-IsMutation,
}

abbrev both : List WalMutation
both = first_mutation ∷ second_mutation ∷ []

empty_wal-IsWal : IsWal [] empty_wal
empty_wal-IsWal = record { logged = refl; last = refl }

appended : (append_batch written empty_wal both).0 ≡ ok tt
unfolding append_batch encode_batch encode_frame encode_payload write_metadata write_record_id
    write_vector
appended = refl

replay-append_batch_example :
    IsWal both (append_batch written empty_wal both).1
    × (decode_log (append_batch written empty_wal both).1.file ≡ ok (replayed both 0))
replay-append_batch_example =
    replay-append_batch [] both empty_wal empty_wal-IsWal
      (first_mutation-IsMutation, (second_mutation-IsMutation, tt)) appended

-- The write stops inside the second frame.
replay-crash_example :
    (t : ℕ) × (decode_log (append_batch (write_failed 120) empty_wal both).1.file
      ≡ ok (replayed (take (whole_frames both 120) both) t))
replay-crash_example =
    replay-crash [] both empty_wal 120 empty_wal-IsWal
      (first_mutation-IsMutation, (second_mutation-IsMutation, tt)) appended

append_batch-regression_example :
    (e : WalError) × (append_batch written empty_wal (second_mutation ∷ first_mutation ∷ [])
      ≡ (err e, empty_wal))
append_batch-regression_example =
    append_batch-regression written empty_wal (second_mutation ∷ []) first_mutation [] 2 refl
      (omega arith)

-- The payload and the frame of the second mutation.
abbrev delete_payload : Bytes
delete_payload = 4 ∷ 0 ∷ 0 ∷ 0 ∷ b'd' ∷ b'o' ∷ b'c' ∷ b's' ∷ 1 ∷ 7 ∷ 0 ∷ 0 ∷ 0 ∷ 0 ∷ 0 ∷ 0 ∷ 0 ∷ []

abbrev delete_frame : Bytes
delete_frame =
    magic
    ++ 1 ∷ 2 ∷ 0 ∷ 0 ∷ 17 ∷ 0 ∷ 0 ∷ 0 ∷ 2 ∷ 0 ∷ 0 ∷ 0 ∷ 0 ∷ 0 ∷ 0 ∷ 0 ∷ 59 ∷ 70 ∷ 157 ∷ 231
      ∷ delete_payload

delete_encoded : encode_payload second_mutation ≡ ok (2, delete_payload)
unfolding encode_payload write_record_id to_le_bytes
delete_encoded = refl

delete_framed : encode_frame second_mutation ≡ ok delete_frame
unfolding encode_frame encode_payload write_record_id crc32
delete_framed = refl

decode_payload-encode_payload_example : decode_payload 2 2 delete_payload ≡ ok second_mutation
decode_payload-encode_payload_example =
    decode_payload-encode_payload second_mutation 2 delete_payload second_mutation-IsMutation
      delete_encoded (omega arith)

-- A log of the first mutation.
abbrev first_wal : Wal
first_wal = (append_batch written empty_wal (first_mutation ∷ [])).1

first_wal-IsWal : IsWal (first_mutation ∷ []) first_wal
unfolding append_batch encode_batch encode_frame encode_payload write_metadata write_record_id
    write_vector
first_wal-IsWal =
    (replay-append_batch [] (first_mutation ∷ []) empty_wal empty_wal-IsWal
      (first_mutation-IsMutation, tt) refl).0

append-torn_file_example :
    (w : Wal) × (open_with_policy (some (torn_file first_wal.file 3)) durable ≡ ok w)
    × ((append written w second_mutation).0 ≡ ok tt)
    × (replay_path (some (append written w second_mutation).1.file) ≡ err invalid_magic)
unfolding check_order
append-torn_file_example =
    append-torn_file (first_mutation ∷ []) first_wal.file 3 second_mutation delete_frame durable
      first_wal-IsWal.logged (omega arith) (omega arith) delete_framed refl

-- The frame of the second mutation, with the first five bytes of another.
abbrev torn_log : Bytes
torn_log = delete_frame ++ take 5 delete_frame

torn_replay : decode_log torn_log ≡ ok (replayed (second_mutation ∷ []) 5)
unfolding decode_log next_frame decode_payload read_record_id from_le_bytes crc32 ◌>>=◌ read_u32
    take_bytes is_utf8 lift new_collection_id read_u8 read_u64
torn_replay = refl

decode_log-Rising_example : Rising none (second_mutation ∷ []) × (24 * 1 + 5 ≤ length torn_log)
decode_log-Rising_example =
    decode_log-Rising torn_log (replayed (second_mutation ∷ []) 5) torn_replay

decode_log-fuel_example : decode_frames 60 none [] torn_log ≡ decode_log torn_log
decode_log-fuel_example = decode_log-fuel torn_log 60 (omega arith)

-- An array of one null, as a cursor over its bytes.
abbrev array_cursor : Cursor
array_cursor = record { bytes = 4 ∷ 1 ∷ 0 ∷ 0 ∷ 0 ∷ 0 ∷ []; offset = 0 }

read_metadata-fuel_example :
    (read_metadata_value wal_errors array_cursor ≡ value_within wal_errors 10 array_cursor)
    × (read_metadata wal_errors array_cursor
        ≡ read_map wal_errors (value_within wal_errors 10) array_cursor)
read_metadata-fuel_example =
    read_metadata-fuel wal_errors array_cursor 10
      (record { inside = omega arith; fits = omega arith }) (omega arith)

retry-write_failed_example :
    ((append (write_failed 3) first_wal second_mutation).0 ≡ err io)
    × ((append written (append (write_failed 3) first_wal second_mutation).1 second_mutation).0
        ≡ ok tt)
    × (replay_path (
          some
            (append written
              (append (write_failed 3) first_wal second_mutation).1
              second_mutation).1.file)
        ≡ err invalid_magic)
unfolding append_batch check_order encode_batch encode_frame encode_payload write_metadata
    write_record_id write_vector
retry-write_failed_example =
    retry-write_failed (first_mutation ∷ []) first_wal 3 second_mutation delete_frame
      first_wal-IsWal (omega arith) (omega arith) delete_framed refl
