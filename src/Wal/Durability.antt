-- ===== src/Wal/Durability.antt =====
-- What `append_batch` leaves in the file, and what opening the file again finds.
use ketebe_oss.Base.{
  ℕ, zero, suc, ◌≤◌, ◌≡◌, refl, sym, ap, ◌∙◌, Option, none, List, [], ◌∷◌, ◌++◌, append-nil, length,
  All, arith,
}
use ketebe_oss.Base.Result.{Result, ok, err}
use ketebe_oss.Core.Values.{Bytes}
use ketebe_oss.Wal.Frame.{WalError, WalMutation}
use ketebe_oss.Wal.Log.{
  ReplayResult, decode_frames, decode_log, last_sequence_of, Wal, written, append_batch,
  store_batch,
}
use ketebe_oss.Wal.PayloadRoundTrip.{IsMutation}
use ketebe_oss.Wal.Replay.{IsLog, IsLog-append, last-append, encode_batch-IsLog, decode_frames-log}

-- The log file holds exactly these entries, and the handle knows the last of them.
pub record IsWal (ms : List WalMutation) (w : Wal) : Type 0 where
  pub logged : IsLog none ms w.file
  pub last : w.last_sequence ≡ last_sequence_of none ms

abbrev pub replayed : List WalMutation → ℕ → ReplayResult
replayed ms ignored = record { entries = ms; ignored_tail_bytes = ignored }

pub decode_log-IsLog :
    (ms : List WalMutation) (bytes : Bytes)
    → IsLog none ms bytes
    → decode_log bytes ≡ ok (replayed ms 0)
unfolding decode_log decode_frames
decode_log-IsLog ms bytes h =
    let nothing : bytes ++ [] ≡ bytes = append-nil bytes in
    ap (λ x. decode_frames (length bytes) none [] x) (sym nothing)
    ∙ decode_frames-log ms none [] bytes [] (ok (replayed ms 0)) (length bytes) h
        (omega (arith, ap length nothing)) finish
  where
    finish :
        (fuel : ℕ)
        → length {A = ℕ} [] ≤ fuel
        → decode_frames fuel (last_sequence_of none ms) ms [] ≡ ok (replayed ms 0)
    finish zero _ = refl
    finish (suc fuel) _ = refl

pub store_batch-written :
    (w : Wal) (ms : List WalMutation) (r : Result WalError (Bytes × Option ℕ))
    → (store_batch written w r).0 ≡ ok tt
    → (bytes : Bytes) × (last : Option ℕ) × (r ≡ ok (bytes, last))
      × ((store_batch written w r).1 ≡ record w { file = w.file ++ bytes; last_sequence = last })
unfolding store_batch
store_batch-written w ms (ok (bytes, last)) h = (bytes, last, refl, refl)
store_batch-written w ms (err e) h = cc

-- When an append of well-formed mutations to an intact log succeeds (one whose file is the frames of
-- its entries and nothing else, and whose handle knows the last number), the log holds the old
-- entries and then the new ones, is intact again, and a replay of the file returns exactly these.
pub replay-append_batch :
    (ms ns : List WalMutation) (w : Wal)
    → IsWal ms w
    → All IsMutation ns
    → (append_batch written w ns).0 ≡ ok tt
    → IsWal (ms ++ ns) (append_batch written w ns).1
      × (decode_log (append_batch written w ns).1.file ≡ ok (replayed (ms ++ ns) 0))
unfolding append_batch
replay-append_batch ms [] w is wf h = rw (append-nil ms) (is, decode_log-IsLog ms w.file is.logged)
replay-append_batch ms (n ∷ ns) w is wf h =
    let (bytes, last, e, stored) = store_batch-written w ms _ h in
    let (added, last_eq) = encode_batch-IsLog w.last_sequence (n ∷ ns) bytes last wf e in
    let log = IsLog-append none ms (n ∷ ns) w.file bytes is.logged (rw is.last at added) in
    let known =
      last_eq
      ∙ ap (λ p. last_sequence_of p (n ∷ ns)) is.last
      ∙ sym (last-append none ms (n ∷ ns)) in
    rw stored (record { logged = log; last = known }, decode_log-IsLog (ms ++ n ∷ ns) _ log)
