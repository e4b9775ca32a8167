-- ===== src/Wal/Crash.antt =====
-- A write that stops part of the way, and a batch that is refused.
use ketebe_oss.Base.{
  ℕ, zero, suc, ◌+◌, ◌-◌, ◌<◌, ◌≤◌, ◌≡◌, refl, sym, ap, ap₂, ◌∙◌, subst, Option, none, some, List,
  [], ◌∷◌, ◌++◌, append-nil, append_assoc, length, take, All, arith, true, false, Bool-cases, inl,
  inr, ltb, ltb→lt, ltb_false→le, take_past, take_within, take_nil, if◌then◌else◌, le→leb,
}
use ketebe_oss.Base.Result.{Result, ok, err, Result-cases}
use ketebe_oss.Core.Values.{Bytes}
use ketebe_oss.Wal.Frame.{
  WalError, WalMutation, mutation_sequence, encode_frame, sequence_regression,
}
use ketebe_oss.Wal.Log.{
  check_order, ReplayResult, decode_frames, decode_log, last_sequence_of, encode_batch, Wal,
  WriteOutcome, written, write_failed, append_batch, store_batch,
}
use ketebe_oss.Wal.PayloadRoundTrip.{IsMutation}
use ketebe_oss.Wal.FrameRoundTrip.{next_frame-torn}
use ketebe_oss.Wal.Replay.{
  IsLog, InOrder, encode_batch-IsLog, decode_frames-torn, decode_frames-log,
}
use ketebe_oss.Wal.Durability.{IsWal, replayed, store_batch-written, decode_log-IsLog}

-- How many frames of the batch lie whole within its first `k` bytes.
abbrev count_whole : ℕ → Result WalError Bytes → (ℕ → ℕ) → ℕ
count_whole k (err e) rest = 0
count_whole k (ok frame) rest = if ltb k (length frame) then 0 else suc (rest (k - length frame))

pub whole_frames : List WalMutation → ℕ → ℕ
whole_frames [] k = 0
whole_frames (m ∷ ms) k = count_whole k (encode_frame m) (whole_frames ms)

-- A replay from `previous` on of the bytes.
abbrev Replays : Option ℕ → List WalMutation → Bytes → ReplayResult → Type 0
Replays previous entries bytes r =
    (fuel : ℕ) → length bytes ≤ fuel → decode_frames fuel previous entries bytes ≡ ok r

Replays-nil :
    (previous : Option ℕ) (entries : List WalMutation)
    → Replays previous entries [] (replayed entries 0)
unfolding decode_frames
Replays-nil previous entries zero h = refl
Replays-nil previous entries (suc fuel) h = refl

whole_frames-cons :
    (m : WalMutation) (ms : List WalMutation) (k : ℕ) {frame : Bytes}
    → encode_frame m ≡ ok frame
    → whole_frames (m ∷ ms) k
      ≡ (if ltb k (length frame) then 0 else suc (whole_frames ms (k - length frame)))
unfolding whole_frames
whole_frames-cons m ms k e = rw (e, whole_frames)

module _ (m : WalMutation) (ms : List WalMutation) (previous : Option ℕ)
    (entries : List WalMutation) {bytes : Bytes} (k : ℕ) (frame rest : Bytes)
    (shape : bytes ≡ frame ++ rest) (e : encode_frame m ≡ ok frame) where
  abbrev survivors : List WalMutation
  survivors = take (whole_frames (m ∷ ms) k) (m ∷ ms)

  cut_short :
      ltb k (length frame) ≡ true
      → (t : ℕ) × Replays previous entries (take k bytes) (replayed (entries ++ survivors) t)
  cut_short short =
      let small : k < length frame = ltb→lt k (length frame) short in
      let cut : take k bytes ≡ take k frame =
        ap (take k) shape ∙ take_within frame rest k (omega arith) in
      let none_whole : whole_frames (m ∷ ms) k ≡ 0 = whole_frames-cons m ms k e ∙ rw short in
      (
        length (take k frame),
        rw (cut, none_whole, append-nil entries)
            (λ fuel h.
              decode_frames-torn fuel previous entries (take k frame) h
                (next_frame-torn m frame previous k e small)),
      )

  cut_later :
      ltb k (length frame) ≡ false
      → IsMutation m
      → InOrder previous m
      → (t : ℕ)
      → Replays
          (some (mutation_sequence m))
          (entries ++ m ∷ [])
          (take (k - length frame) rest)
          (replayed ((entries ++ m ∷ []) ++ take (whole_frames ms (k - length frame)) ms) t)
      → Replays previous entries (take k bytes) (replayed (entries ++ survivors) t)
  cut_later whole wf ordered t later =
      let k' : ℕ = k - length frame in
      let split : k ≡ length frame + k' = omega (arith, ltb_false→le k (length frame) whole) in
      let cut : take k bytes ≡ frame ++ take k' rest =
        ap₂ take split shape ∙ take_past frame rest k' in
      let one_more : whole_frames (m ∷ ms) k ≡ suc (whole_frames ms k') =
        whole_frames-cons m ms k e ∙ rw whole in
      rw (cut, one_more, ← append_assoc entries (m ∷ []) (take (whole_frames ms k') ms))
        (λ fuel h.
          decode_frames-log (m ∷ []) previous entries frame (take k' rest) _ fuel
            (frame, [], sym (append-nil frame), e, wf, ordered, refl) h later)

cut_log :
    (ns : List WalMutation) (previous : Option ℕ) (entries : List WalMutation) (bytes : Bytes)
    (k : ℕ)
    → IsLog previous ns bytes
    → (t : ℕ) × Replays previous entries
        (take k bytes)
        (replayed (entries ++ take (whole_frames ns k) ns) t)
unfolding whole_frames decode_frames
cut_log [] previous entries bytes k h =
    (0, rw (ap (take k) h ∙ take_nil k, append-nil entries) (Replays-nil previous entries))
cut_log (m ∷ ms) previous entries bytes k (frame, rest, shape, e, wf, ordered, later) =
    elim (Bool-cases (ltb k (length frame))) [
      | inl short ↦ cut_short m ms previous entries k frame rest shape e short
      | inr whole ↦
          let (t, replays) =
            cut_log ms (some (mutation_sequence m)) (entries ++ m ∷ []) rest (k - length frame)
              later in
          (t, cut_later m ms previous entries k frame rest shape e whole wf ordered t replays)
    ]

-- When the write of a batch that an intact log accepts stops after `k` bytes (a log whose file is the
-- frames of its entries and nothing else, and whose handle knows the last number), a replay of the
-- file finds every older entry and exactly those entries of the batch whose frames lie within the
-- `k` bytes.
pub replay-crash :
    (ms ns : List WalMutation) (w : Wal) (k : ℕ)
    → IsWal ms w
    → All IsMutation ns
    → (append_batch written w ns).0 ≡ ok tt
    → (t : ℕ) × (decode_log (append_batch (write_failed k) w ns).1.file
        ≡ ok (replayed (ms ++ take (whole_frames ns k) ns) t))
unfolding append_batch decode_log whole_frames
replay-crash ms [] w k is wf h = (0, rw (append-nil ms) (decode_log-IsLog ms w.file is.logged))
replay-crash ms (n ∷ ns) w k is wf h =
    let (bytes, last, e, stored) = store_batch-written w ms _ h in
    let (added, last_eq) = encode_batch-IsLog w.last_sequence (n ∷ ns) bytes last wf e in
    let (t, replays) =
      cut_log (n ∷ ns) (last_sequence_of none ms) ms bytes k
        (subst (λ p. IsLog p (n ∷ ns) bytes) is.last added) in
    (
      t,
      rw e (decode_frames-log ms none [] w.file (take k bytes) _ _ is.logged (omega arith) replays),
    )

encode_batch-regression :
    (before : List WalMutation) (m : WalMutation) (after : List WalMutation) (previous : Option ℕ)
    (p : ℕ)
    → last_sequence_of previous before ≡ some p
    → mutation_sequence m ≤ p
    → (e : WalError) × (encode_batch previous (before ++ m ∷ after) ≡ err e)
unfolding encode_batch check_order
encode_batch-regression [] m after previous p last late =
    (sequence_regression p (mutation_sequence m), rw (last, le→leb _ _ late))
encode_batch-regression (b ∷ before) m after previous p last late =
    let (e, later) =
      encode_batch-regression before m after (some (mutation_sequence b)) p last late in
    elim (Result-cases (check_order previous (mutation_sequence b))) [
      | inr (x, refused) ↦ (x, rw refused)
      | inl (u, ordered) ↦ elim (Result-cases (encode_frame b)) [
        | inr (x, refused) ↦ (x, rw (ordered, refused))
        | inl (frame, made) ↦ (e, rw (ordered, made, later))
      ]
    ]

-- A batch in which some sequence number is not above the one before it, in the log or in the batch,
-- is refused as a whole: the call fails, and the handle and its file stay as they were.
pub append_batch-regression :
    (outcome : WriteOutcome) (w : Wal) (before : List WalMutation) (m : WalMutation)
    (after : List WalMutation) (p : ℕ)
    → last_sequence_of w.last_sequence before ≡ some p
    → mutation_sequence m ≤ p
    → (e : WalError) × (append_batch outcome w (before ++ m ∷ after) ≡ (err e, w))
unfolding append_batch store_batch
append_batch-regression outcome w [] m after p last late =
    let (e, refused) = encode_batch-regression [] m after w.last_sequence p last late in
    (e, rw refused)
append_batch-regression outcome w (b ∷ before) m after p last late =
    let (e, refused) = encode_batch-regression (b ∷ before) m after w.last_sequence p last late in
    (e, rw refused)
