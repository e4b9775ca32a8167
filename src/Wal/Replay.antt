-- ===== src/Wal/Replay.antt =====
-- Replaying a log, frame by frame.
use ketebe_oss.Base.{
  ℕ, zero, suc, ◌<◌, ◌≤◌, ◌≡◌, refl, ap, ◌∙◌, Option, some, List, [], ◌∷◌, ◌++◌, append-nil,
  append_assoc, length, drop, length-append, drop-length-append, All, arith,
}
use ketebe_oss.Base.Result.{Result, ok, >>=-eq-ok}
use ketebe_oss.Core.Values.{Bytes}
use ketebe_oss.Wal.Frame.{WalError, WalMutation, mutation_sequence, encode_frame}
use ketebe_oss.Wal.Log.{
  torn, next, check_order, next_frame, ReplayResult, decode_frames, last_sequence_of, encode_batch,
}
use ketebe_oss.Wal.PayloadRoundTrip.{IsMutation}
use ketebe_oss.Wal.FrameRoundTrip.{encode_frame-eq-ok, length-frame, next_frame-frame}

abbrev pub InOrder : Option ℕ → WalMutation → Type 0
InOrder previous m = check_order previous (mutation_sequence m) ≡ ok tt

-- The bytes are the frames of well-formed mutations, whose sequence numbers rise from `previous`.
abbrev pub IsLog : Option ℕ → List WalMutation → Bytes → Type 0
IsLog previous [] bytes = bytes ≡ []
IsLog previous (m ∷ ms) bytes =
    (frame : Bytes) × (rest : Bytes) × (bytes ≡ frame ++ rest)
    × (encode_frame m ≡ ok frame)
    × IsMutation m
    × InOrder previous m
    × IsLog (some (mutation_sequence m)) ms rest

pub IsLog-append :
    (previous : Option ℕ) (ms ns : List WalMutation) (f g : Bytes)
    → IsLog previous ms f
    → IsLog (last_sequence_of previous ms) ns g
    → IsLog previous (ms ++ ns) (f ++ g)
IsLog-append previous [] ns f g hf hg = rw hf hg
IsLog-append previous (m ∷ ms) ns f g (frame, rest, shape, e, wf, ordered, later) hg = (
  frame,
  rest ++ g,
  ap (λ x. x ++ g) shape ∙ append_assoc frame rest g,
  e,
  wf,
  ordered,
  IsLog-append (some (mutation_sequence m)) ms ns rest g later hg,
)

pub last-append :
    (previous : Option ℕ) (ms ns : List WalMutation)
    → last_sequence_of previous (ms ++ ns) ≡ last_sequence_of (last_sequence_of previous ms) ns
last-append previous [] ns = refl
last-append previous (m ∷ ms) ns = last-append (some (mutation_sequence m)) ms ns

pub encode_batch-IsLog :
    (previous : Option ℕ) (ms : List WalMutation) (bytes : Bytes) (last : Option ℕ)
    → All IsMutation ms
    → encode_batch previous ms ≡ ok (bytes, last)
    → IsLog previous ms bytes × (last ≡ last_sequence_of previous ms)
unfolding encode_batch
encode_batch-IsLog previous [] bytes last wf h = (ground arith, ground arith)
encode_batch-IsLog previous (m ∷ ms) bytes last wf h =
    let (u, ordered, h1) = >>=-eq-ok (check_order previous (mutation_sequence m)) _ h in
    let (frame, e, h2) = >>=-eq-ok (encode_frame m) _ h1 in
    let ((rest, last'), e3, h3) = >>=-eq-ok (encode_batch (some (mutation_sequence m)) ms) _ h2 in
    let (later, eq) = encode_batch-IsLog (some (mutation_sequence m)) ms rest last' wf.1 e3 in
    ((frame, rest, ground arith, e, wf.0, ordered, later), ground arith)

decode_frames-next :
    (fuel : ℕ) (previous : Option ℕ) (entries : List WalMutation) (bytes : Bytes) {m : WalMutation}
    {s n : ℕ}
    → 0 < length bytes
    → next_frame previous bytes ≡ ok (next m s n)
    → decode_frames (suc fuel) previous entries bytes
      ≡ decode_frames fuel (some s) (entries ++ m ∷ []) (drop n bytes)
unfolding decode_frames
decode_frames-next fuel previous entries [] h e = absurd (omega arith)
decode_frames-next fuel previous entries (b ∷ bs) h e = rw (e, decode_frames)

pub decode_frames-torn :
    (fuel : ℕ) (previous : Option ℕ) (entries : List WalMutation) (bytes : Bytes)
    → length bytes ≤ fuel
    → next_frame previous bytes ≡ ok torn
    → decode_frames fuel previous entries bytes
      ≡ ok (record { entries = entries; ignored_tail_bytes = length bytes })
unfolding decode_frames
decode_frames-torn zero previous entries [] h e = refl
decode_frames-torn (suc fuel) previous entries [] h e = refl
decode_frames-torn zero previous entries (b ∷ bs) h e = absurd (omega arith)
decode_frames-torn (suc fuel) previous entries (b ∷ bs) h e = rw (e, decode_frames)

-- The whole frames in front are read, and the result is that of the rest.
pub decode_frames-log :
    (ms : List WalMutation) (previous : Option ℕ) (entries : List WalMutation) (f tail : Bytes)
    (r : Result WalError ReplayResult) (fuel : ℕ)
    → IsLog previous ms f
    → length (f ++ tail) ≤ fuel
    → ((fuel' : ℕ)
        → length tail ≤ fuel'
        → decode_frames fuel' (last_sequence_of previous ms) (entries ++ ms) tail ≡ r)
    → decode_frames fuel previous entries (f ++ tail) ≡ r
decode_frames-log [] previous entries f tail r fuel hf enough final =
    let after = final fuel (omega (arith, enough, length-append f tail)) in
    rw hf (rw (append-nil entries) at after)
decode_frames-log (m ∷ ms) previous entries f tail r zero
      (frame, rest, shape, e, wf, ordered, later) enough final =
    let made = encode_frame-eq-ok m frame e in
    absurd (
      omega (
        arith,
        enough,
        length-append f tail,
        ap length shape,
        length-append frame rest,
        length-frame m made,
      ))
decode_frames-log (m ∷ ms) previous entries f tail r (suc fuel)
      (frame, rest, shape, e, wf, ordered, later) enough final =
    let made = encode_frame-eq-ok m frame e in
    let whole : f ++ tail ≡ frame ++ (rest ++ tail) =
      ap (λ x. x ++ tail) shape ∙ append_assoc frame rest tail in
    let sizes = length-append frame (rest ++ tail) in
    let round = next_frame-frame m frame previous (rest ++ tail) wf e ordered in
    rw whole (
      decode_frames-next fuel previous entries (frame ++ (rest ++ tail))
        (omega (arith, sizes, length-frame m made)) round
      ∙ rw (drop-length-append frame (rest ++ tail)) (
          decode_frames-log ms (some (mutation_sequence m)) (entries ++ m ∷ []) rest tail r fuel
            later (omega (arith, enough, ap length whole, sizes, length-frame m made))
            (λ fuel' h. rw (append_assoc entries (m ∷ []) ms) (final fuel' h))))
