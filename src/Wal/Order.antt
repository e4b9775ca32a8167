-- ===== src/Wal/Order.antt =====
-- What any replay that succeeds has read, whatever the bytes are.
use ketebe_oss.Base.{
  ℕ, zero, suc, ◌+◌, ◌*◌, ◌<◌, ◌≤◌, ◌≡◌, refl, ap, ◌∙◌, Bool-cases, inl, inr, Option, none, some,
  List, [], ◌∷◌, ◌++◌, append-nil, append_assoc, length, take, drop, length-drop, arith, ltb,
  ltb_false→le, ◌==◌,
}
use ketebe_oss.Base.Result.{Result, ok, err, >>=-eq-ok, Result-cases, map_err}
use ketebe_oss.Core.Values.{Bytes, CollectionId, RecordId, new_collection_id}
use ketebe_oss.Codec.Words.{checked_add}
use ketebe_oss.Codec.Crc.{crc32}
use ketebe_oss.Codec.Cursor.{Cursor, new_cursor, bind-eq-ok, lift}
use ketebe_oss.Codec.Read.{read_string, read_record_id, read_vector, read_metadata}
use ketebe_oss.Wal.Frame.{WalError, domain, wal_errors, WalMutation, mutation_sequence, header_len}
use ketebe_oss.Wal.Payload.{decode_operation, decode_mutation, finish, decode_payload}
use ketebe_oss.Wal.Log.{
  torn, next, check_order, next_frame, whole_frame, validate_header, frame_length, ReplayResult,
  decode_frames, decode_log, byte_at, word_at,
}
use ketebe_oss.Wal.Replay.{InOrder}

decode_operation-sequence :
    (op s : ℕ) (name : CollectionId) (id : RecordId) (c : Cursor) {m : WalMutation} {d : Cursor}
    → decode_operation op s name id c ≡ ok (m, d)
    → mutation_sequence m ≡ s
unfolding decode_operation
decode_operation-sequence op s name id c {m} h = elim (Bool-cases (op == 1)) [
  | inl up ↦
      let (v, c1, e1, h1) =
        bind-eq-ok (read_vector wal_errors) _ c (rw (up, decode_operation) at h) in
      let (md, c2, e2, h2) = bind-eq-ok (read_metadata wal_errors) _ c1 h1 in ground arith
  | inr other ↦ ground arith
]

decode_mutation-sequence :
    (op s : ℕ) (c : Cursor) {m : WalMutation} {d : Cursor}
    → decode_mutation op s c ≡ ok (m, d)
    → mutation_sequence m ≡ s
unfolding decode_mutation
decode_mutation-sequence op s c h =
    let (name, c1, e1, h1) = bind-eq-ok (read_string wal_errors) _ c h in
    let (cid, c2, e2, h2) = bind-eq-ok (lift (map_err domain (new_collection_id name))) _ c1 h1 in
    let (id, c3, e3, h3) = bind-eq-ok (read_record_id wal_errors) _ c2 h2 in
    decode_operation-sequence op s cid id c3 h3

finish-eq-ok :
    (r : Result WalError (WalMutation × Cursor)) {m : WalMutation}
    → finish r ≡ ok m
    → (d : Cursor) × (r ≡ ok (m, d))
unfolding finish
finish-eq-ok (ok (m, d)) h = (d, ground arith)
finish-eq-ok (err e) h = cc

decode_payload-sequence :
    (op s : ℕ) (payload : Bytes) {m : WalMutation}
    → decode_payload op s payload ≡ ok m
    → mutation_sequence m ≡ s
unfolding decode_payload
decode_payload-sequence op s payload h =
    let (d, e) = finish-eq-ok (decode_mutation op s (new_cursor payload)) h in
    decode_mutation-sequence op s (new_cursor payload) e

whole_frame-next :
    (previous : Option ℕ) (rest : Bytes) (frame_len : ℕ) {m : WalMutation} {s n : ℕ}
    → whole_frame previous rest frame_len ≡ ok (next m s n)
    → InOrder previous m × (s ≡ mutation_sequence m) × (n ≡ frame_len)
unfolding whole_frame
whole_frame-next previous rest frame_len {m} h =
    let header = take header_len rest in
    let payload = drop header_len (take frame_len rest) in
    let (u, ordered, h1) = >>=-eq-ok (check_order previous (word_at 8 12 header)) _ h in
    elim (Bool-cases (crc32 payload == word_at 4 20 header)) [
      | inl intact ↦
          let (m', decoded, h2) =
            >>=-eq-ok (decode_payload (byte_at 5 header) (word_at 8 12 header) payload) _
              (rw intact at h1) in
          let same =
            decode_payload-sequence (byte_at 5 header) (word_at 8 12 header) payload decoded in
          ground arith
      | inr damaged ↦ absurd (ground arith)
    ]

frame_length-eq-ok : (a b : ℕ) {n : ℕ} → frame_length (checked_add a b) ≡ ok n → n ≡ a + b
unfolding frame_length checked_add
frame_length-eq-ok a b h = ground arith

next_frame-next :
    (previous : Option ℕ) (rest : Bytes) {m : WalMutation} {s n : ℕ}
    → next_frame previous rest ≡ ok (next m s n)
    → InOrder previous m × (s ≡ mutation_sequence m) × (header_len ≤ n) × (n ≤ length rest)
unfolding next_frame
next_frame-next previous rest {m} {s} {n} h = elim (Bool-cases (ltb (length rest) header_len)) [
  | inl short ↦ let e : ok torn ≡ ok (next m s n) = rw (short, next_frame) at h in cc
  | inr long ↦
      let len : ℕ = word_at 4 8 (take header_len rest) in
      let (u, valid, h1) =
        >>=-eq-ok (validate_header (take header_len rest)) _ (rw (long, next_frame) at h) in
      let (frame_len, sized, h2) = >>=-eq-ok (frame_length (checked_add header_len len)) _ h1 in
      let total = frame_length-eq-ok header_len len sized in
      elim (Bool-cases (ltb (length rest) frame_len)) [
        | inl cut ↦ let e : ok torn ≡ ok (next m s n) = rw cut at h2 in cc
        | inr there ↦
            let (ordered, same, size) = whole_frame-next previous rest frame_len (rw there at h2) in
            (
              ordered,
              same,
              omega (arith, size, total),
              omega (arith, size, ltb_false→le (length rest) frame_len there),
            )
      ]
]

-- A number above the one before it, where there is one.
abbrev pub IsAbove : Option ℕ → ℕ → Type 0
IsAbove none n = Unit {0}
IsAbove (some p) n = p < n

-- Each sequence number is above the one before it.
abbrev pub Rising : Option ℕ → List WalMutation → Type 0
Rising previous [] = Unit {0}
Rising previous (m ∷ ms) =
    IsAbove previous (mutation_sequence m) × Rising (some (mutation_sequence m)) ms

check_order-IsAbove :
    (previous : Option ℕ) (n : ℕ) → check_order previous n ≡ ok tt → IsAbove previous n
unfolding check_order
check_order-IsAbove none n h = tt
check_order-IsAbove (some p) n h = ground (arith, h)

-- The entries that the loop adds to those it has.
abbrev Adds : Option ℕ → List WalMutation → Bytes → ReplayResult → Type 0
Adds previous entries bytes r =
    (ms : List WalMutation) × (r.entries ≡ entries ++ ms)
    × Rising previous ms
    × (24 * length ms + r.ignored_tail_bytes ≤ length bytes)

decode_frames-Adds :
    (fuel : ℕ) (previous : Option ℕ) (entries : List WalMutation) (bytes : Bytes) {r : ReplayResult}
    → decode_frames fuel previous entries bytes ≡ ok r
    → Adds previous entries bytes r
unfolding decode_frames
decode_frames-Adds zero previous entries bytes h =
    ([], rw (append-nil entries) (ground arith), tt, ground arith)
decode_frames-Adds (suc fuel) previous entries [] h =
    ([], rw (append-nil entries) (ground arith), tt, ground arith)
decode_frames-Adds (suc fuel) previous entries (b ∷ bs) {r} h =
    elim (Result-cases (next_frame previous (b ∷ bs))) [
      | inr (e, failed) ↦ let x : err e ≡ ok r = rw (failed, decode_frames) at h in cc
      | inl (torn, found) ↦
          let x : ok (record { entries = entries; ignored_tail_bytes = length (b ∷ bs) }) ≡ ok r =
            rw (found, decode_frames) at h in
          ([], rw (append-nil entries) (ground arith), tt, ground arith)
      | inl (next m s n, found) ↦
          let (ordered, same, low, high) = next_frame-next previous (b ∷ bs) found in
          let (ms, grown, rising, size) =
            decode_frames-Adds fuel (some s) (entries ++ m ∷ []) (drop n (b ∷ bs))
              (rw (found, decode_frames) at h) in
          (
            m ∷ ms,
            grown ∙ append_assoc entries (m ∷ []) ms,
            (check_order-IsAbove previous (mutation_sequence m) ordered, rw (← same) rising),
            omega (arith, size, low, high, length-drop n (b ∷ bs)),
          )
    ]

-- Whatever the bytes are, a replay that succeeds returns entries whose sequence numbers rise
-- strictly, and each entry and each ignored byte stands for bytes of the file: 24 at least for an
-- entry.
pub decode_log-Rising :
    (bytes : Bytes) (r : ReplayResult)
    → decode_log bytes ≡ ok r
    → Rising none r.entries × (24 * length r.entries + r.ignored_tail_bytes ≤ length bytes)
unfolding decode_log
decode_log-Rising bytes r h =
    let (ms, same, rising, size) = decode_frames-Adds (length bytes) none [] bytes h in
    (rw same rising, omega (arith, size, ap length same))

decode_frames-Same :
    (f g : ℕ) (previous : Option ℕ) (entries : List WalMutation) (bytes : Bytes)
    → length bytes ≤ f
    → length bytes ≤ g
    → decode_frames f previous entries bytes ≡ decode_frames g previous entries bytes
unfolding decode_frames
decode_frames-Same zero zero previous entries bytes hf hg = refl
decode_frames-Same zero (suc g) previous entries [] hf hg = refl
decode_frames-Same (suc f) zero previous entries [] hf hg = refl
decode_frames-Same (suc f) (suc g) previous entries [] hf hg = refl
decode_frames-Same zero (suc g) previous entries (b ∷ bs) hf hg = absurd (omega arith)
decode_frames-Same (suc f) zero previous entries (b ∷ bs) hf hg = absurd (omega arith)
decode_frames-Same (suc f) (suc g) previous entries (b ∷ bs) hf hg =
    elim (Result-cases (next_frame previous (b ∷ bs))) [
      | inr (e, failed) ↦ rw (failed, decode_frames)
      | inl (torn, found) ↦ rw (found, decode_frames)
      | inl (next m s n, found) ↦
          let (ordered, same, low, high) = next_frame-next previous (b ∷ bs) found in
          rw (found, decode_frames)
            (decode_frames-Same f g (some s) (entries ++ m ∷ []) (drop n (b ∷ bs))
              (omega (arith, low, length-drop n (b ∷ bs), hf))
              (omega (arith, low, length-drop n (b ∷ bs), hg)))
    ]

-- The fuel of the loop is enough: any that covers the length of the file gives the same result.
pub decode_log-fuel :
    (bytes : Bytes) (fuel : ℕ)
    → length bytes ≤ fuel
    → decode_frames fuel none [] bytes ≡ decode_log bytes
unfolding decode_log
decode_log-fuel bytes fuel h = decode_frames-Same fuel (length bytes) none [] bytes h (omega arith)
