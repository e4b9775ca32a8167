-- ===== src/Store/Published.antt =====
-- What the directory holds after `publish`, and what `open_segment` finds there.
use ketebe_oss.Base.{
  ℕ, ◌^◌, ◌<◌, ◌≡◌, refl, sym, ap, ◌∙◌, subst, inl, inr, Bool-cases, false, some, List, length, All,
}
use ketebe_oss.Base.Result.{Result, ok, err, ◌>>=◌, map_err, Result-cases}
use ketebe_oss.Base.Order.{number_ord}
use ketebe_oss.Base.Map.{get, get-insert_self}
use ketebe_oss.Core.Values.{Bytes}
use ketebe_oss.Codec.Words.{usize_limit}
use ketebe_oss.Wal.Frame.{WalMutation}
use ketebe_oss.Wal.PayloadRoundTrip.{IsMutation}
use ketebe_oss.Segment.Build.{Segment, StorageBackendError, backend, from_mutations}
use ketebe_oss.Segment.Built.{from_mutations-IsSegment}
use ketebe_oss.Segment.Encode.{encode_segment}
use ketebe_oss.Segment.Format.{decode_segment}
use ketebe_oss.Segment.RoundTrip.{decode_segment-encode_segment}
use ketebe_oss.Store.Directory.{
  Directory, Check, Fault, no_fault, early_fails, open_fails, write_fails, rename_fails, sync_fails,
  exists_file, publish_atomic, read_file,
}
use ketebe_oss.Store.Segments.{store_encoded, publish, open_segment}
use ketebe_oss.Store.Writing.{Published, publish_atomic-Published, publish_atomic-seen, publish-new}

-- Whatever call of the file system fails, existence checks included, publish leaves every segment
-- file as it was, but for that of the segment, which it may put there whole: no file is there in
-- part, and none is replaced unless both existence checks of the call fail.
pub publish-whole :
    (first second : Check) (fault : Fault) (d : Directory) (s : Segment) (j : ℕ)
    → Published first second s j
        (get j d.segments)
        (get j (publish first second fault d s).1.segments)
unfolding publish store_encoded
publish-whole first second fault d s j = elim (Bool-cases (exists_file first d s.id)) [
  | inl seen ↦ rw (seen) (inl refl)
  | inr h ↦ elim (Result-cases (encode_segment s)) [
    | inr (e, failed) ↦ rw (h, failed) (inl refl)
    | inl (bytes, made) ↦
        subst (λ r. Published first second s j (get j d.segments) (get j r.1.segments))
          (sym (publish-new first second fault d s bytes made h))
          (elim (Bool-cases (exists_file second d s.id)) [
            | inl seen ↦
                inl (
                  ap (λ r. get j r.1.segments) (publish_atomic-seen second fault d s.id bytes seen))
            | inr k ↦ publish_atomic-Published first second fault d s j bytes made h k
          ])
  ]
]

publish_atomic-ok :
    (second : Check) (fault : Fault) (d : Directory) (id : ℕ) (bytes : Bytes)
    → exists_file second d id ≡ false
    → (publish_atomic second fault d id bytes).0 ≡ ok tt
    → get id (publish_atomic second fault d id bytes).1.segments ≡ some bytes
unfolding publish_atomic
publish_atomic-ok second no_fault d id bytes k h =
    rw (k, publish_atomic) (get-insert_self id bytes d.segments)
publish_atomic-ok second sync_fails d id bytes k h = let bad = rw (k, publish_atomic) at h in cc
publish_atomic-ok second early_fails d id bytes k h = let bad = rw (k, publish_atomic) at h in cc
publish_atomic-ok second open_fails d id bytes k h = let bad = rw (k, publish_atomic) at h in cc
publish_atomic-ok second rename_fails d id bytes k h = let bad = rw (k, publish_atomic) at h in cc
publish_atomic-ok second (write_fails n) d id bytes k h =
    let bad = rw (k, publish_atomic) at h in cc

-- The second check cannot have seen the file of a publication that succeeds.
publish_atomic-unseen :
    (second : Check) (fault : Fault) (d : Directory) (id : ℕ) (bytes : Bytes)
    → (publish_atomic second fault d id bytes).0 ≡ ok tt
    → exists_file second d id ≡ false
publish_atomic-unseen second fault d id bytes h = elim (Bool-cases (exists_file second d id)) [
  | inr k ↦ k
  | inl seen ↦ let bad = rw (publish_atomic-seen second fault d id bytes seen) at h in cc
]

map_err-ok :
    (r : Result StorageBackendError (Unit {0})) (n m : ℕ)
    → (map_err backend r >>= (λ _. ok n)) ≡ ok m
    → r ≡ ok tt
map_err-ok (ok tt) n m h = refl
map_err-ok (err e) n m h = cc

-- A publication that succeeds has put the file of the segment in its place.
publish-file :
    (first second : Check) (fault : Fault) (d : Directory) (s : Segment) (n : ℕ) (bytes : Bytes)
    → encode_segment s ≡ ok bytes
    → (publish first second fault d s).0 ≡ ok n
    → get s.id (publish first second fault d s).1.segments ≡ some bytes
unfolding publish
publish-file first second fault d s n bytes made h = elim (Bool-cases (exists_file first d s.id)) [
  | inl seen ↦ let bad = rw (seen) at h in cc
  | inr unseen ↦
      let new = publish-new first second fault d s bytes made unseen in
      let done =
        map_err-ok (publish_atomic second fault d s.id bytes).0 s.id n
          (sym (ap (λ r. r.0) new) ∙ h) in
      ap (λ r. get s.id r.1.segments) new
      ∙ publish_atomic-ok second fault d s.id bytes
          (publish_atomic-unseen second fault d s.id bytes done) done
]

read_file-there :
    (d : Directory) (id : ℕ) (bytes : Bytes)
    → get id d.segments ≡ some bytes
    → read_file no_fault d id ≡ ok bytes
unfolding read_file
read_file-there d id bytes h = rw (h, read_file) refl

open_segment-there :
    (d : Directory) (id : ℕ) (bytes : Bytes)
    → get id d.segments ≡ some bytes
    → open_segment no_fault d id ≡ decode_segment bytes
unfolding open_segment
open_segment-there d id bytes h = rw (read_file-there d id bytes h) refl

-- A segment that from_mutations builds of mutations that the Rust types can hold, that is
-- published with success and whose file fits the address space is what open_segment then finds
-- under its id, if no call of the file system fails.
pub publish-open :
    (first second : Check) (fault : Fault) (d : Directory) (id n : ℕ) (ms : List WalMutation)
    (s : Segment) (bytes : Bytes)
    → id < 2 ^ 64
    → All IsMutation ms
    → from_mutations id ms ≡ ok s
    → encode_segment s ≡ ok bytes
    → length bytes < usize_limit
    → (publish first second fault d s).0 ≡ ok n
    → open_segment no_fault (publish first second fault d s).1 s.id ≡ ok s
publish-open first second fault d id n ms s bytes small wf built made fits h =
    let there = publish-file first second fault d s n bytes made h in
    open_segment-there (publish first second fault d s).1 s.id bytes there
    ∙ decode_segment-encode_segment s bytes (from_mutations-IsSegment id ms s small wf built) made
        fits
