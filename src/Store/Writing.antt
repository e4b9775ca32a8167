-- ===== src/Store/Writing.antt =====
-- What `publish` writes, and where nothing was.
use ketebe_oss.Base.{
  ℕ, ◌≡◌, refl, sym, ap, ◌∙◌, subst, ◌⊎◌, inl, inr, Bool-cases, true, false, Option, none, some,
  Option-cases, arith,
}
use ketebe_oss.Base.Result.{ok, err, ◌>>=◌, map_err}
use ketebe_oss.Base.Order.{number_ord}
use ketebe_oss.Base.Map.{get, insert, is_eq, get-insert_self, get-insert_ne}
use ketebe_oss.Core.Values.{Bytes}
use ketebe_oss.Segment.Build.{Segment, backend, location_exists}
use ketebe_oss.Segment.Encode.{encode_segment}
use ketebe_oss.Store.Directory.{
  Directory, Check, told, check_fails, Fault, no_fault, early_fails, open_fails, write_fails,
  rename_fails, sync_fails, exists_file, publish_atomic,
}
use ketebe_oss.Store.Segments.{store_encoded, publish}

-- Why `publish` may write: the file is not there, or both existence checks fail.
abbrev pub Unseen : Check → Check → Option Bytes → Type 0
Unseen first second before = (before ≡ none) ⊎ ((first ≡ check_fails) × (second ≡ check_fails))

-- What a call of `publish` may have done to the file of the number `j`.
abbrev pub Published : Check → Check → Segment → ℕ → Option Bytes → Option Bytes → Type 0
Published first second s j before after =
    (after ≡ before)
    ⊎ ((j ≡ s.id)
        × Unseen first second before
        × ((bytes : Bytes) × (encode_segment s ≡ ok bytes) × (after ≡ some bytes)))

exists_file-Unseen :
    (first second : Check) (d : Directory) (id : ℕ)
    → exists_file first d id ≡ false
    → exists_file second d id ≡ false
    → Unseen first second (get id d.segments)
unfolding exists_file
exists_file-Unseen told second d id h k = elim (Option-cases (get id d.segments)) [
  | inl absent ↦ inl absent
  | inr (b, there) ↦ absurd (ground (arith, h, there))
]
exists_file-Unseen check_fails told d id h k = elim (Option-cases (get id d.segments)) [
  | inl absent ↦ inl absent
  | inr (b, there) ↦ absurd (ground (arith, k, there))
]
exists_file-Unseen check_fails check_fails d id h k = inr (refl, refl)

insert-Published :
    (first second : Check) (d : Directory) (s : Segment) (j : ℕ) (bytes : Bytes)
    → encode_segment s ≡ ok bytes
    → Unseen first second (get s.id d.segments)
    → Published first second s j (get j d.segments) (get j (insert s.id bytes d.segments))
insert-Published first second d s j bytes e unseen =
    elim (Bool-cases (is_eq (number_ord.cmp j s.id))) [
      | inr other ↦ inl (get-insert_ne s.id j bytes d.segments other)
      | inl same ↦
          let key : j ≡ s.id = ground (arith, same) in
          inr (
            key,
            subst (λ i. Unseen first second (get i d.segments)) (sym key) unseen,
            (
              bytes,
              e,
              ap (λ i. get i (insert s.id bytes d.segments)) key
                  ∙ get-insert_self s.id bytes d.segments,
            ),
          )
    ]

pub publish_atomic-Published :
    (first second : Check) (fault : Fault) (d : Directory) (s : Segment) (j : ℕ) (bytes : Bytes)
    → encode_segment s ≡ ok bytes
    → exists_file first d s.id ≡ false
    → exists_file second d s.id ≡ false
    → Published first second s j
        (get j d.segments)
        (get j (publish_atomic second fault d s.id bytes).1.segments)
unfolding publish_atomic
publish_atomic-Published first second no_fault d s j bytes made h k =
    rw (k, publish_atomic)
      (insert-Published first second d s j bytes made (exists_file-Unseen first second d s.id h k))
publish_atomic-Published first second sync_fails d s j bytes made h k =
    rw (k, publish_atomic)
      (insert-Published first second d s j bytes made (exists_file-Unseen first second d s.id h k))
publish_atomic-Published first second early_fails d s j bytes made h k =
    rw (k, publish_atomic) (inl refl)
publish_atomic-Published first second open_fails d s j bytes made h k =
    rw (k, publish_atomic) (inl refl)
publish_atomic-Published first second rename_fails d s j bytes made h k =
    rw (k, publish_atomic) (inl refl)
publish_atomic-Published first second (write_fails n) d s j bytes made h k =
    rw (k, publish_atomic) (inl refl)

-- What the second check sees is left.
pub publish_atomic-seen :
    (second : Check) (fault : Fault) (d : Directory) (id : ℕ) (bytes : Bytes)
    → exists_file second d id ≡ true
    → publish_atomic second fault d id bytes ≡ (err (location_exists id), d)
unfolding publish_atomic
publish_atomic-seen second fault d id bytes k = rw (k, publish_atomic) refl

store_encoded-ok :
    (second : Check) (fault : Fault) (d : Directory) (id : ℕ) (bytes : Bytes)
    → store_encoded second fault d id (ok bytes) ≡ (
      map_err backend (publish_atomic second fault d id bytes).0 >>= (λ _. ok id),
      (publish_atomic second fault d id bytes).1,
    )
unfolding store_encoded
store_encoded-ok second fault d id bytes = refl

publish-store_encoded :
    (first second : Check) (fault : Fault) (d : Directory) (s : Segment) (bytes : Bytes)
    → encode_segment s ≡ ok bytes
    → exists_file first d s.id ≡ false
    → publish first second fault d s ≡ store_encoded second fault d s.id (ok bytes)
unfolding publish
publish-store_encoded first second fault d s bytes made h = rw (h, made) refl

-- A publication of a file that its first check does not see goes on with what the encoder gave.
pub publish-new :
    (first second : Check) (fault : Fault) (d : Directory) (s : Segment) (bytes : Bytes)
    → encode_segment s ≡ ok bytes
    → exists_file first d s.id ≡ false
    → publish first second fault d s ≡ (
      map_err backend (publish_atomic second fault d s.id bytes).0 >>= (λ _. ok s.id),
      (publish_atomic second fault d s.id bytes).1,
    )
publish-new first second fault d s bytes made h =
    publish-store_encoded first second fault d s bytes made h
    ∙ store_encoded-ok second fault d s.id bytes
