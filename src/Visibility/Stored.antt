-- ===== src/Visibility/Stored.antt =====
-- What a fold holds after the records and the tombstones of a segment that `from_mutations` built.
use ketebe_oss.Base.{
  ◌≡◌, sym, ap, ◌∙◌, subst, ◌⊎◌, Option, none, some, [], ◌∷◌, map, true, false, Bool-cases, inl,
  inr, arith,
}
use ketebe_oss.Base.Map.{Map, get, Sorted, Above, Entries, get-Above, get-head, get-nil}
use ketebe_oss.Core.Values.{RecordId, Record, SequenceNumber}
use ketebe_oss.Core.RecordOrder.{record_id_ord, same_id}
use ketebe_oss.Segment.Build.{Tombstone}
use ketebe_oss.Segment.LastWins.{same_id-eq}
use ketebe_oss.Visibility.Fold.{
  VisibleVersion, Versions, apply_version, fold_records, fold_tombstones,
}
use ketebe_oss.Visibility.Lookup.{newer, get-apply_version_self, get-apply_version_ne}

-- A version, and then a record or a tombstone if there is one.
abbrev pub with_record : Option VisibleVersion → Option Record → Option VisibleVersion
with_record old none = old
with_record old (some r) =
    newer old (record { sequence = r.sequence_number; record_version = some r })

abbrev pub with_tombstone : Option VisibleVersion → Option SequenceNumber → Option VisibleVersion
with_tombstone old none = old
with_tombstone old (some n) = newer old (record { sequence = n; record_version = none })

abbrev pub tombstone_of : RecordId × SequenceNumber → Tombstone
tombstone_of p = record { record_id = p.0; sequence_number = p.1 }

abbrev pub record_of : RecordId × Record → Record
record_of p = p.1

-- A lookup at the first key, and at another one.
lookup-cases :
    {V : Type 0} (j k : RecordId) (v : V) (m : Map RecordId V)
    → Above k m
    → ((same_id j k ≡ true) × (j ≡ k) × (get j ((k, v) ∷ m) ≡ some v) × (get j m ≡ none))
      ⊎ ((same_id j k ≡ false) × (get j ((k, v) ∷ m) ≡ get j m))
unfolding get
lookup-cases j k v m h = elim (Bool-cases (same_id j k)) [
  | inl same ↦
      let key = same_id-eq j k same in
      inl (same, key, (rw key (get-head k v m)), get-Above j m (subst (λ x. Above x m) (sym key) h))
  | inr other ↦ inr (other, ground (arith, other))
]

pub get-fold_records :
    (j : RecordId) (rs : Map RecordId Record) (m : Versions)
    → Sorted rs
    → Entries (λ k r. r.id ≡ k) rs
    → get j (fold_records m (map record_of rs)) ≡ with_record (get j m) (get j rs)
unfolding fold_records
get-fold_records j [] m s h = rw (get-nil j)
get-fold_records j ((k, r) ∷ rs) m s h =
    let next : Versions = apply_version m r.id r.sequence_number (some r) in
    let rest = get-fold_records j rs next s.1 h.1 in
    elim (lookup-cases j k r rs s.0) [
      | inl (same, key, here, gone) ↦
          rest
          ∙ ap (with_record (get j next)) gone
          ∙ (rw (here, key, ← h.0) (get-apply_version_self m r.id r.sequence_number (some r)))
      | inr (other, skip) ↦
          rest
          ∙ (rw skip (
              ap (λ x. with_record x (get j rs))
                (get-apply_version_ne m r.id j r.sequence_number (some r) (rw h.0 other))))
    ]

pub get-fold_tombstones :
    (j : RecordId) (ts : Map RecordId SequenceNumber) (m : Versions)
    → Sorted ts
    → get j (fold_tombstones m (map tombstone_of ts)) ≡ with_tombstone (get j m) (get j ts)
unfolding fold_tombstones
get-fold_tombstones j [] m s = rw (get-nil j)
get-fold_tombstones j ((k, n) ∷ ts) m s =
    let next : Versions = apply_version m k n none in
    let rest = get-fold_tombstones j ts next s.1 in
    elim (lookup-cases j k n ts s.0) [
      | inl (same, key, here, gone) ↦
          rest
          ∙ ap (with_tombstone (get j next)) gone
          ∙ (rw (here, key) (get-apply_version_self m k n none))
      | inr (other, skip) ↦
          rest
          ∙ (rw skip
              (ap (λ x. with_tombstone x (get j ts)) (get-apply_version_ne m k j n none other)))
    ]
