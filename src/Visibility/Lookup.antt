-- ===== src/Visibility/Lookup.antt =====
-- What the folds hold at one record id.
use ketebe_oss.Base.{
  ◌≡◌, refl, sym, ap, ◌∙◌, subst, Option, none, some, Option-cases, List, [], ◌∷◌, leb, false,
  Bool-cases, inl, inr, if◌then◌else◌, arith,
}
use ketebe_oss.Base.Map.{
  get, Sorted, Above, get-insert_self, get-insert_ne, insert-Sorted, get-Above, Ordering-cases,
}
use ketebe_oss.Core.Values.{CollectionId, RecordId, Record, SequenceNumber}
use ketebe_oss.Core.RecordOrder.{compare_record_id, record_id_ord, same_id, same_collection}
use ketebe_oss.Segment.Build.{Segment, Tombstone}
use ketebe_oss.Visibility.Fold.{
  VisibleVersion, Versions, apply_version, fold_records, fold_tombstones, fold_segment,
  fold_segments, visible_records,
}

-- The newer of a version that is there and one that comes in; the first of two with one number.
abbrev pub newer : Option VisibleVersion → VisibleVersion → Option VisibleVersion
newer none v = some v
newer (some old) v = if leb v.sequence old.sequence then some old else some v

pub get-apply_version_self :
    (m : Versions) (id : RecordId) (n : SequenceNumber) (v : Option Record)
    → get id (apply_version m id n v)
      ≡ newer (get id m) (record { sequence = n; record_version = v })
unfolding apply_version
get-apply_version_self m id n v =
    ground (arith, get-insert_self id (record { sequence = n; record_version = v }) m)

pub get-apply_version_ne :
    (m : Versions) (id j : RecordId) (n : SequenceNumber) (v : Option Record)
    → same_id j id ≡ false
    → get j (apply_version m id n v) ≡ get j m
unfolding apply_version
get-apply_version_ne m id j n v h =
    ground (arith, get-insert_ne id j (record { sequence = n; record_version = v }) m h)

pub apply_version-Sorted :
    (m : Versions) (id : RecordId) (n : SequenceNumber) (v : Option Record)
    → Sorted m
    → Sorted (apply_version m id n v)
unfolding apply_version
apply_version-Sorted m id n v h =
    ground (arith, insert-Sorted id (record { sequence = n; record_version = v }) m h)

fold_records-Sorted : (rs : List Record) (m : Versions) → Sorted m → Sorted (fold_records m rs)
unfolding fold_records
fold_records-Sorted [] m h = h
fold_records-Sorted (r ∷ rs) m h = fold_records-Sorted rs _ (apply_version-Sorted m r.id _ _ h)

fold_tombstones-Sorted :
    (ts : List Tombstone) (m : Versions) → Sorted m → Sorted (fold_tombstones m ts)
unfolding fold_tombstones
fold_tombstones-Sorted [] m h = h
fold_tombstones-Sorted (t ∷ ts) m h =
    fold_tombstones-Sorted ts _ (apply_version-Sorted m t.record_id _ _ h)

pub fold_segments-Sorted :
    (c : CollectionId) (ss : List Segment) (m : Versions) → Sorted m → Sorted (fold_segments c m ss)
unfolding fold_segments fold_segment
fold_segments-Sorted c [] m h = h
fold_segments-Sorted c (s ∷ ss) m h = elim (Bool-cases (same_collection s.collection_id c)) [
  | inl mine ↦
      rw (mine, fold_segments)
        (fold_segments-Sorted c ss _
          (fold_tombstones-Sorted s.tombstones _ (fold_records-Sorted s.records m h)))
  | inr other ↦ rw (other, fold_segments) (fold_segments-Sorted c ss m h)
]

-- The record of a version, if it is no tombstone.
abbrev pub record_at : Option VisibleVersion → Option Record
record_at none = none
record_at (some v) = v.record_version

visible_records-Above : (id : RecordId) (m : Versions) → Above id m → Above id (visible_records m)
unfolding visible_records
visible_records-Above id [] h = tt
visible_records-Above id ((j, v) ∷ m) h = ground (arith, visible_records-Above id m h.1)

pub visible_records-Sorted : (m : Versions) → Sorted m → Sorted (visible_records m)
unfolding visible_records
visible_records-Sorted [] h = tt
visible_records-Sorted ((j, v) ∷ m) h =
    ground (arith, visible_records-Sorted m h.1, visible_records-Above j m h.0)

pub get-visible_records :
    (j : RecordId) (m : Versions) → Sorted m → get j (visible_records m) ≡ record_at (get j m)
unfolding visible_records get
get-visible_records j [] h = refl
get-visible_records j ((k, v) ∷ m) h = elim (Option-cases v.record_version) [
  | inl gone ↦ elim (Ordering-cases (compare_record_id j k)) [
    | inl below ↦ rw (gone, visible_records, below, get) (get-visible_records j m h.1)
    | inr (inl same) ↦
        let above : Above j m =
          subst (λ x. Above x m) (sym (record_id_ord.eq_of_cmp j k same)) h.0 in
        rw (gone, visible_records, same, get)
          (get-visible_records j m h.1 ∙ ap record_at (get-Above j m above) ∙ sym gone)
    | inr (inr above) ↦ rw (gone, visible_records, above, get) (get-visible_records j m h.1)
  ]
  | inr (r, there) ↦ elim (Ordering-cases (compare_record_id j k)) [
    | inl below ↦ rw (there, visible_records, below, get) (get-visible_records j m h.1)
    | inr (inl same) ↦ rw (there, visible_records, same, get) (sym there)
    | inr (inr above) ↦ rw (there, visible_records, above, get) (get-visible_records j m h.1)
  ]
]
