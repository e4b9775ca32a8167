-- ===== src/Compaction/Gathered.antt =====
-- The merged map of `compact_segments`, next to the map of a search.
use ketebe_oss.Base.{
  ◌≡◌, refl, sym, ap, ◌∙◌, Option, none, some, List, [], ◌∷◌, Bool-cases, inl, inr, leb, arith,
  Option-cases, subst,
}
use ketebe_oss.Base.Result.{ok}
use ketebe_oss.Base.Map.{get, insert, Sorted, insert-Sorted, insert-Entries, Ordering-cases}
use ketebe_oss.Core.Values.{CollectionId, RecordId, Record, SequenceNumber}
use ketebe_oss.Core.RecordOrder.{record_id_ord, same_collection, compare_record_id}
use ketebe_oss.Segment.Build.{Segment, Tombstone}
use ketebe_oss.Compaction.Merge.{
  Latest, LatestValue, LatestKind, record_kind, tombstone_kind, apply_latest, gather_records,
  gather_tombstones, gather_segments,
}
use ketebe_oss.Compaction.Sorting.{IsKeyed, Keyed}
use ketebe_oss.Visibility.Fold.{
  VisibleVersion, Versions, apply_version, fold_records, fold_tombstones, fold_segment,
  fold_segments,
}

abbrev pub record_in : LatestKind → Option Record
record_in (record_kind r) = some r
record_in tombstone_kind = none

abbrev pub version_of : LatestValue → VisibleVersion
version_of v = record { sequence = v.sequence; record_version = record_in v.kind }

abbrev pub version_at : Option LatestValue → Option VisibleVersion
version_at none = none
version_at (some v) = some (version_of v)

-- The merged map as the search's map of versions.
unfoldable pub versions_of : Latest → Versions
versions_of [] = []
versions_of ((k, v) ∷ l) = (k, version_of v) ∷ versions_of l

pub get-versions_of : (j : RecordId) (l : Latest) → get j (versions_of l) ≡ version_at (get j l)
unfolding versions_of get
get-versions_of j [] = refl
get-versions_of j ((k, v) ∷ l) = ground (arith, get-versions_of j l)

versions_of-insert :
    (k : RecordId) (v : LatestValue) (l : Latest)
    → versions_of (insert k v l) ≡ insert k (version_of v) (versions_of l)
unfolding versions_of insert
versions_of-insert k v [] = refl
versions_of-insert k v ((j, w) ∷ l) = elim (Ordering-cases (compare_record_id k j)) [
  | inl below ↦ rw (below, insert, versions_of)
  | inr (inl same) ↦ rw (same, insert, versions_of)
  | inr (inr above) ↦
      rw (above, insert, versions_of) (ap (λ m. (j, version_of w) ∷ m) (versions_of-insert k v l))
]

versions_of-apply_latest :
    (l : Latest) (id : RecordId) (n : SequenceNumber) (kind : LatestKind)
    → versions_of (apply_latest l id n kind) ≡ apply_version (versions_of l) id n (record_in kind)
unfolding apply_latest apply_version
versions_of-apply_latest l id n kind =
    let inserted = versions_of-insert id (record { sequence = n; kind = kind }) l in
    elim (Option-cases (get id l)) [
      | inl gone ↦ rw (gone, apply_latest, apply_version, get-versions_of id l, gone) inserted
      | inr (v, there) ↦ elim (Bool-cases (leb n v.sequence)) [
        | inl older ↦ rw (there, apply_latest, apply_version, get-versions_of id l, there, older)
        | inr newer ↦
            rw (there, apply_latest, apply_version, get-versions_of id l, there, newer) inserted
      ]
    ]

-- The merged map is in order, and a record stands under its id.
pub record IsLatest (l : Latest) : Type 0 where
  pub sorted : Sorted l
  pub keyed : Keyed l

apply_latest-IsLatest :
    (l : Latest) (id : RecordId) (n : SequenceNumber) (kind : LatestKind)
    → IsKeyed id kind
    → IsLatest l
    → IsLatest (apply_latest l id n kind)
unfolding apply_latest
apply_latest-IsLatest l id n kind k h =
    let v : LatestValue = record { sequence = n; kind = kind } in
    let inserted : IsLatest (insert id v l) = record {
      sorted = insert-Sorted id v l h.sorted;
      keyed = insert-Entries (λ j w. IsKeyed j w.kind) id v l k h.keyed;
    } in
    elim (Option-cases (get id l)) [
      | inl gone ↦ rw (gone, apply_latest) inserted
      | inr (w, there) ↦ elim (Bool-cases (leb n w.sequence)) [
        | inl older ↦ rw (there, apply_latest, older) h
        | inr newer ↦ rw (there, apply_latest, newer) inserted
      ]
    ]

gather_records-versions :
    (rs : List Record) (l : Latest)
    → IsLatest l
    → IsLatest (gather_records l rs)
      × (versions_of (gather_records l rs) ≡ fold_records (versions_of l) rs)
unfolding gather_records fold_records
gather_records-versions [] l h = (h, refl)
gather_records-versions (r ∷ rs) l h =
    let (wf, eq) =
      gather_records-versions rs (apply_latest l r.id r.sequence_number (record_kind r))
        (apply_latest-IsLatest l r.id r.sequence_number (record_kind r) refl h) in
    (wf, eq ∙ ap (λ m. fold_records m rs) (versions_of-apply_latest l r.id _ (record_kind r)))

gather_tombstones-versions :
    (ts : List Tombstone) (l : Latest)
    → IsLatest l
    → IsLatest (gather_tombstones l ts)
      × (versions_of (gather_tombstones l ts) ≡ fold_tombstones (versions_of l) ts)
unfolding gather_tombstones fold_tombstones
gather_tombstones-versions [] l h = (h, refl)
gather_tombstones-versions (t ∷ ts) l h =
    let (wf, eq) =
      gather_tombstones-versions ts (apply_latest l t.record_id t.sequence_number tombstone_kind)
        (apply_latest-IsLatest l t.record_id t.sequence_number tombstone_kind tt h) in
    (
      wf,
      eq ∙ ap (λ m. fold_tombstones m ts) (versions_of-apply_latest l t.record_id _ tombstone_kind),
    )

pub gather_segments-versions :
    (c : CollectionId) (ss : List Segment) (l : Latest) {m : Latest}
    → gather_segments c l ss ≡ ok m
    → IsLatest l
    → IsLatest m × (versions_of m ≡ fold_segments c (versions_of l) ss)
unfolding gather_segments fold_segments fold_segment
gather_segments-versions c [] l {m} h wf =
    let same : l ≡ m = cc in (subst IsLatest same wf, ap versions_of (sym same))
gather_segments-versions c (s ∷ ss) l {m} h wf =
    elim (Bool-cases (same_collection s.collection_id c)) [
      | inl mine ↦
          let (wr, er) = gather_records-versions s.records l wf in
          let (wt, et) = gather_tombstones-versions s.tombstones (gather_records l s.records) wr in
          let (wm, em) =
            gather_segments-versions c ss
              (gather_tombstones (gather_records l s.records) s.tombstones)
              (rw (mine, gather_segments) at h) wt in
          (
            wm,
            em
                ∙ (rw (mine, fold_segments)
                    (ap (λ x. fold_segments c x ss)
                        (et ∙ ap (λ x. fold_tombstones x s.tombstones) er)
                      ∙ refl)),
          )
      | inr other ↦ let bad = rw (other, gather_segments) at h in cc
    ]
