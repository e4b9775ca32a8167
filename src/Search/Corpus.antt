-- ===== src/Search/Corpus.antt =====
-- The corpus size of the planner, against the records that a search sees.
use ketebe_oss.Base.{
  suc, ◌≡◌, refl, ap, ◌∙◌, Bool, true, false, Bool-cases, inl, inr, Option, none, some,
  Option-cases, List, [], ◌∷◌, map, length, leb, ltb, arith,
}
use ketebe_oss.Base.Map.{get, map_values, get-map_values, insert-map_values}
use ketebe_oss.Core.Values.{CollectionId, RecordId, Record, SequenceNumber}
use ketebe_oss.Core.RecordOrder.{record_id_ord, same_collection}
use ketebe_oss.Segment.Build.{Segment, Tombstone}
use ketebe_oss.Visibility.Fold.{
  VisibleVersion, Versions, apply_version, fold_records, fold_tombstones, fold_segment,
  fold_segments, visible_records, fold_visible_records,
}
use ketebe_oss.Search.Exact.{visible_values}
use ketebe_oss.Search.Plan.{is_some}
use ketebe_oss.Search.Count.{
  count_version, count_records, count_tombstones, count_segments, count_live, visible_record_count,
}

-- What the planner keeps of a version.
abbrev liveness : VisibleVersion → SequenceNumber × Bool
liveness v = (v.sequence, is_some v.record_version)

count_version-liveness :
    (m : Versions) (id : RecordId) (n : SequenceNumber) (v : Option Record)
    → count_version (map_values liveness m) id n (is_some v)
      ≡ map_values liveness (apply_version m id n v)
unfolding count_version apply_version
count_version-liveness m id n v =
    let version : VisibleVersion = record { sequence = n; record_version = v } in
    let inserted = insert-map_values liveness id version m in
    elim (Option-cases (get id m)) [
      | inl gone ↦
          rw (gone, count_version, apply_version, get-map_values liveness id m, gone) inserted
      | inr (w, there) ↦ elim (Bool-cases (leb n w.sequence)) [
        | inl older ↦
            let kept : ltb w.sequence n ≡ false = ground (arith, older) in
            rw (
              there,
              count_version,
              apply_version,
              get-map_values liveness id m,
              there,
              older,
              kept,
            )
        | inr newer ↦
            let replaced : ltb w.sequence n ≡ true = ground (arith, newer) in
            rw
              (
                there,
                count_version,
                apply_version,
                get-map_values liveness id m,
                there,
                newer,
                replaced,
              )
              inserted
      ]
    ]

count_records-liveness :
    (rs : List Record) (m : Versions)
    → count_records (map_values liveness m) rs ≡ map_values liveness (fold_records m rs)
unfolding count_records fold_records
count_records-liveness [] m = refl
count_records-liveness (r ∷ rs) m =
    ap (λ l. count_records l rs) (count_version-liveness m r.id r.sequence_number (some r))
    ∙ count_records-liveness rs _

count_tombstones-liveness :
    (ts : List Tombstone) (m : Versions)
    → count_tombstones (map_values liveness m) ts ≡ map_values liveness (fold_tombstones m ts)
unfolding count_tombstones fold_tombstones
count_tombstones-liveness [] m = refl
count_tombstones-liveness (t ∷ ts) m =
    ap (λ l. count_tombstones l ts) (count_version-liveness m t.record_id t.sequence_number none)
    ∙ count_tombstones-liveness ts _

count_segments-liveness :
    (c : CollectionId) (ss : List Segment) (m : Versions)
    → count_segments c (map_values liveness m) ss ≡ map_values liveness (fold_segments c m ss)
unfolding count_segments fold_segments fold_segment
count_segments-liveness c [] m = refl
count_segments-liveness c (s ∷ ss) m = elim (Bool-cases (same_collection s.collection_id c)) [
  | inl mine ↦ rw (mine) (
      ap (λ l. count_segments c (count_tombstones l s.tombstones) ss)
        (count_records-liveness s.records m)
      ∙ ap (λ l. count_segments c l ss) (count_tombstones-liveness s.tombstones _)
      ∙ count_segments-liveness c ss _)
  | inr other ↦ rw (other) (count_segments-liveness c ss m)
]

count_live-length :
    (m : Versions)
    → count_live (map_values liveness m) ≡ length (map (λ e. e.1) (visible_records m))
unfolding count_live visible_records
count_live-length [] = refl
count_live-length ((id, v) ∷ m) = elim (Option-cases v.record_version) [
  | inl gone ↦ rw (gone) (count_live-length m)
  | inr (r, there) ↦ rw (there) (ap suc (count_live-length m))
]

-- The corpus size that the planner compares with its threshold is the number of records that a
-- search over the same segments sees.
pub visible_record_count-length :
    (segments : List Segment) (collection : CollectionId)
    → visible_record_count segments collection ≡ length (visible_values segments collection)
unfolding visible_record_count visible_values fold_visible_records
visible_record_count-length segments collection =
    ap count_live (count_segments-liveness collection segments [])
    ∙ count_live-length (fold_segments collection [] segments)
