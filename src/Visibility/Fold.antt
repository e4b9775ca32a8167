-- ===== src/Visibility/Fold.antt =====
-- The folds over segments, records and tombstones.
use ketebe_oss.Base.{Option, none, some, List, [], ◌∷◌, leb, if◌then◌else◌}
use ketebe_oss.Base.Map.{Map, get, insert}
use ketebe_oss.Core.Values.{CollectionId, RecordId, Record, SequenceNumber}
use ketebe_oss.Core.RecordOrder.{record_id_ord, same_collection}
use ketebe_oss.Segment.Build.{Segment, Tombstone}

pub record VisibleVersion : Type 0 where
  pub sequence : SequenceNumber
  pub record_version : Option Record

abbrev pub Versions : Type 0
Versions = Map RecordId VisibleVersion

unfoldable pub apply_version : Versions → RecordId → SequenceNumber → Option Record → Versions
apply_version latest id sequence version =
    let inserted = insert id (record { sequence = sequence; record_version = version }) latest in
    elim (get id latest) [
      | some existing ↦ if leb sequence existing.sequence then latest else inserted
      | none ↦ inserted
    ]

unfoldable pub fold_records : Versions → List Record → Versions
unfolding apply_version
fold_records latest [] = latest
fold_records latest (r ∷ rs) =
    fold_records (apply_version latest r.id r.sequence_number (some r)) rs

unfoldable pub fold_tombstones : Versions → List Tombstone → Versions
unfolding apply_version
fold_tombstones latest [] = latest
fold_tombstones latest (t ∷ ts) =
    fold_tombstones (apply_version latest t.record_id t.sequence_number none) ts

unfoldable pub fold_segment : Versions → Segment → Versions
unfolding fold_records fold_tombstones
fold_segment latest s = fold_tombstones (fold_records latest s.records) s.tombstones

unfoldable pub fold_segments : CollectionId → Versions → List Segment → Versions
unfolding fold_segment
fold_segments collection latest [] = latest
fold_segments collection latest (s ∷ ss) =
    fold_segments collection
      (if same_collection s.collection_id collection then fold_segment latest s else latest) ss

-- The `filter_map` at the end.
unfoldable pub visible_records : Versions → Map RecordId Record
visible_records [] = []
visible_records ((id, version) ∷ rest) =
    let later = visible_records rest in
    elim version.record_version [ none ↦ later | some r ↦ (id, r) ∷ later ]

unfoldable pub fold_visible_records : List Segment → CollectionId → Map RecordId Record
unfolding fold_segments visible_records
fold_visible_records segments collection = visible_records (fold_segments collection [] segments)
