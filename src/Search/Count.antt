-- ===== src/Search/Count.antt =====
-- `visible_record_count` of crates/ketebe-storage/src/cost_planner.rs.
use ketebe_oss.Base.{ℕ, Bool, true, false, none, some, List, [], ◌∷◌, ltb, suc, if◌then◌else◌}
use ketebe_oss.Base.Map.{Map, get, insert}
use ketebe_oss.Core.Values.{CollectionId, RecordId, Record, SequenceNumber}
use ketebe_oss.Core.RecordOrder.{record_id_ord, same_collection}
use ketebe_oss.Segment.Build.{Segment, Tombstone}

-- The newest sequence number of a record id, and whether it is of a record.
abbrev pub Liveness : Type 0
Liveness = Map RecordId (SequenceNumber × Bool)

unfoldable pub count_version : Liveness → RecordId → SequenceNumber → Bool → Liveness
count_version latest id sequence live =
    let inserted = insert id (sequence, live) latest in
    elim (get id latest) [
      | none ↦ inserted
      | some current ↦ if ltb current.0 sequence then inserted else latest
    ]

unfoldable pub count_records : Liveness → List Record → Liveness
unfolding count_version
count_records latest [] = latest
count_records latest (r ∷ rs) = count_records (count_version latest r.id r.sequence_number true) rs

unfoldable pub count_tombstones : Liveness → List Tombstone → Liveness
unfolding count_version
count_tombstones latest [] = latest
count_tombstones latest (t ∷ ts) =
    count_tombstones (count_version latest t.record_id t.sequence_number false) ts

unfoldable pub count_segments : CollectionId → Liveness → List Segment → Liveness
unfolding count_records count_tombstones
count_segments collection latest [] = latest
count_segments collection latest (s ∷ ss) =
    count_segments collection
      (if same_collection s.collection_id collection
        then count_tombstones (count_records latest s.records) s.tombstones
        else latest)
      ss

unfoldable pub count_live : Liveness → ℕ
count_live [] = 0
count_live ((id, (sequence, live)) ∷ rest) =
    let later = count_live rest in if live then suc later else later

unfoldable pub visible_record_count : List Segment → CollectionId → ℕ
unfolding count_segments count_live
visible_record_count segments collection = count_live (count_segments collection [] segments)
