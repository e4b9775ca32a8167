-- ===== src/Tests/Segments.antt =====
-- Building, merging and searching segments.
use ketebe_oss.Base.{◌≡◌, refl, some, List, [], ◌∷◌}
use ketebe_oss.Base.Result.{ok}
use ketebe_oss.Base.Map.{get, insert, remove}
use ketebe_oss.Core.Values.{string}
use ketebe_oss.Core.RecordOrder.{record_id_ord, compare_record_id}
use ketebe_oss.Base.Order.{compare_bytes}
use ketebe_oss.Wal.Frame.{WalMutation, delete}
use ketebe_oss.Segment.Build.{Building, nothing_built, build, from_mutations}
use ketebe_oss.Segment.LastWins.{last_of, record_after, build-records}
use ketebe_oss.Compaction.Merge.{compact_segments}
use ketebe_oss.Compaction.Visible.{compact_segments-visible}
use ketebe_oss.Visibility.Fold.{fold_visible_records}
use ketebe_oss.Tests.Samples.{docs, key, first_mutation, old_segment, new_segment, merged_segment}

-- The record of the first mutation, deleted again.
abbrev written_and_deleted : List WalMutation
written_and_deleted = first_mutation ∷ delete docs (string key) 2 ∷ []

abbrev built : Building
built = record {
  previous = some 2;
  records = [];
  tombstones = (string key, 2) ∷ [];
  min_sequence = some 1;
  max_sequence = some 2;
}

built_ok : build docs nothing_built written_and_deleted ≡ ok built
unfolding build insert remove compare_bytes compare_record_id
built_ok = refl

build-records_example :
    get (string key) built.records
    ≡ record_after
        (get (string key) nothing_built.records)
        (last_of (string key) written_and_deleted)
build-records_example =
    build-records (string key) docs written_and_deleted nothing_built built built_ok

merged_ok : compact_segments 9 (old_segment ∷ new_segment ∷ []) ≡ ok merged_segment
unfolding compact_segments from_mutations get insert remove compare_bytes compare_record_id
merged_ok = refl

compact_segments-visible_example :
    fold_visible_records (merged_segment ∷ []) docs
    ≡ fold_visible_records (old_segment ∷ new_segment ∷ []) docs
compact_segments-visible_example =
    compact_segments-visible 9 old_segment (new_segment ∷ []) merged_segment merged_ok
