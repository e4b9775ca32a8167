-- ===== src/Tests/Stores.antt =====
-- The store of the segment files.
use ketebe_oss.Base.{◌≡◌, refl, none, if◌then◌else◌, [], ◌∷◌, arith}
use ketebe_oss.Base.Order.{compare_bytes, number_ord}
use ketebe_oss.Base.Result.{ok}
use ketebe_oss.Base.Map.{get, insert, remove}
use ketebe_oss.Core.RecordOrder.{compare_record_id}
use ketebe_oss.Codec.Write.{write_record_id, write_vector, write_metadata}
use ketebe_oss.Segment.Build.{from_mutations}
use ketebe_oss.Segment.Encode.{encode_segment}
use ketebe_oss.Store.Directory.{
  Directory, told, check_fails, no_fault, sync_fails, write_fails, exists_file, publish_atomic,
  delete_file,
}
use ketebe_oss.Store.Segments.{store_encoded, publish, open_segment, delete_segment}
use ketebe_oss.Store.Writing.{Published}
use ketebe_oss.Store.Published.{publish-whole, publish-open}
use ketebe_oss.Store.Collect.{
  list_segments, list_segment_ids, contains, collect, collect_listed, garbage_collect,
}
use ketebe_oss.Store.Retained.{garbage_collect-retained}
use ketebe_oss.Store.Removed.{garbage_collect-leaves}
use ketebe_oss.Tests.Samples.{first_mutation, first_mutation-IsMutation, old_segment, new_segment}
use ketebe_oss.Tests.Files.{segment_file, segment_encoded}

abbrev empty_store : Directory
empty_store = record { segments = []; temporaries = [] }

abbrev one_file : Directory
one_file = record { segments = (1, segment_file) ∷ []; temporaries = [] }

publish-whole_example :
    Published told check_fails new_segment 1
      (get 1 one_file.segments)
      (get 1 (publish told check_fails (write_fails 3) one_file new_segment).1.segments)
publish-whole_example = publish-whole told check_fails (write_fails 3) one_file new_segment 1

old_segment_built : from_mutations 1 (first_mutation ∷ []) ≡ ok old_segment
unfolding from_mutations get insert remove compare_bytes compare_record_id
old_segment_built = refl

old_segment_published : (publish told told no_fault empty_store old_segment).0 ≡ ok 1
unfolding publish exists_file publish_atomic store_encoded get encode_segment write_record_id
    write_vector write_metadata
old_segment_published = refl

publish-open_example :
    open_segment no_fault (publish told told no_fault empty_store old_segment).1 1 ≡ ok old_segment
unfolding encode_segment write_record_id write_vector write_metadata
publish-open_example =
    publish-open told told no_fault empty_store 1 1 (first_mutation ∷ []) old_segment segment_file
      (omega arith) (first_mutation-IsMutation, tt) old_segment_built segment_encoded (omega arith)
      old_segment_published

-- The files are not decoded by a garbage collection.
abbrev two_files : Directory
two_files = record { segments = (1, segment_file) ∷ (2, []) ∷ []; temporaries = [] }

garbage_collect-retained_example :
    get 1 (garbage_collect (1 ∷ []) no_fault (λ id. told) (λ id. sync_fails) two_files).1.segments
    ≡ get 1 two_files.segments
unfolding contains
garbage_collect-retained_example =
    garbage_collect-retained (1 ∷ []) no_fault (λ id. told) (λ id. sync_fails) two_files 1 refl

first_removed :
    (garbage_collect (2 ∷ []) no_fault (λ id. told) (λ id. no_fault) two_files).0 ≡ ok (1 ∷ [])
unfolding garbage_collect collect_listed list_segment_ids list_segments collect contains
    delete_segment delete_file exists_file get
first_removed = refl

garbage_collect-leaves_example :
    get 1 (garbage_collect (2 ∷ []) no_fault (λ id. told) (λ id. no_fault) two_files).1.segments
    ≡ (if contains 1 (2 ∷ []) then get 1 two_files.segments else none)
garbage_collect-leaves_example =
    garbage_collect-leaves (2 ∷ []) (1 ∷ []) no_fault (λ id. told) (λ id. no_fault) two_files 1 refl
      first_removed
