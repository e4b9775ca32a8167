-- ===== src/Tests/Samples.antt =====
-- Mutations, segments and a checkpoint to test with.
use ketebe_oss.Base.{ℕ, refl, true, none, [], ◌∷◌, arith}
use ketebe_oss.Base.Order.{compare_bytes}
use ketebe_oss.Core.Utf8.{is_utf8}
use ketebe_oss.Codec.RoundTrip.WellFormed.{IsCollectionId, IsRecord}
use ketebe_oss.Wal.PayloadRoundTrip.{IsMutation}
use ketebe_oss.Core.Values.{
  Bytes, Record, string, unsigned, Metadata, empty, entry, bool, text, object, new_collection_id,
  string_record_id, new_vector,
}
use ketebe_oss.Wal.Frame.{WalMutation, upsert, delete}
use ketebe_oss.Wal.Log.{Wal, durable}
use ketebe_oss.Segment.Build.{Segment}
use ketebe_oss.Checkpoint.File.{Checkpoint}

abbrev pub docs : Bytes
docs = b'd' ∷ b'o' ∷ b'c' ∷ b's' ∷ []

abbrev pub key : Bytes
key = b'k' ∷ []

-- 1.0 as `f32`.
abbrev pub one_bits : ℕ
one_bits = 0x3f800000

abbrev pub nested : Metadata
nested = entry key (bool true) empty

abbrev pub sample_metadata : Metadata
sample_metadata = entry (b'a' ∷ []) (object nested) (entry key (text docs) empty)

abbrev pub sample_record : Record
sample_record = record {
  id = string key;
  vector = one_bits ∷ 0 ∷ [];
  metadata = sample_metadata;
  sequence_number = 1;
}

abbrev pub first_mutation : WalMutation
first_mutation = upsert docs sample_record

abbrev pub second_mutation : WalMutation
second_mutation = delete docs (unsigned 7) 2

abbrev pub empty_wal : Wal
empty_wal = record { file = []; sync_policy = durable; last_sequence = none }

abbrev pub old_segment : Segment
old_segment = record {
  id = 1;
  collection_id = docs;
  min_sequence = 1;
  max_sequence = 1;
  records = sample_record ∷ [];
  tombstones = [];
}

-- It deletes the record of the old segment.
abbrev pub new_segment : Segment
new_segment = record {
  id = 2;
  collection_id = docs;
  min_sequence = 2;
  max_sequence = 3;
  records = record sample_record { id = unsigned 5; sequence_number = 3 } ∷ [];
  tombstones = record { record_id = string key; sequence_number = 2 } ∷ [];
}

abbrev pub merged_segment : Segment
merged_segment = record new_segment { id = 9 }

abbrev pub sample_checkpoint : Checkpoint
sample_checkpoint = record { collection_id = docs; segments = 2 ∷ 9 ∷ []; sequence_number = 3 }

pub docs-IsCollectionId : IsCollectionId docs
unfolding is_utf8 new_collection_id
docs-IsCollectionId = record { is_text = refl; accepted = refl }

pub sample_record-IsRecord : IsRecord sample_record
unfolding is_utf8 string_record_id new_vector compare_bytes
sample_record-IsRecord = record {
  id = (refl, refl);
  vector = record { words = (omega arith, (omega arith, tt)); finite = refl };
  metadata = (((refl, tt), (tt, tt)), (refl, ((tt, tt), (refl, tt, tt)), (refl, refl, tt)));
  sequence_number = omega arith;
}

pub first_mutation-IsMutation : IsMutation first_mutation
first_mutation-IsMutation = (docs-IsCollectionId, sample_record-IsRecord)

pub second_mutation-IsMutation : IsMutation second_mutation
second_mutation-IsMutation = (docs-IsCollectionId, omega arith, omega arith)
