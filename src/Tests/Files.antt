-- ===== src/Tests/Files.antt =====
-- Segment and checkpoint files.
use ketebe_oss.Base.{ℕ, ◌≡◌, refl, [], ◌∷◌, arith}
use ketebe_oss.Base.Result.{Result, ok, err}
use ketebe_oss.Base.Map.{get}
use ketebe_oss.Core.Values.{Bytes}
use ketebe_oss.Core.RecordOrder.{record_id_ord}
use ketebe_oss.Codec.Write.{write_record_id, write_vector, write_metadata}
use ketebe_oss.Segment.Encode.{encode_segment}
use ketebe_oss.Segment.Format.{decode_segment}
use ketebe_oss.Segment.RoundTrip.{IsSegment, decode_segment-encode_segment}
use ketebe_oss.Checkpoint.File.{decode_checkpoint, new_checkpoint}
use ketebe_oss.Checkpoint.Encode.{encode_checkpoint}
use ketebe_oss.Checkpoint.Normal.{IsRising, contains, new_checkpoint-IsRising}
use ketebe_oss.Checkpoint.RoundTrip.{IsCheckpoint, decode_checkpoint-encode_checkpoint}
use ketebe_oss.Tests.Samples.{
  docs, docs-IsCollectionId, sample_record-IsRecord, old_segment, sample_checkpoint,
}

abbrev pub from_ok : {E : Type 0} → Result E Bytes → Bytes
from_ok (ok bytes) = bytes
from_ok (err e) = []

abbrev pub segment_file : Bytes
segment_file = from_ok (encode_segment old_segment)

pub segment_encoded : encode_segment old_segment ≡ ok segment_file
unfolding encode_segment write_record_id write_vector write_metadata
segment_encoded = refl

old_segment-IsSegment : IsSegment old_segment
unfolding get
old_segment-IsSegment = record {
  collection = docs-IsCollectionId;
  id = omega arith;
  min_sequence = omega arith;
  max_sequence = omega arith;
  range = omega arith;
  records = (sample_record-IsRecord, tt);
  tombstones = tt;
  new = (refl, tt);
  disjoint = tt;
}

decode_segment-encode_segment_example : decode_segment segment_file ≡ ok old_segment
unfolding encode_segment write_record_id write_vector write_metadata
decode_segment-encode_segment_example =
    decode_segment-encode_segment old_segment segment_file old_segment-IsSegment segment_encoded
      (omega arith)

abbrev checkpoint_file : Bytes
checkpoint_file = from_ok (encode_checkpoint sample_checkpoint)

checkpoint_encoded : encode_checkpoint sample_checkpoint ≡ ok checkpoint_file
unfolding encode_checkpoint
checkpoint_encoded = refl

sample_checkpoint-IsCheckpoint : IsCheckpoint sample_checkpoint
sample_checkpoint-IsCheckpoint = record {
  collection = docs-IsCollectionId;
  segments = (omega arith, (omega arith, tt));
  rising = (omega arith, tt);
  sequence_number = omega arith;
}

decode_checkpoint-encode_checkpoint_example :
    decode_checkpoint checkpoint_file ≡ ok sample_checkpoint
unfolding encode_checkpoint
decode_checkpoint-encode_checkpoint_example =
    decode_checkpoint-encode_checkpoint sample_checkpoint checkpoint_file
      sample_checkpoint-IsCheckpoint checkpoint_encoded (omega arith)

new_checkpoint-IsRising_example :
    IsRising (new_checkpoint docs (9 ∷ 2 ∷ 9 ∷ []) 3).segments
    × ((j : ℕ)
        → contains j (new_checkpoint docs (9 ∷ 2 ∷ 9 ∷ []) 3).segments
          ≡ contains j (9 ∷ 2 ∷ 9 ∷ []))
new_checkpoint-IsRising_example = new_checkpoint-IsRising docs (9 ∷ 2 ∷ 9 ∷ []) 3
