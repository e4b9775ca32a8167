-- ===== src/Codec/RoundTrip/WellFormed.antt =====
-- The values that the Rust types can hold: texts are valid UTF-8, words are in range, a record id
-- and a vector have passed their constructors, and a map's keys are in ascending order.
use ketebe_oss.Base.{◌^◌, ◌<◌, ◌≡◌, Ordering, true, All}
use ketebe_oss.Base.Order.{compare_bytes}
use ketebe_oss.Base.Result.{ok}
use ketebe_oss.Core.Values.{
  Bytes, RecordId, string, unsigned, string_record_id, Vector, new_vector, CollectionId,
  new_collection_id, Record, MetadataValue, Values, Metadata, null, bool, number, text, array,
  object, nil, cons, empty, entry,
}
use ketebe_oss.Core.Utf8.{is_utf8}
use ketebe_oss.Codec.Words.{u32_limit}

abbrev pub IsText : Bytes → Type 0
IsText s = is_utf8 s ≡ true

abbrev pub IsRecordId : RecordId → Type 0
IsRecordId (string s) = IsText s × (string_record_id s ≡ ok (string s))
IsRecordId (unsigned n) = n < 2 ^ 64

pub record IsVector (v : Vector) : Type 0 where
  pub words : All (λ bits. bits < u32_limit) v
  pub finite : new_vector v ≡ ok v

pub record IsCollectionId (c : CollectionId) : Type 0 where
  pub is_text : IsText c
  pub accepted : new_collection_id c ≡ ok c

-- Every key of the map is above `k`.
abbrev pub KeysAbove : Bytes → Metadata → Type 0
KeysAbove k empty = Unit {0}
KeysAbove k (entry j v m) = (compare_bytes k j ≡ Ordering.lt) × KeysAbove k m

abbrev pub Ascending : Metadata → Type 0
Ascending empty = Unit {0}
Ascending (entry k v m) = KeysAbove k m × Ascending m

abbrev mutual
  pub IsValue : MetadataValue → Type 0
  IsValue null = Unit {0}
  IsValue (bool b) = Unit {0}
  IsValue (number bits) = bits < 2 ^ 64
  IsValue (text s) = IsText s
  IsValue (array vs) = IsValues vs
  IsValue (object m) = Ascending m × IsEntries m

  pub IsValues : Values → Type 0
  IsValues nil = Unit {0}
  IsValues (cons v vs) = IsValue v × IsValues vs

  pub IsEntries : Metadata → Type 0
  IsEntries empty = Unit {0}
  IsEntries (entry k v m) = IsText k × IsValue v × IsEntries m

abbrev pub IsMetadata : Metadata → Type 0
IsMetadata m = Ascending m × IsEntries m

pub record IsRecord (r : Record) : Type 0 where
  pub id : IsRecordId r.id
  pub vector : IsVector r.vector
  pub metadata : IsMetadata r.metadata
  pub sequence_number : r.sequence_number < 2 ^ 64
