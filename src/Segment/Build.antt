-- ===== src/Segment/Build.antt =====
-- `Segment` and `Segment::from_mutations`.
use ketebe_oss.Base.{ℕ, String, Option, none, some, List, [], ◌∷◌, map, leb, if◌then◌else◌}
use ketebe_oss.Base.Result.{Result, ok, err, ◌>>=◌}
use ketebe_oss.Base.Map.{Map, insert, remove}
use ketebe_oss.Core.Values.{DomainError, CollectionId, RecordId, Record, SequenceNumber}
use ketebe_oss.Core.RecordOrder.{record_id_ord, same_collection}
use ketebe_oss.Wal.Frame.{WalMutation, upsert, delete, mutation_sequence}

pub record Tombstone : Type 0 where
  pub record_id : RecordId
  pub sequence_number : SequenceNumber

pub record Segment : Type 0 where
  pub id : ℕ
  pub collection_id : CollectionId
  pub min_sequence : SequenceNumber
  pub max_sequence : SequenceNumber
  pub records : List Record
  pub tombstones : List Tombstone

-- An error of the storage backend; a location is given by the number of its segment.
pub data StorageBackendError : Type 0 where
  backend_io : StorageBackendError
  invalid_location unsupported_capability : String → StorageBackendError
  location_exists : ℕ → StorageBackendError

-- `io` stands for any `std::io::Error`.
pub data SegmentError : Type 0 where
  io empty_mutation_set collection_mismatch invalid_magic checksum_mismatch already_exists :
      SegmentError
  sequence_regression : ℕ → ℕ → SegmentError
  unsupported_version : ℕ → SegmentError
  corrupt : String → SegmentError
  domain : DomainError → SegmentError
  backend : StorageBackendError → SegmentError

unfoldable pub mutation_collection : WalMutation → CollectionId
mutation_collection (upsert c r) = c
mutation_collection (delete c id n) = c

-- The variables of the loop of `from_mutations`.
pub record Building : Type 0 where
  pub previous : Option ℕ
  pub records : Map RecordId Record
  pub tombstones : Map RecordId SequenceNumber
  pub min_sequence : Option ℕ
  pub max_sequence : Option ℕ

abbrev pub nothing_built : Building
nothing_built = record {
  previous = none;
  records = [];
  tombstones = [];
  min_sequence = none;
  max_sequence = none;
}

unfoldable pub check_rising : Option ℕ → ℕ → Result SegmentError (Unit {0})
check_rising none current = ok tt
check_rising (some previous) current =
    if leb current previous then err (sequence_regression previous current) else ok tt

-- `Option::get_or_insert`.
abbrev pub or_insert : Option ℕ → ℕ → Option ℕ
or_insert none n = some n
or_insert (some m) n = some m

-- The `match` on the mutation, and the assignments before it.
unfoldable pub apply_mutation : Building → WalMutation → Building
apply_mutation b (upsert c r) = record {
  previous = some r.sequence_number;
  records = insert r.id r b.records;
  tombstones = remove r.id b.tombstones;
  min_sequence = or_insert b.min_sequence r.sequence_number;
  max_sequence = some r.sequence_number;
}
apply_mutation b (delete c id n) = record {
  previous = some n;
  records = remove id b.records;
  tombstones = insert id n b.tombstones;
  min_sequence = or_insert b.min_sequence n;
  max_sequence = some n;
}

unfoldable pub build : CollectionId → Building → List WalMutation → Result SegmentError Building
unfolding mutation_collection check_rising apply_mutation
build collection b [] = ok b
build collection b (m ∷ ms) =
    let rest = check_rising b.previous (mutation_sequence m) >>= λ _.
    build collection (apply_mutation b m) ms in
    if same_collection (mutation_collection m) collection then rest else err collection_mismatch

-- `expect` on a value that is there: the loop has run once at least.
abbrev pub expect : Option ℕ → ℕ
expect none = 0
expect (some n) = n

unfoldable pub segment_of : ℕ → CollectionId → Building → Segment
segment_of id collection b = record {
  id = id;
  collection_id = collection;
  min_sequence = expect b.min_sequence;
  max_sequence = expect b.max_sequence;
  records = map (λ p. p.1) b.records;
  tombstones = map (λ p. record { record_id = p.0; sequence_number = p.1 }) b.tombstones;
}

-- `Segment::from_mutations`.
unfoldable pub from_mutations : ℕ → List WalMutation → Result SegmentError Segment
unfolding build segment_of
from_mutations id [] = err empty_mutation_set
from_mutations id (m ∷ ms) =
    let collection = mutation_collection m in
    build collection nothing_built (m ∷ ms) >>= λ b. ok (segment_of id collection b)
