-- ===== src/Segment/Built.antt =====
-- What `Segment::from_mutations` builds is a segment that its file can hold.
use ketebe_oss.Base.{
  ℕ, ◌^◌, ◌<◌, ◌≡◌, refl, sym, ap, ◌∙◌, subst, none, some, List, [], ◌∷◌, map, All, false,
  Bool-cases, inl, inr, arith,
}
use ketebe_oss.Base.Result.{ok, >>=-eq-ok, ok_injective}
use ketebe_oss.Base.Map.{
  Map, get, insert, Sorted, Above, Entries, is_eq, get-insert_ne, get_other, get-Entries,
}
use ketebe_oss.Core.Values.{CollectionId, RecordId, Record, SequenceNumber}
use ketebe_oss.Core.RecordOrder.{record_id_ord, same_id}
use ketebe_oss.Codec.RoundTrip.WellFormed.{IsRecordId, IsCollectionId, IsRecord}
use ketebe_oss.Wal.Frame.{WalMutation, upsert, delete}
use ketebe_oss.Wal.PayloadRoundTrip.{IsMutation}
use ketebe_oss.Segment.Build.{
  Segment, Tombstone, Building, nothing_built, mutation_collection, build, segment_of,
  from_mutations,
}
use ketebe_oss.Segment.Format.{Seen}
use ketebe_oss.Segment.RoundTrip.{IsSegment, seen_after, AllNew}
use ketebe_oss.Segment.Growing.{IsGood, InRange-expect, build-IsGood, nothing_built-IsGood}

Entries-records :
    (m : Map RecordId Record) → Entries (λ k r. IsRecord r) m → All IsRecord (map (λ p. p.1) m)
Entries-records [] h = tt
Entries-records ((k, r) ∷ m) h = (h.0, Entries-records m h.1)

abbrev tombstone_at : RecordId × SequenceNumber → Tombstone
tombstone_at p = record { record_id = p.0; sequence_number = p.1 }

Entries-tombstones :
    (P : RecordId → SequenceNumber → Type 0) (m : Map RecordId SequenceNumber)
    → Entries P m
    → All (λ t. P t.record_id t.sequence_number) (map tombstone_at m)
Entries-tombstones P [] h = tt
Entries-tombstones P ((k, n) ∷ m) h = (h.0, Entries-tombstones P m h.1)

-- The ids of a map of records are new in turn.
unseen_insert :
    (k : RecordId) (seen : Seen) (m : Map RecordId Record)
    → Above k m
    → Entries (λ j r. get j seen ≡ none) m
    → Entries (λ j r. get j (insert k tt seen) ≡ none) m
unseen_insert k seen [] a h = tt
unseen_insert k seen ((j, r) ∷ m) a h = (
  get-insert_ne k j tt seen (ap is_eq (record_id_ord.gt_of_lt k j a.0)) ∙ h.0,
  unseen_insert k seen m a.1 h.1,
)

values-AllNew :
    (m : Map RecordId Record) (seen : Seen)
    → Sorted m
    → Entries (λ k r. r.id ≡ k) m
    → Entries (λ k r. get k seen ≡ none) m
    → AllNew seen (map (λ p. p.1) m)
values-AllNew [] seen s k h = tt
values-AllNew ((j, r) ∷ m) seen s k h = (
  subst (λ i. get i seen ≡ none) (sym k.0) h.0,
  values-AllNew m (insert r.id tt seen) s.1 k.1 (
      subst (λ i. Entries (λ x r. get x (insert i tt seen) ≡ none) m) (sym k.0)
        (unseen_insert j seen m s.0 h.1)),
)

get-seen_after :
    (j : RecordId) (m : Map RecordId Record) (seen : Seen)
    → Entries (λ k r. r.id ≡ k) m
    → get j m ≡ none
    → get j (seen_after seen (map (λ p. p.1) m)) ≡ get j seen
unfolding get
get-seen_after j [] seen k h = refl
get-seen_after j ((i, r) ∷ m) seen k h = elim (Bool-cases (same_id j i)) [
  | inl same ↦ absurd (ground (arith, h, same))
  | inr other ↦
      get-seen_after j m (insert r.id tt seen) k.1 (sym (get_other j i r m other) ∙ h)
      ∙ get-insert_ne r.id j tt seen (subst (λ x. same_id j x ≡ false) (sym k.0) other)
]

mutation_collection-IsCollectionId :
    (m : WalMutation) → IsMutation m → IsCollectionId (mutation_collection m)
unfolding mutation_collection
mutation_collection-IsCollectionId (upsert c r) h = h.0
mutation_collection-IsCollectionId (delete c id n) h = h.0

segment_of-IsSegment :
    (id : ℕ) (c : CollectionId) (b : Building)
    → id < 2 ^ 64
    → IsCollectionId c
    → IsGood b
    → IsSegment (segment_of id c b)
unfolding segment_of get
segment_of-IsSegment id c b small named h =
    let (range, high) = InRange-expect b.min_sequence b.max_sequence b.previous h.in_range in
    let no_record : (k : RecordId) (n : ℕ) → get k b.tombstones ≡ some n → get k b.records ≡ none =
      λ k n there. elim (h.apart k) [ inl gone ↦ gone | inr gone ↦ (cc (gone, there)) ] in
    record {
      collection = named;
      id = small;
      min_sequence = omega (arith, range, high);
      max_sequence = high;
      range = range;
      records = Entries-records b.records h.good_records;
      tombstones =
          Entries-tombstones (λ k n. IsRecordId k × (n < 2 ^ 64)) b.tombstones h.good_tombstones;
      new = values-AllNew b.records [] h.maps.records_sorted h.maps.keyed (
          get-Entries (λ k r. get k [] ≡ none) b.records h.maps.records_sorted (λ k r there. refl));
      disjoint =
          Entries-tombstones (λ k n. get k (seen_after [] (map (λ p. p.1) b.records)) ≡ none)
            b.tombstones
            (get-Entries _ b.tombstones h.maps.tombstones_sorted
              (λ k n there. get-seen_after k b.records [] h.maps.keyed (no_record k n there)));
    }

-- What `from_mutations` builds of mutations that the Rust types can hold is a segment that they can
-- hold, in which no record id stands twice and whose range is one: what the file of a segment keeps.
pub from_mutations-IsSegment :
    (id : ℕ) (ms : List WalMutation) (segment : Segment)
    → id < 2 ^ 64
    → All IsMutation ms
    → from_mutations id ms ≡ ok segment
    → IsSegment segment
unfolding from_mutations segment_of
from_mutations-IsSegment id [] segment small wf h = absurd (ground (arith, h))
from_mutations-IsSegment id (m ∷ ms) segment small wf h =
    let collection = mutation_collection m in
    let (b, built, done) = >>=-eq-ok (build collection nothing_built (m ∷ ms)) _ h in
    let good = build-IsGood collection (m ∷ ms) nothing_built b nothing_built-IsGood wf built in
    subst IsSegment (ok_injective done)
      (segment_of-IsSegment id collection b small (mutation_collection-IsCollectionId m wf.0) good)
