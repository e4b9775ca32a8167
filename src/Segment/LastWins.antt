-- ===== src/Segment/LastWins.antt =====
-- The loop of `from_mutations`, seen at one record id.
use ketebe_oss.Base.{
  ◌≡◌, refl, ◌∙◌, Option, none, some, Option-cases, subst, ap, List, [], ◌∷◌, true, Bool-cases, inl,
  inr, if◌then◌else◌, arith,
}
use ketebe_oss.Base.Result.{ok, >>=-eq-ok}
use ketebe_oss.Base.Map.{
  get, Sorted, Entries, get-insert_self, get-insert_ne, get-remove_self, get-remove_ne,
  insert-Sorted, remove-Sorted, insert-Entries, remove-Entries,
}
use ketebe_oss.Core.Values.{CollectionId, RecordId, Record, SequenceNumber}
use ketebe_oss.Core.RecordOrder.{record_id_ord, same_id, same_collection}
use ketebe_oss.Wal.Frame.{WalMutation, upsert, delete, mutation_sequence}
use ketebe_oss.Segment.Build.{
  Building, nothing_built, apply_mutation, build, check_rising, mutation_collection,
}

-- The record id that a mutation is about.
abbrev pub mutation_id : WalMutation → RecordId
mutation_id (upsert c r) = r.id
mutation_id (delete c id n) = id

-- The last mutation of a record id.
unfoldable pub last_of : RecordId → List WalMutation → Option WalMutation
last_of j [] = none
last_of j (m ∷ ms) = elim (last_of j ms) [
  | some later ↦ some later
  | none ↦ if same_id j (mutation_id m) then some m else none
]

-- What a mutation, if there is one, leaves of a record and of a tombstone.
abbrev pub record_after : Option Record → Option WalMutation → Option Record
record_after old none = old
record_after old (some (upsert c r)) = some r
record_after old (some (delete c id n)) = none

abbrev pub tombstone_after : Option SequenceNumber → Option WalMutation → Option SequenceNumber
tombstone_after old none = old
tombstone_after old (some (upsert c r)) = none
tombstone_after old (some (delete c id n)) = some n

-- The maps that the loop fills are in order, and a record stands under its id.
pub record IsBuilding (b : Building) : Type 0 where
  pub records_sorted : Sorted b.records
  pub tombstones_sorted : Sorted b.tombstones
  pub keyed : Entries (λ k r. r.id ≡ k) b.records

pub nothing_built-IsBuilding : IsBuilding nothing_built
nothing_built-IsBuilding = record { records_sorted = tt; tombstones_sorted = tt; keyed = tt }

pub apply_mutation-IsBuilding :
    (b : Building) (m : WalMutation) → IsBuilding b → IsBuilding (apply_mutation b m)
unfolding apply_mutation
apply_mutation-IsBuilding b (upsert c r) h = record {
  records_sorted = insert-Sorted r.id r b.records h.records_sorted;
  tombstones_sorted = remove-Sorted r.id b.tombstones h.tombstones_sorted;
  keyed = insert-Entries (λ k s. s.id ≡ k) r.id r b.records refl h.keyed;
}
apply_mutation-IsBuilding b (delete c id n) h = record {
  records_sorted = remove-Sorted id b.records h.records_sorted;
  tombstones_sorted = insert-Sorted id n b.tombstones h.tombstones_sorted;
  keyed = remove-Entries (λ k s. s.id ≡ k) id b.records h.keyed;
}

-- The mutation, if it is one of `j`.
abbrev about : RecordId → WalMutation → Option WalMutation
about j m = if same_id j (mutation_id m) then some m else none

pub same_id-eq : (j k : RecordId) → same_id j k ≡ true → j ≡ k
same_id-eq j k h = ground (arith, record_id_ord.eq_of_cmp j k)

apply_mutation-records :
    (j : RecordId) (b : Building) (m : WalMutation)
    → get j (apply_mutation b m).records ≡ record_after (get j b.records) (about j m)
unfolding apply_mutation
apply_mutation-records j b (upsert c r) = elim (Bool-cases (same_id j r.id)) [
  | inl same ↦ rw (same, same_id-eq j r.id same) (get-insert_self r.id r b.records)
  | inr other ↦ rw other (get-insert_ne r.id j r b.records other)
]
apply_mutation-records j b (delete c id n) = elim (Bool-cases (same_id j id)) [
  | inl same ↦ rw (same, same_id-eq j id same) (get-remove_self id b.records)
  | inr other ↦ rw other (get-remove_ne id j b.records other)
]

apply_mutation-tombstones :
    (j : RecordId) (b : Building) (m : WalMutation)
    → get j (apply_mutation b m).tombstones ≡ tombstone_after (get j b.tombstones) (about j m)
unfolding apply_mutation
apply_mutation-tombstones j b (upsert c r) = elim (Bool-cases (same_id j r.id)) [
  | inl same ↦ rw (same, same_id-eq j r.id same) (get-remove_self r.id b.tombstones)
  | inr other ↦ rw other (get-remove_ne r.id j b.tombstones other)
]
apply_mutation-tombstones j b (delete c id n) = elim (Bool-cases (same_id j id)) [
  | inl same ↦ rw (same, same_id-eq j id same) (get-insert_self id n b.tombstones)
  | inr other ↦ rw other (get-insert_ne id j n b.tombstones other)
]

record_after-some :
    (a b : Option Record) (m : WalMutation) → record_after a (some m) ≡ record_after b (some m)
record_after-some a b (upsert c r) = refl
record_after-some a b (delete c id n) = refl

tombstone_after-some :
    (a b : Option SequenceNumber) (m : WalMutation)
    → tombstone_after a (some m) ≡ tombstone_after b (some m)
tombstone_after-some a b (upsert c r) = refl
tombstone_after-some a b (delete c id n) = refl

record_after-last_of :
    (j : RecordId) (m : WalMutation) (ms : List WalMutation) (old : Option Record)
    → record_after (record_after old (about j m)) (last_of j ms)
      ≡ record_after old (last_of j (m ∷ ms))
unfolding last_of
record_after-last_of j m ms old = elim (Option-cases (last_of j ms)) [
  | inl gone ↦ rw (gone, last_of)
  | inr (x, later) ↦ rw (later, last_of) (record_after-some (record_after old (about j m)) old x)
]

tombstone_after-last_of :
    (j : RecordId) (m : WalMutation) (ms : List WalMutation) (old : Option SequenceNumber)
    → tombstone_after (tombstone_after old (about j m)) (last_of j ms)
      ≡ tombstone_after old (last_of j (m ∷ ms))
unfolding last_of
tombstone_after-last_of j m ms old = elim (Option-cases (last_of j ms)) [
  | inl gone ↦ rw (gone, last_of)
  | inr (x, later) ↦
      rw (later, last_of) (tombstone_after-some (tombstone_after old (about j m)) old x)
]

-- A step of the loop that succeeds.
pub build-step :
    (c : CollectionId) (b : Building) (m : WalMutation) (ms : List WalMutation) {d : Building}
    → build c b (m ∷ ms) ≡ ok d
    → build c (apply_mutation b m) ms ≡ ok d
unfolding build
build-step c b m ms h = elim (Bool-cases (same_collection (mutation_collection m) c)) [
  | inl mine ↦
      let (u, checked, rest) =
        >>=-eq-ok (check_rising b.previous (mutation_sequence m)) _ (rw (mine, build) at h) in
      rest
  | inr other ↦ let bad = rw (other, build) at h in cc
]

pub build-IsBuilding :
    (c : CollectionId) (ms : List WalMutation) (b d : Building)
    → build c b ms ≡ ok d
    → IsBuilding b
    → IsBuilding d
unfolding build
build-IsBuilding c [] b d h wf = let same : b ≡ d = cc in subst IsBuilding same wf
build-IsBuilding c (m ∷ ms) b d h wf =
    build-IsBuilding c ms (apply_mutation b m) d (build-step c b m ms h)
      (apply_mutation-IsBuilding b m wf)

-- When the loop succeeds, what it leaves of the record of one id is what the last mutation of that id leaves.
pub build-records :
    (j : RecordId) (c : CollectionId) (ms : List WalMutation) (b d : Building)
    → build c b ms ≡ ok d
    → get j d.records ≡ record_after (get j b.records) (last_of j ms)
unfolding build last_of
build-records j c [] b d h = let same : d ≡ b = cc in ap (λ x. get j x.records) same
build-records j c (m ∷ ms) b d h =
    build-records j c ms (apply_mutation b m) d (build-step c b m ms h)
    ∙ ap (λ x. record_after x (last_of j ms)) (apply_mutation-records j b m)
    ∙ record_after-last_of j m ms (get j b.records)

-- When the loop succeeds, what it leaves of the tombstone of one id is what the last mutation of
-- that id leaves.
pub build-tombstones :
    (j : RecordId) (c : CollectionId) (ms : List WalMutation) (b d : Building)
    → build c b ms ≡ ok d
    → get j d.tombstones ≡ tombstone_after (get j b.tombstones) (last_of j ms)
unfolding build last_of
build-tombstones j c [] b d h = let same : d ≡ b = cc in ap (λ x. get j x.tombstones) same
build-tombstones j c (m ∷ ms) b d h =
    build-tombstones j c ms (apply_mutation b m) d (build-step c b m ms h)
    ∙ ap (λ x. tombstone_after x (last_of j ms)) (apply_mutation-tombstones j b m)
    ∙ tombstone_after-last_of j m ms (get j b.tombstones)
