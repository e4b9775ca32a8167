-- ===== src/Visibility/Keyed.antt =====
-- The visible records stand under their ids, in the order of these.
use ketebe_oss.Base.{
  ◌≡◌, refl, sym, ◌∙◌, subst, Option, none, some, Option-cases, List, [], ◌∷◌, map, All, leb, false,
  Bool-cases, inl, inr, arith,
}
use ketebe_oss.Base.Map.{Map, get, Sorted, Above, Entries, insert-Entries, get-Above, get-head}
use ketebe_oss.Core.Values.{CollectionId, RecordId, Record, SequenceNumber}
use ketebe_oss.Core.RecordOrder.{record_id_ord, same_id, same_collection}
use ketebe_oss.Segment.LastWins.{same_id-eq}
use ketebe_oss.Segment.Build.{Segment, Tombstone}
use ketebe_oss.Visibility.Fold.{
  Versions, apply_version, fold_records, fold_tombstones, fold_segment, fold_segments,
  visible_records, fold_visible_records,
}
use ketebe_oss.Visibility.Lookup.{fold_segments-Sorted, visible_records-Sorted}

-- A version is of the record that it stands under.
abbrev IsOf : RecordId → Option Record → Type 0
IsOf id none = Unit {0}
IsOf id (some r) = r.id ≡ id

abbrev KeyedVersions : Versions → Type 0
KeyedVersions = Entries (λ id v. IsOf id v.record_version)

abbrev pub KeyedRecords : Map RecordId Record → Type 0
KeyedRecords = Entries (λ id r. r.id ≡ id)

apply_version-Keyed :
    (m : Versions) (id : RecordId) (n : SequenceNumber) (v : Option Record)
    → IsOf id v
    → KeyedVersions m
    → KeyedVersions (apply_version m id n v)
unfolding apply_version
apply_version-Keyed m id n v h k =
    let inserted =
      insert-Entries (λ id v. IsOf id v.record_version) id
        (record { sequence = n; record_version = v }) m h k in
    elim (Option-cases (get id m)) [
      | inl gone ↦ rw (gone, apply_version) inserted
      | inr (w, there) ↦ elim (Bool-cases (leb n w.sequence)) [
        | inl older ↦ rw (there, apply_version, older) k
        | inr newer ↦ rw (there, apply_version, newer) inserted
      ]
    ]

fold_records-Keyed :
    (rs : List Record) (m : Versions) → KeyedVersions m → KeyedVersions (fold_records m rs)
unfolding fold_records
fold_records-Keyed [] m h = h
fold_records-Keyed (r ∷ rs) m h =
    fold_records-Keyed rs _ (apply_version-Keyed m r.id r.sequence_number (some r) refl h)

fold_tombstones-Keyed :
    (ts : List Tombstone) (m : Versions) → KeyedVersions m → KeyedVersions (fold_tombstones m ts)
unfolding fold_tombstones
fold_tombstones-Keyed [] m h = h
fold_tombstones-Keyed (t ∷ ts) m h =
    fold_tombstones-Keyed ts _ (apply_version-Keyed m t.record_id t.sequence_number none tt h)

fold_segments-Keyed :
    (c : CollectionId) (ss : List Segment) (m : Versions)
    → KeyedVersions m
    → KeyedVersions (fold_segments c m ss)
unfolding fold_segments fold_segment
fold_segments-Keyed c [] m h = h
fold_segments-Keyed c (s ∷ ss) m h = elim (Bool-cases (same_collection s.collection_id c)) [
  | inl mine ↦
      rw (mine, fold_segments)
        (fold_segments-Keyed c ss _
          (fold_tombstones-Keyed s.tombstones _ (fold_records-Keyed s.records m h)))
  | inr other ↦ rw (other, fold_segments) (fold_segments-Keyed c ss m h)
]

visible_records-Keyed : (m : Versions) → KeyedVersions m → KeyedRecords (visible_records m)
unfolding visible_records
visible_records-Keyed [] h = tt
visible_records-Keyed ((id, v) ∷ m) h = elim (Option-cases v.record_version) [
  | inl gone ↦ rw (gone, visible_records) (visible_records-Keyed m h.1)
  | inr (r, there) ↦
      rw (there, visible_records) (subst (IsOf id) there h.0, visible_records-Keyed m h.1)
]

pub fold_visible_records-Sorted :
    (ss : List Segment) (c : CollectionId) → Sorted (fold_visible_records ss c)
unfolding fold_visible_records
fold_visible_records-Sorted ss c =
    visible_records-Sorted (fold_segments c [] ss) (fold_segments-Sorted c ss [] tt)

pub fold_visible_records-Keyed :
    (ss : List Segment) (c : CollectionId) → KeyedRecords (fold_visible_records ss c)
unfolding fold_visible_records
fold_visible_records-Keyed ss c =
    visible_records-Keyed (fold_segments c [] ss) (fold_segments-Keyed c ss [] tt)

-- The records of a map that stand under their ids: no two ids are the same, and a lookup finds each.
abbrev pub UniqueRecords : List Record → Type 0
UniqueRecords [] = Unit {0}
UniqueRecords (r ∷ rs) = All (λ s. same_id r.id s.id ≡ false) rs × UniqueRecords rs

Above-unique :
    (id : RecordId) (m : Map RecordId Record)
    → Above id m
    → KeyedRecords m
    → All (λ s. same_id id s.id ≡ false) (map (λ e. e.1) m)
Above-unique id [] h k = tt
Above-unique id ((j, r) ∷ m) h k = ((rw k.0 (ground (arith, h.0))), Above-unique id m h.1 k.1)

pub values-Unique :
    (m : Map RecordId Record) → Sorted m → KeyedRecords m → UniqueRecords (map (λ e. e.1) m)
values-Unique [] h k = tt
values-Unique ((j, r) ∷ m) h k = (
  subst (λ i. All (λ s. same_id i s.id ≡ false) (map (λ e. e.1) m)) (sym k.0)
      (Above-unique j m h.0 k.1),
  values-Unique m h.1 k.1,
)

get-later :
    (i j : RecordId) (v : Record) (m : Map RecordId Record)
    → same_id i j ≡ false
    → get i ((j, v) ∷ m) ≡ get i m
unfolding get
get-later i j v m h = ground (arith, h)

there-differ :
    (i j : RecordId) (r : Record) (m : Map RecordId Record)
    → Above j m
    → get i m ≡ some r
    → same_id i j ≡ false
there-differ i j r m h there = elim (Bool-cases (same_id i j)) [
  | inr differ ↦ differ
  | inl same ↦
      let gone : get i m ≡ none =
        get-Above i m (subst (λ x. Above x m) (sym (same_id-eq i j same)) h) in
      cc
]

values-found :
    (m all : Map RecordId Record)
    → Sorted m
    → KeyedRecords m
    → ((id : RecordId) (r : Record) → get id m ≡ some r → get id all ≡ some r)
    → All (λ r. get r.id all ≡ some r) (map (λ e. e.1) m)
values-found [] all h k up = tt
values-found ((j, r) ∷ m) all h k up = (
  up r.id r (subst (λ i. get i ((j, r) ∷ m) ≡ some r) (sym k.0) (get-head j r m)),
  values-found m all h.1 k.1
      (λ id s there. up id s (get-later id j r m (there-differ id j s m h.0 there) ∙ there)),
)

pub values-get :
    (m : Map RecordId Record)
    → Sorted m
    → KeyedRecords m
    → All (λ r. get r.id m ≡ some r) (map (λ e. e.1) m)
values-get m h k = values-found m m h k (λ id r there. there)
