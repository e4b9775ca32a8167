-- ===== src/Compaction/Visible.antt =====
-- Searching the segment of a compaction and searching the segments that it replaces.
use ketebe_oss.Base.{
  ℕ, ◌≡◌, refl, sym, ap, ◌∙◌, subst, Option, none, some, List, [], ◌∷◌, All, leb, map, true,
  Bool-cases, inl, inr, arith,
}
use ketebe_oss.Base.Result.{Result, ok, err, >>=-eq-ok, map_err}
use ketebe_oss.Base.Map.{get, Map-ext, get-nil}
use ketebe_oss.Core.Values.{CollectionId, RecordId, SequenceNumber}
use ketebe_oss.Core.RecordOrder.{record_id_ord, same_collection}
use ketebe_oss.Base.Order.{compare_bytes-IsLawful}
use ketebe_oss.Wal.Frame.{WalMutation, mutation_sequence}
use ketebe_oss.Segment.Build.{
  SegmentError, Segment, Building, nothing_built, build, segment_of, from_mutations,
  mutation_collection,
}
use ketebe_oss.Segment.LastWins.{
  IsBuilding, nothing_built-IsBuilding, build-IsBuilding, build-records, build-tombstones, last_of,
  record_after, tombstone_after,
}
use ketebe_oss.Compaction.Merge.{
  insert_by_sequence, Latest, LatestValue, LatestKind, record_kind, tombstone_kind, gather_segments,
  mutations_of, mutation_for, sort_by_sequence, compact_segments, segment,
}
use ketebe_oss.Compaction.Sorting.{
  mutation_at, last_of-sort_by_sequence, last_of-mutations_of, mutations_of-Distinct,
}
use ketebe_oss.Compaction.Gathered.{
  IsLatest, record_in, version_at, versions_of, get-versions_of, gather_segments-versions,
}
use ketebe_oss.Visibility.Fold.{
  Versions, fold_records, fold_segment, fold_segments, visible_records, fold_visible_records,
}
use ketebe_oss.Visibility.Lookup.{
  record_at, visible_records-Sorted, get-visible_records, fold_segments-Sorted,
}
use ketebe_oss.Visibility.Stored.{
  with_record, with_tombstone, record_of, get-fold_records, get-fold_tombstones,
}

kept :
    (c : CollectionId) (j : RecordId) (n : SequenceNumber) (kind : LatestKind)
    → record_at (
        with_tombstone
          (with_record none (record_after none (some (mutation_for c j n kind))))
          (tombstone_after none (some (mutation_for c j n kind))))
      ≡ record_in kind
unfolding mutation_for
kept c j n (record_kind r) = refl
kept c j n tombstone_kind = refl

-- What the segment keeps of a value, read back.
read_back :
    (c : CollectionId) (j : RecordId) (v : Option LatestValue)
    → record_at (
        with_tombstone
          (with_record none (record_after none (mutation_at c j v)))
          (tombstone_after none (mutation_at c j v)))
      ≡ record_at (version_at v)
read_back c j none = refl
read_back c j (some v) = kept c j v.sequence v.kind

abbrev AllIn : CollectionId → List WalMutation → Type 0
AllIn c = All (λ m. mutation_collection m ≡ c)

mutation_for-collection :
    (c : CollectionId) (k : RecordId) (n : SequenceNumber) (kind : LatestKind)
    → mutation_collection (mutation_for c k n kind) ≡ c
unfolding mutation_for mutation_collection
mutation_for-collection c k n (record_kind r) = refl
mutation_for-collection c k n tombstone_kind = refl

mutations_of-AllIn : (c : CollectionId) (l : Latest) → AllIn c (mutations_of c l)
unfolding mutations_of
mutations_of-AllIn c [] = tt
mutations_of-AllIn c ((k, v) ∷ l) =
    (mutation_for-collection c k v.sequence v.kind, mutations_of-AllIn c l)

insert_by_sequence-AllIn :
    (c : CollectionId) (m : WalMutation) (ms : List WalMutation)
    → mutation_collection m ≡ c
    → AllIn c ms
    → AllIn c (insert_by_sequence m ms)
unfolding insert_by_sequence
insert_by_sequence-AllIn c m [] h hs = (h, tt)
insert_by_sequence-AllIn c m (x ∷ xs) h hs =
    elim (Bool-cases (leb (mutation_sequence m) (mutation_sequence x))) [
      | inl before ↦ rw (before, insert_by_sequence) (h, hs)
      | inr after ↦ rw (after, insert_by_sequence) (hs.0, insert_by_sequence-AllIn c m xs h hs.1)
    ]

sort_by_sequence-AllIn :
    (c : CollectionId) (ms : List WalMutation) → AllIn c ms → AllIn c (sort_by_sequence ms)
unfolding sort_by_sequence
sort_by_sequence-AllIn c [] h = tt
sort_by_sequence-AllIn c (m ∷ ms) h =
    insert_by_sequence-AllIn c m (sort_by_sequence ms) h.0 (sort_by_sequence-AllIn c ms h.1)

-- The shape of a segment that was built.
from_mutations-eq-ok :
    (id : ℕ) (c : CollectionId) (ms : List WalMutation) {s : Segment}
    → AllIn c ms
    → from_mutations id ms ≡ ok s
    → (b : Building) × (build c nothing_built ms ≡ ok b) × (s ≡ segment_of id c b)
unfolding from_mutations
from_mutations-eq-ok id c [] a h = cc
from_mutations-eq-ok id c (m ∷ ms) {s} a h =
    let own : CollectionId = mutation_collection m in
    let (b, built, rest) = >>=-eq-ok (build own nothing_built (m ∷ ms)) _ h in
    let shape : s ≡ segment_of id own b = cc in
    (
      b,
      subst (λ x. build x nothing_built (m ∷ ms) ≡ ok b) a.0 built,
      subst (λ x. s ≡ segment_of id x b) a.0 shape,
    )

map_err-eq-ok :
    (r : Result SegmentError Segment) {s : Segment} → map_err segment r ≡ ok s → r ≡ ok s
map_err-eq-ok (ok x) h = cc
map_err-eq-ok (err e) h = cc

get-fold_segment :
    (j : RecordId) (id : ℕ) (c : CollectionId) (b : Building)
    → IsBuilding b
    → get j (fold_segment [] (segment_of id c b))
      ≡ with_tombstone (with_record none (get j b.records)) (get j b.tombstones)
unfolding fold_segment segment_of
get-fold_segment j id c b h =
    get-fold_tombstones j b.tombstones (fold_records [] (map record_of b.records))
      h.tombstones_sorted
    ∙ ap (λ x. with_tombstone x (get j b.tombstones))
        (get-fold_records j b.records [] h.records_sorted h.keyed
          ∙ ap (λ x. with_record x (get j b.records)) (get-nil j))

one_segment :
    (c : CollectionId) (m : Segment)
    → m.collection_id ≡ c
    → fold_segments c [] (m ∷ []) ≡ fold_segment [] m
unfolding fold_segments
one_segment c m h =
    let mine : same_collection m.collection_id c ≡ true =
      rw h (ground (arith, compare_bytes-IsLawful.cmp_refl c)) in
    rw mine

-- What a search reads of the segment that stands for a merged map.
get-merged :
    (j : RecordId) (id : ℕ) (c : CollectionId) (l : Latest) (b : Building)
    → IsLatest l
    → build c nothing_built (sort_by_sequence (mutations_of c l)) ≡ ok b
    → record_at (get j (fold_segment [] (segment_of id c b))) ≡ record_at (get j (versions_of l))
unfolding get
get-merged j id c l b wf built =
    let ms : List WalMutation = sort_by_sequence (mutations_of c l) in
    let last : last_of j ms ≡ mutation_at c j (get j l) =
      last_of-sort_by_sequence j (mutations_of c l) (mutations_of-Distinct c l wf.sorted wf.keyed)
      ∙ last_of-mutations_of c j l wf.sorted wf.keyed in
    ap record_at (
      get-fold_segment j id c b
        (build-IsBuilding c ms nothing_built b built nothing_built-IsBuilding))
    ∙ (rw
        (
          build-records j c ms nothing_built b built,
          build-tombstones j c ms nothing_built b built,
          last,
          get-nil j,
        )
        (read_back c j (get j l) ∙ ap record_at (sym (get-versions_of j l))))

-- When `compact_segments` succeeds, a search over the new segment sees the records, and only the
-- records, that a search over the segments it replaces sees.
pub compact_segments-visible :
    (id : ℕ) (s : Segment) (ss : List Segment) (merged : Segment)
    → compact_segments id (s ∷ ss) ≡ ok merged
    → fold_visible_records (merged ∷ []) s.collection_id
      ≡ fold_visible_records (s ∷ ss) s.collection_id
unfolding compact_segments fold_visible_records versions_of segment_of
compact_segments-visible id s [] merged h = cc
compact_segments-visible id s (t ∷ ss) merged h =
    let c : CollectionId = s.collection_id in
    let (l, gathered, h1) = >>=-eq-ok (gather_segments c [] (s ∷ t ∷ ss)) _ h in
    let (wf, versions) =
      gather_segments-versions c (s ∷ t ∷ ss) [] gathered (record { sorted = tt; keyed = tt }) in
    let (b, built, shape) =
      from_mutations-eq-ok id c (sort_by_sequence (mutations_of c l))
        (sort_by_sequence-AllIn c (mutations_of c l) (mutations_of-AllIn c l))
        (map_err-eq-ok _ h1) in
    let one : Versions = fold_segments c [] (merged ∷ []) in
    let all : Versions = fold_segments c [] (s ∷ t ∷ ss) in
    let only : one ≡ fold_segment [] (segment_of id c b) =
      one_segment c merged (ap (λ x. x.collection_id) shape) ∙ ap (fold_segment []) shape in
    let one_sorted = fold_segments-Sorted c (merged ∷ []) [] tt in
    let all_sorted = fold_segments-Sorted c (s ∷ t ∷ ss) [] tt in
    Map-ext (visible_records one) (visible_records all) (visible_records-Sorted one one_sorted)
      (visible_records-Sorted all all_sorted)
      (λ j.
        get-visible_records j one one_sorted
        ∙ ap (λ m. record_at (get j m)) only
        ∙ get-merged j id c l b wf built
        ∙ ap (λ m. record_at (get j m)) versions
        ∙ sym (get-visible_records j all all_sorted))
