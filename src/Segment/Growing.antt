-- ===== src/Segment/Growing.antt =====
-- The loop of `Segment::from_mutations`, and what its maps hold.
use ketebe_oss.Base.{
  ℕ, ◌^◌, ◌<◌, ◌≤◌, ◌≡◌, refl, ◌∙◌, subst, ◌⊎◌, Option, none, some, List, [], ◌∷◌, All, Bool-cases,
  inl, inr, arith,
}
use ketebe_oss.Base.Result.{ok, >>=-eq-ok, ok_injective}
use ketebe_oss.Base.Map.{
  Map, get, insert, remove, Entries, get-insert_ne, get-remove_self, get-remove_ne, insert-Entries,
  remove-Entries,
}
use ketebe_oss.Core.Values.{CollectionId, RecordId}
use ketebe_oss.Core.RecordOrder.{record_id_ord, same_id, same_collection}
use ketebe_oss.Codec.RoundTrip.WellFormed.{IsRecordId, IsRecord}
use ketebe_oss.Wal.Frame.{WalMutation, upsert, delete, mutation_sequence}
use ketebe_oss.Wal.PayloadRoundTrip.{IsMutation}
use ketebe_oss.Segment.Build.{
  Building, nothing_built, check_rising, apply_mutation, or_insert, expect, mutation_collection,
  build,
}
use ketebe_oss.Segment.LastWins.{
  IsBuilding, nothing_built-IsBuilding, build-step, apply_mutation-IsBuilding, same_id-eq,
}

-- The range so far: its end is the number of the last mutation.
abbrev pub InRange : Option ℕ → Option ℕ → Option ℕ → Type 0
InRange none none none = Unit {0}
InRange (some low) (some high) (some previous) = (low ≤ high) × (high < 2 ^ 64) × (previous ≡ high)
InRange _ _ _ = ⊥

-- The maps of the loop hold what a segment can hold, and no id is in both.
pub record IsGood (b : Building) : Type 0 where
  pub maps : IsBuilding b
  pub good_records : Entries (λ k r. IsRecord r) b.records
  pub good_tombstones : Entries (λ k n. IsRecordId k × (n < 2 ^ 64)) b.tombstones
  pub apart : (j : RecordId) → (get j b.records ≡ none) ⊎ (get j b.tombstones ≡ none)
  pub in_range : InRange b.min_sequence b.max_sequence b.previous

pub nothing_built-IsGood : IsGood nothing_built
unfolding get
nothing_built-IsGood = record {
  maps = nothing_built-IsBuilding;
  good_records = tt;
  good_tombstones = tt;
  apart = λ j. inl refl;
  in_range = tt;
}

InRange-next :
    (low high previous : Option ℕ) (n : ℕ)
    → InRange low high previous
    → check_rising previous n ≡ ok tt
    → n < 2 ^ 64
    → InRange (or_insert low n) (some n) (some n)
unfolding check_rising
InRange-next none none none n h c f = (omega arith, f, refl)
InRange-next (some low) (some high) (some previous) n h c f = (ground (arith, c, h.0, h.2), f, refl)
InRange-next none none (some p) n h c f = absurd h
InRange-next none (some p) q n h c f = absurd h
InRange-next (some low) none q n h c f = absurd h
InRange-next (some low) (some high) none n h c f = absurd h

swap : {A B : Type 0} → A ⊎ B → B ⊎ A
swap (inl a) = inr a
swap (inr b) = inl b

-- An id that is put into one map and taken out of another.
swap_apart :
    {V W : Type 0} (id : RecordId) (v : V) (m : Map RecordId V) (n : Map RecordId W)
    → ((j : RecordId) → (get j m ≡ none) ⊎ (get j n ≡ none))
    → (j : RecordId) → (get j (insert id v m) ≡ none) ⊎ (get j (remove id n) ≡ none)
swap_apart id v m n apart j = elim (Bool-cases (same_id j id)) [
  | inl same ↦ inr (rw (same_id-eq j id same) (get-remove_self id n))
  | inr other ↦ elim (apart j) [
    | inl gone ↦ inl (get-insert_ne id j v m other ∙ gone)
    | inr gone ↦ inr (get-remove_ne id j n other ∙ gone)
  ]
]

apply_mutation-IsGood :
    (b : Building) (m : WalMutation)
    → IsGood b
    → IsMutation m
    → check_rising b.previous (mutation_sequence m) ≡ ok tt
    → IsGood (apply_mutation b m)
unfolding apply_mutation
apply_mutation-IsGood b (upsert c r) h (named, good) rising = record {
  maps = apply_mutation-IsBuilding b (upsert c r) h.maps;
  good_records = insert-Entries (λ k s. IsRecord s) r.id r b.records good h.good_records;
  good_tombstones =
      remove-Entries (λ k n. IsRecordId k × (n < 2 ^ 64)) r.id b.tombstones h.good_tombstones;
  apart = swap_apart r.id r b.records b.tombstones h.apart;
  in_range =
      InRange-next b.min_sequence b.max_sequence b.previous r.sequence_number h.in_range rising
        good.sequence_number;
}
apply_mutation-IsGood b (delete c id n) h (named, good_id, small) rising = record {
  maps = apply_mutation-IsBuilding b (delete c id n) h.maps;
  good_records = remove-Entries (λ k s. IsRecord s) id b.records h.good_records;
  good_tombstones =
      insert-Entries (λ k n. IsRecordId k × (n < 2 ^ 64)) id n b.tombstones (good_id, small)
        h.good_tombstones;
  apart = λ j. swap (swap_apart id n b.tombstones b.records (λ i. swap (h.apart i)) j);
  in_range = InRange-next b.min_sequence b.max_sequence b.previous n h.in_range rising small;
}

build-rising :
    (c : CollectionId) (b d : Building) (m : WalMutation) (ms : List WalMutation)
    → build c b (m ∷ ms) ≡ ok d
    → check_rising b.previous (mutation_sequence m) ≡ ok tt
unfolding build
build-rising c b d m ms h = elim (Bool-cases (same_collection (mutation_collection m) c)) [
  | inl mine ↦
      let (u, checked, rest) =
        >>=-eq-ok (check_rising b.previous (mutation_sequence m)) _ (rw (mine, build) at h) in
      checked
  | inr other ↦ let bad = rw (other, build) at h in cc
]

pub build-IsGood :
    (c : CollectionId) (ms : List WalMutation) (b d : Building)
    → IsGood b
    → All IsMutation ms
    → build c b ms ≡ ok d
    → IsGood d
unfolding build
build-IsGood c [] b d h wf e = subst IsGood (ok_injective e) h
build-IsGood c (m ∷ ms) b d h wf e =
    build-IsGood c ms (apply_mutation b m) d
      (apply_mutation-IsGood b m h wf.0 (build-rising c b d m ms e)) wf.1 (build-step c b m ms e)

pub InRange-expect :
    (low high previous : Option ℕ)
    → InRange low high previous
    → (expect low ≤ expect high) × (expect high < 2 ^ 64)
InRange-expect none none none h = (omega arith, omega arith)
InRange-expect (some low) (some high) (some p) h = (h.0, h.1)
InRange-expect none none (some p) h = absurd h
InRange-expect none (some p) q h = absurd h
InRange-expect (some low) none q h = absurd h
InRange-expect (some low) (some high) none h = absurd h
