-- ===== src/Checkpoint/Normal.antt =====
-- The segment ids that `Checkpoint::new` stores.
use ketebe_oss.Base.{
  ℕ, ◌<◌, ◌≤◌, ◌≡◌, refl, ap, ◌∙◌, inl, inr, Bool, true, false, Bool-cases, List, [], ◌∷◌, leb,
  ◌==◌, arith, if◌then◌else◌,
}
use ketebe_oss.Core.Values.{CollectionId, SequenceNumber}
use ketebe_oss.Checkpoint.File.{insert_id, sort_ids, dedup_after, dedup, new_checkpoint}

-- The number is one of the list, as a test.
abbrev pub contains : ℕ → List ℕ → Bool
contains n [] = false
contains n (x ∷ xs) = if n == x then true else contains n xs

-- Every number is above, or not below, the one before it.
abbrev pub RisingFrom : ℕ → List ℕ → Type 0
RisingFrom n [] = Unit {0}
RisingFrom n (x ∷ xs) = (n < x) × RisingFrom x xs

abbrev pub IsRising : List ℕ → Type 0
IsRising [] = Unit {0}
IsRising (x ∷ xs) = RisingFrom x xs

abbrev SortedFrom : ℕ → List ℕ → Type 0
SortedFrom n [] = Unit {0}
SortedFrom n (x ∷ xs) = (n ≤ x) × SortedFrom x xs

abbrev IsSorted : List ℕ → Type 0
IsSorted [] = Unit {0}
IsSorted (x ∷ xs) = SortedFrom x xs

insert_id-SortedFrom :
    (k n : ℕ) (xs : List ℕ) → k ≤ n → SortedFrom k xs → SortedFrom k (insert_id n xs)
unfolding insert_id
insert_id-SortedFrom k n [] h s = (h, tt)
insert_id-SortedFrom k n (x ∷ xs) h s = elim (Bool-cases (leb n x)) [
  | inl before ↦ rw (before, insert_id) (h, (ground arith, s.1))
  | inr after ↦ rw (after, insert_id) (s.0, insert_id-SortedFrom x n xs (ground arith) s.1)
]

insert_id-IsSorted : (n : ℕ) (xs : List ℕ) → IsSorted xs → IsSorted (insert_id n xs)
unfolding insert_id
insert_id-IsSorted n [] s = tt
insert_id-IsSorted n (x ∷ xs) s = elim (Bool-cases (leb n x)) [
  | inl before ↦ rw (before, insert_id) (ground arith, s)
  | inr after ↦ rw (after, insert_id) (insert_id-SortedFrom x n xs (ground arith) s)
]

sort_ids-IsSorted : (ns : List ℕ) → IsSorted (sort_ids ns)
unfolding sort_ids
sort_ids-IsSorted [] = tt
sort_ids-IsSorted (n ∷ ns) = insert_id-IsSorted n (sort_ids ns) (sort_ids-IsSorted ns)

dedup_after-RisingFrom : (n : ℕ) (xs : List ℕ) → SortedFrom n xs → RisingFrom n (dedup_after n xs)
unfolding dedup_after
dedup_after-RisingFrom n [] s = tt
dedup_after-RisingFrom n (x ∷ xs) s = elim (Bool-cases (n == x)) [
  | inl same ↦
      let key : n ≡ x = ground arith in
      rw (same, dedup_after) (dedup_after-RisingFrom n xs (rw key s.1))
  | inr other ↦ rw (other, dedup_after) (ground (arith, s.0), dedup_after-RisingFrom x xs s.1)
]

dedup-IsRising : (xs : List ℕ) → IsSorted xs → IsRising (dedup xs)
unfolding dedup
dedup-IsRising [] s = tt
dedup-IsRising (x ∷ xs) s = dedup_after-RisingFrom x xs s

insert_id-contains : (j n : ℕ) (xs : List ℕ) → contains j (insert_id n xs) ≡ contains j (n ∷ xs)
unfolding insert_id
insert_id-contains j n [] = refl
insert_id-contains j n (x ∷ xs) = ground (arith, insert_id-contains j n xs)

sort_ids-contains : (j : ℕ) (ns : List ℕ) → contains j (sort_ids ns) ≡ contains j ns
unfolding sort_ids
sort_ids-contains j [] = refl
sort_ids-contains j (n ∷ ns) =
    ground (arith, insert_id-contains j n (sort_ids ns), sort_ids-contains j ns)

dedup_after-contains :
    (j n : ℕ) (xs : List ℕ) → contains j (n ∷ dedup_after n xs) ≡ contains j (n ∷ xs)
unfolding dedup_after
dedup_after-contains j n [] = refl
dedup_after-contains j n (x ∷ xs) =
    ground (arith, dedup_after-contains j n xs, dedup_after-contains j x xs)

dedup-contains : (j : ℕ) (xs : List ℕ) → contains j (dedup xs) ≡ contains j xs
unfolding dedup
dedup-contains j [] = refl
dedup-contains j (x ∷ xs) = dedup_after-contains j x xs

-- `Checkpoint::new` keeps the segment ids it is given, and stores them without repetition in
-- strictly ascending order.
pub new_checkpoint-IsRising :
    (c : CollectionId) (ns : List ℕ) (sequence : SequenceNumber)
    → IsRising (new_checkpoint c ns sequence).segments
      × ((j : ℕ) → contains j (new_checkpoint c ns sequence).segments ≡ contains j ns)
unfolding new_checkpoint
new_checkpoint-IsRising c ns sequence = (
  dedup-IsRising (sort_ids ns) (sort_ids-IsSorted ns),
  λ j. dedup-contains j (sort_ids ns) ∙ sort_ids-contains j ns,
)

insert_id-rising : (n : ℕ) (xs : List ℕ) → RisingFrom n xs → insert_id n xs ≡ n ∷ xs
unfolding insert_id
insert_id-rising n [] h = refl
insert_id-rising n (x ∷ xs) h = ground (arith, h.0)

RisingFrom-tail : (n : ℕ) (xs : List ℕ) → RisingFrom n xs → IsRising xs
RisingFrom-tail n [] h = tt
RisingFrom-tail n (x ∷ xs) h = h.1

sort_ids-rising : (ns : List ℕ) → IsRising ns → sort_ids ns ≡ ns
unfolding sort_ids
sort_ids-rising [] h = refl
sort_ids-rising (n ∷ ns) h =
    rw (sort_ids-rising ns (RisingFrom-tail n ns h)) (insert_id-rising n ns h)

dedup_after-rising : (n : ℕ) (xs : List ℕ) → RisingFrom n xs → dedup_after n xs ≡ xs
unfolding dedup_after
dedup_after-rising n [] h = refl
dedup_after-rising n (x ∷ xs) h = ground (arith, h.0, dedup_after-rising x xs h.1)

-- Ids in strictly ascending order stay as they are.
pub normal-rising : (ns : List ℕ) → IsRising ns → dedup (sort_ids ns) ≡ ns
unfolding dedup
normal-rising [] h = rw (sort_ids-rising [] h)
normal-rising (n ∷ ns) h = rw (sort_ids-rising (n ∷ ns) h) (ap (◌∷◌ n) (dedup_after-rising n ns h))
