-- ===== src/Compaction/Sorting.antt =====
-- The sorting of the mutations of `compact_segments`, seen at one record id.
use ketebe_oss.Base.{
  ℕ, ◌≡◌, refl, sym, ◌∙◌, Option, none, some, Option-cases, subst, ap, List, [], ◌∷◌, leb, true,
  false, Bool-cases, inl, inr, arith,
}
use ketebe_oss.Base.Map.{get, Sorted, Above, Entries, get-Above, get-head}
use ketebe_oss.Core.Values.{CollectionId, RecordId}
use ketebe_oss.Core.RecordOrder.{record_id_ord, same_id}
use ketebe_oss.Wal.Frame.{WalMutation, mutation_sequence}
use ketebe_oss.Segment.LastWins.{mutation_id, last_of, same_id-eq}
use ketebe_oss.Compaction.Merge.{
  Latest, LatestValue, LatestKind, record_kind, tombstone_kind, to_mutation, mutation_for,
  mutations_of, insert_by_sequence, sort_by_sequence,
}

-- No two mutations are of one record id.
abbrev pub Distinct : List WalMutation → Type 0
Distinct [] = Unit {0}
Distinct (m ∷ ms) = (last_of (mutation_id m) ms ≡ none) × Distinct ms

last_of-none :
    (j : RecordId) (x : WalMutation) (xs : List WalMutation)
    → last_of j (x ∷ xs) ≡ none
    → (same_id j (mutation_id x) ≡ false) × (last_of j xs ≡ none)
unfolding last_of
last_of-none j x xs h = (ground arith, ground arith)

last_of-swap :
    (j : RecordId) (m x : WalMutation) (xs : List WalMutation)
    → same_id (mutation_id m) (mutation_id x) ≡ false
    → last_of j (x ∷ m ∷ xs) ≡ last_of j (m ∷ x ∷ xs)
unfolding last_of
last_of-swap j m x xs h = elim (Option-cases (last_of j xs)) [
  | inr (y, later) ↦ rw (later, last_of)
  | inl gone ↦ elim (Bool-cases (same_id j (mutation_id m))) [
    | inl mine ↦
        let other : same_id j (mutation_id x) ≡ false = rw (same_id-eq j (mutation_id m) mine) h in
        rw (gone, last_of) (ground (arith, mine, other))
    | inr not_mine ↦ rw (gone, last_of, not_mine) (ground arith)
  ]
]

last_of-under :
    (j : RecordId) (x : WalMutation) (xs ys : List WalMutation)
    → last_of j xs ≡ last_of j ys
    → last_of j (x ∷ xs) ≡ last_of j (x ∷ ys)
unfolding last_of
last_of-under j x xs ys h = rw (h, last_of)

last_of-insert_by_sequence :
    (j : RecordId) (m : WalMutation) (xs : List WalMutation)
    → last_of (mutation_id m) xs ≡ none
    → last_of j (insert_by_sequence m xs) ≡ last_of j (m ∷ xs)
unfolding insert_by_sequence
last_of-insert_by_sequence j m [] h = refl
last_of-insert_by_sequence j m (x ∷ xs) h =
    let (differ, rest) = last_of-none (mutation_id m) x xs h in
    elim (Bool-cases (leb (mutation_sequence m) (mutation_sequence x))) [
      | inl before ↦ rw (before, insert_by_sequence)
      | inr after ↦
          rw (after, insert_by_sequence)
            (last_of-under j x (insert_by_sequence m xs) (m ∷ xs)
                (last_of-insert_by_sequence j m xs rest)
              ∙ last_of-swap j m x xs differ)
    ]

pub last_of-sort_by_sequence :
    (j : RecordId) (ms : List WalMutation)
    → Distinct ms
    → last_of j (sort_by_sequence ms) ≡ last_of j ms
unfolding sort_by_sequence
last_of-sort_by_sequence j [] h = refl
last_of-sort_by_sequence j (m ∷ ms) h =
    last_of-insert_by_sequence j m (sort_by_sequence ms)
      (last_of-sort_by_sequence (mutation_id m) ms h.1 ∙ h.0)
    ∙ last_of-under j m (sort_by_sequence ms) ms (last_of-sort_by_sequence j ms h.1)

-- What a record id has in the merged map, as a mutation.
abbrev pub mutation_at : CollectionId → RecordId → Option LatestValue → Option WalMutation
mutation_at c j none = none
mutation_at c j (some v) = some (to_mutation c j v)

-- A record stands under its id.
abbrev pub IsKeyed : RecordId → LatestKind → Type 0
IsKeyed k (record_kind r) = r.id ≡ k
IsKeyed k tombstone_kind = Unit {0}

abbrev pub Keyed : Latest → Type 0
Keyed = Entries (λ k v. IsKeyed k v.kind)

mutation_for-id :
    (c : CollectionId) (k : RecordId) (n : ℕ) (kind : LatestKind)
    → IsKeyed k kind
    → mutation_id (mutation_for c k n kind) ≡ k
unfolding mutation_for
mutation_for-id c k n (record_kind r) h = h
mutation_for-id c k n tombstone_kind h = refl

last_of-other :
    (j : RecordId) (m : WalMutation) (ms : List WalMutation)
    → same_id j (mutation_id m) ≡ false
    → last_of j (m ∷ ms) ≡ last_of j ms
unfolding last_of
last_of-other j m ms h = ground (arith, h)

last_of-here :
    (j : RecordId) (m : WalMutation) (ms : List WalMutation)
    → same_id j (mutation_id m) ≡ true
    → last_of j ms ≡ none
    → last_of j (m ∷ ms) ≡ some m
unfolding last_of
last_of-here j m ms h gone = rw (gone, last_of, h)

pub last_of-mutations_of :
    (c : CollectionId) (j : RecordId) (l : Latest)
    → Sorted l
    → Keyed l
    → last_of j (mutations_of c l) ≡ mutation_at c j (get j l)
unfolding mutations_of last_of get
last_of-mutations_of c j [] s h = refl
last_of-mutations_of c j ((k, v) ∷ l) s h =
    let named = mutation_for-id c k v.sequence v.kind h.0 in
    elim (Bool-cases (same_id j k)) [
      | inl same ↦
          let key = same_id-eq j k same in
          let gone : last_of j (mutations_of c l) ≡ none =
            last_of-mutations_of c j l s.1 h.1
            ∙ ap (mutation_at c j) (get-Above j l (subst (λ x. Above x l) (sym key) s.0)) in
          last_of-here j (to_mutation c k v) (mutations_of c l) (rw (named, same)) gone
          ∙ (rw key (ground (arith, get-head k v l)))
      | inr other ↦
          last_of-other j (to_mutation c k v) (mutations_of c l) (rw (named, other))
          ∙ last_of-mutations_of c j l s.1 h.1
          ∙ ap (mutation_at c j) (ground arith)
    ]

pub mutations_of-Distinct :
    (c : CollectionId) (l : Latest) → Sorted l → Keyed l → Distinct (mutations_of c l)
unfolding mutations_of
mutations_of-Distinct c [] s h = tt
mutations_of-Distinct c ((k, v) ∷ l) s h = (
  rw (
    mutation_for-id c k v.sequence v.kind h.0,
    last_of-mutations_of c k l s.1 h.1,
    get-Above k l s.0,
  ),
  mutations_of-Distinct c l s.1 h.1,
)
