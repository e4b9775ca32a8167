-- ===== src/Store/Removed.antt =====
-- What a garbage collection that succeeds removes.
use ketebe_oss.Base.{
  ℕ, ◌≡◌, refl, sym, ap, ◌∙◌, subst, ◌⊎◌, inl, inr, Bool, true, false, Bool-cases, none, List, [],
  ◌∷◌, map, if◌then◌else◌, arith,
}
use ketebe_oss.Base.Result.{ok, Result-cases, >>=-eq-ok}
use ketebe_oss.Base.Order.{number_ord}
use ketebe_oss.Base.Map.{Map, get, is_eq, get-remove_self}
use ketebe_oss.Core.Values.{Bytes}
use ketebe_oss.Store.Directory.{
  Directory, Check, told, Fault, no_fault, early_fails, open_fails, write_fails, rename_fails,
  sync_fails, exists_file, delete_file,
}
use ketebe_oss.Store.Segments.{delete_segment}
use ketebe_oss.Store.Collect.{
  list_segments, list_segment_ids, contains, collect, collect_listed, garbage_collect,
}
use ketebe_oss.Store.Retained.{delete_segment-other, contains-differ, garbage_collect-retained}

delete_file-gone :
    (fault : Fault) (d : Directory) (id : ℕ) (b : Bool)
    → (delete_file told fault d id).0 ≡ ok b
    → get id (delete_file told fault d id).1.segments ≡ none
unfolding delete_file exists_file
delete_file-gone no_fault d id b h = ground (arith, h, get-remove_self id d.segments)
delete_file-gone early_fails d id b h = ground (arith, h)
delete_file-gone open_fails d id b h = ground (arith, h)
delete_file-gone rename_fails d id b h = ground (arith, h)
delete_file-gone sync_fails d id b h = ground (arith, h)
delete_file-gone (write_fails k) d id b h = ground (arith, h)

-- A deletion that succeeds leaves no file of the segment.
delete_segment-gone :
    (fault : Fault) (d : Directory) (id : ℕ) (b : Bool)
    → (delete_segment told fault d id).0 ≡ ok b
    → get id (delete_segment told fault d id).1.segments ≡ none
unfolding delete_segment
delete_segment-gone fault d id b h = elim (Result-cases (delete_file told fault d id).0) [
  | inl (c, done) ↦ delete_file-gone fault d id c done
  | inr (e, failed) ↦ let bad = rw (failed) at h in cc
]

-- The file is gone or is still to be reached.
abbrev Reached : ℕ → Directory → List ℕ → Type 0
Reached j d ids = (get j d.segments ≡ none) ⊎ (contains j ids ≡ true)

Reached-rest :
    (j id : ℕ) (d : Directory) (ids : List ℕ)
    → is_eq (number_ord.cmp j id) ≡ false
    → Reached j d (id ∷ ids)
    → Reached j d ids
unfolding contains
Reached-rest j id d ids other (inl gone) = inl gone
Reached-rest j id d ids other (inr there) = inr (ground (arith, other, there))

Reached-deleted :
    (j id : ℕ) (d : Directory) (ids : List ℕ) (checks : ℕ → Check) (fault : Fault) (b : Bool)
    → checks j ≡ told
    → (delete_segment (checks id) fault d id).0 ≡ ok b
    → Reached j d (id ∷ ids)
    → Reached j (delete_segment (checks id) fault d id).1 ids
Reached-deleted j id d ids checks fault b sees done h =
    elim (Bool-cases (is_eq (number_ord.cmp j id))) [
      | inl same ↦
          let key : j ≡ id = ground (arith, same) in inl (deleted key (ap checks (sym key) ∙ sees))
      | inr other ↦ elim (Reached-rest j id d ids other h) [
        | inl gone ↦ inl (delete_segment-other (checks id) fault d id j other ∙ gone)
        | inr there ↦ inr there
      ]
    ]
  where
    deleted :
        j ≡ id → checks id ≡ told → get j (delete_segment (checks id) fault d id).1.segments ≡ none
    deleted key told_id =
        subst (λ c. get j (delete_segment c fault d id).1.segments ≡ none) (sym told_id)
          (ap (λ i. get i (delete_segment told fault d id).1.segments) key
            ∙ delete_segment-gone fault d id b
                (subst (λ c. (delete_segment c fault d id).0 ≡ ok b) told_id done))

differ-swap : (id j : ℕ) → is_eq (number_ord.cmp id j) ≡ false → is_eq (number_ord.cmp j id) ≡ false
differ-swap id j h = ground (arith, h)

collect-gone :
    (retained : List ℕ) (checks : ℕ → Check) (faults : ℕ → Fault) (d : Directory)
    (ids removed : List ℕ) (j : ℕ)
    → checks j ≡ told
    → contains j retained ≡ false
    → Reached j d ids
    → (collect retained checks faults d ids).0 ≡ ok removed
    → get j (collect retained checks faults d ids).1.segments ≡ none
unfolding collect contains
collect-gone retained checks faults d [] removed j sees other (inl gone) h = gone
collect-gone retained checks faults d [] removed j sees other (inr there) h = cc
collect-gone retained checks faults d (id ∷ ids) removed j sees other reached h =
    elim (Bool-cases (contains id retained)) [
      | inl stays ↦
          let differ : is_eq (number_ord.cmp j id) ≡ false =
            differ-swap id j (contains-differ id j retained stays other) in
          rw (stays) (
            collect-gone retained checks faults d ids removed j sees other
              (Reached-rest j id d ids differ reached) (rw (stays) at h))
      | inr goes ↦
          let after = (delete_segment (checks id) (faults id) d id).1 in
          elim (Result-cases (delete_segment (checks id) (faults id) d id).0) [
            | inl (b, done) ↦
                let (rest, ran, made) =
                  >>=-eq-ok (collect retained checks faults after ids).0 _ (rw (goes, done) at h) in
                rw (goes, done)
                  (collect-gone retained checks faults after ids rest j sees other
                    (Reached-deleted j id d ids checks (faults id) b sees done reached) ran)
            | inr (e, failed) ↦ let bad = rw (goes, failed) at h in cc
          ]
    ]

contains-keys :
    (j : ℕ) (m : Map ℕ Bytes) → (get j m ≡ none) ⊎ (contains j (map (λ e. e.0) m) ≡ true)
unfolding get contains
contains-keys j [] = inl refl
contains-keys j ((i, b) ∷ m) = elim (Bool-cases (is_eq (number_ord.cmp j i))) [
  | inl same ↦ inr (ground (arith, same))
  | inr other ↦ elim (contains-keys j m) [
    | inl gone ↦ inl (ground (arith, other, gone))
    | inr there ↦ inr (ground (arith, there))
  ]
]

list_segments-Reached :
    (fault : Fault) (d : Directory) (ids : List ℕ) (j : ℕ)
    → list_segment_ids fault d ≡ ok ids
    → Reached j d ids
unfolding list_segment_ids list_segments contains
list_segments-Reached no_fault d ids j h =
    let same : map (λ e. e.0) d.segments ≡ ids = cc in
    subst (Reached j d) same (contains-keys j d.segments)
list_segments-Reached early_fails d ids j h = cc
list_segments-Reached open_fails d ids j h = cc
list_segments-Reached rename_fails d ids j h = cc
list_segments-Reached sync_fails d ids j h = cc
list_segments-Reached (write_fails k) d ids j h = cc

garbage_collect-gone :
    (retained removed : List ℕ) (list_fault : Fault) (checks : ℕ → Check) (faults : ℕ → Fault)
    (d : Directory) (j : ℕ)
    → checks j ≡ told
    → contains j retained ≡ false
    → (garbage_collect retained list_fault checks faults d).0 ≡ ok removed
    → get j (garbage_collect retained list_fault checks faults d).1.segments ≡ none
unfolding garbage_collect collect_listed
garbage_collect-gone retained removed list_fault checks faults d j sees other h =
    elim (Result-cases (list_segment_ids list_fault d)) [
      | inl (ids, listed) ↦ rw (listed) (
          collect-gone retained checks faults d ids removed j sees other
            (list_segments-Reached list_fault d ids j listed) (rw (listed) at h))
      | inr (e, failed) ↦ let bad = rw (failed) at h in cc
    ]

-- A garbage collection that succeeds leaves the files of the retained segments as they were, and no
-- file of another segment unless the existence check of its deletion fails.
pub garbage_collect-leaves :
    (retained removed : List ℕ) (list_fault : Fault) (checks : ℕ → Check) (faults : ℕ → Fault)
    (d : Directory) (j : ℕ)
    → checks j ≡ told
    → (garbage_collect retained list_fault checks faults d).0 ≡ ok removed
    → get j (garbage_collect retained list_fault checks faults d).1.segments
      ≡ (if contains j retained then get j d.segments else none)
garbage_collect-leaves retained removed list_fault checks faults d j sees h =
    elim (Bool-cases (contains j retained)) [
      | inl kept ↦ rw (kept) (garbage_collect-retained retained list_fault checks faults d j kept)
      | inr other ↦
          rw (other)
            (garbage_collect-gone retained removed list_fault checks faults d j sees other h)
    ]
