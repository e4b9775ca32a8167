-- ===== src/Store/Retained.antt =====
-- What a garbage collection leaves.
use ketebe_oss.Base.{ℕ, ◌≡◌, refl, ap, ◌∙◌, true, false, Bool-cases, List, [], ◌∷◌, inl, inr, arith}
use ketebe_oss.Base.Result.{Result-cases}
use ketebe_oss.Base.Order.{number_ord}
use ketebe_oss.Base.Map.{get, is_eq, get-remove_ne}
use ketebe_oss.Store.Directory.{
  Directory, Check, told, check_fails, exists_file, Fault, no_fault, early_fails, open_fails,
  write_fails, rename_fails, sync_fails, delete_file,
}
use ketebe_oss.Store.Segments.{delete_segment}
use ketebe_oss.Store.Collect.{list_segment_ids, contains, collect, collect_listed, garbage_collect}

-- The deletion of one segment leaves the file of another.
delete_file-other :
    (check : Check) (fault : Fault) (d : Directory) (id j : ℕ)
    → is_eq (number_ord.cmp j id) ≡ false
    → get j (delete_file check fault d id).1.segments ≡ get j d.segments
unfolding delete_file exists_file
delete_file-other told no_fault d id j other = ground (arith, get-remove_ne id j d.segments other)
delete_file-other told early_fails d id j other = ground arith
delete_file-other told open_fails d id j other = ground arith
delete_file-other told rename_fails d id j other = ground arith
delete_file-other told sync_fails d id j other = ground (arith, get-remove_ne id j d.segments other)
delete_file-other told (write_fails k) d id j other = ground arith
delete_file-other check_fails fault d id j other = refl

pub delete_segment-other :
    (check : Check) (fault : Fault) (d : Directory) (id j : ℕ)
    → is_eq (number_ord.cmp j id) ≡ false
    → get j (delete_segment check fault d id).1.segments ≡ get j d.segments
unfolding delete_segment
delete_segment-other check fault d id j other = delete_file-other check fault d id j other

pub contains-differ :
    (j id : ℕ) (retained : List ℕ)
    → contains j retained ≡ true
    → contains id retained ≡ false
    → is_eq (number_ord.cmp j id) ≡ false
contains-differ j id retained kept other = elim (Bool-cases (is_eq (number_ord.cmp j id))) [
  | inr differ ↦ differ
  | inl same ↦
      let key : j ≡ id = ground (arith, same) in let both = ap (λ i. contains i retained) key in cc
]

collect-retained :
    (retained : List ℕ) (checks : ℕ → Check) (faults : ℕ → Fault) (d : Directory) (ids : List ℕ)
    (j : ℕ)
    → contains j retained ≡ true
    → get j (collect retained checks faults d ids).1.segments ≡ get j d.segments
unfolding collect
collect-retained retained checks faults d [] j kept = refl
collect-retained retained checks faults d (id ∷ ids) j kept =
    elim (Bool-cases (contains id retained)) [
      | inl stays ↦ rw (stays) (collect-retained retained checks faults d ids j kept)
      | inr goes ↦
          let after = (delete_segment (checks id) (faults id) d id).1 in
          let same =
            delete_segment-other (checks id) (faults id) d id j
              (contains-differ j id retained kept goes) in
          elim (Result-cases (delete_segment (checks id) (faults id) d id).0) [
            | inl (b, done) ↦
                rw (goes, done) (collect-retained retained checks faults after ids j kept ∙ same)
            | inr (e, failed) ↦ rw (goes, failed) same
          ]
    ]

-- Whatever call of the file system fails, existence checks included, a garbage collection leaves the file of every segment
-- that is retained as it was.
pub garbage_collect-retained :
    (retained : List ℕ) (list_fault : Fault) (checks : ℕ → Check) (faults : ℕ → Fault)
    (d : Directory) (j : ℕ)
    → contains j retained ≡ true
    → get j (garbage_collect retained list_fault checks faults d).1.segments ≡ get j d.segments
unfolding garbage_collect collect_listed
garbage_collect-retained retained list_fault checks faults d j kept =
    elim (Result-cases (list_segment_ids list_fault d)) [
      | inl (ids, listed) ↦ rw (listed) (collect-retained retained checks faults d ids j kept)
      | inr (e, failed) ↦ rw (failed) refl
    ]
