-- ===== src/Search/TopK.antt =====
-- The list that a search keeps: each hit is pushed, the list is sorted, and one too many is popped.
use ketebe_oss.Base.{
  ℕ, zero, suc, ◌≤◌, min, ◌≡◌, refl, sym, ap, ◌∙◌, Bool, List, [], ◌∷◌, ◌++◌, length, take, ltb,
  if◌then◌else◌, arith, length-take, length-append, Bool-cases, inl, inr, ltb→lt, ltb_false→le,
}
use ketebe_oss.Search.Sort.{
  IsRanking, insert_by, insert_last, sort_by, sort_by-snoc, sort_by-Ascending, sort_by_id,
  take-Ascending, take-insert_last,
}

-- `Vec::pop`.
unfoldable pub pop {ℓ} : {A : Type ℓ} → List A → List A
pop [] = []
pop (x ∷ []) = []
pop (x ∷ y ∷ l) = x ∷ pop (y ∷ l)

module _ {ℓ} {A : Type ℓ} where
  pop-take : (l : List A) (k : ℕ) → length l ≡ suc k → pop l ≡ take k l
  unfolding pop
  pop-take [] k h = absurd (omega arith)
  pop-take (x ∷ []) k h = ground arith
  pop-take (x ∷ y ∷ l) zero h = absurd (omega arith)
  pop-take (x ∷ y ∷ l) (suc k) h = ap (◌∷◌ x) (pop-take (y ∷ l) k (omega arith))

  pub take_whole : (l : List A) (k : ℕ) → length l ≤ k → take k l ≡ l
  take_whole [] zero h = refl
  take_whole [] (suc k) h = refl
  take_whole (x ∷ l) zero h = absurd (omega arith)
  take_whole (x ∷ l) (suc k) h = ap (◌∷◌ x) (take_whole l k (omega arith))

module _ {ℓ} {A : Type ℓ} (gt : A → A → Bool) where
  unfoldable pub keep_best : ℕ → List A → A → List A
  unfolding sort_by pop
  keep_best top_k hits x =
      let sorted = sort_by gt (hits ++ x ∷ []) in
      if ltb top_k (length sorted) then pop sorted else sorted

  length-insert_by : (x : A) (l : List A) → length (insert_by gt x l) ≡ suc (length l)
  unfolding insert_by
  length-insert_by x [] = refl
  length-insert_by x (y ∷ l) = ground (arith, length-insert_by x l)

  pub length-sort_by : (l : List A) → length (sort_by gt l) ≡ length l
  unfolding sort_by
  length-sort_by [] = refl
  length-sort_by (x ∷ l) = length-insert_by x (sort_by gt l) ∙ ap suc (length-sort_by l)

module _ {ℓ} {A : Type ℓ} (gt : A → A → Bool) (r : IsRanking gt) where
  -- One round of the loop keeps the best of what it has seen.
  pub keep_best-take :
      (k : ℕ) (xs : List A) (x : A)
      → keep_best gt k (take k (sort_by gt xs)) x ≡ take k (sort_by gt (xs ++ x ∷ []))
  unfolding keep_best
  keep_best-take k xs x =
      let best = take k (sort_by gt xs) in
      let sorted = sort_by gt (best ++ x ∷ []) in
      let size : length sorted ≡ suc (min k (length (sort_by gt xs))) =
        length-sort_by gt (best ++ x ∷ [])
        ∙ length-append best (x ∷ [])
        ∙ omega (arith, length-take k (sort_by gt xs)) in
      let cut : keep_best gt k best x ≡ take k sorted = elim (Bool-cases (ltb k (length sorted))) [
        | inl over ↦
            rw (over, keep_best)
              (pop-take sorted k (ground (arith, ltb→lt k (length sorted) over, size)))
        | inr within ↦
            rw (within, keep_best)
              (sym (take_whole sorted k (ltb_false→le k (length sorted) within)))
      ] in
      let same : sorted ≡ insert_last gt x best =
        sort_by-snoc gt r best x
        ∙ ap (insert_last gt x) (
            sort_by_id gt r best
              (take-Ascending gt r k (sort_by gt xs) (sort_by-Ascending gt r xs))) in
      cut
      ∙ ap (take k) same
      ∙ take-insert_last gt r k x (sort_by gt xs)
      ∙ ap (take k) (sym (sort_by-snoc gt r xs x))
