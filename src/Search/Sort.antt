-- ===== src/Search/Sort.antt =====
-- `slice::sort_by`: the stable sort by a comparison, and what it does to a prefix and a filter.
use ketebe_oss.Base.{
  ◌≡◌, refl, ap, ◌∙◌, Bool, true, false, Bool-cases, inl, inr, List, [], ◌∷◌, ◌++◌, take, zero, suc,
  ℕ, if◌then◌else◌, arith,
}

-- What a comparison is asked for, read through its test of "greater": "not greater" is total
-- and transitive.
pub record IsRanking {ℓ} {A : Type ℓ} (gt : A → A → Bool) : Type ℓ where
  pub total : (x y : A) → gt x y ≡ true → gt y x ≡ false
  pub trans : (x y z : A) → gt x y ≡ false → gt y z ≡ false → gt x z ≡ false

module _ {ℓ} {A : Type ℓ} (gt : A → A → Bool) where
  -- Before the first element that is not below `x`.
  unfoldable pub insert_by : A → List A → List A
  insert_by x [] = x ∷ []
  insert_by x (y ∷ ys) = let rest = insert_by x ys in if gt x y then y ∷ rest else x ∷ y ∷ ys

  unfoldable pub sort_by : List A → List A
  unfolding insert_by
  sort_by [] = []
  sort_by (x ∷ xs) = insert_by x (sort_by xs)

  -- Before the first element that is above `x`.
  unfoldable pub insert_last : A → List A → List A
  insert_last x [] = x ∷ []
  insert_last x (y ∷ ys) = let rest = insert_last x ys in if gt y x then x ∷ y ∷ ys else y ∷ rest

  abbrev pub Leads : A → List A → Type 0
  Leads x [] = Unit {0}
  Leads x (y ∷ ys) = gt x y ≡ false

  abbrev pub Ascending : List A → Type 0
  Ascending [] = Unit {0}
  Ascending (x ∷ xs) = Leads x xs × Ascending xs

module _ {ℓ} {A : Type ℓ} (gt : A → A → Bool) (r : IsRanking gt) where
  insert_by-insert_last :
      (x y : A) (l : List A)
      → insert_by gt y (insert_last gt x l) ≡ insert_last gt x (insert_by gt y l)
  unfolding insert_by insert_last
  insert_by-insert_last x y [] = ground (arith, r.total x y, r.total y x)
  insert_by-insert_last x y (z ∷ l) = ground (
    arith,
    r.total y x,
    r.total x z,
    r.total z x,
    r.total y z,
    r.total z y,
    r.trans y x z,
    r.trans x y z,
    r.trans x z y,
    r.trans y z x,
    r.trans z x y,
    r.trans z y x,
    insert_by-insert_last x y l,
  )

  pub sort_by-snoc :
      (xs : List A) (x : A) → sort_by gt (xs ++ x ∷ []) ≡ insert_last gt x (sort_by gt xs)
  unfolding sort_by insert_by insert_last
  sort_by-snoc [] x = refl
  sort_by-snoc (y ∷ xs) x =
      ap (insert_by gt y) (sort_by-snoc xs x) ∙ insert_by-insert_last x y (sort_by gt xs)

  insert_by-Leads :
      (x y : A) (l : List A) → gt y x ≡ false → Leads gt y l → Leads gt y (insert_by gt x l)
  unfolding insert_by
  insert_by-Leads x y [] h k = h
  insert_by-Leads x y (z ∷ l) h k = ground (arith)

  insert_by-Ascending : (x : A) (l : List A) → Ascending gt l → Ascending gt (insert_by gt x l)
  unfolding insert_by
  insert_by-Ascending x [] h = (tt, tt)
  insert_by-Ascending x (y ∷ l) h = elim (Bool-cases (gt x y)) [
    | inl above ↦
        rw (above, insert_by)
          (insert_by-Leads x y l (r.total x y above) h.0, insert_by-Ascending x l h.1)
    | inr below ↦ rw (below, insert_by) (below, h)
  ]

  pub sort_by-Ascending : (xs : List A) → Ascending gt (sort_by gt xs)
  unfolding sort_by
  sort_by-Ascending [] = tt
  sort_by-Ascending (x ∷ xs) = insert_by-Ascending x (sort_by gt xs) (sort_by-Ascending xs)

  pub insert_by-head : (x : A) (l : List A) → Leads gt x l → insert_by gt x l ≡ x ∷ l
  unfolding insert_by
  insert_by-head x [] h = refl
  insert_by-head x (y ∷ l) h = rw (h, insert_by)

  pub sort_by_id : (l : List A) → Ascending gt l → sort_by gt l ≡ l
  unfolding sort_by
  sort_by_id [] h = refl
  sort_by_id (x ∷ l) h = ap (insert_by gt x) (sort_by_id l h.1) ∙ insert_by-head x l h.0

  take-Leads : (k : ℕ) (x : A) (l : List A) → Leads gt x l → Leads gt x (take k l)
  take-Leads zero x l h = tt
  take-Leads (suc k) x [] h = tt
  take-Leads (suc k) x (y ∷ l) h = h

  pub take-Ascending : (k : ℕ) (l : List A) → Ascending gt l → Ascending gt (take k l)
  take-Ascending zero l h = tt
  take-Ascending (suc k) [] h = tt
  take-Ascending (suc k) (x ∷ l) h = (take-Leads k x l h.0, take-Ascending k l h.1)

  take-cons-take : (k : ℕ) (y : A) (l : List A) → take k (y ∷ take k l) ≡ take k (y ∷ l)
  take-cons-take zero y l = refl
  take-cons-take (suc k) y [] = refl
  take-cons-take (suc k) y (z ∷ l) = ap (◌∷◌ y) (take-cons-take k z l)

  pub take-insert_last :
      (k : ℕ) (x : A) (l : List A)
      → take k (insert_last gt x (take k l)) ≡ take k (insert_last gt x l)
  unfolding insert_last
  take-insert_last zero x l = refl
  take-insert_last (suc k) x [] = refl
  take-insert_last (suc k) x (y ∷ l) = elim (Bool-cases (gt y x)) [
    | inl above ↦ rw (above, insert_last) (ap (◌∷◌ x) (take-cons-take k y l))
    | inr below ↦ rw (below, insert_last) (ap (◌∷◌ y) (take-insert_last k x l))
  ]
