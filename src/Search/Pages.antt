-- ===== src/Search/Pages.antt =====
-- A list in strictly ascending order, cut at an element.
use ketebe_oss.Base.{
  ℕ, zero, suc, ◌+◌, ◌≡◌, refl, sym, ap, ap₂, ◌∙◌, Bool, true, false, ◌||◌, Bool-cases, inl, inr,
  List, [], ◌∷◌, ◌++◌, All, take, drop, if◌then◌else◌, arith, take-append-drop, append_assoc, subst,
  take_nil, take-All,
}
use ketebe_oss.Search.Sort.{
  IsRanking, insert_by, sort_by, Leads, Ascending, sort_by-Ascending, insert_by-head,
}

-- The elements that pass a test.
unfoldable pub filter_by {ℓ} : {A : Type ℓ} → (A → Bool) → List A → List A
filter_by p [] = []
filter_by p (x ∷ xs) = let rest = filter_by p xs in if p x then x ∷ rest else rest

module _ {ℓ} {A : Type ℓ} (gt : A → A → Bool) where
  -- Above an element that leads the list strictly.
  abbrev pub Before : A → List A → Type 0
  Before x l = All (λ y. gt y x ≡ true) l

  abbrev pub Strict : List A → Type 0
  Strict [] = Unit {0}
  Strict (x ∷ xs) = Before x xs × Strict xs

  -- No two elements of the list are equal in the order.
  abbrev pub Apart : A → List A → Type 0
  Apart x l = All (λ y. (gt x y || gt y x) ≡ true) l

  abbrev pub Distinct : List A → Type 0
  Distinct [] = Unit {0}
  Distinct (x ∷ xs) = Apart x xs × Distinct xs

  pub take-Strict : (k : ℕ) (l : List A) → Strict l → Strict (take k l)
  take-Strict zero l h = tt
  take-Strict (suc k) [] h = tt
  take-Strict (suc k) (x ∷ l) h = (take-All _ k l h.0, take-Strict k l h.1)

module _ {ℓ} {A : Type ℓ} (gt : A → A → Bool) (r : IsRanking gt) where
  Before-trans : (x y : A) (l : List A) → gt y x ≡ true → Before gt y l → Before gt x l
  Before-trans x y [] h k = tt
  Before-trans x y (z ∷ l) h k = (
    ground (
      arith,
      r.trans z x y,
      r.trans y z x,
      r.total y x h,
      r.total z y k.0,
      r.total y z,
      h,
      k.0,
      r.trans x y z,
      r.trans y x z,
      r.trans z y x,
    ),
    Before-trans x y l h k.1,
  )

  insert_by-Before :
      (x y : A) (l : List A) → gt x y ≡ true → Before gt y l → Before gt y (insert_by gt x l)
  unfolding insert_by
  insert_by-Before x y [] h k = (h, tt)
  insert_by-Before x y (z ∷ l) h k = ground (arith, insert_by-Before x y l h k.1)

  insert_by-Strict :
      (x : A) (l : List A) → Strict gt l → Apart gt x l → Strict gt (insert_by gt x l)
  unfolding insert_by
  insert_by-Strict x [] h k = (tt, tt)
  insert_by-Strict x (y ∷ l) h k = elim (Bool-cases (gt x y)) [
    | inl above ↦
        rw (above, insert_by) (insert_by-Before x y l above h.0, insert_by-Strict x l h.1 k.1)
    | inr below ↦
        let over : gt y x ≡ true = ground (arith, k.0, below) in
        rw (below, insert_by) ((over, Before-trans x y l over h.0), h)
  ]

  insert_by-Apart :
      (x y : A) (l : List A)
      → (gt y x || gt x y) ≡ true
      → Apart gt y l
      → Apart gt y (insert_by gt x l)
  unfolding insert_by
  insert_by-Apart x y [] h k = (h, tt)
  insert_by-Apart x y (z ∷ l) h k = ground (arith, insert_by-Apart x y l h k.1)

  sort_by-Apart : (x : A) (l : List A) → Apart gt x l → Apart gt x (sort_by gt l)
  unfolding sort_by
  sort_by-Apart x [] h = tt
  sort_by-Apart x (y ∷ l) h = insert_by-Apart y x (sort_by gt l) h.0 (sort_by-Apart x l h.1)

  pub sort_by-Strict : (l : List A) → Distinct gt l → Strict gt (sort_by gt l)
  unfolding sort_by
  sort_by-Strict [] h = tt
  sort_by-Strict (x ∷ l) h =
      insert_by-Strict x (sort_by gt l) (sort_by-Strict l h.1) (sort_by-Apart x l h.0)

  Leads-trans : (x y : A) (l : List A) → gt x y ≡ false → Leads gt y l → Leads gt x l
  Leads-trans x y [] h k = tt
  Leads-trans x y (z ∷ l) h k = r.trans x y z h k

  filter_by-Leads :
      (p : A → Bool) (x : A) (l : List A)
      → Leads gt x l
      → Ascending gt l
      → Leads gt x (filter_by p l)
  unfolding filter_by
  filter_by-Leads p x [] h k = tt
  filter_by-Leads p x (y ∷ l) h k = elim (Bool-cases (p y)) [
    | inl kept ↦ rw (kept, filter_by) h
    | inr gone ↦ rw (gone, filter_by) (filter_by-Leads p x l (Leads-trans x y l h k.0) k.1)
  ]

  filter_by-insert_by :
      (p : A → Bool) (x : A) (l : List A)
      → p x ≡ true
      → Ascending gt l
      → filter_by p (insert_by gt x l) ≡ insert_by gt x (filter_by p l)
  unfolding filter_by insert_by
  filter_by-insert_by p x [] h k = rw (h, filter_by)
  filter_by-insert_by p x (y ∷ l) h k = elim (Bool-cases (gt x y)) [
    | inl above ↦ ground (arith, filter_by-insert_by p x l h k.1)
    | inr below ↦
        rw (below, insert_by, h, filter_by)
          (sym (insert_by-head gt r x (filter_by p (y ∷ l)) (filter_by-Leads p x (y ∷ l) below k)))
  ]

  filter_by-insert_by_gone :
      (p : A → Bool) (x : A) (l : List A)
      → p x ≡ false
      → filter_by p (insert_by gt x l) ≡ filter_by p l
  unfolding filter_by insert_by
  filter_by-insert_by_gone p x [] h = rw (h, filter_by)
  filter_by-insert_by_gone p x (y ∷ l) h = ground (arith, filter_by-insert_by_gone p x l h)

  -- Filtering commutes with the stable sort.
  pub filter_by-sort_by :
      (p : A → Bool) (l : List A) → filter_by p (sort_by gt l) ≡ sort_by gt (filter_by p l)
  unfolding filter_by sort_by
  filter_by-sort_by p [] = refl
  filter_by-sort_by p (x ∷ l) = elim (Bool-cases (p x)) [
    | inl kept ↦
        rw (kept, filter_by)
          (filter_by-insert_by p x (sort_by gt l) kept (sort_by-Ascending gt r l)
            ∙ ap (insert_by gt x) (filter_by-sort_by p l))
    | inr gone ↦
        rw (gone, filter_by)
          (filter_by-insert_by_gone p x (sort_by gt l) gone ∙ filter_by-sort_by p l)
  ]

  filter_by-Before : (a : A) (l : List A) → Before gt a l → filter_by (λ x. gt x a) l ≡ l
  unfolding filter_by
  filter_by-Before a [] h = refl
  filter_by-Before a (x ∷ l) h = rw (h.0, filter_by) (ap (◌∷◌ x) (filter_by-Before a l h.1))

  Before-last : (x a : A) (xs ys : List A) → Before gt x (xs ++ a ∷ ys) → gt a x ≡ true
  Before-last x a [] ys h = h.0
  Before-last x a (y ∷ xs) ys h = Before-last x a xs ys h.1

  filter_past :
      (a : A) (xs ys : List A)
      → Strict gt (xs ++ a ∷ ys)
      → filter_by (λ x. gt x a) (xs ++ a ∷ ys) ≡ ys
  unfolding filter_by
  filter_past a [] ys h =
      let itself : gt a a ≡ false = ground (arith, r.total a a) in
      rw (itself, filter_by) (filter_by-Before a ys h.0)
  filter_past a (x ∷ xs) ys h =
      let below : gt x a ≡ false = r.total a x (Before-last x a xs ys h.0) in
      rw (below, filter_by) (filter_past a xs ys h.1)

  take-take-drop : (j k : ℕ) (l : List A) → take j l ++ take k (drop j l) ≡ take (j + k) l
  take-take-drop zero k l = ap (λ n. take n l) (omega arith)
  take-take-drop (suc j) k [] = take_nil k ∙ sym (take_nil (suc j + k))
  take-take-drop (suc j) k (x ∷ l) =
      let shift : suc (j + k) ≡ suc j + k = omega arith in
      ap (◌∷◌ x) (take-take-drop j k l) ∙ ap (λ n. take n (x ∷ l)) shift

  -- The page behind the last element of a page continues it.
  pub take-page :
      (j k : ℕ) (l xs : List A) (a : A)
      → Distinct gt l
      → take j (sort_by gt l) ≡ xs ++ a ∷ []
      → (xs ++ a ∷ []) ++ take k (sort_by gt (filter_by (λ x. gt x a) l))
        ≡ take (j + k) (sort_by gt l)
  take-page j k l xs a apart page =
      let sorted = sort_by gt l in
      let split : xs ++ a ∷ drop j sorted ≡ sorted =
        sym (append_assoc xs (a ∷ []) (drop j sorted))
        ∙ ap (λ front. front ++ drop j sorted) (sym page)
        ∙ take-append-drop j sorted in
      let strict : Strict gt (xs ++ a ∷ drop j sorted) =
        subst (Strict gt) (sym split) (sort_by-Strict l apart) in
      let rest : sort_by gt (filter_by (λ x. gt x a) l) ≡ drop j sorted =
        sym (filter_by-sort_by (λ x. gt x a) l)
        ∙ ap (filter_by (λ x. gt x a)) (sym split)
        ∙ filter_past a xs (drop j sorted) strict in
      ap₂ (λ front back. front ++ take k back) (sym page) rest ∙ take-take-drop j k sorted

module _ {ℓ} {A : Type ℓ} (gt : A → A → Bool) where
  insert_by-All {κ} :
      (P : A → Type κ) (x : A) (l : List A) → P x → All P l → All P (insert_by gt x l)
  unfolding insert_by
  insert_by-All P x [] h k = (h, tt)
  insert_by-All P x (y ∷ l) h k = elim (Bool-cases (gt x y)) [
    | inl above ↦ rw (above, insert_by) (k.0, insert_by-All P x l h k.1)
    | inr below ↦ rw (below, insert_by) (h, k)
  ]

  pub sort_by-All {κ} : (P : A → Type κ) (l : List A) → All P l → All P (sort_by gt l)
  unfolding sort_by
  sort_by-All P [] h = tt
  sort_by-All P (x ∷ l) h = insert_by-All P x (sort_by gt l) h.0 (sort_by-All P l h.1)

module _ {ℓ} {A : Type ℓ} (gt other : A → A → Bool) where
  abbrev pub Agrees : A → List A → Type 0
  Agrees x l = All (λ y. gt x y ≡ other x y) l

  abbrev pub Agreeing : List A → Type 0
  Agreeing [] = Unit {0}
  Agreeing (x ∷ l) = Agrees x l × Agreeing l

  insert_by-Agrees : (x : A) (l : List A) → Agrees x l → insert_by gt x l ≡ insert_by other x l
  unfolding insert_by
  insert_by-Agrees x [] h = refl
  insert_by-Agrees x (y ∷ l) h = ground (arith, h.0, insert_by-Agrees x l h.1)

  -- Two orders that agree on the list sort it alike.
  pub sort_by-Agreeing : (l : List A) → Agreeing l → sort_by gt l ≡ sort_by other l
  unfolding sort_by
  sort_by-Agreeing [] h = refl
  sort_by-Agreeing (x ∷ l) h =
      insert_by-Agrees x (sort_by gt l) (sort_by-All gt (λ y. gt x y ≡ other x y) l h.0)
      ∙ ap (insert_by other x) (sort_by-Agreeing l h.1)
