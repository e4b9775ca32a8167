-- ===== src/Base/Map.antt =====
-- Rust's `BTreeMap`, as the list of its entries in ascending order of their keys.
use Prim.Native.Nat.{Ordering}
use Prim.Native.Nat.Ordering.{lt, eq, gt}
use mathlib.Core.Path.{◌≡◌, refl, sym, ap, ◌∙◌, subst}
use mathlib.Core.Logic.{◌⊎◌, inl, inr}
use mathlib.Core.Bool.{Bool, true, false}
use mathlib.Core.Option.{Option, none, some}
use mathlib.Core.List.{List, [], ◌∷◌}
use native.Mathlib.Omega.{arith}
use ketebe_oss.Base.Order.{Ord}

abbrev pub is_eq : Ordering → Bool
is_eq eq = true
is_eq _ = false

pub Ordering-cases : (x : Ordering) → (x ≡ lt) ⊎ ((x ≡ eq) ⊎ (x ≡ gt))
Ordering-cases lt = inl refl
Ordering-cases eq = inr (inl refl)
Ordering-cases gt = inr (inr refl)

abbrev pub Map {ℓ κ} : Type ℓ → Type κ → Type (ℓ ⊔ κ)
Map K V = List (K × V)

module _ {ℓ κ} {K : Type ℓ} {V : Type κ} ⦃o : Ord K⦄ where
  unfoldable pub get : K → Map K V → Option V
  get k [] = none
  get k ((j, w) ∷ m) = elim (o.cmp k j) [ eq ↦ some w | _ ↦ get k m ]

  unfoldable pub insert : K → V → Map K V → Map K V
  insert k v [] = (k, v) ∷ []
  insert k v ((j, w) ∷ m) =
      let later = (j, w) ∷ insert k v m in
      elim (o.cmp k j) [ lt ↦ (k, v) ∷ (j, w) ∷ m | eq ↦ (k, v) ∷ m | gt ↦ later ]

  unfoldable pub remove : K → Map K V → Map K V
  remove k [] = []
  remove k ((j, w) ∷ m) =
      let rest = remove k m in elim (o.cmp k j) [ eq ↦ rest | _ ↦ (j, w) ∷ rest ]

  -- Every key of the map is above `k`.
  abbrev pub Above : K → Map K V → Type 0
  Above k [] = Unit {0}
  Above k ((j, w) ∷ m) = (o.cmp k j ≡ lt) × Above k m

  abbrev pub Sorted : Map K V → Type 0
  Sorted [] = Unit {0}
  Sorted ((j, w) ∷ m) = Above j m × Sorted m

  -- What holds of every entry.
  abbrev pub Entries {μ} : (K → V → Type μ) → Map K V → Type μ
  Entries P [] = Unit {μ}
  Entries P ((j, w) ∷ m) = P j w × Entries P m

module _ {ℓ κ} {K : Type ℓ} {V : Type κ} ⦃o : Ord K⦄ where
  pub get-insert_self : (k : K) (v : V) (m : Map K V) → get k (insert k v m) ≡ some v
  unfolding get insert
  get-insert_self k v [] = ground (arith, o.cmp_refl k)
  get-insert_self k v ((j, w) ∷ m) = ground (arith, o.cmp_refl k, get-insert_self k v m)

  pub get-insert_ne :
      (k j : K) (v : V) (m : Map K V) → is_eq (o.cmp j k) ≡ false → get j (insert k v m) ≡ get j m
  unfolding get insert
  get-insert_ne k j v [] h = ground arith
  get-insert_ne k j v ((i, w) ∷ m) h = ground (arith, get-insert_ne k j v m h, o.eq_of_cmp k i)

  pub get-remove_self : (k : K) (m : Map K V) → get k (remove k m) ≡ none
  unfolding get remove
  get-remove_self k [] = refl
  get-remove_self k ((j, w) ∷ m) = ground (arith, get-remove_self k m)

  pub get-remove_ne :
      (k j : K) (m : Map K V) → is_eq (o.cmp j k) ≡ false → get j (remove k m) ≡ get j m
  unfolding get remove
  get-remove_ne k j [] h = refl
  get-remove_ne k j ((i, w) ∷ m) h = ground (arith, get-remove_ne k j m h, o.eq_of_cmp k i)

  pub get-Above : (k : K) (m : Map K V) → Above k m → get k m ≡ none
  unfolding get
  get-Above k [] h = refl
  get-Above k ((j, w) ∷ m) h = ground (arith, get-Above k m h.1)

  Above-trans : (i j : K) (m : Map K V) → o.cmp i j ≡ lt → Above j m → Above i m
  Above-trans i j [] h a = tt
  Above-trans i j ((k, w) ∷ m) h a = (o.lt_trans i j k h a.0, Above-trans i j m h a.1)

  insert-Above :
      (i k : K) (v : V) (m : Map K V) → o.cmp i k ≡ lt → Above i m → Above i (insert k v m)
  unfolding insert
  insert-Above i k v [] h a = (h, tt)
  insert-Above i k v ((j, w) ∷ m) h a = ground (arith, insert-Above i k v m h a.1)

  pub insert-Sorted : (k : K) (v : V) (m : Map K V) → Sorted m → Sorted (insert k v m)
  unfolding insert
  insert-Sorted k v [] h = (tt, tt)
  insert-Sorted k v ((j, w) ∷ m) h = elim (Ordering-cases (o.cmp k j)) [
    | inl below ↦ rw (below, insert) ((below, Above-trans k j m below h.0), h)
    | inr (inl same) ↦ rw (same, insert) (rw (o.eq_of_cmp k j same) h.0, h.1)
    | inr (inr above) ↦
        rw (above, insert)
          (insert-Above j k v m (o.lt_of_gt k j above) h.0, insert-Sorted k v m h.1)
  ]

  remove-Above : (i k : K) (m : Map K V) → Above i m → Above i (remove k m)
  unfolding remove
  remove-Above i k [] a = tt
  remove-Above i k ((j, w) ∷ m) a = ground (arith, remove-Above i k m a.1)

  pub remove-Sorted : (k : K) (m : Map K V) → Sorted m → Sorted (remove k m)
  unfolding remove
  remove-Sorted k [] h = tt
  remove-Sorted k ((j, w) ∷ m) h = ground (arith, remove-Sorted k m h.1, remove-Above j k m h.0)

  pub insert-Entries {μ} :
      (P : K → V → Type μ) (k : K) (v : V) (m : Map K V)
      → P k v
      → Entries P m
      → Entries P (insert k v m)
  unfolding insert
  insert-Entries P k v [] h a = (h, tt)
  insert-Entries P k v ((j, w) ∷ m) h a = elim (Ordering-cases (o.cmp k j)) [
    | inl below ↦ rw (below, insert) (h, a)
    | inr (inl same) ↦ rw (same, insert) (h, a.1)
    | inr (inr above) ↦ rw (above, insert) (a.0, insert-Entries P k v m h a.1)
  ]

  pub remove-Entries {μ} :
      (P : K → V → Type μ) (k : K) (m : Map K V) → Entries P m → Entries P (remove k m)
  unfolding remove
  remove-Entries P k [] a = tt
  remove-Entries P k ((j, w) ∷ m) a = elim (Ordering-cases (o.cmp k j)) [
    | inl below ↦ rw (below, remove) (a.0, remove-Entries P k m a.1)
    | inr (inl same) ↦ rw (same, remove) (remove-Entries P k m a.1)
    | inr (inr above) ↦ rw (above, remove) (a.0, remove-Entries P k m a.1)
  ]

  pub get-nil : (k : K) → get {V = V} k [] ≡ none
  unfolding get
  get-nil k = refl

  pub get-head : (j : K) (w : V) (m : Map K V) → get j ((j, w) ∷ m) ≡ some w
  unfolding get
  get-head j w m = rw (o.cmp_refl j, get)

  get-below :
      (i j : K) (w : V) (m : Map K V) → o.cmp i j ≡ lt → Above j m → get i ((j, w) ∷ m) ≡ none
  unfolding get
  get-below i j w m h a = rw (h, get) (get-Above i m (Above-trans i j m h a))

  get-tail :
      (i : K) (v w : V) (m n : Map K V)
      → Above i m
      → Above i n
      → ((k : K) → get k ((i, v) ∷ m) ≡ get k ((i, w) ∷ n))
      → (k : K) → get k m ≡ get k n
  unfolding get
  get-tail i v w m n am an h k = elim (Ordering-cases (o.cmp k i)) [
    | inl below ↦ rw (below, get) at (h k)
    | inr (inl same) ↦ rw (o.eq_of_cmp k i same) (get-Above i m am ∙ sym (get-Above i n an))
    | inr (inr above) ↦ rw (above, get) at (h k)
  ]

  -- Maps with the same values at every key are equal.
  pub Map-ext : (m n : Map K V) → Sorted m → Sorted n → ((k : K) → get k m ≡ get k n) → m ≡ n
  Map-ext [] [] hm hn h = refl
  Map-ext [] ((j, w) ∷ n) hm hn h = cc (h j, get-head j w n, get-nil j)
  Map-ext ((i, v) ∷ m) [] hm hn h = cc (h i, get-head i v m, get-nil i)
  Map-ext ((i, v) ∷ m) ((j, w) ∷ n) hm hn h = elim (Ordering-cases (o.cmp i j)) [
    | inl below ↦ cc (h i, get-head i v m, get-below i j w n below hn.0)
    | inr (inr above) ↦ cc (h j, get-head j w n, get-below j i v m (o.lt_of_gt i j above) hm.0)
    | inr (inl same) ↦
        let key : i ≡ j = o.eq_of_cmp i j same in
        let above : Above i n = subst (λ x. Above x n) (sym key) hn.0 in
        let h' : (k : K) → get k ((i, v) ∷ m) ≡ get k ((i, w) ∷ n) =
          λ k. h k ∙ ap (λ x. get k ((x, w) ∷ n)) (sym key) in
        let value : v ≡ w = cc (h' i, get-head i v m, get-head i w n) in
        let rest = Map-ext m n hm.1 hn.1 (get-tail i v w m n hm.0 above h') in
        λ t. (key t, value t) ∷ rest t
  ]

module _ {ℓ κ} {K : Type ℓ} {V : Type κ} ⦃o : Ord K⦄ where
  pub get_other :
      (i j : K) (v : V) (m : Map K V) → is_eq (o.cmp i j) ≡ false → get i ((j, v) ∷ m) ≡ get i m
  unfolding get
  get_other i j v m h = ground (arith, h)

  -- A key below the keys of a map is none of them.
  pub Above-differ :
      (i j : K) (v : V) (m : Map K V) → Above j m → get i m ≡ some v → is_eq (o.cmp i j) ≡ false
  Above-differ i j v m h there = elim (Ordering-cases (o.cmp i j)) [
    | inl below ↦ ap is_eq below
    | inr (inr above) ↦ ap is_eq above
    | inr (inl same) ↦
        let gone : get i m ≡ none =
          get-Above i m (subst (λ x. Above x m) (sym (o.eq_of_cmp i j same)) h) in
        cc
  ]

  -- Inserting what a map holds changes nothing.
  pub insert_same : (k : K) (v : V) (m : Map K V) → Sorted m → get k m ≡ some v → insert k v m ≡ m
  insert_same k v m s there = Map-ext (insert k v m) m (insert-Sorted k v m s) s (λ j.
      elim (Ordering-cases (o.cmp j k)) [
        | inl below ↦ get-insert_ne k j v m (ap is_eq below)
        | inr (inr above) ↦ get-insert_ne k j v m (ap is_eq above)
        | inr (inl same) ↦ rw (o.eq_of_cmp j k same) (get-insert_self k v m ∙ sym there)
      ])

module _ {ℓ κ μ} {K : Type ℓ} {V : Type κ} ⦃o : Ord K⦄ (P : K → V → Type μ) where
  pub Entries-get : (k : K) (v : V) (m : Map K V) → Entries P m → get k m ≡ some v → P k v
  unfolding get
  Entries-get k v [] h g = cc
  Entries-get k v ((j, w) ∷ m) h g = elim (Ordering-cases (o.cmp k j)) [
    | inl below ↦ Entries-get k v m h.1 (rw (below, get) at g)
    | inr (inl same) ↦
        let value : w ≡ v = ground (arith, rw (same, get) at g) in
        subst (λ x. P k x) value (subst (λ i. P i w) (sym (o.eq_of_cmp k j same)) h.0)
    | inr (inr above) ↦ Entries-get k v m h.1 (rw (above, get) at g)
  ]

module _ {ℓ κ} {K : Type ℓ} {V : Type κ} ⦃o : Ord K⦄ where
  -- What the looked-up values have, the entries have.
  pub get-Entries {μ} :
      (P : K → V → Type μ) (m : Map K V)
      → Sorted m
      → ((k : K) (v : V) → get k m ≡ some v → P k v)
      → Entries P m
  get-Entries P [] s up = tt
  get-Entries P ((j, w) ∷ m) s up = (
    up j w (get-head j w m),
    get-Entries P m s.1
        (λ k v there. up k v (get_other k j w m (Above-differ k j v m s.0 there) ∙ there)),
  )

  -- A lookup finds every entry of a map in order.
  pub Entries-itself : (m : Map K V) → Sorted m → Entries (λ k v. get k m ≡ some v) m
  Entries-itself m s = get-Entries (λ k v. get k m ≡ some v) m s (λ k v there. there)

-- The map with another value at every key.
abbrev pub map_values {ℓ κ μ} : {K : Type ℓ} {V : Type κ} {W : Type μ} → (V → W) → Map K V → Map K W
map_values f [] = []
map_values f ((k, v) ∷ m) = (k, f v) ∷ map_values f m

abbrev pub map_option {κ μ} : {V : Type κ} {W : Type μ} → (V → W) → Option V → Option W
map_option f none = none
map_option f (some v) = some (f v)

module _ {ℓ κ μ} {K : Type ℓ} {V : Type κ} {W : Type μ} ⦃o : Ord K⦄ (f : V → W) where
  pub get-map_values : (k : K) (m : Map K V) → get k (map_values f m) ≡ map_option f (get k m)
  unfolding get
  get-map_values k [] = refl
  get-map_values k ((j, v) ∷ m) = ground (arith, get-map_values k m)

  pub insert-map_values :
      (k : K) (v : V) (m : Map K V) → insert k (f v) (map_values f m) ≡ map_values f (insert k v m)
  unfolding insert
  insert-map_values k v [] = refl
  insert-map_values k v ((j, w) ∷ m) = ground (arith, insert-map_values k v m)

  map_values-Above : (k : K) (m : Map K V) → Above k m → Above k (map_values f m)
  map_values-Above k [] h = tt
  map_values-Above k ((j, v) ∷ m) h = (h.0, map_values-Above k m h.1)

  pub map_values-Sorted : (m : Map K V) → Sorted m → Sorted (map_values f m)
  map_values-Sorted [] h = tt
  map_values-Sorted ((k, v) ∷ m) h = (map_values-Above k m h.0, map_values-Sorted m h.1)

  pub map_values-Entries {ν ρ} :
      (P : K → V → Type ν) (Q : K → W → Type ρ) (m : Map K V)
      → ((k : K) (v : V) → P k v → Q k (f v))
      → Entries P m
      → Entries Q (map_values f m)
  map_values-Entries P Q [] up h = tt
  map_values-Entries P Q ((k, v) ∷ m) up h = (up k v h.0, map_values-Entries P Q m up h.1)
