-- ===== src/Base/Order.antt =====
-- Rust's `Ord`: total orders on the keys of the maps, and the lexicographic order of texts.
use Prim.Native.Nat.{ℕ, compare, Ordering}
use Prim.Native.Nat.Ordering.{lt, eq, gt}
use mathlib.Core.Path.{◌≡◌, refl}
use mathlib.Core.List.{List, [], ◌∷◌}
use native.Mathlib.Omega.{arith}

-- `Ordering::then`.
abbrev pub then : Ordering → Ordering → Ordering
then lt later = lt
then gt later = gt
then eq later = later

-- What the documentation of `Ord` asks of `cmp`: the order is total and transitive, the two
-- directions agree, and keys that compare as equal are equal.
pub record IsLawful {ℓ} {Key : Type ℓ} (cmp : Key → Key → Ordering) : Type ℓ where
  pub eq_of_cmp : (x y : Key) → cmp x y ≡ eq → x ≡ y
  pub cmp_refl : (x : Key) → cmp x x ≡ eq
  pub lt_trans : (x y z : Key) → cmp x y ≡ lt → cmp y z ≡ lt → cmp x z ≡ lt
  pub gt_of_lt : (x y : Key) → cmp x y ≡ lt → cmp y x ≡ gt
  pub lt_of_gt : (x y : Key) → cmp x y ≡ gt → cmp y x ≡ lt

pub record Ord {κ} (Key : Type κ) : Type κ where
  pub cmp : Key → Key → Ordering
  pub lawful : IsLawful cmp
  pub open lawful use *

-- The derived order of a sequence is lexicographic; of a `String` it is that of its bytes.
unfoldable pub compare_bytes : List ℕ → List ℕ → Ordering
compare_bytes [] [] = eq
compare_bytes [] (y ∷ ys) = lt
compare_bytes (x ∷ xs) [] = gt
compare_bytes (x ∷ xs) (y ∷ ys) = then (compare x y) (compare_bytes xs ys)

compare_bytes_refl : (a : List ℕ) → compare_bytes a a ≡ eq
unfolding compare_bytes
compare_bytes_refl [] = refl
compare_bytes_refl (x ∷ xs) = ground (arith, compare_bytes_refl xs)

compare_bytes-eq : (a b : List ℕ) → compare_bytes a b ≡ eq → a ≡ b
unfolding compare_bytes
compare_bytes-eq [] [] h = refl
compare_bytes-eq [] (y ∷ ys) h = cc
compare_bytes-eq (x ∷ xs) [] h = cc
compare_bytes-eq (x ∷ xs) (y ∷ ys) h = ground (arith, compare_bytes-eq xs ys)

compare_bytes-gt : (a b : List ℕ) → compare_bytes a b ≡ gt → compare_bytes b a ≡ lt
unfolding compare_bytes
compare_bytes-gt [] [] h = cc
compare_bytes-gt [] (y ∷ ys) h = cc
compare_bytes-gt (x ∷ xs) [] h = refl
compare_bytes-gt (x ∷ xs) (y ∷ ys) h = ground (arith, compare_bytes-gt xs ys)

compare_bytes-lt : (a b : List ℕ) → compare_bytes a b ≡ lt → compare_bytes b a ≡ gt
unfolding compare_bytes
compare_bytes-lt [] [] h = cc
compare_bytes-lt [] (y ∷ ys) h = refl
compare_bytes-lt (x ∷ xs) [] h = cc
compare_bytes-lt (x ∷ xs) (y ∷ ys) h = ground (arith, compare_bytes-lt xs ys)

compare_bytes_trans :
    (a b c : List ℕ) → compare_bytes a b ≡ lt → compare_bytes b c ≡ lt → compare_bytes a c ≡ lt
unfolding compare_bytes
compare_bytes_trans [] [] c h k = cc
compare_bytes_trans [] (y ∷ ys) [] h k = cc
compare_bytes_trans [] (y ∷ ys) (z ∷ zs) h k = refl
compare_bytes_trans (x ∷ xs) [] c h k = cc
compare_bytes_trans (x ∷ xs) (y ∷ ys) [] h k = cc
compare_bytes_trans (x ∷ xs) (y ∷ ys) (z ∷ zs) h k = ground (arith, compare_bytes_trans xs ys zs)

pub compare_bytes-IsLawful : IsLawful compare_bytes
compare_bytes-IsLawful = record {
  cmp_refl = compare_bytes_refl;
  eq_of_cmp = compare_bytes-eq;
  lt_of_gt = compare_bytes-gt;
  gt_of_lt = compare_bytes-lt;
  lt_trans = compare_bytes_trans;
}

instance unfoldable pub bytes_ord : Ord (List ℕ)
bytes_ord = record { cmp = compare_bytes; lawful = compare_bytes-IsLawful }

pub compare-IsLawful : IsLawful compare
compare-IsLawful = record {
  cmp_refl = λ x. ground arith;
  eq_of_cmp = λ x y h. ground (arith, h);
  lt_of_gt = λ x y h. ground (arith, h);
  gt_of_lt = λ x y h. ground (arith, h);
  lt_trans = λ x y z h k. ground (arith, h, k);
}

instance abbrev pub number_ord : Ord ℕ
number_ord = record { cmp = compare; lawful = compare-IsLawful }
