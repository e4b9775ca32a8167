-- ===== src/Search/Score.antt =====
-- Scores and the order of hits. An `f32` is the number that its bits spell; the arithmetic of
-- the floating-point unit is a parameter.
use Prim.Native.Nat.{compare}
use ketebe_oss.Base.{
  ℕ, ◌+◌, ◌-◌, ◌%◌, ◌^◌, Bool, ◌||◌, List, ◌∷◌, Ordering, ltb, ◌==◌, if◌then◌else◌,
}
use ketebe_oss.Base.Result.{Result, ok, err}
use ketebe_oss.Base.Order.{then}
use ketebe_oss.Core.Values.{RecordId, Record, Vector}
use ketebe_oss.Core.RecordOrder.{compare_record_id}
use ketebe_oss.Predicate.Compare.{PredicateError}
use ketebe_oss.Predicate.Evaluate.{is_gt}
use ketebe_oss.Segment.Build.{SegmentError}
use ketebe_oss.Search.Control.{QueryControlError}

pub data DistanceMetric : Type 0 where
  cosine dot_product l2_distance : DistanceMetric

pub data SearchError : Type 0 where
  segment : SegmentError → SearchError
  invalid_top_k empty_query_vector zero_norm_vector : SearchError
  non_finite_query_value : ℕ → SearchError
  dimension_mismatch : ℕ → ℕ → SearchError
  control : QueryControlError → SearchError
  predicate : PredicateError → SearchError

-- The operations on `f32` values, and what `Iterator::sum` starts from.
pub record Arithmetic : Type 0 where
  pub add : ℕ → ℕ → ℕ
  pub sub : ℕ → ℕ → ℕ
  pub mul : ℕ → ℕ → ℕ
  pub div : ℕ → ℕ → ℕ
  pub sqrt : ℕ → ℕ
  pub sum_start : ℕ

-- `== 0.0`: the bits but the sign are zero.
abbrev pub is_zero : ℕ → Bool
is_zero bits = bits % 2 ^ 31 == 0

-- The place of a value in the order of `f32::total_cmp`.
abbrev pub total_place : ℕ → ℕ
total_place bits = if ltb bits (2 ^ 31) then 2 ^ 31 + bits else 2 ^ 32 - 1 - bits

abbrev pub total_cmp : ℕ → ℕ → Ordering
total_cmp left right = compare (total_place left) (total_place right)

module _ (f : Arithmetic) where
  -- `zip`, `map` and `sum`: the running total and the pairs that are left.
  unfoldable pub sum_products : ℕ → List ℕ → List ℕ → ℕ
  sum_products total (a ∷ rest) (b ∷ others) = sum_products (f.add total (f.mul a b)) rest others
  sum_products total _ _ = total

  unfoldable pub sum_squares : ℕ → List ℕ → List ℕ → ℕ
  sum_squares total (a ∷ rest) (b ∷ others) =
      sum_squares (f.add total (f.mul (f.sub a b) (f.sub a b))) rest others
  sum_squares total _ _ = total

  unfoldable pub dot : List ℕ → List ℕ → ℕ
  unfolding sum_products
  dot left right = sum_products f.sum_start left right

  unfoldable pub l2 : List ℕ → List ℕ → ℕ
  unfolding sum_squares
  l2 left right = f.sqrt (sum_squares f.sum_start left right)

  unfoldable pub norm : List ℕ → ℕ
  unfolding sum_products
  norm vector = f.sqrt (sum_products f.sum_start vector vector)

  unfoldable pub score : List ℕ → Vector → DistanceMetric → Result SearchError ℕ
  unfolding dot l2 norm
  score query candidate dot_product = ok (dot query candidate)
  score query candidate l2_distance = ok (l2 query candidate)
  score query candidate cosine =
      if is_zero (norm query) || is_zero (norm candidate)
      then err zero_norm_vector
      else ok (f.div (dot query candidate) (f.mul (norm query) (norm candidate)))

pub record SearchHit : Type 0 where
  pub hit : Record
  pub hit_score : ℕ

pub record SearchAfter : Type 0 where
  pub after_score : ℕ
  pub after_id : RecordId

unfoldable pub compare_score : DistanceMetric → ℕ → ℕ → Ordering
compare_score l2_distance left right = total_cmp left right
compare_score cosine left right = total_cmp right left
compare_score dot_product left right = total_cmp right left

unfoldable pub compare_score_and_id : DistanceMetric → ℕ → RecordId → ℕ → RecordId → Ordering
unfolding compare_score
compare_score_and_id metric left_score left_id right_score right_id =
    (then) (compare_score metric left_score right_score) (compare_record_id left_id right_id)

unfoldable pub compare_hits : DistanceMetric → SearchHit → SearchHit → Ordering
unfolding compare_score_and_id
compare_hits metric left right =
    (then) (compare_score_and_id metric left.hit_score left.hit.id right.hit_score right.hit.id)
      (compare left.hit.sequence_number right.hit.sequence_number)

-- `is_gt` of two hits.
abbrev pub hit_gt : DistanceMetric → SearchHit → SearchHit → Bool
hit_gt metric left right = is_gt (compare_hits metric left right)
