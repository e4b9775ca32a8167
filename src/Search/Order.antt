-- ===== src/Search/Order.antt =====
-- The order of hits: total, transitive, and strict on hits of different records.
use Prim.Native.Nat.{compare}
use ketebe_oss.Base.{ℕ, ◌≡◌, Bool, false, inl, inr, List, [], ◌∷◌, All, Ordering, arith}
use ketebe_oss.Base.Order.{then}
use ketebe_oss.Base.Map.{Ordering-cases}
use ketebe_oss.Core.Values.{RecordId}
use ketebe_oss.Core.RecordOrder.{compare_record_id, record_id_ord, same_id}
use ketebe_oss.Predicate.Evaluate.{is_lt, is_gt}
use ketebe_oss.Search.Sort.{IsRanking}
use ketebe_oss.Search.Pages.{Apart, Distinct, Agrees, Agreeing}
use ketebe_oss.Search.Score.{
  DistanceMetric, cosine, dot_product, l2_distance, SearchHit, total_place, compare_score,
  compare_score_and_id, compare_hits, hit_gt,
}

-- A total and transitive comparison whose two directions agree.
record IsComparison {ℓ} {A : Type ℓ} (cmp : A → A → Ordering) : Type ℓ where
  pub flip : (x y : A) → is_gt (cmp x y) ≡ is_lt (cmp y x)
  pub chain :
      (x y z : A) → is_gt (cmp x y) ≡ false → is_gt (cmp y z) ≡ false → is_gt (cmp x z) ≡ false

module _ {ℓ} {A : Type ℓ} where
  abbrev both : (A → A → Ordering) → (A → A → Ordering) → A → A → Ordering
  both first second x y = (then) (first x y) (second x y)

  both-IsComparison :
      (first second : A → A → Ordering)
      → IsComparison first
      → IsComparison second
      → IsComparison (both first second)
  both-IsComparison first second c d = record {
    flip = λ x y. ground (arith, c.flip x y, c.flip y x, d.flip x y, d.flip y x);
    chain = λ x y z h k. ground (
      arith,
      c.chain x y z,
      c.chain y z x,
      c.chain z x y,
      d.chain x y z,
      c.flip x y,
      c.flip y x,
      c.flip y z,
      c.flip z y,
      c.flip x z,
      c.flip z x,
      h,
      k,
    );
  }

  by_key-IsComparison : (key : A → ℕ) → IsComparison (λ x y. compare (key x) (key y))
  by_key-IsComparison key = record {
    flip = λ x y. ground arith;
    chain = λ x y z h k. ground (arith, h, k);
  }

  reversed-IsComparison :
      (cmp : A → A → Ordering) → IsComparison cmp → IsComparison (λ x y. cmp y x)
  reversed-IsComparison cmp c = record {
    flip = λ x y. c.flip y x;
    chain = λ x y z h k. c.chain z y x k h;
  }

  IsComparison-IsRanking :
      (cmp : A → A → Ordering) → IsComparison cmp → IsRanking (λ x y. is_gt (cmp x y))
  IsComparison-IsRanking cmp c = record {
    total = λ x y h. ground (arith, c.flip x y, c.flip y x, h);
    trans = c.chain;
  }

id_chain :
    (a b c : RecordId)
    → is_gt (compare_record_id a b) ≡ false
    → is_gt (compare_record_id b c) ≡ false
    → is_gt (compare_record_id a c) ≡ false
id_chain a b c h k = elim (Ordering-cases (compare_record_id a b)) [
  | inl below ↦ elim (Ordering-cases (compare_record_id b c)) [
    | inl lower ↦ ground (arith, record_id_ord.lt_trans a b c below lower)
    | inr (inl same) ↦ rw (← record_id_ord.eq_of_cmp b c same) h
    | inr (inr above) ↦ absurd (ground (arith, above, k))
  ]
  | inr (inl same) ↦ rw (record_id_ord.eq_of_cmp a b same) k
  | inr (inr above) ↦ absurd (ground (arith, above, h))
]

by_id-IsComparison :
    {A : Type 0} (id : A → RecordId) → IsComparison (λ x y. compare_record_id (id x) (id y))
by_id-IsComparison id = record {
  flip = λ x y.
      ground (arith, record_id_ord.gt_of_lt (id y) (id x), record_id_ord.lt_of_gt (id x) (id y));
  chain = λ x y z h k. id_chain (id x) (id y) (id z) h k;
}

-- The order of hits by score and id alone.
abbrev pub score_gt : DistanceMetric → SearchHit → SearchHit → Bool
score_gt metric left right =
    is_gt (compare_score_and_id metric left.hit_score left.hit.id right.hit_score right.hit.id)

by_score-IsComparison :
    (metric : DistanceMetric)
    → IsComparison (λ (x y : SearchHit). compare_score metric x.hit_score y.hit_score)
unfolding compare_score
by_score-IsComparison l2_distance = by_key-IsComparison (λ (x : SearchHit). total_place x.hit_score)
by_score-IsComparison cosine =
    reversed-IsComparison _ (by_key-IsComparison (λ (x : SearchHit). total_place x.hit_score))
by_score-IsComparison dot_product =
    reversed-IsComparison _ (by_key-IsComparison (λ (x : SearchHit). total_place x.hit_score))

score_and_id-IsComparison :
    (metric : DistanceMetric)
    → IsComparison
        (λ (x y : SearchHit). compare_score_and_id metric x.hit_score x.hit.id y.hit_score y.hit.id)
unfolding compare_score_and_id
score_and_id-IsComparison metric =
    both-IsComparison _ _ (by_score-IsComparison metric) (by_id-IsComparison (λ h. h.hit.id))

pub score_gt-IsRanking : (metric : DistanceMetric) → IsRanking (score_gt metric)
score_gt-IsRanking metric = IsComparison-IsRanking _ (score_and_id-IsComparison metric)

pub hit_gt-IsRanking : (metric : DistanceMetric) → IsRanking (hit_gt metric)
unfolding compare_hits
hit_gt-IsRanking metric = IsComparison-IsRanking _ (
    both-IsComparison _ _ (score_and_id-IsComparison metric)
      (by_key-IsComparison (λ h. h.hit.sequence_number)))

-- Hits whose records differ in their ids.
abbrev pub OtherIds : SearchHit → List SearchHit → Type 0
OtherIds x l = All (λ y. same_id x.hit.id y.hit.id ≡ false) l

abbrev pub UniqueIds : List SearchHit → Type 0
UniqueIds [] = Unit {0}
UniqueIds (x ∷ l) = OtherIds x l × UniqueIds l

OtherIds-Apart :
    (metric : DistanceMetric) (x : SearchHit) (l : List SearchHit)
    → OtherIds x l
    → Apart (score_gt metric) x l
unfolding compare_score_and_id
OtherIds-Apart metric x [] h = tt
OtherIds-Apart metric x (y ∷ l) h = (
  ground (
    arith,
    h.0,
    (by_score-IsComparison metric).flip x y,
    (by_score-IsComparison metric).flip y x,
    record_id_ord.gt_of_lt y.hit.id x.hit.id,
    record_id_ord.lt_of_gt x.hit.id y.hit.id,
    record_id_ord.gt_of_lt x.hit.id y.hit.id,
    record_id_ord.lt_of_gt y.hit.id x.hit.id,
  ),
  OtherIds-Apart metric x l h.1,
)

pub UniqueIds-Distinct :
    (metric : DistanceMetric) (l : List SearchHit) → UniqueIds l → Distinct (score_gt metric) l
UniqueIds-Distinct metric [] h = tt
UniqueIds-Distinct metric (x ∷ l) h =
    (OtherIds-Apart metric x l h.0, UniqueIds-Distinct metric l h.1)

OtherIds-Agrees :
    (metric : DistanceMetric) (x : SearchHit) (l : List SearchHit)
    → OtherIds x l
    → Agrees (hit_gt metric) (score_gt metric) x l
unfolding compare_hits compare_score_and_id
OtherIds-Agrees metric x [] h = tt
OtherIds-Agrees metric x (y ∷ l) h = (ground (arith, h.0), OtherIds-Agrees metric x l h.1)

pub UniqueIds-Agreeing :
    (metric : DistanceMetric) (l : List SearchHit)
    → UniqueIds l
    → Agreeing (hit_gt metric) (score_gt metric) l
UniqueIds-Agreeing metric [] h = tt
UniqueIds-Agreeing metric (x ∷ l) h =
    (OtherIds-Agrees metric x l h.0, UniqueIds-Agreeing metric l h.1)
