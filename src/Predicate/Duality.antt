-- ===== src/Predicate/Duality.antt =====
-- Negation in the filters of predicate.rs.
use ketebe_oss.Base.{Ordering, ◌≡◌, refl, ap, Bool, true, false, not, some, if◌then◌else◌}
use ketebe_oss.Base.Result.{Result, ok, err, ◌>>=◌}
use ketebe_oss.Core.Values.{Metadata, MetadataValue}
use ketebe_oss.Predicate.Compare.{PredicateError, comparable_order}
use ketebe_oss.Predicate.Evaluate.{
  FieldPath, ne, is_lt, is_gt, Predicates, eq, lt, gte, gt, lte, and, or, negation, no_more, also,
  resolve, is_some_and, evaluate, evaluate_all, evaluate_any, compare_field,
}

abbrev pub negations : Predicates → Predicates
negations no_more = no_more
negations (also p ps) = also (negation p) (negations ps)

negate_and :
    (r s t : Result PredicateError Bool)
    → (s >>= λ b. ok (not b)) ≡ t
    → ((r >>= λ b. if b then s else ok false) >>= λ b. ok (not b))
      ≡ ((r >>= λ b. ok (not b)) >>= λ b. if b then ok true else t)
negate_and (ok true) s t h = h
negate_and (ok false) s t h = refl
negate_and (err e) s t h = refl

-- A negated conjunction is the disjunction of the negations: with the same result, with the same
-- error, and stopping at the same operand.
pub evaluate-not_and :
    (ps : Predicates) (m : Metadata)
    → evaluate (negation (and ps)) m ≡ evaluate (or (negations ps)) m
unfolding evaluate evaluate_all evaluate_any
evaluate-not_and no_more m = refl
evaluate-not_and (also p ps) m =
    negate_and (evaluate p m) (evaluate_all ps m) (evaluate_any (negations ps) m)
      (evaluate-not_and ps m)

negate_or :
    (r s t : Result PredicateError Bool)
    → (s >>= λ b. ok (not b)) ≡ t
    → ((r >>= λ b. if b then ok true else s) >>= λ b. ok (not b))
      ≡ ((r >>= λ b. ok (not b)) >>= λ b. if b then t else ok false)
negate_or (ok true) s t h = refl
negate_or (ok false) s t h = h
negate_or (err e) s t h = refl

-- A negated disjunction is the conjunction of the negations, in the same sense.
evaluate-not_or :
    (ps : Predicates) (m : Metadata)
    → evaluate (negation (or ps)) m ≡ evaluate (and (negations ps)) m
unfolding evaluate evaluate_all evaluate_any
evaluate-not_or no_more m = refl
evaluate-not_or (also p ps) m =
    negate_or (evaluate p m) (evaluate_any ps m) (evaluate_all (negations ps) m)
      (evaluate-not_or ps m)

negate_order :
    (r : Result PredicateError Ordering) (test opposite : Ordering → Bool)
    → ((o : Ordering) → not (test o) ≡ opposite o)
    → ((r >>= λ o. ok (test o)) >>= λ b. ok (not b)) ≡ (r >>= λ o. ok (opposite o))
negate_order (ok o) test opposite h = ap ok (h o)
negate_order (err e) test opposite h = refl

not-not : (b : Bool) → not (not b) ≡ b
not-not true = refl
not-not false = refl

-- On a field that is there, `Ne` is the negation of `Eq`, `Lt` that of `Gte` and `Gt` that of
-- `Lte`, also where the two values do not compare.
pub evaluate-not_present :
    (path : FieldPath) (expected actual : MetadataValue) (m : Metadata)
    → resolve path m ≡ some actual
    → (evaluate (negation (eq path expected)) m ≡ evaluate (ne path expected) m)
      × (evaluate (negation (gte path expected)) m ≡ evaluate (lt path expected) m)
      × (evaluate (negation (lte path expected)) m ≡ evaluate (gt path expected) m)
unfolding evaluate is_some_and compare_field
evaluate-not_present path expected actual m there =
    let order = comparable_order actual expected in
    (
      (rw there),
      (rw (compare_field, there)
          (negate_order order (λ o. not (is_lt o)) is_lt (λ o. not-not (is_lt o)))),
      (rw (compare_field, there)
          (negate_order order (λ o. not (is_gt o)) is_gt (λ o. not-not (is_gt o)))),
    )
