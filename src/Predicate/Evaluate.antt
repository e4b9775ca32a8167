-- ===== src/Predicate/Evaluate.antt =====
-- `FieldPath` and `Predicate::evaluate`.
use ketebe_oss.Base.{
  Ordering, Bool, true, false, not, Option, none, some, List, [], ◌∷◌, if◌then◌else◌,
}
use ketebe_oss.Base.Result.{Result, ok, err, ◌>>=◌}
use ketebe_oss.Base.Order.{compare_bytes}
use ketebe_oss.Base.Map.{is_eq}
use ketebe_oss.Core.Values.{Bytes, MetadataValue, Metadata, array, object, nil, cons, empty, entry}
use ketebe_oss.Predicate.Compare.{
  PredicateError, empty_field_path, empty_field_path_segment, value_eq, comparable_order,
}

-- A path is its first segment and the others.
abbrev pub FieldPath : Type 0
FieldPath = Bytes × List Bytes

any_empty : List Bytes → Bool
any_empty [] = false
any_empty ([] ∷ rest) = true
any_empty ((c ∷ cs) ∷ rest) = any_empty rest

-- `FieldPath::new`.
unfoldable pub new_field_path : List Bytes → Result PredicateError FieldPath
unfolding any_empty
new_field_path [] = err empty_field_path
new_field_path (s ∷ rest) =
    if any_empty (s ∷ rest) then err empty_field_path_segment else ok (s, rest)

-- `BTreeMap::get` on metadata.
unfoldable pub get_entry : Bytes → Metadata → Option MetadataValue
get_entry k empty = none
get_entry k (entry j v m) = if is_eq (compare_bytes k j) then some v else get_entry k m

-- The loop of `resolve` over the segments behind the first.
unfoldable pub resolve_from : Option MetadataValue → List Bytes → Option MetadataValue
unfolding get_entry
resolve_from none rest = none
resolve_from (some current) [] = some current
resolve_from (some (object m)) (s ∷ rest) = resolve_from (get_entry s m) rest
resolve_from (some _) (s ∷ rest) = none

unfoldable pub resolve : FieldPath → Metadata → Option MetadataValue
unfolding resolve_from
resolve (first, rest) metadata = resolve_from (get_entry first metadata) rest

mutual
  pub data Predicate : Type 0 where
    eq ne lt lte gt gte contains : FieldPath → MetadataValue → Predicate
    exists : FieldPath → Predicate
    one_of : FieldPath → List MetadataValue → Predicate
    and or : Predicates → Predicate
    negation : Predicate → Predicate

  pub data Predicates : Type 0 where
    no_more : Predicates
    also : Predicate → Predicates → Predicates

abbrev pub is_lt : Ordering → Bool
is_lt Ordering.lt = true
is_lt _ = false

abbrev pub is_gt : Ordering → Bool
is_gt Ordering.gt = true
is_gt _ = false

-- `Option::is_some_and`.
unfoldable pub is_some_and : Option MetadataValue → (MetadataValue → Bool) → Bool
is_some_and none test = false
is_some_and (some v) test = test v

unfoldable pub any_equals : MetadataValue → List MetadataValue → Bool
any_equals value [] = false
any_equals value (candidate ∷ rest) =
    if value_eq candidate value then true else any_equals value rest

unfoldable pub array_contains : MetadataValue → MetadataValue → Bool
array_contains expected (array nil) = false
array_contains expected (array (cons v vs)) =
    if value_eq v expected then true else array_contains expected (array vs)
array_contains expected _ = false

-- `compare`.
unfoldable pub compare_field :
    FieldPath → Metadata → MetadataValue → (Ordering → Bool) → Result PredicateError Bool
compare_field path metadata expected predicate = elim (resolve path metadata) [
  | none ↦ ok false
  | some actual ↦ comparable_order actual expected >>= λ order. ok (predicate order)
]

unfoldable mutual
  unfolding is_some_and any_equals array_contains compare_field

  pub evaluate : Predicate → Metadata → Result PredicateError Bool
  evaluate (eq path expected) metadata =
      ok (is_some_and (resolve path metadata) (λ value. value_eq value expected))
  evaluate (ne path expected) metadata =
      ok (is_some_and (resolve path metadata) (λ value. not (value_eq value expected)))
  evaluate (lt path expected) metadata = compare_field path metadata expected is_lt
  evaluate (lte path expected) metadata = compare_field path metadata expected (λ o. not (is_gt o))
  evaluate (gt path expected) metadata = compare_field path metadata expected is_gt
  evaluate (gte path expected) metadata = compare_field path metadata expected (λ o. not (is_lt o))
  evaluate (exists path) metadata = ok (is_some_and (resolve path metadata) (λ value. true))
  evaluate (one_of path expected) metadata =
      ok (is_some_and (resolve path metadata) (λ value. any_equals value expected))
  evaluate (contains path expected) metadata =
      ok (is_some_and (resolve path metadata) (array_contains expected))
  evaluate (and predicates) metadata = evaluate_all predicates metadata
  evaluate (or predicates) metadata = evaluate_any predicates metadata
  evaluate (negation predicate) metadata = evaluate predicate metadata >>= λ b. ok (not b)

  -- The loop of `And`, and that of `Or`.
  pub evaluate_all : Predicates → Metadata → Result PredicateError Bool
  evaluate_all no_more metadata = ok true
  evaluate_all (also p ps) metadata =
      let rest = evaluate_all ps metadata in
      evaluate p metadata >>= λ b. if b then rest else ok false

  pub evaluate_any : Predicates → Metadata → Result PredicateError Bool
  evaluate_any no_more metadata = ok false
  evaluate_any (also p ps) metadata =
      let rest = evaluate_any ps metadata in
      evaluate p metadata >>= λ b. if b then ok true else rest
