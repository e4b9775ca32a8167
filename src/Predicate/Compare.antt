-- ===== src/Predicate/Compare.antt =====
-- Comparisons of metadata values. A number is the bits of an `f64`, compared as IEEE 754 says.
use Prim.Native.Nat.{compare}
use ketebe_oss.Base.{
  ℕ, ◌+◌, ◌-◌, ◌/◌, ◌%◌, ◌^◌, Ordering, String, Bool, true, false, not, ◌&&◌, ◌||◌, Option, none,
  some, ltb, ◌==◌, if◌then◌else◌,
}
use ketebe_oss.Base.Result.{Result, ok, err}
use ketebe_oss.Base.Order.{compare_bytes}
use ketebe_oss.Base.Map.{is_eq}
use ketebe_oss.Core.Values.{
  MetadataValue, Values, Metadata, null, bool, number, text, array, object, nil, cons, empty, entry,
}

-- Not a number: the exponent field is all ones and the fraction is not zero.
is_nan : ℕ → Bool
is_nan bits = (bits / 2 ^ 52) % 2 ^ 11 == 2047 && not (bits % 2 ^ 52 == 0)

-- A number's place in the order of all numbers: both zeros stand at the same place.
place : ℕ → ℕ
place bits = if ltb bits (2 ^ 63) then 2 ^ 63 + bits else 2 ^ 63 - bits % 2 ^ 63

-- `f64::partial_cmp`.
unfoldable pub partial_cmp : ℕ → ℕ → Option Ordering
unfolding is_nan place
partial_cmp left right =
    if is_nan left || is_nan right then none else some (compare (place left) (place right))

-- `==` on `f64`.
number_eq : ℕ → ℕ → Bool
unfolding partial_cmp
number_eq left right = elim (partial_cmp left right) [ some order ↦ is_eq order | none ↦ false ]

bool_eq : Bool → Bool → Bool
bool_eq true b = b
bool_eq false b = not b

-- The derived `==`.
unfoldable mutual
  unfolding number_eq bool_eq

  pub value_eq : MetadataValue → MetadataValue → Bool
  value_eq null null = true
  value_eq (bool a) (bool b) = bool_eq a b
  value_eq (number a) (number b) = number_eq a b
  value_eq (text a) (text b) = is_eq (compare_bytes a b)
  value_eq (array vs) (array ws) = values_eq vs ws
  value_eq (object m) (object n) = entries_eq m n
  value_eq _ _ = false

  pub values_eq : Values → Values → Bool
  values_eq nil nil = true
  values_eq (cons v vs) (cons w ws) = value_eq v w && values_eq vs ws
  values_eq _ _ = false

  pub entries_eq : Metadata → Metadata → Bool
  entries_eq empty empty = true
  entries_eq (entry k v m) (entry j w n) =
      is_eq (compare_bytes k j) && value_eq v w && entries_eq m n
  entries_eq _ _ = false

pub data PredicateError : Type 0 where
  empty_field_path empty_field_path_segment : PredicateError
  invalid_ordering_comparison : String → String → PredicateError

unfoldable pub value_kind : MetadataValue → String
value_kind null = "null"
value_kind (bool b) = "bool"
value_kind (number n) = "number"
value_kind (text s) = "string"
value_kind (array vs) = "array"
value_kind (object m) = "object"

unfoldable pub comparable_order : MetadataValue → MetadataValue → Result PredicateError Ordering
unfolding partial_cmp value_kind
comparable_order (number left) (number right) = elim (partial_cmp left right) [
  | some order ↦ ok order
  | none ↦ err (invalid_ordering_comparison "number" "number")
]
comparable_order (text left) (text right) = ok (compare_bytes left right)
comparable_order actual expected =
    err (invalid_ordering_comparison (value_kind actual) (value_kind expected))
