-- ===== src/Core/RecordOrder.antt =====
-- The derived order of `RecordId`: every text is below every number.
use Prim.Native.Nat.{compare}
use Prim.Native.Nat.Ordering.{lt, eq, gt}
use ketebe_oss.Base.{◌≡◌, refl, ap, Ordering, Bool, arith}
use ketebe_oss.Base.Order.{IsLawful, Ord, compare_bytes, compare_bytes-IsLawful}
use ketebe_oss.Base.Map.{is_eq}
use ketebe_oss.Core.Values.{Bytes, RecordId, string, unsigned}

unfoldable pub compare_record_id : RecordId → RecordId → Ordering
compare_record_id (string a) (string b) = compare_bytes a b
compare_record_id (string a) (unsigned n) = lt
compare_record_id (unsigned m) (string b) = gt
compare_record_id (unsigned m) (unsigned n) = compare m n

id_refl : (a : RecordId) → compare_record_id a a ≡ eq
unfolding compare_record_id
id_refl (string a) = compare_bytes-IsLawful.cmp_refl a
id_refl (unsigned n) = ground arith

id-eq : (a b : RecordId) → compare_record_id a b ≡ eq → a ≡ b
unfolding compare_record_id
id-eq (string a) (string b) h = ap string (compare_bytes-IsLawful.eq_of_cmp a b h)
id-eq (string a) (unsigned n) h = cc
id-eq (unsigned m) (string b) h = cc
id-eq (unsigned m) (unsigned n) h = ground arith

id-gt : (a b : RecordId) → compare_record_id a b ≡ gt → compare_record_id b a ≡ lt
unfolding compare_record_id
id-gt (string a) (string b) h = compare_bytes-IsLawful.lt_of_gt a b h
id-gt (string a) (unsigned n) h = cc
id-gt (unsigned m) (string b) h = refl
id-gt (unsigned m) (unsigned n) h = ground arith

id-lt : (a b : RecordId) → compare_record_id a b ≡ lt → compare_record_id b a ≡ gt
unfolding compare_record_id
id-lt (string a) (string b) h = compare_bytes-IsLawful.gt_of_lt a b h
id-lt (string a) (unsigned n) h = refl
id-lt (unsigned m) (string b) h = cc
id-lt (unsigned m) (unsigned n) h = ground arith

id_trans :
    (a b c : RecordId)
    → compare_record_id a b ≡ lt
    → compare_record_id b c ≡ lt
    → compare_record_id a c ≡ lt
unfolding compare_record_id
id_trans (string a) (string b) (string c) h k = compare_bytes-IsLawful.lt_trans a b c h k
id_trans (string a) (string b) (unsigned n) h k = refl
id_trans (string a) (unsigned m) (string c) h k = cc
id_trans (string a) (unsigned m) (unsigned n) h k = refl
id_trans (unsigned l) (string b) c h k = cc
id_trans (unsigned l) (unsigned m) (string c) h k = cc
id_trans (unsigned l) (unsigned m) (unsigned n) h k = ground arith

pub compare_record_id-IsLawful : IsLawful compare_record_id
compare_record_id-IsLawful = record {
  cmp_refl = id_refl;
  eq_of_cmp = id-eq;
  lt_of_gt = id-gt;
  gt_of_lt = id-lt;
  lt_trans = id_trans;
}

instance abbrev pub record_id_ord : Ord RecordId
record_id_ord = record { cmp = compare_record_id; lawful = compare_record_id-IsLawful }

-- `==` on record ids and on collection ids.
abbrev pub same_id : RecordId → RecordId → Bool
same_id a b = is_eq (compare_record_id a b)

abbrev pub same_collection : Bytes → Bytes → Bool
same_collection a b = is_eq (compare_bytes a b)
