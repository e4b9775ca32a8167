-- ===== src/Codec/RoundTrip/Maps.antt =====
-- The map and the array that a reader builds up, one part at a time.
use ketebe_oss.Base.{◌≡◌, refl, ap, Ordering}
use ketebe_oss.Base.Order.{compare_bytes, compare_bytes-IsLawful}
use ketebe_oss.Core.Values.{Bytes, MetadataValue, Values, Metadata, nil, cons, empty, entry}
use ketebe_oss.Codec.Read.{insert_entry, snoc}
use ketebe_oss.Codec.RoundTrip.WellFormed.{KeysAbove, Ascending}

abbrev pub append_values : Values → Values → Values
append_values nil ws = ws
append_values (cons v vs) ws = cons v (append_values vs ws)

pub append-snoc :
    (vs : Values) (v : MetadataValue) (ws : Values)
    → append_values (snoc vs v) ws ≡ append_values vs (cons v ws)
unfolding snoc
append-snoc nil v ws = refl
append-snoc (cons u vs) v ws = ap (cons u) (append-snoc vs v ws)

pub append-nil_values : (vs : Values) → append_values vs nil ≡ vs
append-nil_values nil = refl
append-nil_values (cons v vs) = ap (cons v) (append-nil_values vs)

abbrev pub join : Metadata → Metadata → Metadata
join empty n = n
join (entry k v m) n = entry k v (join m n)

pub join-empty : (m : Metadata) → join m empty ≡ m
join-empty empty = refl
join-empty (entry k v m) = ap (entry k v) (join-empty m)

pub join_assoc : (m n o : Metadata) → join (join m n) o ≡ join m (join n o)
join_assoc empty n o = refl
join_assoc (entry k v m) n o = ap (entry k v) (join_assoc m n o)

KeysAbove-join :
    (j k : Bytes) (v : MetadataValue) (m n : Metadata)
    → KeysAbove j (join m (entry k v n))
    → compare_bytes j k ≡ Ordering.lt
KeysAbove-join j k v empty n h = h.0
KeysAbove-join j k v (entry i w m) n h = KeysAbove-join j k v m n h.1

-- A key above all others goes to the end.
pub insert-last :
    (acc : Metadata) (k : Bytes) (v : MetadataValue) (m : Metadata)
    → Ascending (join acc (entry k v m))
    → insert_entry k v acc ≡ join acc (entry k v empty)
unfolding insert_entry
insert-last empty k v m h = refl
insert-last (entry j w acc) k v m (above, rest) =
    let after = compare_bytes-IsLawful.gt_of_lt j k (KeysAbove-join j k v acc m above) in
    rw (after, insert_entry) (ap (entry j w) (insert-last acc k v m rest))
