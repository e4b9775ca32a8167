-- ===== src/Codec/Read.antt =====
-- The readers of wal.rs and segment.rs.
use ketebe_oss.Base.{
  ℕ, zero, suc, ◌-◌, Ordering, true, false, List, [], ◌∷◌, ◌++◌, length, ◌==◌, if◌then◌else◌,
}
use ketebe_oss.Base.Result.{map_err}
use ketebe_oss.Base.Order.{compare_bytes}
use ketebe_oss.Core.Values.{
  Bytes, RecordId, Vector, MetadataValue, Values, Metadata, null, bool, number, text, array, object,
  nil, cons, empty, entry, unsigned, string_record_id, new_vector,
}
use ketebe_oss.Core.Utf8.{is_utf8}
use ketebe_oss.Codec.Words.{from_le_bytes}
use ketebe_oss.Codec.Cursor.{
  CodecErrors, Cursor, Reader, ◌>>=◌, pure, fail, lift, take_bytes, read_u8, read_u32, read_u64,
}

-- `BTreeMap::insert` on metadata: the map stays in the order of its keys, and a key that is there
-- gets the new value.
unfoldable pub insert_entry : Bytes → MetadataValue → Metadata → Metadata
insert_entry k v empty = entry k v empty
insert_entry k v (entry j w m) =
    let later = entry j w (insert_entry k v m) in
    elim (compare_bytes k j) [
      | Ordering.lt ↦ entry k v (entry j w m)
      | Ordering.eq ↦ entry k v m
      | Ordering.gt ↦ later
    ]

-- `push` onto the values read so far.
unfoldable pub snoc : Values → MetadataValue → Values
snoc nil v = cons v nil
snoc (cons w ws) v = cons w (snoc ws v)

-- The bytes that are left.
abbrev pub remaining : Cursor → ℕ
remaining c = length c.bytes - c.offset

module _ {E : Type 0} (e : CodecErrors E) where
  unfoldable pub read_string : Reader E Bytes
  read_string = do
    len ← read_u32 e
    bs ← take_bytes e len
    if is_utf8 bs then pure bs else fail (e.corrupt "invalid UTF-8")

  read_tagged_id : ℕ → Reader E RecordId
  unfolding read_string
  read_tagged_id tag =
      if tag == 0
      then (do s ← read_string; lift (map_err e.domain (string_record_id s)))
      else if tag == 1
      then (do n ← read_u64 e; pure (unsigned n))
      else fail (e.corrupt "invalid record id tag")

  unfoldable pub read_record_id : Reader E RecordId
  unfolding read_tagged_id
  read_record_id = do tag ← read_u8 e; read_tagged_id tag

  -- The loop of `read_vector`, over the components read so far.
  unfoldable pub read_components : ℕ → List ℕ → Reader E (List ℕ)
  read_components zero values = pure values
  read_components (suc n) values = do
    bits ← take_bytes e 4
    read_components n (values ++ (from_le_bytes bits ∷ []))

  unfoldable pub read_vector : Reader E Vector
  unfolding read_components
  read_vector = do
    len ← read_u32 e
    values ← read_components len []
    lift (map_err e.domain (new_vector values))

  -- The two loops over the parts of a value, given the reader of a value.
  unfoldable pub read_values : Reader E MetadataValue → ℕ → Values → Reader E Values
  read_values value zero vs = pure vs
  read_values value (suc n) vs = do v ← value; read_values value n (snoc vs v)

  unfoldable pub read_entries : Reader E MetadataValue → ℕ → Metadata → Reader E Metadata
  read_entries value zero m = pure m
  read_entries value (suc n) m = do
    k ← read_string
    v ← value
    read_entries value n (insert_entry k v m)

  unfoldable pub read_map : Reader E MetadataValue → Reader E Metadata
  unfolding read_entries
  read_map value = do len ← read_u32 e; read_entries value len empty

  unfoldable pub read_bool : ℕ → Reader E MetadataValue
  read_bool b =
      if b == 0
      then pure (bool false)
      else if b == 1
      then pure (bool true)
      else fail (e.corrupt "invalid boolean")

  unfoldable pub read_tagged_value : Reader E MetadataValue → ℕ → Reader E MetadataValue
  unfolding read_bool read_string read_values read_map
  read_tagged_value value tag =
      if tag == 0
      then pure null
      else if tag == 1
      then (do b ← read_u8 e; read_bool b)
      else if tag == 2
      then (do bits ← read_u64 e; pure (number bits))
      else if tag == 3
      then (do s ← read_string; pure (text s))
      else if tag == 4
      then (do len ← read_u32 e; vs ← read_values value len nil; pure (array vs))
      else if tag == 5
      then (do m ← read_map value; pure (object m))
      else fail (e.corrupt "invalid metadata tag")

  -- Each nested value takes a byte at least, so the bytes left are fuel enough; a reader without
  -- fuel has no byte left and fails as `read_u8` does there.
  unfoldable pub value_within : ℕ → Reader E MetadataValue
  unfolding read_tagged_value
  value_within zero = fail (e.corrupt e.unexpected_end)
  value_within (suc fuel) = do tag ← read_u8 e; read_tagged_value (value_within fuel) tag

  unfoldable pub read_metadata_value : Reader E MetadataValue
  unfolding value_within
  read_metadata_value c = value_within (remaining c) c

  unfoldable pub read_metadata : Reader E Metadata
  unfolding read_map value_within
  read_metadata c = read_map (value_within (remaining c)) c
