-- ===== src/Codec/Write.antt =====
-- The writers of wal.rs and segment.rs. Each returns the bytes that it pushes to `output`.
use ketebe_oss.Base.{
  ℕ, suc, String, Bool, true, false, List, [], ◌∷◌, ◌++◌, length, ltb, if◌then◌else◌,
}
use ketebe_oss.Base.Result.{Result, ok, err, ◌>>=◌}
use ketebe_oss.Core.Values.{
  Bytes, RecordId, Vector, MetadataValue, Values, Metadata, null, bool, number, text, array, object,
  nil, cons, empty, entry,
}
use ketebe_oss.Codec.Words.{to_le_bytes, u32_limit}
use ketebe_oss.Codec.Cursor.{CodecErrors}

-- `Vec::len` and `BTreeMap::len`.
unfoldable pub count_values : Values → ℕ
count_values nil = 0
count_values (cons v vs) = suc (count_values vs)

unfoldable pub count_entries : Metadata → ℕ
count_entries empty = 0
count_entries (entry k v m) = suc (count_entries m)

-- `u8::from`.
abbrev pub from_bool : Bool → ℕ
from_bool true = 1
from_bool false = 0

-- The loop of `write_vector`.
unfoldable pub write_components : List ℕ → Bytes
write_components [] = []
write_components (v ∷ vs) = to_le_bytes 4 v ++ write_components vs

module _ {E : Type 0} (e : CodecErrors E) where
  -- A length as four bytes, if it fits.
  unfoldable pub write_len : ℕ → String → Result E Bytes
  write_len len message =
      if ltb len u32_limit then ok (to_le_bytes 4 len) else err (e.corrupt message)

  unfoldable pub write_string : Bytes → Result E Bytes
  unfolding write_len
  write_string value = do len ← write_len (length value) "string too large"; ok (len ++ value)

  unfoldable pub write_record_id : RecordId → Result E Bytes
  unfolding write_string
  write_record_id (RecordId.string value) = do s ← write_string value; ok (0 ∷ s)
  write_record_id (RecordId.unsigned value) = ok (1 ∷ to_le_bytes 8 value)

  unfoldable pub write_vector : Vector → Result E Bytes
  unfolding write_len write_components
  write_vector v = do len ← write_len (length v) "vector too large"; ok (len ++ write_components v)

  unfoldable mutual
    unfolding write_len write_string count_values count_entries

    pub write_metadata_value : MetadataValue → Result E Bytes
    write_metadata_value null = ok (0 ∷ [])
    write_metadata_value (bool b) = ok (1 ∷ from_bool b ∷ [])
    write_metadata_value (number bits) = ok (2 ∷ to_le_bytes 8 bits)
    write_metadata_value (text s) = do w ← write_string s; ok (3 ∷ w)
    write_metadata_value (array vs) = do
      len ← write_len (count_values vs) "metadata array too large"
      body ← write_values vs
      ok (4 ∷ (len ++ body))
    write_metadata_value (object m) = do
      len ← write_len (count_entries m) "metadata too large"
      body ← write_entries m
      ok (5 ∷ (len ++ body))

    -- The loop over an array.
    pub write_values : Values → Result E Bytes
    write_values nil = ok []
    write_values (cons v vs) = do w ← write_metadata_value v; ws ← write_values vs; ok (w ++ ws)

    -- The loop over a map, in the order of its keys.
    pub write_entries : Metadata → Result E Bytes
    write_entries empty = ok []
    write_entries (entry k v m) = do
      key ← write_string k
      value ← write_metadata_value v
      rest ← write_entries m
      ok (key ++ (value ++ rest))

  unfoldable pub write_metadata : Metadata → Result E Bytes
  unfolding write_metadata_value write_len count_entries
  write_metadata m = do
    len ← write_len (count_entries m) "metadata too large"
    body ← write_entries m
    ok (len ++ body)
