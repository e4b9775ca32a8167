-- ===== src/Core/Values.antt =====
-- crates/ketebe-core/src: identifiers.rs, vector.rs, metadata.rs, record.rs and error.rs.
-- A `String` is the list of its UTF-8 bytes, and a float is the number that its bits spell.
use ketebe_oss.Base.{
  ℕ, ◌+◌, ◌*◌, ◌/◌, ◌%◌, ◌^◌, Bool, not, ◌&&◌, ◌||◌, List, [], ◌∷◌, ltb, leb, ◌==◌, if◌then◌else◌,
  length,
}
use ketebe_oss.Base.Result.{Result, ok, err}

abbrev pub Bytes : Type 0
Bytes = List ℕ

pub data DomainError : Type 0 where
  empty_record_id empty_collection_id : DomainError
  invalid_collection_id_character : ℕ → ℕ → DomainError
  collection_id_too_long : ℕ → ℕ → DomainError
  non_finite_vector_value : ℕ → DomainError

abbrev pub max_collection_id_len : ℕ
max_collection_id_len = 128

abbrev pub CollectionId : Type 0
CollectionId = Bytes

-- The code point of the first character of a valid UTF-8 text.
first_char : Bytes → ℕ
first_char [] = 0
first_char (a ∷ []) = a
first_char (a ∷ b ∷ []) = (a % 32) * 64 + b % 64
first_char (a ∷ b ∷ c ∷ []) =
    if ltb a 0x80
    then a
    else if ltb a 0xe0
    then (a % 32) * 64 + b % 64
    else (a % 16) * 4096 + (b % 64) * 64 + c % 64
first_char (a ∷ b ∷ c ∷ d ∷ rest) =
    if ltb a 0x80
    then a
    else if ltb a 0xe0
    then (a % 32) * 64 + b % 64
    else if ltb a 0xf0
    then (a % 16) * 4096 + (b % 64) * 64 + c % 64
    else (a % 8) * 262144 + (b % 64) * 4096 + (c % 64) * 64 + d % 64

is_collection_id_character : ℕ → Bool
is_collection_id_character c =
    (leb b'a' c && leb c b'z') || (leb b'0' c && leb c b'9') || c == b'-' || c == b'_'

-- The loop over `char_indices`: every accepted character is one byte long.
check_characters : ℕ → Bytes → Bytes → Result DomainError CollectionId
unfolding first_char is_collection_id_character
check_characters index value [] = ok value
check_characters index value (c ∷ rest) =
    let later = check_characters (index + 1) value rest in
    if is_collection_id_character c
    then later
    else err (invalid_collection_id_character (first_char (c ∷ rest)) index)

-- `CollectionId::new`.
unfoldable pub new_collection_id : Bytes → Result DomainError CollectionId
unfolding check_characters
new_collection_id [] = err empty_collection_id
new_collection_id (c ∷ cs) =
    if ltb max_collection_id_len (length (c ∷ cs))
    then err (collection_id_too_long max_collection_id_len (length (c ∷ cs)))
    else check_characters 0 (c ∷ cs) (c ∷ cs)

pub data RecordId : Type 0 where
  string : Bytes → RecordId
  unsigned : ℕ → RecordId

-- `RecordId::string`.
unfoldable pub string_record_id : Bytes → Result DomainError RecordId
string_record_id [] = err empty_record_id
string_record_id (c ∷ cs) = ok (string (c ∷ cs))

abbrev pub SequenceNumber : Type 0
SequenceNumber = ℕ

-- The bits of the `f32` values.
abbrev pub Vector : Type 0
Vector = List ℕ

-- `f32::is_finite`: the exponent field is not all ones.
unfoldable pub is_finite : ℕ → Bool
is_finite bits = not ((bits / 2 ^ 23) % 2 ^ 8 == 255)

check_finite : ℕ → List ℕ → List ℕ → Result DomainError Vector
unfolding is_finite
check_finite index all [] = ok all
check_finite index all (v ∷ rest) =
    let later = check_finite (index + 1) all rest in
    if is_finite v then later else err (non_finite_vector_value index)

-- `Vector::new`.
unfoldable pub new_vector : List ℕ → Result DomainError Vector
unfolding check_finite
new_vector values = check_finite 0 values values

-- `MetadataValue`; `Metadata` is the ordered map from texts to values, in ascending order.
mutual
  pub data MetadataValue : Type 0 where
    null : MetadataValue
    bool : Bool → MetadataValue
    number : ℕ → MetadataValue
    text : Bytes → MetadataValue
    array : Values → MetadataValue
    object : Metadata → MetadataValue

  pub data Values : Type 0 where
    nil : Values
    cons : MetadataValue → Values → Values

  pub data Metadata : Type 0 where
    empty : Metadata
    entry : Bytes → MetadataValue → Metadata → Metadata

pub record Record : Type 0 where
  pub id : RecordId
  pub vector : Vector
  pub metadata : Metadata
  pub sequence_number : SequenceNumber
