-- ===== src/Codec/Envelope.antt =====
-- The 20 bytes before the payload of a segment file and of a checkpoint file: `encode_segment` and
-- `decode_segment` of segment.rs, `encode_checkpoint` and `decode_checkpoint` of checkpoint.rs.
use ketebe_oss.Base.{
  ℕ, ◌+◌, ◌<◌, ◌≡◌, refl, true, false, [], ◌∷◌, ◌++◌, length, take, drop, ltb, ◌==◌, if◌then◌else◌,
  arith, not, ==_refl,
}
use ketebe_oss.Base.Result.{Result, ok, err, ◌>>=◌}
use ketebe_oss.Base.Order.{compare_bytes, compare_bytes-IsLawful}
use ketebe_oss.Base.Map.{is_eq}
use ketebe_oss.Core.Values.{Bytes}
use ketebe_oss.Codec.Words.{to_le_bytes, from_le_bytes, usize_limit, from_le_bytes-to_le_bytes}
use ketebe_oss.Codec.Crc.{crc32, crc32-lt}

-- What the two formats differ in: the magic, the version, the sum of the header's length and the
-- payload's, and the errors.
pub record Format (E : Type 0) : Type 0 where
  pub magic : ℕ × ℕ × ℕ × ℕ
  pub version : ℕ
  pub expected_len : ℕ → Result E ℕ
  pub truncated_header : E
  pub invalid_magic : E
  pub length_mismatch : E
  pub checksum_mismatch : E
  pub unsupported_version : ℕ → E

abbrev pub envelope_header_len : ℕ
envelope_header_len = 20

-- The little-endian word of `w` bytes at position `i`.
unfoldable pub field : ℕ → ℕ → Bytes → ℕ
unfolding from_le_bytes
field w i bytes = from_le_bytes (take w (drop i bytes))

-- A `[u8; 4]` as a slice.
abbrev magic_bytes : ℕ × ℕ × ℕ × ℕ → Bytes
magic_bytes (a, b, c, d) = a ∷ b ∷ c ∷ d ∷ []

module _ {E : Type 0} (f : Format E) where
  -- The header and the payload behind it.
  unfoldable pub seal : Bytes → Bytes
  unfolding to_le_bytes
  seal payload =
      magic_bytes f.magic
      ++ (f.version
          ∷ 0
          ∷ 0
          ∷ 0
          ∷ (to_le_bytes 8 (length payload) ++ (to_le_bytes 4 (crc32 payload) ++ payload)))

  -- The checks of the header, in their order; the payload is what they return.
  unfoldable pub unseal : Bytes → Result E Bytes
  unfolding field
  unseal bytes =
      if ltb (length bytes) envelope_header_len
      then err f.truncated_header
      else if not (is_eq (compare_bytes (take 4 bytes) (magic_bytes f.magic)))
      then err f.invalid_magic
      else if not (field 1 4 bytes == f.version)
      then err (f.unsupported_version (field 1 4 bytes))
      else (f.expected_len (field 8 8 bytes) >>= λ expected.
          if not (length bytes == expected)
          then err f.length_mismatch
          else if not (crc32 (drop envelope_header_len bytes) == field 4 16 bytes)
          then err f.checksum_mismatch
          else ok (drop envelope_header_len bytes))

-- The payload of a file comes back from its envelope.
module _ {E : Type 0} (f : Format E) where
  pub length-seal :
      (payload : Bytes) → length (seal f payload) ≡ envelope_header_len + length payload
  unfolding seal to_le_bytes
  length-seal payload = omega arith

  seal-version : (payload : Bytes) → field 1 4 (seal f payload) ≡ f.version
  unfolding seal field from_le_bytes
  seal-version payload = omega arith

  seal-len :
      (payload : Bytes) → length payload < usize_limit → field 8 8 (seal f payload) ≡ length payload
  unfolding seal field to_le_bytes
  seal-len payload h = from_le_bytes-to_le_bytes 8 (length payload) h

  seal-crc : (payload : Bytes) → field 4 16 (seal f payload) ≡ crc32 payload
  unfolding seal field to_le_bytes
  seal-crc payload = from_le_bytes-to_le_bytes 4 (crc32 payload) (crc32-lt payload)

  seal-magic :
      (payload : Bytes)
      → is_eq (compare_bytes (take 4 (seal f payload)) (magic_bytes f.magic)) ≡ true
  unfolding seal
  seal-magic payload = rw (compare_bytes-IsLawful.cmp_refl (magic_bytes f.magic))

  seal-payload : (payload : Bytes) → drop envelope_header_len (seal f payload) ≡ payload
  unfolding seal to_le_bytes
  seal-payload payload = refl

  pub unseal-seal :
      (payload : Bytes)
      → length payload < usize_limit
      → f.expected_len (length payload) ≡ ok (envelope_header_len + length payload)
      → unseal f (seal f payload) ≡ ok payload
  unfolding unseal
  unseal-seal payload small fits =
      let long : ltb (length (seal f payload)) envelope_header_len ≡ false =
        rw (length-seal payload) (ground arith) in
      rw (
        long,
        seal-magic payload,
        seal-version payload,
        ==_refl f.version,
        seal-len payload small,
        fits,
        length-seal payload,
        ==_refl (envelope_header_len + length payload),
        seal-crc payload,
        seal-payload payload,
        ==_refl (crc32 payload),
      )
