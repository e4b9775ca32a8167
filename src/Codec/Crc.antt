-- ===== src/Codec/Crc.antt =====
-- `crc32`, which wal.rs, segment.rs and checkpoint.rs each define with the same loops.
use Prim.Native.Nat.{bit_and, bit_xor}
use ketebe_oss.Base.{ℕ, zero, suc, ◌-◌, ◌/◌, ◌%◌, ◌<◌, ◌≡◌, refl, List, [], ◌∷◌, arith}
use ketebe_oss.Codec.Words.{u32_limit}

-- `u32::wrapping_neg`.
abbrev wrapping_neg : ℕ → ℕ
wrapping_neg x = (u32_limit - x) % u32_limit

crc_bit : ℕ → ℕ
crc_bit crc = bit_xor (crc / 2) (bit_and 0xedb88320 (wrapping_neg (bit_and crc 1)))

crc_bits : ℕ → ℕ → ℕ
unfolding crc_bit
crc_bits zero crc = crc
crc_bits (suc rounds) crc = crc_bits rounds (crc_bit crc)

crc_bytes : ℕ → List ℕ → ℕ
unfolding crc_bits
crc_bytes crc [] = crc
crc_bytes crc (byte ∷ bytes) = crc_bytes (crc_bits 8 (bit_xor crc byte)) bytes

-- `!crc` on a `u32` is its distance from the largest one.
unfoldable pub crc32 : List ℕ → ℕ
unfolding crc_bytes
crc32 bytes = 0xffffffff - crc_bytes 0xffffffff bytes

pub crc32-lt : (bytes : List ℕ) → crc32 bytes < u32_limit
unfolding crc32
crc32-lt bytes = omega arith

-- The published check value of CRC-32, for the text "123456789".
crc32_check : crc32 (b'1' ∷ b'2' ∷ b'3' ∷ b'4' ∷ b'5' ∷ b'6' ∷ b'7' ∷ b'8' ∷ b'9' ∷ []) ≡ 0xcbf43926
unfolding crc32
crc32_check = refl
