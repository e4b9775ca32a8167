-- ===== src/Codec/Cursor.antt =====
-- `Cursor` of wal.rs and segment.rs: a position in a payload, and the readers of words.
use ketebe_oss.Base.{
  ℕ, ◌≡◌, refl, String, Bool, Option, none, some, [], ◌∷◌, length, take, drop, ltb, ◌==◌,
  if◌then◌else◌,
}
use ketebe_oss.Base.Result.{Result, ok, err}
use ketebe_oss.Core.Values.{Bytes, DomainError}
use ketebe_oss.Codec.Words.{checked_add, from_le_bytes}

-- What a file format's error type gives the shared code: its constructor for a corrupt payload,
-- its constructor for a refused domain value, and its message for a payload that ends early.
pub record CodecErrors (E : Type 0) : Type 0 where
  pub corrupt : String → E
  pub domain : DomainError → E
  pub unexpected_end : String

pub record Cursor : Type 0 where
  pub bytes : Bytes
  pub offset : ℕ

abbrev pub new_cursor : Bytes → Cursor
new_cursor payload = record { bytes = payload; offset = 0 }

unfoldable pub is_finished : Cursor → Bool
is_finished c = c.offset == length c.bytes

-- A method of the cursor that may fail.
abbrev pub Reader : Type 0 → Type 0 → Type 0
Reader E A = Cursor → Result E (A × Cursor)

module _ {E A B : Type 0} where
  after_read : (A → Reader E B) → Result E (A × Cursor) → Result E (B × Cursor)
  after_read f (ok (a, c)) = f a c
  after_read f (err e) = err e

  infixl 5 ◌>>=◌
  unfoldable pub ◌>>=◌ : Reader E A → (A → Reader E B) → Reader E B
  unfolding after_read
  ◌>>=◌ m f c = after_read f (m c)

  after_read-eq-ok :
      (f : A → Reader E B) (r : Result E (A × Cursor)) {b : B} {d : Cursor}
      → after_read f r ≡ ok (b, d)
      → (a : A) × (c : Cursor) × (r ≡ ok (a, c)) × (f a c ≡ ok (b, d))
  unfolding after_read
  after_read-eq-ok f (ok (a, c)) h = (a, c, refl, h)
  after_read-eq-ok f (err e) h = cc

  -- Inversion of a chain of readers that succeeds.
  pub bind-eq-ok :
      (p : Reader E A) (f : A → Reader E B) (c : Cursor) {b : B} {d : Cursor}
      → (p >>= f) c ≡ ok (b, d)
      → (a : A) × (c' : Cursor) × (p c ≡ ok (a, c')) × (f a c' ≡ ok (b, d))
  unfolding ◌>>=◌
  bind-eq-ok p f c h = after_read-eq-ok f (p c) h

module _ {E A : Type 0} where
  abbrev pub pure : A → Reader E A
  pure a c = ok (a, c)

  abbrev pub fail : E → Reader E A
  fail e c = err e

  -- A result of plain code, passed on with `?`.
  unfoldable pub lift : Result E A → Reader E A
  lift (ok a) c = ok (a, c)
  lift (err e) c = err e

module _ {E : Type 0} (e : CodecErrors E) where
  end_of : Option ℕ → Result E ℕ
  end_of none = err (e.corrupt "cursor overflow")
  end_of (some end) = ok end

  slice_to : ℕ → Cursor → Result E ℕ → Result E (Bytes × Cursor)
  slice_to len c (err x) = err x
  slice_to len c (ok end) =
      if ltb (length c.bytes) end
      then err (e.corrupt e.unexpected_end)
      else ok (take len (drop c.offset c.bytes), record c { offset = end })

  -- `Cursor::take`.
  unfoldable pub take_bytes : ℕ → Reader E Bytes
  unfolding end_of slice_to checked_add
  take_bytes len c = slice_to len c (end_of (checked_add c.offset len))

  first_byte : Bytes → ℕ
  first_byte [] = 0
  first_byte (b ∷ bs) = b

  unfoldable pub read_u8 : Reader E ℕ
  unfolding first_byte
  read_u8 = do bs ← take_bytes 1; pure (first_byte bs)

  unfoldable pub read_u32 : Reader E ℕ
  unfolding from_le_bytes
  read_u32 = do bs ← take_bytes 4; pure (from_le_bytes bs)

  unfoldable pub read_u64 : Reader E ℕ
  unfolding from_le_bytes
  read_u64 = do bs ← take_bytes 8; pure (from_le_bytes bs)
