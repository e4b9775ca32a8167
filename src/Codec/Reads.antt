-- ===== src/Codec/Reads.antt =====
-- What it means that a reader reads a value off its bytes, and the rules that compose such readers.
use ketebe_oss.Base.{
  ℕ, ◌+◌, ◌^◌, ◌≤◌, ◌<◌, ◌≡◌, refl, sym, ap, subst, ◌∙◌, [], ◌∷◌, ◌++◌, append_assoc, append-nil,
  length, drop, length-append, length-drop, take-length-append, drop-length-append, drop-drop,
  arith,
}
use ketebe_oss.Base.Result.{Result, ok}
use ketebe_oss.Core.Values.{Bytes}
use ketebe_oss.Codec.Words.{
  to_le_bytes, from_le_bytes, length-to_le_bytes, from_le_bytes-to_le_bytes, usize_limit, u32_limit,
}
use ketebe_oss.Codec.Cursor.{
  CodecErrors, Cursor, new_cursor, Reader, ◌>>=◌, pure, lift, take_bytes, read_u8, read_u32,
  read_u64,
}

-- The cursor stands before `rest`.
pub record At (c : Cursor) (rest : Bytes) : Type 0 where
  pub here : drop c.offset c.bytes ≡ rest
  pub inside : c.offset ≤ length c.bytes
  pub fits : length c.bytes < usize_limit

pub At-length : {c : Cursor} {rest : Bytes} → At c rest → length c.bytes ≡ c.offset + length rest
At-length {c} {rest} h = omega (arith, ap length h.here, length-drop c.offset c.bytes, h.inside)

abbrev pub advance : Cursor → ℕ → Cursor
advance c n = record c { offset = c.offset + n }

pub At-advance :
    {c : Cursor} (xs rest : Bytes) → At c (xs ++ rest) → At (advance c (length xs)) rest
At-advance {c} xs rest h = record {
  here = sym (drop-drop (length xs) c.offset c.bytes) ∙ (rw h.here (drop-length-append xs rest));
  inside = omega (arith, At-length h, length-append xs rest);
  fits = h.fits;
}

pub At-new : (payload : Bytes) → length payload < usize_limit → At (new_cursor payload) payload
At-new payload h = record { here = refl; inside = omega arith; fits = h }

-- On `xs` and anything behind it, `p` returns `v` and stands behind `xs`.
abbrev pub Reads : {E A : Type 0} → Reader E A → A → Bytes → Type 0
Reads p v xs = (c : Cursor) (rest : Bytes) → At c (xs ++ rest) → p c ≡ ok (v, advance c (length xs))

advance-advance : (c : Cursor) (n m : ℕ) → advance (advance c n) m ≡ advance c (n + m)
advance-advance c n m =
    let e : c.offset + n + m ≡ c.offset + (n + m) = omega arith in λ i. record c { offset = e i }

module _ {E A : Type 0} where
  pub Reads-on :
      {p : Reader E A} {a : A} {w : Bytes} (xs : Bytes) → w ≡ xs → Reads p a xs → Reads p a w
  Reads-on {p} {a} xs shape h = subst (Reads p a) (sym shape) h

  pub Reads-pure : (a : A) → Reads {E = E} (pure a) a []
  Reads-pure a c rest h =
      let e : c.offset ≡ c.offset + 0 = omega arith in λ i. ok (a, record c { offset = e i })

module _ {E A B : Type 0} where
  pub Reads-bind :
      {p : Reader E A} (f : A → Reader E B) {a : A} {b : B} (xs ys : Bytes)
      → Reads p a xs
      → Reads (f a) b ys
      → Reads (p >>= f) b (xs ++ ys)
  unfolding ◌>>=◌
  Reads-bind {p} f {a} {b} xs ys hp hf c rest h =
      let h' : At c (xs ++ (ys ++ rest)) = rw (← append_assoc xs ys rest) h in
      rw (hp c (ys ++ rest) h') (
        hf (advance c (length xs)) rest (At-advance xs (ys ++ rest) h')
        ∙ ap (λ k. ok (b, k)) (advance-advance c (length xs) (length ys))
        ∙ ap (λ n. ok (b, advance c n)) (sym (length-append xs ys)))

  -- The last reader of a chain returns without reading.
  pub Reads-map :
      {p : Reader E A} (f : A → B) {a : A} (xs : Bytes)
      → Reads p a xs
      → Reads (p >>= λ x. pure (f x)) (f a) xs
  unfolding ◌>>=◌
  Reads-map {p} f {a} xs hp c rest h = rw (hp c rest h)

  -- A check of what was read, which reads nothing itself.
  pub Reads-check :
      {p : Reader E A} (f : A → Reader E B) {a : A} {b : B} (xs : Bytes)
      → Reads p a xs
      → Reads (f a) b []
      → Reads (p >>= f) b xs
  Reads-check {p} f {a} {b} xs hp hf =
      subst (λ ys. Reads (p >>= f) b ys) (append-nil xs) (Reads-bind f xs [] hp hf)

module _ {E : Type 0} (e : CodecErrors E) where
  pub Reads-take_bytes : (xs : Bytes) → Reads (take_bytes e (length xs)) xs xs
  unfolding take_bytes
  Reads-take_bytes xs c rest h =
      ground (arith, At-length h, length-append xs rest, h.here, h.fits, take-length-append xs rest)

  pub Reads-read_u8 : (b : ℕ) → Reads (read_u8 e) b (b ∷ [])
  unfolding read_u8
  Reads-read_u8 b = Reads-map _ (b ∷ []) (Reads-take_bytes (b ∷ []))

  pub Reads-take_word : (w n : ℕ) → Reads (take_bytes e w) (to_le_bytes w n) (to_le_bytes w n)
  Reads-take_word w n =
      let bs : Bytes = to_le_bytes w n in
      subst (λ k. Reads (take_bytes e k) bs bs) (length-to_le_bytes w n) (Reads-take_bytes bs)

  Reads-word :
      (w n : ℕ)
      → n < 256 ^ w
      → Reads (take_bytes e w >>= λ bs. pure (from_le_bytes bs)) n (to_le_bytes w n)
  Reads-word w n h =
      let bs : Bytes = to_le_bytes w n in
      subst (λ v. Reads (take_bytes e w >>= λ x. pure (from_le_bytes x)) v bs)
        (from_le_bytes-to_le_bytes w n h) (Reads-map from_le_bytes bs (Reads-take_word w n))

  pub Reads-read_u32 : (n : ℕ) → n < u32_limit → Reads (read_u32 e) n (to_le_bytes 4 n)
  unfolding read_u32
  Reads-read_u32 n h = Reads-word 4 n h

  pub Reads-read_u64 : (n : ℕ) → n < 2 ^ 64 → Reads (read_u64 e) n (to_le_bytes 8 n)
  unfolding read_u64
  Reads-read_u64 n h = Reads-word 8 n h

  -- A reader whose value a check accepts.
  pub Reads-lift : {A : Type 0} (r : Result E A) (a : A) → r ≡ ok a → Reads (lift r) a []
  unfolding lift
  Reads-lift r a h = rw (h, lift) (Reads-pure a)
