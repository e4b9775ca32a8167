-- ===== src/Codec/Fuel.antt =====
-- The fuel of `read_metadata_value` and `read_metadata`.
use ketebe_oss.Base.{
  ℕ, zero, suc, ◌+◌, ◌-◌, ◌^◌, ◌≤◌, ◌<◌, ◌≡◌, refl, sym, ◌∙◌, inl, inr, Bool, true, false, length,
  arith, if◌then◌else◌,
}
use ketebe_oss.Base.Result.{Result, ok, err, Result-cases}
use ketebe_oss.Core.Values.{Bytes, MetadataValue, Values, Metadata, empty}
use ketebe_oss.Codec.Cursor.{
  CodecErrors, Cursor, Reader, ◌>>=◌, pure, fail, lift, bind-eq-ok, take_bytes, read_u8, read_u32,
  read_u64,
}
use ketebe_oss.Codec.Read.{
  remaining, read_string, read_values, read_entries, read_map, read_bool, read_tagged_value,
  value_within, snoc, insert_entry, read_metadata_value, read_metadata,
}

-- A position inside an allocation, which Rust keeps below 2 ^ 63 bytes.
pub record IsCursor (c : Cursor) : Type 0 where
  pub inside : c.offset ≤ length c.bytes
  pub fits : length c.bytes < 2 ^ 63

-- The reader goes forward, if at all.
pub record Forward {E A : Type 0} (p : Reader E A) : Type 0 where
  pub keeps :
      (c : Cursor) {a : A} {c' : Cursor}
      → IsCursor c
      → p c ≡ ok (a, c')
      → IsCursor c' × (remaining c' ≤ remaining c)

-- The two readers agree where `n` bytes are left at most.
pub record Same {E A : Type 0} (n : ℕ) (p q : Reader E A) : Type 0 where
  pub at : (c : Cursor) → IsCursor c → remaining c ≤ n → p c ≡ q c

module _ {E A : Type 0} where
  Forward-pure : (a : A) → Forward {E = E} (pure a)
  Forward-pure a = record { keeps = λ c {a = b} {c'} v h. ground arith }

  Forward-fail : (x : E) → Forward {A = A} (fail x)
  Forward-fail x = record { keeps = λ c v h. cc }

  Forward-lift : (r : Result E A) → Forward (lift r)
  unfolding lift
  Forward-lift (ok a) = Forward-pure a
  Forward-lift (err x) = Forward-fail x

  Forward-if : (b : Bool) (p q : Reader E A) → Forward p → Forward q → Forward (if b then p else q)
  Forward-if true p q hp hq = hp
  Forward-if false p q hp hq = hq

module _ {E A B : Type 0} where
  Forward-bind :
      (p : Reader E A) (f : A → Reader E B)
      → Forward p
      → ((a : A) → Forward (f a))
      → Forward (p >>= f)
  Forward-bind p f hp hf = record {
    keeps = λ c v h.
        let (a, c1, e1, e2) = bind-eq-ok p f c h in
        let (v1, less1) = hp.keeps c v e1 in
        let (v2, less2) = (hf a).keeps c1 v1 e2 in (v2, omega (arith, less1, less2));
  }

  Same-bind :
      (n : ℕ) (p q : Reader E A) (f g : A → Reader E B)
      → Forward p
      → Same n p q
      → ((a : A) → Same n (f a) (g a))
      → Same n (p >>= f) (q >>= g)
  unfolding ◌>>=◌
  Same-bind n p q f g hp same later = record {
    at = λ c v small. elim (Result-cases (p c)) [
      | inl ((a, c1), e) ↦
          let (v1, less) = hp.keeps c v e in
          rw (e, sym (same.at c v small) ∙ e) ((later a).at c1 v1 (omega (arith, less, small)))
      | inr (x, e) ↦ rw (e, sym (same.at c v small) ∙ e)
    ];
  }

module _ {E A : Type 0} where
  Same-refl : (n : ℕ) (p : Reader E A) → Same n p p
  Same-refl n p = record { at = λ c v small. refl }

  Same-if :
      (n : ℕ) (b : Bool) (p p' q q' : Reader E A)
      → Same n p p'
      → Same n q q'
      → Same n (if b then p else q) (if b then p' else q')
  Same-if n true p p' q q' hp hq = hp
  Same-if n false p p' q q' hp hq = hq

module _ {E : Type 0} (e : CodecErrors E) where
  -- A read of `k` bytes that succeeds leaves `k` bytes less.
  take_bytes-remaining :
      (k : ℕ) (c : Cursor) {bs : Bytes} {c' : Cursor}
      → IsCursor c
      → take_bytes e k c ≡ ok (bs, c')
      → IsCursor c' × (remaining c' + k ≡ remaining c)
  unfolding take_bytes
  take_bytes-remaining k c v h = ground arith

  Forward-take_bytes : (k : ℕ) → Forward (take_bytes e k)
  Forward-take_bytes k = record {
    keeps = λ c v h. let (v', less) = take_bytes-remaining k c v h in (v', omega (arith, less));
  }

  Forward-read_u8 : Forward (read_u8 e)
  unfolding read_u8
  Forward-read_u8 = Forward-bind _ _ (Forward-take_bytes 1) (λ bs. Forward-pure _)

  Forward-read_u32 : Forward (read_u32 e)
  unfolding read_u32
  Forward-read_u32 = Forward-bind _ _ (Forward-take_bytes 4) (λ bs. Forward-pure _)

  Forward-read_u64 : Forward (read_u64 e)
  unfolding read_u64
  Forward-read_u64 = Forward-bind _ _ (Forward-take_bytes 8) (λ bs. Forward-pure _)

  Forward-read_string : Forward (read_string e)
  unfolding read_string
  Forward-read_string = Forward-bind _ _ Forward-read_u32 (λ len.
      Forward-bind _ _ (Forward-take_bytes len)
        (λ bs. Forward-if _ _ _ (Forward-pure bs) (Forward-fail _)))

  Forward-read_values :
      (p : Reader E MetadataValue) (k : ℕ) (vs : Values)
      → Forward p
      → Forward (read_values e p k vs)
  unfolding read_values
  Forward-read_values p zero vs hp = Forward-pure vs
  Forward-read_values p (suc k) vs hp =
      Forward-bind _ _ hp (λ v. Forward-read_values p k (snoc vs v) hp)

  Forward-read_entries :
      (p : Reader E MetadataValue) (k : ℕ) (m : Metadata)
      → Forward p
      → Forward (read_entries e p k m)
  unfolding read_entries
  Forward-read_entries p zero m hp = Forward-pure m
  Forward-read_entries p (suc k) m hp =
      Forward-bind _ _ Forward-read_string
        (λ key. Forward-bind _ _ hp (λ v. Forward-read_entries p k (insert_entry key v m) hp))

  Forward-read_map : (p : Reader E MetadataValue) → Forward p → Forward (read_map e p)
  unfolding read_map
  Forward-read_map p hp =
      Forward-bind _ _ Forward-read_u32 (λ len. Forward-read_entries p len empty hp)

  Forward-read_bool : (b : ℕ) → Forward (read_bool e b)
  unfolding read_bool
  Forward-read_bool b = search (Forward-pure, Forward-fail, Forward-if)

  ruleset forward_rules = (
    Forward-pure, Forward-fail, Forward-if, Forward-bind, Forward-read_u8, Forward-read_u32,
    Forward-read_u64, Forward-read_string, Forward-read_values, Forward-read_map, Forward-read_bool,
  )

  Forward-read_tagged_value :
      (p : Reader E MetadataValue) (tag : ℕ) → Forward p → Forward (read_tagged_value e p tag)
  unfolding read_tagged_value
  Forward-read_tagged_value p tag hp = search forward_rules depth 12

  Forward-value_within : (f : ℕ) → Forward (value_within e f)
  unfolding value_within
  Forward-value_within zero = Forward-fail _
  Forward-value_within (suc f) =
      Forward-bind _ _ Forward-read_u8
        (λ tag. Forward-read_tagged_value (value_within e f) tag (Forward-value_within f))

  module _ (n : ℕ) (p q : Reader E MetadataValue) (hp : Forward p) (same : Same n p q) where
    Same-read_values : (k : ℕ) (vs : Values) → Same n (read_values e p k vs) (read_values e q k vs)
    unfolding read_values
    Same-read_values zero vs = Same-refl n _
    Same-read_values (suc k) vs = Same-bind n p q _ _ hp same (λ v. Same-read_values k (snoc vs v))

    Same-read_entries :
        (k : ℕ) (m : Metadata) → Same n (read_entries e p k m) (read_entries e q k m)
    unfolding read_entries
    Same-read_entries zero m = Same-refl n _
    Same-read_entries (suc k) m =
        Same-bind n _ _ _ _ Forward-read_string (Same-refl n _)
          (λ key. Same-bind n p q _ _ hp same (λ v. Same-read_entries k (insert_entry key v m)))

    Same-read_map : Same n (read_map e p) (read_map e q)
    unfolding read_map
    Same-read_map =
        Same-bind n _ _ _ _ Forward-read_u32 (Same-refl n _) (λ len. Same-read_entries len empty)

    Same-read_tagged_value :
        (tag : ℕ) → Same n (read_tagged_value e p tag) (read_tagged_value e q tag)
    unfolding read_tagged_value
    Same-read_tagged_value tag =
        search
          (
            Same-refl, Same-if, Same-bind, Same-read_values, Same-read_map, Forward-read_u32,
            Forward-read_values, Forward-read_map,
          )
          depth 12

  read_u8-at_end :
      (c : Cursor) → IsCursor c → remaining c ≤ 0 → read_u8 e c ≡ err (e.corrupt e.unexpected_end)
  unfolding read_u8 take_bytes ◌>>=◌
  read_u8-at_end c v h = ground arith

  read_u8-remaining :
      (c : Cursor) {b : ℕ} {c' : Cursor}
      → IsCursor c
      → read_u8 e c ≡ ok (b, c')
      → IsCursor c' × (remaining c' + 1 ≡ remaining c)
  unfolding read_u8
  read_u8-remaining c v h =
      let (bs, c1, e1, e2) = bind-eq-ok (take_bytes e 1) _ c h in
      let (v1, less) = take_bytes-remaining 1 c v e1 in ground arith

  value_within-Same : (n f g : ℕ) → n ≤ f → n ≤ g → Same n (value_within e f) (value_within e g)
  unfolding value_within ◌>>=◌
  value_within-Same n zero zero hf hg = Same-refl n _
  value_within-Same n zero (suc g) hf hg = record {
    at = λ c v small. rw (read_u8-at_end c v (omega (arith, small, hf)));
  }
  value_within-Same n (suc f) zero hf hg = record {
    at = λ c v small. rw (read_u8-at_end c v (omega (arith, small, hg)));
  }
  value_within-Same n (suc f) (suc g) hf hg = record {
    at = λ c v small. elim (Result-cases (read_u8 e c)) [
      | inl ((tag, c1), got) ↦
          let (v1, less) = read_u8-remaining c v got in
          rw got (
            (Same-read_tagged_value (n - 1) (value_within e f) (value_within e g)
                (Forward-value_within f)
                (value_within-Same (n - 1) f g (omega (arith, hf)) (omega (arith, hg))) tag).at
              c1 v1 (omega (arith, less, small)))
      | inr (x, failed) ↦ rw failed
    ];
  }

  -- At a position inside an allocation, both entry points give the result that any fuel gives
  -- which covers the bytes that are left.
  pub read_metadata-fuel :
      (c : Cursor) (fuel : ℕ)
      → IsCursor c
      → remaining c ≤ fuel
      → (read_metadata_value e c ≡ value_within e fuel c)
        × (read_metadata e c ≡ read_map e (value_within e fuel) c)
  unfolding read_metadata_value read_metadata
  read_metadata-fuel c fuel v enough =
      let same = value_within-Same (remaining c) (remaining c) fuel (omega arith) enough in
      (
        same.at c v (omega arith),
        (Same-read_map (remaining c) _ _ (Forward-value_within _) same).at c v (omega arith),
      )
