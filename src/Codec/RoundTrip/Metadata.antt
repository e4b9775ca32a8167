-- ===== src/Codec/RoundTrip/Metadata.antt =====
-- Metadata of any depth.
use ketebe_oss.Base.{
  ℕ, zero, suc, ◌+◌, ◌<◌, ◌≤◌, ◌≡◌, refl, sym, ap, ◌∙◌, String, true, false, [], ◌∷◌, ◌++◌, length,
  length-append, arith, subst, ◌-◌,
}
use ketebe_oss.Base.Result.{Result, ok, err, ◌>>=◌, >>=-eq-ok}
use ketebe_oss.Core.Values.{
  Bytes, MetadataValue, Values, Metadata, null, bool, number, text, array, object, nil, cons, empty,
  entry,
}
use ketebe_oss.Codec.Words.{to_le_bytes, u32_limit}
use ketebe_oss.Codec.Cursor.{CodecErrors, Reader}
use ketebe_oss.Codec.Write.{
  write_len, write_string, write_metadata_value, write_values, write_entries, write_metadata,
  count_values, count_entries,
}
use ketebe_oss.Codec.Read.{
  value_within, read_tagged_value, read_values, read_entries, read_map, read_metadata, read_bool,
  snoc, insert_entry,
}
use ketebe_oss.Codec.Reads.{
  Reads, Reads-on, Reads-pure, Reads-bind, Reads-map, Reads-read_u8, Reads-read_u32, Reads-read_u64,
  At-length,
}
use ketebe_oss.Codec.RoundTrip.WellFormed.{IsValue, IsValues, IsEntries, IsMetadata, Ascending}
use ketebe_oss.Codec.RoundTrip.Scalars.{Reads-read_string}
use ketebe_oss.Codec.RoundTrip.Maps.{
  append_values, append-snoc, append-nil_values, join, join-empty, join_assoc, insert-last,
}

module _ {E : Type 0} (e : CodecErrors E) where
  -- A length and a body.
  counted :
      (n : ℕ) (message : String) (body : Result E Bytes) (tag : Bytes) {w : Bytes}
      → (write_len e n message >>= λ len. body >>= λ b. ok (tag ++ (len ++ b))) ≡ ok w
      → (n < u32_limit) × ((b : Bytes) × (body ≡ ok b) × (w ≡ tag ++ (to_le_bytes 4 n ++ b)))
  unfolding write_len
  counted n message (ok b) tag h = (ground arith, (b, refl, ground arith))
  counted n message (err x) tag h = ground arith

  -- A value whose tag is read, and then the rest of it with one unit of fuel less.
  tagged :
      (v : MetadataValue) (tag : ℕ) (body : Bytes) {w : Bytes}
      → w ≡ tag ∷ body
      → ((f : ℕ) → length body ≤ f → Reads (read_tagged_value e (value_within e f) tag) v body)
      → (f : ℕ) → length w ≤ f
      → Reads (value_within e f) v w
  unfolding value_within
  tagged v tag body shape rest zero h = absurd (omega (arith, ap length shape))
  tagged v tag body shape rest (suc f) h =
      Reads-on (tag ∷ body) shape (
        Reads-bind _ (tag ∷ []) body (Reads-read_u8 e tag)
          (rest f (omega (arith, ap length shape))))

  Reads-map_of :
      (p : Reader E MetadataValue) (m : Metadata) (body : Bytes)
      → count_entries m < u32_limit
      → Reads (read_entries e p (count_entries m) empty) m body
      → Reads (read_map e p) m (to_le_bytes 4 (count_entries m) ++ body)
  unfolding read_map
  Reads-map_of p m body small h =
      Reads-bind _ (to_le_bytes 4 (count_entries m)) body (Reads-read_u32 e _ small) h

  mutual
    unfolding write_metadata_value read_tagged_value read_values read_entries read_bool

    Reads-value :
        (v : MetadataValue) {w : Bytes}
        → IsValue v
        → write_metadata_value e v ≡ ok w
        → (f : ℕ) → length w ≤ f
        → Reads (value_within e f) v w
    Reads-value null wf h = tagged null 0 [] (cc) (λ f _. Reads-pure null)
    Reads-value (bool true) wf h =
        tagged (bool true) 1 (1 ∷ []) (cc)
          (λ f _. Reads-bind _ (1 ∷ []) [] (Reads-read_u8 e 1) (Reads-pure (bool true)))
    Reads-value (bool false) wf h =
        tagged (bool false) 1 (0 ∷ []) (cc)
          (λ f _. Reads-bind _ (0 ∷ []) [] (Reads-read_u8 e 0) (Reads-pure (bool false)))
    Reads-value (number bits) wf h =
        tagged (number bits) 2 (to_le_bytes 8 bits) (cc)
          (λ f _. Reads-map number (to_le_bytes 8 bits) (Reads-read_u64 e bits wf))
    Reads-value (text s) wf h =
        let (ws, written, shape) = >>=-eq-ok (write_string e s) _ h in
        tagged (text s) 3 ws (cc) (λ f _. Reads-map text ws (Reads-read_string e s wf written))
    Reads-value (array vs) wf h =
        let (small, (body, written, shape)) =
          counted (count_values vs) "metadata array too large" (write_values e vs) (4 ∷ []) h in
        tagged (array vs) 4 (to_le_bytes 4 (count_values vs) ++ body) shape (λ f enough.
          Reads-bind _ (to_le_bytes 4 (count_values vs)) body (Reads-read_u32 e _ small) (
            Reads-map array body (
              Reads-values vs nil wf written f
                (omega (arith, enough, length-append (to_le_bytes 4 (count_values vs)) body)))))
    Reads-value (object m) wf h =
        let (small, (body, written, shape)) =
          counted (count_entries m) "metadata too large" (write_entries e m) (5 ∷ []) h in
        tagged (object m) 5 (to_le_bytes 4 (count_entries m) ++ body) shape (λ f enough.
          Reads-map object (to_le_bytes 4 (count_entries m) ++ body) (
            Reads-map_of (value_within e f) m body small (
              Reads-entries m empty wf.0 wf.1 written f
                (omega (arith, enough, length-append (to_le_bytes 4 (count_entries m)) body)))))

    Reads-values :
        (vs acc : Values) {w : Bytes}
        → IsValues vs
        → write_values e vs ≡ ok w
        → (f : ℕ) → length w ≤ f
        → Reads (read_values e (value_within e f) (count_values vs) acc) (append_values acc vs) w
    Reads-values nil acc {w} wf h f enough =
        Reads-on [] (cc) (rw (append-nil_values acc) (Reads-pure acc))
    Reads-values (cons v vs) acc {w} wf h f enough =
        let (a, wrote_value, h') = >>=-eq-ok (write_metadata_value e v) _ h in
        let (b, wrote_rest, shape) = >>=-eq-ok (write_values e vs) _ h' in
        let parts : w ≡ a ++ b = cc in
        let sizes : length w ≡ length a + length b = ap length parts ∙ length-append a b in
        Reads-on (a ++ b) parts (
          Reads-bind _ a b (Reads-value v wf.0 wrote_value f (omega (arith, sizes, enough))) (
            rw (← append-snoc acc v vs)
              (Reads-values vs (snoc acc v) wf.1 wrote_rest f (omega (arith, sizes, enough)))))

    Reads-entries :
        (m acc : Metadata) {w : Bytes}
        → Ascending (join acc m)
        → IsEntries m
        → write_entries e m ≡ ok w
        → (f : ℕ) → length w ≤ f
        → Reads (read_entries e (value_within e f) (count_entries m) acc) (join acc m) w
    Reads-entries empty acc {w} up wf h f enough =
        Reads-on [] (cc) (rw (join-empty acc) (Reads-pure acc))
    Reads-entries (entry k v m) acc {w} up wf h f enough =
        let (a, wrote_key, h') = >>=-eq-ok (write_string e k) _ h in
        let (b, wrote_value, h'') = >>=-eq-ok (write_metadata_value e v) _ h' in
        let (c, wrote_rest, shape) = >>=-eq-ok (write_entries e m) _ h'' in
        let parts : w ≡ a ++ (b ++ c) = cc in
        let sizes : length w ≡ length a + (length b + length c) =
          ap length parts ∙ length-append a (b ++ c) ∙ ap (λ n. length a + n) (length-append b c) in
        let next : insert_entry k v acc ≡ join acc (entry k v empty) = insert-last acc k v m up in
        let grown : join (insert_entry k v acc) m ≡ join acc (entry k v m) =
          ap (λ n. join n m) next ∙ join_assoc acc (entry k v empty) m in
        Reads-on (a ++ (b ++ c)) parts (
          Reads-bind _ a (b ++ c) (Reads-read_string e k wf.0 wrote_key) (
            Reads-bind _ b c (Reads-value v wf.1 wrote_value f (omega (arith, sizes, enough))) (
              subst
                (λ n.
                  Reads (read_entries e (value_within e f) (count_entries m) (insert_entry k v acc))
                    n c)
                grown
                (Reads-entries m (insert_entry k v acc) (subst Ascending (sym grown) up) wf.2
                  wrote_rest f (omega (arith, sizes, enough))))))

  pub Reads-read_metadata :
      (m : Metadata) {w : Bytes}
      → IsMetadata m
      → write_metadata e m ≡ ok w
      → Reads (read_metadata e) m w
  unfolding read_metadata write_metadata
  Reads-read_metadata m {w} wf h c rest at =
      let (small, (body, written, shape)) =
        counted (count_entries m) "metadata too large" (write_entries e m) [] h in
      let bound : length body ≤ length c.bytes - c.offset = omega (
        arith,
        At-length at,
        length-append w rest,
        ap length shape,
        length-append (to_le_bytes 4 (count_entries m)) body,
      ) in
      Reads-on _ shape
        (Reads-map_of (value_within e (length c.bytes - c.offset)) m body small
          (Reads-entries m empty wf.0 wf.1 written _ bound))
        c rest at
