-- ===== src/Codec/RoundTrip/Scalars.antt =====
-- Lengths, texts, record ids and vectors.
use ketebe_oss.Base.{
  ℕ, ◌<◌, ◌≡◌, subst, String, List, [], ◌∷◌, ◌++◌, append_assoc, append-nil, length, All, arith,
}
use ketebe_oss.Base.Result.{ok, >>=-eq-ok}
use ketebe_oss.Core.Values.{Bytes, RecordId, string, unsigned, Vector}
use ketebe_oss.Codec.Words.{to_le_bytes, u32_limit, from_le_bytes-to_le_bytes}
use ketebe_oss.Codec.Cursor.{CodecErrors, pure}
use ketebe_oss.Codec.Write.{
  write_len, write_string, write_record_id, write_components, write_vector,
}
use ketebe_oss.Codec.Read.{read_string, read_record_id, read_components, read_vector}
use ketebe_oss.Codec.Reads.{
  Reads, Reads-pure, Reads-bind, Reads-map, Reads-check, Reads-take_bytes, Reads-read_u8,
  Reads-read_u32, Reads-read_u64, Reads-lift, Reads-on, Reads-take_word,
}
use ketebe_oss.Codec.RoundTrip.WellFormed.{IsText, IsRecordId, IsVector}

module _ {E : Type 0} (e : CodecErrors E) where
  pub write_len-eq-ok :
      (n : ℕ) (message : String) {w : Bytes}
      → write_len e n message ≡ ok w
      → (n < u32_limit) × (w ≡ to_le_bytes 4 n)
  unfolding write_len
  write_len-eq-ok n message h = (ground arith, ground arith)

  pub write_string-eq-ok :
      (s : Bytes) {w : Bytes}
      → write_string e s ≡ ok w
      → (length s < u32_limit) × (w ≡ to_le_bytes 4 (length s) ++ s)
  unfolding write_string
  write_string-eq-ok s h = (ground arith, ground arith)

  pub Reads-read_string :
      (s : Bytes) {w : Bytes} → IsText s → write_string e s ≡ ok w → Reads (read_string e) s w
  unfolding read_string
  Reads-read_string s {w} utf8 h =
      let (small, shape) = write_string-eq-ok s h in
      Reads-on _ shape (
        Reads-bind _ (to_le_bytes 4 (length s)) s (Reads-read_u32 e (length s) small)
          (Reads-check _ s (Reads-take_bytes e s) (rw utf8 (Reads-pure s))))

  pub Reads-read_record_id :
      (id : RecordId) {w : Bytes}
      → IsRecordId id
      → write_record_id e id ≡ ok w
      → Reads (read_record_id e) id w
  unfolding read_record_id write_record_id
  Reads-read_record_id (string s) {w} (utf8, accepted) h =
      let (ws, written, shape) = >>=-eq-ok (write_string e s) _ h in
      Reads-on (0 ∷ ws) (cc) (
        Reads-bind _ (0 ∷ []) ws (Reads-read_u8 e 0) (
          Reads-check _ ws (Reads-read_string s utf8 written)
            (Reads-lift e _ (string s) (rw accepted))))
  Reads-read_record_id (unsigned n) {w} small h = Reads-on (1 ∷ to_le_bytes 8 n) (cc) (
      Reads-bind _ (1 ∷ []) (to_le_bytes 8 n) (Reads-read_u8 e 1)
        (Reads-map unsigned (to_le_bytes 8 n) (Reads-read_u64 e n small)))

  Reads-read_components :
      (vs acc : List ℕ)
      → All (λ bits. bits < u32_limit) vs
      → Reads (read_components e (length vs) acc) (acc ++ vs) (write_components vs)
  unfolding read_components write_components
  Reads-read_components [] acc h =
      subst (λ a. Reads (pure a) (acc ++ []) []) (append-nil acc) (Reads-pure (acc ++ []))
  Reads-read_components (v ∷ vs) acc (small, rest) =
      let later : Reads (read_components e (length vs) (acc ++ v ∷ [])) (acc ++ v ∷ vs)
          (write_components vs) =
        rw (← append_assoc acc (v ∷ []) vs) (Reads-read_components vs (acc ++ v ∷ []) rest) in
      Reads-bind _ (to_le_bytes 4 v) (write_components vs) (Reads-take_word e 4 v)
        (rw (from_le_bytes-to_le_bytes 4 v small) later)

  write_vector-eq-ok :
      (v : Vector) {w : Bytes}
      → write_vector e v ≡ ok w
      → (length v < u32_limit) × (w ≡ to_le_bytes 4 (length v) ++ write_components v)
  unfolding write_vector
  write_vector-eq-ok v h = (ground arith, ground arith)

  pub Reads-read_vector :
      (v : Vector) {w : Bytes} → IsVector v → write_vector e v ≡ ok w → Reads (read_vector e) v w
  unfolding read_vector
  Reads-read_vector v {w} wf h =
      let (small, shape) = write_vector-eq-ok v h in
      Reads-on _ shape (
        Reads-bind _ (to_le_bytes 4 (length v)) (write_components v)
          (Reads-read_u32 e (length v) small)
          (Reads-check _ (write_components v) (Reads-read_components v [] wf.words)
            (Reads-lift e _ v (rw wf.finite))))
