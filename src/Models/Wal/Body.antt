-- ===== src/Models/Wal/Body.antt =====
-- The fields of a record's body, cut up again by `decode_body`.
use kafkrs.Prelude.{
  ℕ, zero, suc, ◌+◌, ◌-◌, ◌%◌, ◌<◌, ◌≤◌, ◌^◌, ◌≡◌, refl, ap₂, ◌∙◌, List, [], ◌∷◌, ◌++◌, arith,
  length, take, drop, length-append, take-append, take_all, append_assoc, ==_refl,
}
use kafkrs.Prelude.Int.{IsI64, to_u64, from_u64, to_u64-lt, from_u64-to_u64}
use kafkrs.Prelude.Bytes.{to_le_bytes, from_le_bytes, length-to_le_bytes, from-to_le_bytes}
use kafkrs.Models.Record.{Record}
use kafkrs.Models.Wal.{record_body, body_len, slice, decode_body, ok, err, malformed}

-- What a record must satisfy for its lengths to fit the fields that hold them.
pub record IsEncodable (r : Record) : Type 0 where
  pub offset_fits : IsI64 r.offset
  pub timestamp_fits : IsI64 r.timestamp_ns
  pub schema_fits : r.schema_id < 2 ^ 32
  pub key_fits : length r.key < 2 ^ 16
  pub body_fits : body_len r < 2 ^ 32

module _ {ℓ} {A : Type ℓ} where
  -- A cut that begins behind the first part of an append, and one that is the first part.
  pub slice_skip :
      (xs ys : List A) (n lo hi : ℕ)
      → length xs ≡ n
      → take (n + hi - (n + lo)) (drop (n + lo) (xs ++ ys)) ≡ take (hi - lo) (drop lo ys)
  slice_skip [] ys zero lo hi e = ap₂ (λ j k. take j (drop k ys)) (omega arith) (omega arith)
  slice_skip [] ys (suc n) lo hi e = absurd (omega arith)
  slice_skip (x ∷ xs) ys zero lo hi e = absurd (omega arith)
  slice_skip (x ∷ xs) ys (suc n) lo hi e =
      let p : suc n + lo ≡ suc (n + lo) = omega arith in
      let q : suc n + hi - suc (n + lo) ≡ n + hi - (n + lo) = omega arith in
      rw (p, q) (slice_skip xs ys n lo hi (omega arith))

  pub take_here : (xs ys : List A) (n : ℕ) → length xs ≡ n → take n (xs ++ ys) ≡ xs
  take_here xs ys n e = rw (← e) (take-append xs ys)

pub length-record_body : (r : Record) → length (record_body r) ≡ body_len r
unfolding record_body
length-record_body r = simp (length-append, length-to_le_bytes) (omega arith)

-- The parts of a body by their places.
module _ (r : Record) where
  abbrev off : List ℕ
  off = to_le_bytes 8 (to_u64 r.offset)

  abbrev ts : List ℕ
  ts = to_le_bytes 8 (to_u64 r.timestamp_ns)

  abbrev schema : List ℕ
  schema = to_le_bytes 4 r.schema_id

  abbrev klen : List ℕ
  klen = to_le_bytes 2 (length r.key % 2 ^ 16)

  abbrev vlen : List ℕ
  vlen = to_le_bytes 4 (length r.value % 2 ^ 32)

  skip_off :
      (ys : List ℕ) (lo hi : ℕ)
      → take (8 + hi - (8 + lo)) (drop (8 + lo) (off ++ ys)) ≡ take (hi - lo) (drop lo ys)
  skip_off ys lo hi = slice_skip off ys 8 lo hi (length-to_le_bytes 8 _)

  skip_ts :
      (ys : List ℕ) (lo hi : ℕ)
      → take (8 + hi - (8 + lo)) (drop (8 + lo) (ts ++ ys)) ≡ take (hi - lo) (drop lo ys)
  skip_ts ys lo hi = slice_skip ts ys 8 lo hi (length-to_le_bytes 8 _)

  skip_schema :
      (ys : List ℕ) (lo hi : ℕ)
      → take (4 + hi - (4 + lo)) (drop (4 + lo) (schema ++ ys)) ≡ take (hi - lo) (drop lo ys)
  skip_schema ys lo hi = slice_skip schema ys 4 lo hi (length-to_le_bytes 4 _)

  skip_klen :
      (ys : List ℕ) (lo hi : ℕ)
      → take (2 + hi - (2 + lo)) (drop (2 + lo) (klen ++ ys)) ≡ take (hi - lo) (drop lo ys)
  skip_klen ys lo hi = slice_skip klen ys 2 lo hi (length-to_le_bytes 2 _)

  slice_offset : slice 0 8 (record_body r) ≡ off
  unfolding record_body
  slice_offset = take_here off _ 8 (length-to_le_bytes 8 _)

  slice_timestamp : slice 8 16 (record_body r) ≡ ts
  unfolding record_body
  slice_timestamp = skip_off _ 0 8 ∙ take_here ts _ 8 (length-to_le_bytes 8 _)

  slice-schema : slice 16 20 (record_body r) ≡ schema
  unfolding record_body
  slice-schema = skip_off _ 8 12 ∙ skip_ts _ 0 4 ∙ take_here schema _ 4 (length-to_le_bytes 4 _)

  slice_key_len : slice 20 22 (record_body r) ≡ klen
  unfolding record_body
  slice_key_len =
      skip_off _ 12 14
      ∙ skip_ts _ 4 6
      ∙ skip_schema _ 0 2
      ∙ take_here klen _ 2 (length-to_le_bytes 2 _)

  slice_value_len : slice 22 26 (record_body r) ≡ vlen
  unfolding record_body
  slice_value_len =
      skip_off _ 14 18
      ∙ skip_ts _ 6 10
      ∙ skip_schema _ 2 6
      ∙ skip_klen _ 0 4
      ∙ take_here vlen _ 4 (length-to_le_bytes 4 _)

  abbrev header : List ℕ
  header = off ++ (ts ++ (schema ++ (klen ++ vlen)))

  header_append : (ys : List ℕ) → header ++ ys ≡ off ++ (ts ++ (schema ++ (klen ++ (vlen ++ ys))))
  header_append ys = simp append_assoc

  slice_payload :
      (lo hi : ℕ) → slice (26 + lo) (26 + hi) (record_body r) ≡ slice lo hi (r.key ++ r.value)
  unfolding record_body
  slice_payload lo hi =
      rw (← header_append (r.key ++ r.value))
        (slice_skip header (r.key ++ r.value) 26 lo hi (simp (length-append, length-to_le_bytes)))

  slice_key : slice 26 (26 + length r.key) (record_body r) ≡ r.key
  slice_key =
      let z : length r.key - 0 ≡ length r.key = omega arith in
      slice_payload 0 (length r.key) ∙ rw z (take-append r.key r.value)

  slice_value :
      slice (26 + length r.key) (26 + length r.key + length r.value) (record_body r) ≡ r.value
  slice_value =
      let p : 26 + length r.key + length r.value ≡ 26 + (length r.key + length r.value) =
        omega arith in
      let q : length r.key + 0 ≡ length r.key = omega arith in
      let z : length r.value - 0 ≡ length r.value = omega arith in
      rw p (
        slice_payload (length r.key) (length r.key + length r.value)
        ∙ (rw q at (slice_skip r.key r.value (length r.key) 0 (length r.value) refl))
        ∙ rw z (take_all (length r.value) r.value (omega arith)))

-- A key too long for its 16-bit length field leaves a body that its own lengths contradict.
pub decode_body-oversized :
    (r : Record) (total : ℕ)
    → 2 ^ 16 ≤ length r.key
    → body_len r < 2 ^ 32
    → decode_body (record_body r) (body_len r) total ≡ err malformed
unfolding decode_body
decode_body-oversized r total long fits =
    let k : from_le_bytes (slice 20 22 (record_body r)) ≡ length r.key % 2 ^ 16 =
      rw (slice_key_len r) (from-to_le_bytes 2 (length r.key % 2 ^ 16) (omega arith)) in
    let n : from_le_bytes (slice 22 26 (record_body r)) ≡ length r.value =
      rw (slice_value_len r)
        (from-to_le_bytes 4 (length r.value % 2 ^ 32) (omega arith) ∙ omega arith) in
    rw (k, n) (ground arith)

module _ (r : Record) (v : IsEncodable r) where
  key_len_field : from_le_bytes (slice 20 22 (record_body r)) ≡ length r.key
  key_len_field = rw (slice_key_len r) (
      from-to_le_bytes 2 (length r.key % 2 ^ 16) (omega (arith, v.key_fits))
      ∙ omega (arith, v.key_fits))

  value_len_field : from_le_bytes (slice 22 26 (record_body r)) ≡ length r.value
  value_len_field = rw (slice_value_len r) (
      from-to_le_bytes 4 (length r.value % 2 ^ 32) (omega (arith, v.body_fits))
      ∙ omega (arith, v.body_fits))

  offset_field : from_u64 (from_le_bytes (slice 0 8 (record_body r))) ≡ r.offset
  offset_field =
      rw (slice_offset r, from-to_le_bytes 8 (to_u64 r.offset) (to_u64-lt r.offset))
        (from_u64-to_u64 r.offset v.offset_fits)

  timestamp_field : from_u64 (from_le_bytes (slice 8 16 (record_body r))) ≡ r.timestamp_ns
  timestamp_field =
      rw (slice_timestamp r, from-to_le_bytes 8 (to_u64 r.timestamp_ns) (to_u64-lt r.timestamp_ns))
        (from_u64-to_u64 r.timestamp_ns v.timestamp_fits)

  schema_field : from_le_bytes (slice 16 20 (record_body r)) ≡ r.schema_id
  schema_field = rw (slice-schema r) (from-to_le_bytes 4 r.schema_id v.schema_fits)

  pub decode_body-record_body :
      (total : ℕ) → decode_body (record_body r) (body_len r) total ≡ ok r total
  unfolding decode_body
  decode_body-record_body total =
      rw (key_len_field, value_len_field, offset_field, timestamp_field, schema_field)
        (rw (==_refl (body_len r), slice_key r, slice_value r))
