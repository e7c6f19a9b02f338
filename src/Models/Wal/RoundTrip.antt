-- ===== src/Models/Wal/RoundTrip.antt =====
-- The frame of `encode_record`, read back by `decode_record`.
use kafkrs.Prelude.{
  ℕ, ◌+◌, ◌-◌, ◌%◌, ◌<◌, ◌^◌, ◌≡◌, ◌∙◌, List, ◌++◌, arith, length, take, length-append,
  append_assoc, le→ltb, ==_refl,
}
use kafkrs.Prelude.Bytes.{to_le_bytes, from_le_bytes, length-to_le_bytes, from-to_le_bytes}
use kafkrs.Models.Record.{Record}
use kafkrs.Models.Wal.{
  header_after_len, record_body, body_len, slice, decode_body, ok, encode_record, decode_record,
}
use kafkrs.Models.Wal.Body.{
  IsEncodable, slice_skip, take_here, length-record_body, decode_body-record_body,
}

module _ (crc32c : List ℕ → ℕ) (crc_u32 : (bytes : List ℕ) → crc32c bytes < 2 ^ 32) where
  pub length-encode_record : (r : Record) → length (encode_record crc32c r) ≡ body_len r + 8
  unfolding encode_record
  length-encode_record r =
      simp (length-append, length-to_le_bytes, length-record_body) (omega arith)

  abbrev prefix : Record → List ℕ
  prefix r = to_le_bytes 4 (body_len r % 2 ^ 32)

  abbrev trailer : Record → List ℕ
  trailer r = to_le_bytes 4 (crc32c (record_body r))

  encode_record-append :
      (r : Record) (rest : List ℕ)
      → encode_record crc32c r ++ rest ≡ prefix r ++ (record_body r ++ (trailer r ++ rest))
  unfolding encode_record
  encode_record-append r rest = simp append_assoc

  -- The length prefix, the body and the checksum at the front of a buffer.
  pub frame_prefix :
      (r : Record) (rest : List ℕ)
      → body_len r < 2 ^ 32
      → from_le_bytes (take 4 (encode_record crc32c r ++ rest)) ≡ body_len r
  frame_prefix r rest h =
      rw (encode_record-append, take_here (prefix r) _ 4 (length-to_le_bytes 4 _))
        (from-to_le_bytes 4 (body_len r % 2 ^ 32) (omega arith) ∙ omega arith)

  frame_body :
      (r : Record) (rest : List ℕ)
      → slice 4 (4 + body_len r) (encode_record crc32c r ++ rest) ≡ record_body r
  frame_body r rest =
      let z : body_len r - 0 ≡ body_len r = omega arith in
      rw encode_record-append (
        slice_skip (prefix r) _ 4 0 (body_len r) (length-to_le_bytes 4 _)
        ∙ rw z (take_here (record_body r) _ (body_len r) (length-record_body r)))

  frame_crc :
      (r : Record) (rest : List ℕ)
      → from_le_bytes (slice (4 + body_len r) (4 + body_len r + 4) (encode_record crc32c r ++ rest))
        ≡ crc32c (record_body r)
  frame_crc r rest =
      let p : 4 + body_len r + 4 ≡ 4 + (body_len r + 4) = omega arith in
      let q : body_len r + 0 ≡ body_len r = omega arith in
      rw
        (
          encode_record-append,
          p,
          slice_skip (prefix r) (record_body r ++ (trailer r ++ rest)) 4 (body_len r)
              (body_len r + 4) (length-to_le_bytes 4 _),
          rw q at (
              slice_skip (record_body r) (trailer r ++ rest) (body_len r) 0 4
                (length-record_body r)),
          take_here (trailer r) rest 4 (length-to_le_bytes 4 _),
        )
        (from-to_le_bytes 4 (crc32c (record_body r)) (crc_u32 (record_body r)))

  -- What the decoder does at the front of a buffer, once the frame is known to be whole.
  pub decode_record-frame :
      (r : Record) (rest : List ℕ)
      → body_len r < 2 ^ 32
      → decode_record crc32c (encode_record crc32c r ++ rest)
        ≡ decode_body (record_body r) (body_len r) (4 + body_len r + 4)
  unfolding decode_record
  decode_record-frame r rest h =
      let n : length (encode_record crc32c r ++ rest) ≡ body_len r + 8 + length rest =
        simp (length-append, length-encode_record) in
      rw
        (
          frame_prefix r rest h,
          frame_body r rest,
          frame_crc r rest,
          n,
          ==_refl (crc32c (record_body r)),
        )
        (rw (
          le→ltb (body_len r + 8 + length rest) 4 (omega arith),
          le→ltb (body_len r + 8 + length rest) (4 + body_len r + 4) (omega arith),
          le→ltb (body_len r) header_after_len (omega arith),
        ))

  -- Decoding the bytes of an encodable record, whatever bytes follow, gives the record back and
  -- consumes exactly its bytes.
  pub decode-encode :
      (r : Record) (rest : List ℕ)
      → IsEncodable r
      → decode_record crc32c (encode_record crc32c r ++ rest)
        ≡ ok r (length (encode_record crc32c r))
  decode-encode r rest v =
      let n : 4 + body_len r + 4 ≡ length (encode_record crc32c r) =
        omega (arith, length-encode_record r) in
      decode_record-frame r rest v.body_fits
      ∙ decode_body-record_body r v (4 + body_len r + 4)
      ∙ rw n
