-- ===== src/Models/Wal/Torn.antt =====
-- A file that ends inside a record, and a record that its frame cannot hold.
use kafkrs.Prelude.{
  ℕ, zero, suc, ◌+◌, ◌-◌, ◌<◌, ◌≤◌, ◌^◌, ◌≡◌, refl, sym, ◌∙◌, true, inl, inr, some, List, [], ◌∷◌,
  ◌++◌, arith, length, take, All, All-append, append_assoc, append-nil, length-take, take-append_le,
  take-append_ge, take-nil, take-take_le, ltb, lt→ltb, ltb→lt, ltb→le, Bool-cases,
}
use kafkrs.Models.Record.{Record}
use kafkrs.Models.Wal.{
  incomplete, malformed, body_len, err, encode_record, encode_batch, decode_record, scan_wal,
}
use kafkrs.Models.Wal.Body.{IsEncodable, decode_body-oversized}
use kafkrs.Models.Wal.RoundTrip.{length-encode_record, frame_prefix, decode_record-frame}
use kafkrs.Models.Wal.Scan.{encode_batch-append, scan-encode_batch}

module _ (crc32c : List ℕ → ℕ) (crc_u32 : (bytes : List ℕ) → crc32c bytes < 2 ^ 32) where
  pub decode-nil : decode_record crc32c [] ≡ err incomplete
  unfolding decode_record
  decode-nil = refl

  -- A record cut short never decodes.
  pub decode-torn :
      (r : Record) (k : ℕ)
      → body_len r < 2 ^ 32
      → k < length (encode_record crc32c r)
      → decode_record crc32c (take k (encode_record crc32c r)) ≡ err incomplete
  unfolding decode_record
  decode-torn r k fits short =
      let n : length (take k (encode_record crc32c r)) ≡ k =
        omega (arith, length-take k (encode_record crc32c r)) in
      let size = length-encode_record crc32c crc_u32 r in
      elim (Bool-cases (ltb k 4)) [
        | inl few ↦ rw (n, few)
        | inr enough ↦ rw (
          n,
          enough,
          take-take_le 4 k (encode_record crc32c r) (ltb→le k 4 enough),
          rw append-nil at (frame_prefix crc32c crc_u32 r [] fits),
          lt→ltb k (4 + body_len r + 4) (omega arith),
        )
      ]

  -- A prefix of a batch is some whole records and a rest that does not decode.
  record Cut (rs : List Record) (k : ℕ) : Type 0 where
    whole : ℕ
    rest : List ℕ
    parts : take k (encode_batch crc32c rs) ≡ encode_batch crc32c (take whole rs) ++ rest
    torn : decode_record crc32c rest ≡ err incomplete

  cut : (rs : List Record) (k : ℕ) → All IsEncodable rs → Cut rs k
  unfolding encode_batch
  cut [] k v = record { whole = 0; rest = []; parts = take-nil k; torn = decode-nil }
  cut (r ∷ rs) k v = elim (Bool-cases (ltb k (length (encode_record crc32c r)))) [
    | inl inside ↦ record {
      whole = 0;
      rest = take k (encode_record crc32c r);
      parts = take-append_le k (encode_record crc32c r) (encode_batch crc32c rs) (ltb→le' inside);
      torn = decode-torn r k v.0.body_fits (ltb→lt k _ inside);
    }
    | inr beyond ↦
        let c : Cut rs (k - length (encode_record crc32c r)) = cut rs _ v.1 in
        record {
          whole = suc c.whole;
          rest = c.rest;
          parts =
              take-append_ge k (encode_record crc32c r) (encode_batch crc32c rs) (ltb→le k _ beyond)
              ∙ rw c.parts (sym (append_assoc (encode_record crc32c r) _ _));
          torn = c.torn;
        }
  ]
    where
      ltb→le' : ltb k (length (encode_record crc32c r)) ≡ true → k ≤ length (encode_record crc32c r)
      ltb→le' h = omega (arith, ltb→lt k (length (encode_record crc32c r)) h)

  pub All-take : (n : ℕ) (rs : List Record) → All IsEncodable rs → All IsEncodable (take n rs)
  All-take zero rs v = tt
  All-take (suc n) [] v = tt
  All-take (suc n) (r ∷ rs) v = (v.0, All-take n rs v.1)

  -- A crash in the middle of a group commit of encodable records, after any number of its bytes,
  -- leaves a file on which the scan finds every encodable record that was in it before, and of the
  -- group only its first records.
  pub scan-torn_commit :
      (old group : List Record) (k : ℕ)
      → All IsEncodable old
      → All IsEncodable group
      → (j : ℕ) × (scan_wal crc32c (encode_batch crc32c old ++ take k (encode_batch crc32c group))
          ≡ some (old ++ take j group, length (encode_batch crc32c (old ++ take j group))))
  scan-torn_commit old group k vo vg =
      let c : Cut group k = cut group k vg in
      let whole = take c.whole group in
      let regroup : encode_batch crc32c old ++ take k (encode_batch crc32c group)
          ≡ encode_batch crc32c (old ++ whole) ++ c.rest =
        rw (c.parts, encode_batch-append crc32c crc_u32 old whole)
          (sym (append_assoc (encode_batch crc32c old) (encode_batch crc32c whole) c.rest)) in
      (
        c.whole,
        rw regroup (
            scan-encode_batch crc32c crc_u32 (old ++ whole) c.rest incomplete
              (All-append IsEncodable old whole vo (All-take c.whole group vg)) c.torn),
      )

  -- A record whose key has 65536 bytes or more is written with a wrong length field: the decoder
  -- refuses it wherever it stands, with a right checksum.
  pub decode-oversized :
      (r : Record) (rest : List ℕ)
      → 2 ^ 16 ≤ length r.key
      → body_len r < 2 ^ 32
      → decode_record crc32c (encode_record crc32c r ++ rest) ≡ err malformed
  decode-oversized r rest long fits =
      decode_record-frame crc32c crc_u32 r rest fits ∙ decode_body-oversized r _ long fits

  -- Behind encodable records, a record with a key of 65536 bytes or more, whose body fits 32 bits,
  -- is where the scan stops: it drops the record and every one behind it.
  pub scan-oversized :
      (old later : List Record) (r : Record)
      → All IsEncodable old
      → 2 ^ 16 ≤ length r.key
      → body_len r < 2 ^ 32
      → scan_wal crc32c (encode_batch crc32c (old ++ r ∷ later))
        ≡ some (old, length (encode_batch crc32c old))
  unfolding encode_batch
  scan-oversized old later r v long fits = rw (encode_batch-append crc32c crc_u32 old (r ∷ later)) (
      scan-encode_batch crc32c crc_u32 old _ malformed v
        (decode-oversized r (encode_batch crc32c later) long fits))
