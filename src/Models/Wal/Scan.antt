-- ===== src/Models/Wal/Scan.antt =====
-- What `scan_wal` finds in a file of whole records with anything behind them.
use kafkrs.Prelude.{
  ℕ, zero, suc, ◌+◌, ◌<◌, ◌≤◌, ◌^◌, ◌≡◌, refl, ap, ap₂, ◌∙◌, inl, inr, some, List, [], ◌∷◌, ◌++◌,
  arith, length, drop, All, length-append, append_assoc, append-nil, drop-append, ltb, lt→ltb,
  Bool-cases,
}
use kafkrs.Models.Record.{Record}
use kafkrs.Models.Wal.{
  WalDecodeError, ok, err, encode_record, encode_batch, decode_record, scan_loop, scan_wal,
}
use kafkrs.Models.Wal.Body.{IsEncodable}
use kafkrs.Models.Wal.RoundTrip.{length-encode_record, decode-encode}

module _ (crc32c : List ℕ → ℕ) (crc_u32 : (bytes : List ℕ) → crc32c bytes < 2 ^ 32) where
  pub encode_batch-append :
      (rs qs : List Record)
      → encode_batch crc32c (rs ++ qs) ≡ encode_batch crc32c rs ++ encode_batch crc32c qs
  unfolding encode_batch
  encode_batch-append [] qs = refl
  encode_batch-append (r ∷ rs) qs = rw (encode_batch-append rs qs, append_assoc)

  -- More records than bytes do not fit.
  length-le-encode_batch : (rs : List Record) → length rs ≤ length (encode_batch crc32c rs)
  unfolding encode_batch
  length-le-encode_batch [] = omega arith
  length-le-encode_batch (r ∷ rs) = omega (
    arith,
    length-append (encode_record crc32c r) (encode_batch crc32c rs),
    length-encode_record crc32c crc_u32 r,
    length-le-encode_batch rs,
  )

  -- The loop at a place where the decoder fails, at the end of the buffer or before it.
  scan_loop_stops :
      (fuel : ℕ) (buf : List ℕ) (pos : ℕ) (records : List Record) (e : WalDecodeError)
      → decode_record crc32c (drop pos buf) ≡ err e
      → scan_loop crc32c (suc fuel) buf pos records ≡ some (records, pos)
  unfolding scan_loop
  scan_loop_stops fuel buf pos records e h = elim (Bool-cases (ltb pos (length buf))) [
    | inl inside ↦ rw (inside, h)
    | inr over ↦ rw over
  ]

  scan_loop_step :
      (fuel : ℕ) (buf : List ℕ) (pos : ℕ) (records : List Record) (r : Record) (n : ℕ)
      → pos < length buf
      → decode_record crc32c (drop pos buf) ≡ ok r n
      → scan_loop crc32c (suc fuel) buf pos records
        ≡ scan_loop crc32c fuel buf (pos + n) (records ++ r ∷ [])
  unfolding scan_loop
  scan_loop_step fuel buf pos records r n h e = rw (lt→ltb pos (length buf) h, e)

  scan_loop-encode_batch :
      (rs : List Record) (fuel : ℕ) (buf before tail : List ℕ) (acc : List Record)
      (e : WalDecodeError)
      → All IsEncodable rs
      → decode_record crc32c tail ≡ err e
      → buf ≡ before ++ (encode_batch crc32c rs ++ tail)
      → length rs < fuel
      → scan_loop crc32c fuel buf (length before) acc
        ≡ some (acc ++ rs, length before + length (encode_batch crc32c rs))
  unfolding encode_batch
  scan_loop-encode_batch [] zero buf before tail acc e v bad split f = absurd (omega arith)
  scan_loop-encode_batch [] (suc fuel) buf before tail acc e v bad split f =
      let z : length before + 0 ≡ length before = omega arith in
      scan_loop_stops fuel buf (length before) acc e (rw (split, drop-append before tail) bad)
      ∙ rw (z, append-nil)
  scan_loop-encode_batch (r ∷ rs) zero buf before tail acc e v bad split f = absurd (omega arith)
  scan_loop-encode_batch (r ∷ rs) (suc fuel) buf before tail acc e v bad split f =
      let enc = encode_record crc32c r in
      let batch = encode_batch crc32c rs in
      let size = length-encode_record crc32c crc_u32 r in
      let whole : drop (length before) buf ≡ enc ++ (batch ++ tail) =
        rw (split, drop-append before ((enc ++ batch) ++ tail)) (append_assoc enc batch tail) in
      let inside : length before < length buf = omega (
        arith,
        ap length split,
        length-append before ((enc ++ batch) ++ tail),
        length-append (enc ++ batch) tail,
        length-append enc batch,
        size,
      ) in
      let resplit : buf ≡ (before ++ enc) ++ (batch ++ tail) = split ∙ simp append_assoc in
      scan_loop_step fuel buf (length before) acc r (length enc) inside
        (rw whole (decode-encode crc32c crc_u32 r (batch ++ tail) v.0))
      ∙ (rw (length-append before enc) at (
          scan_loop-encode_batch rs fuel buf (before ++ enc) tail (acc ++ r ∷ []) e v.1 bad resplit
            (omega arith)))
      ∙ ap₂ (λ (a : List Record) (n : ℕ). some (a, n)) (append_assoc acc (r ∷ []) rs)
          (omega (arith, length-append enc batch))

  -- On whole encodable records followed by bytes that do not decode, the scan finds exactly the
  -- records, and its truncation point is the end of the last of them.
  pub scan-encode_batch :
      (rs : List Record) (tail : List ℕ) (e : WalDecodeError)
      → All IsEncodable rs
      → decode_record crc32c tail ≡ err e
      → scan_wal crc32c (encode_batch crc32c rs ++ tail)
        ≡ some (rs, length (encode_batch crc32c rs))
  unfolding scan_wal
  scan-encode_batch rs tail e v bad =
      scan_loop-encode_batch rs _ _ [] tail [] e v bad refl
        (omega (arith, length-append (encode_batch crc32c rs) tail, length-le-encode_batch rs))
      ∙ ap (λ (n : ℕ). some (rs, n)) (omega arith)
