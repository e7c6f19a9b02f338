-- ===== src/Models/Wal/Truncate.antt =====
-- `scan_wal` on any bytes: it ends, its truncation point lies in the file, and the truncated file
-- scans to the same records.
use kafkrs.Prelude.{
  ℕ, zero, suc, ◌+◌, ◌-◌, ◌<◌, ◌≤◌, ◌≡◌, ◌⊎◌, refl, sym, ap, ◌∙◌, true, inl, inr, some, List, [],
  ◌∷◌, ◌++◌, arith, length, take, drop, length-take, length-drop, slice-take, drop-take,
  take-take_le, ltb, lt→ltb, le→ltb, ltb→lt, Bool-cases, ◌==◌,
}
use kafkrs.Prelude.Bytes.{from_le_bytes}
use kafkrs.Models.Record.{Record}
use kafkrs.Models.Wal.{
  header_after_len, WalDecodeError, Decoded, ok, err, slice, decode_body, decode_record, scan_loop,
  scan_wal,
}

decode_body_total :
    (body : List ℕ) (len total : ℕ) (r : Record) (n : ℕ)
    → decode_body body len total ≡ ok r n
    → total ≡ n
unfolding decode_body
decode_body_total body len total r n h = ground arith

slice_same :
    (lo hi n : ℕ) (xs ys : List ℕ)
    → hi ≤ n
    → take n ys ≡ take n xs
    → slice lo hi ys ≡ slice lo hi xs
slice_same lo hi n xs ys h e =
    sym (slice-take lo hi n ys h) ∙ ap (slice lo hi) e ∙ slice-take lo hi n xs h

module _ (crc32c : List ℕ → ℕ) where
  abbrev len_of : List ℕ → ℕ
  len_of xs = from_le_bytes (take 4 xs)

  -- What a successful decode has checked.
  record Checked (xs : List ℕ) (r : Record) (n : ℕ) : Type 0 where
    size : n ≡ 4 + len_of xs + 4
    whole : n ≤ length xs
    room : header_after_len ≤ len_of xs
    crc :
        (crc32c (slice 4 (4 + len_of xs) xs)
          == from_le_bytes (slice (4 + len_of xs) (4 + len_of xs + 4) xs))
        ≡ true
    body : decode_body (slice 4 (4 + len_of xs) xs) (len_of xs) (4 + len_of xs + 4) ≡ ok r n

  checked : (xs : List ℕ) (r : Record) (n : ℕ) → decode_record crc32c xs ≡ ok r n → Checked xs r n
  unfolding decode_record
  checked xs r n h =
      ground
        (arith, decode_body_total (slice 4 (4 + len_of xs) xs) (len_of xs) (4 + len_of xs + 4) r n)

  -- The decoder reads only the bytes that it says it consumed.
  decode_local :
      (xs ys : List ℕ) (r : Record) (n : ℕ)
      → decode_record crc32c xs ≡ ok r n
      → take n ys ≡ take n xs
      → n ≤ length ys
      → decode_record crc32c ys ≡ ok r n
  unfolding decode_record
  decode_local xs ys r n h e long =
      let c = checked xs r n h in
      let prefix : take 4 ys ≡ take 4 xs = slice_same 0 4 n xs ys (omega (arith, c.size)) e in
      let body = slice_same 4 (4 + len_of xs) n xs ys (omega (arith, c.size)) e in
      let crc = slice_same (4 + len_of xs) (4 + len_of xs + 4) n xs ys (omega (arith, c.size)) e in
      rw (
        prefix,
        body,
        crc,
        c.crc,
        c.body,
        le→ltb (length ys) 4 (omega (arith, c.size, long)),
        le→ltb (length ys) (4 + len_of xs + 4) (omega (arith, c.size, long)),
        le→ltb (len_of xs) header_after_len c.room,
      )

  abbrev DecodedCases : Decoded → Type 0
  DecodedCases d = ((e : WalDecodeError) × (d ≡ err e)) ⊎ ((r : Record) × (n : ℕ) × (d ≡ ok r n))

  decoded_cases : (d : Decoded) → DecodedCases d
  decoded_cases (ok r n) = inr (r, n, refl)
  decoded_cases (err e) = inl (e, refl)

  -- What the loop returns from a place in the buffer, and that the truncated buffer gives the same.
  record Scans (fuel : ℕ) (buf : List ℕ) (pos : ℕ) (acc : List Record) : Type 0 where
    found : List Record
    end : ℕ
    result : scan_loop crc32c fuel buf pos acc ≡ some (found, end)
    forward : pos ≤ end
    inside : end ≤ length buf
    again : (f : ℕ) → end - pos < f → scan_loop crc32c f (take end buf) pos acc ≡ some (found, end)

  loop_at_end :
      (f : ℕ) (buf : List ℕ) (pos : ℕ) (acc : List Record)
      → pos ≤ length buf
      → 0 < f
      → scan_loop crc32c f (take pos buf) pos acc ≡ some (acc, pos)
  unfolding scan_loop
  loop_at_end zero buf pos acc h lt = absurd (omega arith)
  loop_at_end (suc f) buf pos acc h lt =
      rw (le→ltb pos (length (take pos buf)) (omega (arith, length-take pos buf)))

  loop_step :
      (f : ℕ) (buf : List ℕ) (pos : ℕ) (acc : List Record) (r : Record) (n : ℕ)
      → pos < length buf
      → decode_record crc32c (drop pos buf) ≡ ok r n
      → scan_loop crc32c (suc f) buf pos acc ≡ scan_loop crc32c f buf (pos + n) (acc ++ r ∷ [])
  unfolding scan_loop
  loop_step f buf pos acc r n h e = rw (lt→ltb pos (length buf) h, e)

  Scans-here :
      (fuel : ℕ) (buf : List ℕ) (pos : ℕ) (acc : List Record)
      → pos ≤ length buf
      → scan_loop crc32c (suc fuel) buf pos acc ≡ some (acc, pos)
      → Scans (suc fuel) buf pos acc
  Scans-here fuel buf pos acc h e = record {
    found = acc;
    end = pos;
    result = e;
    forward = omega arith;
    inside = h;
    again = λ f lt. loop_at_end f buf pos acc h (omega arith);
  }

  -- One decoded record more in front.
  Scans-step :
      (fuel : ℕ) (buf : List ℕ) (pos : ℕ) (acc : List Record) (r : Record) (n : ℕ)
      → pos < length buf
      → decode_record crc32c (drop pos buf) ≡ ok r n
      → Scans fuel buf (pos + n) (acc ++ r ∷ [])
      → Scans (suc fuel) buf pos acc
  Scans-step fuel buf pos acc r n h e s = record {
    found = s.found;
    end = s.end;
    result = loop_step fuel buf pos acc r n h e ∙ s.result;
    forward = omega (arith, s.forward);
    inside = s.inside;
    again = redo;
  }
    where
      c : Checked (drop pos buf) r n
      c = checked (drop pos buf) r n e

      cut_decodes : decode_record crc32c (drop pos (take s.end buf)) ≡ ok r n
      cut_decodes =
          decode_local (drop pos buf) (drop pos (take s.end buf)) r n e
            (rw drop-take (take-take_le n (s.end - pos) (drop pos buf) (omega (arith, s.forward))))
            (omega
              (arith, length-drop pos (take s.end buf), length-take s.end buf, s.forward, s.inside))

      redo :
          (f : ℕ)
          → s.end - pos < f
          → scan_loop crc32c f (take s.end buf) pos acc ≡ some (s.found, s.end)
      redo zero lt = absurd (omega arith)
      redo (suc f) lt =
          loop_step f (take s.end buf) pos acc r n
            (omega (arith, length-take s.end buf, s.forward, s.inside, c.size)) cut_decodes
          ∙ s.again f (omega (arith, c.size, s.forward))

  scans :
      (fuel : ℕ) (buf : List ℕ) (pos : ℕ) (acc : List Record)
      → pos ≤ length buf
      → length buf - pos < fuel
      → Scans fuel buf pos acc
  unfolding scan_loop
  scans zero buf pos acc h f = absurd (omega arith)
  scans (suc fuel) buf pos acc h f = elim (Bool-cases (ltb pos (length buf))) [
    | inr over ↦ Scans-here fuel buf pos acc h (rw over)
    | inl more ↦ elim (decoded_cases (decode_record crc32c (drop pos buf))) [
      | inl (e, bad) ↦ Scans-here fuel buf pos acc h (rw (more, bad))
      | inr (r, n, good) ↦
          let c = checked (drop pos buf) r n good in
          Scans-step fuel buf pos acc r n (ltb→lt pos (length buf) more) good (
            scans fuel buf (pos + n) (acc ++ r ∷ [])
              (omega (arith, length-drop pos buf, c.whole, c.size))
              (omega (arith, c.size, ltb→lt pos (length buf) more)))
    ]
  ]

  -- On any bytes the scan ends within its fuel, at a truncation point inside the file; and once the
  -- file is truncated there, a second scan finds the same records and nothing more to cut.
  pub scan-truncate :
      (buf : List ℕ)
      → (records : List Record) × (valid : ℕ) × (scan_wal crc32c buf ≡ some (records, valid))
        × (valid ≤ length buf)
        × (scan_wal crc32c (take valid buf) ≡ some (records, valid))
  unfolding scan_wal
  scan-truncate buf =
      let s = scans (suc (length buf)) buf 0 [] (omega arith) (omega arith) in
      (
        s.found,
        s.end,
        s.result,
        s.inside,
        s.again (suc (length (take s.end buf))) (omega (arith, length-take s.end buf, s.inside)),
      )
