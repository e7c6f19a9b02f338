-- ===== src/Tests/Wal.antt =====
-- The log's theorems, and those of the topic configs, at concrete values.
use kafkrs.Prelude.{
  ℕ, zero, suc, ap, ◌^◌, ◌<◌, ◌≡◌, ◌≤◌, ◌↔◌, refl, none, some, List, [], ◌∷◌, ◌++◌, arith, length,
  take,
}
use kafkrs.Prelude.Int.{pos}
use kafkrs.Models.Record.{Record}
use kafkrs.Models.Topic.{default_overrides, validate}
use kafkrs.Models.Topic.Validate.{IsValidConfig, validate_iff}
use kafkrs.Models.Wal.{encode_record, encode_batch, decode_record, scan_wal, ok, incomplete}
use kafkrs.Models.Wal.Body.{IsEncodable}
use kafkrs.Models.Wal.RoundTrip.{decode-encode}
use kafkrs.Models.Wal.Scan.{scan-encode_batch}
use kafkrs.Models.Wal.Torn.{decode-nil, scan-torn_commit, scan-oversized}
use kafkrs.Models.Wal.Truncate.{scan-truncate}

abbrev pub zero_crc : List ℕ → ℕ
zero_crc bytes = 0

pub zero_crc_u32 : (bytes : List ℕ) → zero_crc bytes < 2 ^ 32
zero_crc_u32 bytes = omega arith

abbrev pub record_at : ℕ → Record
record_at n = record {
  offset = pos n;
  timestamp_ns = pos 1000;
  schema_id = 7;
  key = 1 ∷ 2 ∷ [];
  value = 3 ∷ [];
}

pub record_at-IsEncodable : (n : ℕ) → n < 2 ^ 63 → IsEncodable (record_at n)
record_at-IsEncodable n h = record {
  offset_fits = omega arith;
  timestamp_fits = omega arith;
  schema_fits = omega arith;
  key_fits = omega arith;
  body_fits = omega arith;
}

pub sound_at_5 : IsEncodable (record_at 5)
sound_at_5 = record_at-IsEncodable 5 (omega arith)

sound_at_6 : IsEncodable (record_at 6)
sound_at_6 = record_at-IsEncodable 6 (omega arith)

unfoldable zeros : ℕ → List ℕ
zeros zero = []
zeros (suc n) = 0 ∷ zeros n

length-zeros : (n : ℕ) → length (zeros n) ≡ n
unfolding zeros
length-zeros zero = refl
length-zeros (suc n) = ap suc (length-zeros n)

-- A record whose key is one byte too long.
abbrev oversized : Record
oversized = record {
  offset = pos 6;
  timestamp_ns = pos 1000;
  schema_id = 7;
  key = zeros 65536;
  value = [];
}

decode-encode_example :
    decode_record zero_crc (encode_record zero_crc (record_at 5) ++ 9 ∷ [])
    ≡ ok (record_at 5) (length (encode_record zero_crc (record_at 5)))
decode-encode_example = decode-encode zero_crc zero_crc_u32 (record_at 5) (9 ∷ []) sound_at_5

scan-encode_batch_example :
    scan_wal zero_crc (encode_batch zero_crc (record_at 5 ∷ record_at 6 ∷ []) ++ [])
    ≡ some (
      record_at 5 ∷ record_at 6 ∷ [],
      length (encode_batch zero_crc (record_at 5 ∷ record_at 6 ∷ [])),
    )
scan-encode_batch_example =
    scan-encode_batch zero_crc zero_crc_u32 (record_at 5 ∷ record_at 6 ∷ []) [] incomplete
      (sound_at_5, (sound_at_6, tt)) (decode-nil zero_crc zero_crc_u32)

scan-torn_commit_example :
    (j : ℕ) × (scan_wal zero_crc (
        encode_batch zero_crc (record_at 5 ∷ [])
        ++ take 10 (encode_batch zero_crc (record_at 6 ∷ [])))
      ≡ some (
        (record_at 5 ∷ []) ++ take j (record_at 6 ∷ []),
        length (encode_batch zero_crc ((record_at 5 ∷ []) ++ take j (record_at 6 ∷ []))),
      ))
scan-torn_commit_example =
    scan-torn_commit zero_crc zero_crc_u32 (record_at 5 ∷ []) (record_at 6 ∷ []) 10 (sound_at_5, tt)
      (sound_at_6, tt)

scan-oversized_example :
    scan_wal zero_crc (encode_batch zero_crc ((record_at 5 ∷ []) ++ oversized ∷ []))
    ≡ some (record_at 5 ∷ [], length (encode_batch zero_crc (record_at 5 ∷ [])))
scan-oversized_example =
    scan-oversized zero_crc zero_crc_u32 (record_at 5 ∷ []) [] oversized (sound_at_5, tt)
      (omega (arith, length-zeros 65536)) (omega (arith, length-zeros 65536))

scan-truncate_example :
    (records : List Record) × (valid : ℕ) × (scan_wal zero_crc (1 ∷ 2 ∷ 3 ∷ [])
      ≡ some (records, valid))
    × (valid ≤ 3)
    × (scan_wal zero_crc (take valid (1 ∷ 2 ∷ 3 ∷ [])) ≡ some (records, valid))
scan-truncate_example = scan-truncate zero_crc (1 ∷ 2 ∷ 3 ∷ [])

validate_iff_example : (validate default_overrides ≡ none) ↔ IsValidConfig default_overrides
validate_iff_example = validate_iff default_overrides
