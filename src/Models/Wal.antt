-- ===== src/Models/Wal.antt =====
-- kafkrs-models/src/wal.rs: the write-ahead log's framing, its decoder and the recovery scan.
-- The CRC-32C of the `crc32c` crate is the parameter of every section.
pub mod Body
pub mod RoundTrip
pub mod Scan
pub mod Torn
pub mod Truncate
use kafkrs.Prelude.{
  ℕ, zero, suc, ◌+◌, ◌-◌, ◌%◌, ◌^◌, Option, none, some, List, [], ◌∷◌, ◌++◌, not, ltb, ◌==◌,
  if◌then◌else◌, length, take, drop,
}
use kafkrs.Prelude.Int.{to_u64, from_u64}
use kafkrs.Prelude.Bytes.{to_le_bytes, from_le_bytes}
use kafkrs.Models.Record.{Record}

-- offset(8) timestamp_ns(8) schema_id(4) key_len(2) value_len(4)
abbrev pub header_after_len : ℕ
header_after_len = 8 + 8 + 4 + 2 + 4

pub data WalDecodeError : Type 0 where
  incomplete crc_mismatch malformed : WalDecodeError

pub data Decoded : Type 0 where
  ok : Record → ℕ → Decoded
  err : WalDecodeError → Decoded

-- The bytes from `offset` through `value`: what the checksum covers.
-- `as u16` and `as u32` keep the low bits of a length.
unfoldable pub record_body : Record → List ℕ
record_body r =
    to_le_bytes 8 (to_u64 r.offset)
    ++ (to_le_bytes 8 (to_u64 r.timestamp_ns)
        ++ (to_le_bytes 4 r.schema_id
            ++ (to_le_bytes 2 (length r.key % 2 ^ 16)
                ++ (to_le_bytes 4 (length r.value % 2 ^ 32) ++ (r.key ++ r.value)))))

abbrev pub body_len : Record → ℕ
body_len r = header_after_len + length r.key + length r.value

-- `body[lo..hi]`
abbrev pub slice : ℕ → ℕ → List ℕ → List ℕ
slice lo hi bytes = take (hi - lo) (drop lo bytes)

-- The fields of a body whose checksum is right.
unfoldable pub decode_body : List ℕ → ℕ → ℕ → Decoded
decode_body body len total =
    let key_len = from_le_bytes (slice 20 22 body) in
    let value_len = from_le_bytes (slice 22 26 body) in
    if not (header_after_len + key_len + value_len == len)
    then err malformed
    else ok
        (record {
          offset = from_u64 (from_le_bytes (slice 0 8 body));
          timestamp_ns = from_u64 (from_le_bytes (slice 8 16 body));
          schema_id = from_le_bytes (slice 16 20 body);
          key = slice 26 (26 + key_len) body;
          value = slice (26 + key_len) (26 + key_len + value_len) body;
        })
        total

module _ (crc32c : List ℕ → ℕ) where
  -- The bytes that `encode_record` appends to its buffer.
  unfoldable pub encode_record : Record → List ℕ
  encode_record r =
      to_le_bytes 4 (body_len r % 2 ^ 32)
      ++ (record_body r ++ to_le_bytes 4 (crc32c (record_body r)))

  -- The buffer of `WalFile::append_and_sync`: every record of a group commit, in order.
  unfoldable pub encode_batch : List Record → List ℕ
  encode_batch [] = []
  encode_batch (r ∷ rs) = encode_record r ++ encode_batch rs

  unfoldable pub decode_record : List ℕ → Decoded
  decode_record buf =
      let len = from_le_bytes (take 4 buf) in
      let total = 4 + len + 4 in
      let body = slice 4 (4 + len) buf in
      let crc_stored = from_le_bytes (slice (4 + len) total buf) in
      if ltb (length buf) 4
      then err incomplete
      else if ltb (length buf) total
      then err incomplete
      else if ltb len header_after_len
      then err malformed
      else if not (crc32c body == crc_stored)
      then err crc_mismatch
      else decode_body body len total

  -- The `while` loop of `scan_wal` on fuel, over `pos` and `records`; `none` is fuel run out.
  unfoldable pub scan_loop : ℕ → List ℕ → ℕ → List Record → Option (List Record × ℕ)
  scan_loop zero buf pos records = none
  scan_loop (suc fuel) buf pos records =
      if ltb pos (length buf)
      then (elim (decode_record (drop pos buf)) [
        | ok r consumed ↦ scan_loop fuel buf (pos + consumed) (records ++ r ∷ [])
        | err _ ↦ some (records, pos)
      ])
      else some (records, pos)

  -- Every decoded record takes bytes, so one round for each byte is enough.
  unfoldable pub scan_wal : List ℕ → Option (List Record × ℕ)
  scan_wal buf = scan_loop (suc (length buf)) buf 0 []
