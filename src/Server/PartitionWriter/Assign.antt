-- ===== src/Server/PartitionWriter/Assign.antt =====
-- The offsets that a produce request is given.
use kafkrs.Prelude.{
  ℕ, suc, ◌+◌, ◌<◌, ◌^◌, ◌≡◌, refl, ap, ◌∙◌, List, [], ◌∷◌, ◌++◌, arith, length, All, append_assoc,
  append-nil,
}
use kafkrs.Prelude.Int.{ℤ, pos, IsI64, next_i64_pos}
use kafkrs.Models.Record.{Record}
use kafkrs.Models.Wal.{header_after_len}
use kafkrs.Models.Wal.Body.{IsEncodable}
use kafkrs.Server.PartitionWriter.State.{IncomingRecord}
use kafkrs.Server.PartitionWriter.Ops.{stamp, push_incoming}
use kafkrs.Server.PartitionWriter.Invariant.{Consecutive}

-- The records of a request, with the offsets n, n + 1, ... in the order of the request.
unfoldable pub assigned : (ℕ → ℤ) → ℕ → List IncomingRecord → List Record
assigned clock n [] = []
assigned clock n (inc ∷ rest) =
    stamp (pos n) (clock 0) inc ∷ assigned (λ i. clock (suc i)) (suc n) rest

-- As long as the offsets stay below 2 ^ 63, the loop appends the records of the request behind the
-- pending ones, numbered on from the next offset, and moves the next offset on by their number.
pub push_incoming_lem :
    (clock : ℕ → ℤ) (incoming : List IncomingRecord) (pending : List Record) (n : ℕ)
    → n + length incoming < 2 ^ 63
    → push_incoming clock incoming pending (pos n)
      ≡ (pending ++ assigned clock n incoming, pos (n + length incoming))
unfolding push_incoming assigned
push_incoming_lem clock [] pending n h = let z : n + 0 ≡ n = omega arith in rw (append-nil, z)
push_incoming_lem clock (inc ∷ rest) pending n h =
    let z : n + suc (length rest) ≡ suc n + length rest = omega arith in
    let first = stamp (pos n) (clock 0) inc in
    rw (next_i64_pos n (omega arith), z)
      (push_incoming_lem (λ i. clock (suc i)) rest (pending ++ first ∷ []) (suc n) (omega arith)
        ∙ rw append_assoc)

pub length-assigned :
    (clock : ℕ → ℤ) (n : ℕ) (incoming : List IncomingRecord)
    → length (assigned clock n incoming) ≡ length incoming
unfolding assigned
length-assigned clock n [] = refl
length-assigned clock n (inc ∷ rest) = ap suc (length-assigned (λ i. clock (suc i)) (suc n) rest)

pub assigned-Consecutive :
    (clock : ℕ → ℤ) (n : ℕ) (incoming : List IncomingRecord)
    → Consecutive n (assigned clock n incoming)
unfolding assigned stamp
assigned-Consecutive clock n [] = tt
assigned-Consecutive clock n (inc ∷ rest) =
    (refl, assigned-Consecutive (λ i. clock (suc i)) (suc n) rest)

-- A record of a request whose lengths and timestamp fit the log's fields.
pub record IsStorable (inc : IncomingRecord) : Type 0 where
  pub key_fits : length inc.key < 2 ^ 16
  pub body_fits : header_after_len + length inc.key + length inc.value < 2 ^ 32
  pub schema_fits : inc.schema_id < 2 ^ 32
  pub timestamp_fits : IsI64 inc.timestamp_ns

stamp-IsEncodable :
    (n : ℕ) (now : ℤ) (inc : IncomingRecord)
    → n < 2 ^ 63
    → IsI64 now
    → IsStorable inc
    → IsEncodable (stamp (pos n) now inc)
unfolding stamp
stamp-IsEncodable n now inc h k v = ground arith

pub assigned-IsEncodable :
    (clock : ℕ → ℤ) (n : ℕ) (incoming : List IncomingRecord)
    → ((i : ℕ) → IsI64 (clock i))
    → n + length incoming < 2 ^ 63
    → All IsStorable incoming
    → All IsEncodable (assigned clock n incoming)
unfolding assigned
assigned-IsEncodable clock n [] c h v = tt
assigned-IsEncodable clock n (inc ∷ rest) c h v = (
  stamp-IsEncodable n (clock 0) inc (omega arith) (c 0) v.0,
  assigned-IsEncodable (λ i. clock (suc i)) (suc n) rest (λ i. c (suc i)) (omega arith) v.1,
)
