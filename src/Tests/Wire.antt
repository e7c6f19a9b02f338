-- ===== src/Tests/Wire.antt =====
-- The theorems on frames and produce requests at concrete values.
use kafkrs.Prelude.{
  ℕ, ◌≤◌, ◌≡◌, refl, Option, none, some, List, [], ◌∷◌, arith, length, take, drop, map, All,
}
use kafkrs.Prelude.Int.{pos}
use kafkrs.Prelude.Bytes.{from_be_bytes}
use kafkrs.Models.Config.{nvme}
use kafkrs.Models.Topic.{default_overrides, resolve}
use kafkrs.Server.PartitionWriter.State.{IncomingRecord}
use kafkrs.Server.PartitionWriter.Assign.{IsStorable}
use kafkrs.Server.Wire.Frame.{max_frame_size, ok, Frame, encode_frame, decode_frame_body}
use kafkrs.Server.Wire.Frame.RoundTrip.{frame-round_trip}
use kafkrs.Server.Wire.Produce.{slice_payload, slice_loop, validate_record_sizes}
use kafkrs.Server.Wire.Produce
use kafkrs.Server.Wire.Produce.Slice.{
  meta_of, payload_of, slice_payload-payload_of, slice_payload_sound, validated-IsStorable,
}

-- Commands that are their own bytes.
abbrev as_bytes : List ℕ → List ℕ
as_bytes c = c

abbrev from_bytes : List ℕ → Option (List ℕ)
from_bytes bytes = some bytes

abbrev frame : Frame (List ℕ)
frame = record { command = 1 ∷ 2 ∷ []; payload = 3 ∷ [] }

frame-round_trip_example :
    (bytes : List ℕ) × (encode_frame as_bytes from_bytes frame ≡ ok bytes)
    × (length bytes ≤ max_frame_size)
    × (from_be_bytes (take 4 bytes) ≡ length (drop 4 bytes))
    × (decode_frame_body as_bytes from_bytes (drop 4 bytes) ≡ ok frame)
frame-round_trip_example = frame-round_trip as_bytes from_bytes (λ c. refl) frame (omega arith)

abbrev incoming : List IncomingRecord
incoming =
    record { schema_id = 7; key = 1 ∷ []; value = 2 ∷ 3 ∷ []; timestamp_ns = pos 0 }
    ∷ record { schema_id = 8; key = []; value = 4 ∷ []; timestamp_ns = pos 9 }
    ∷ []

slice_payload-payload_of_example :
    slice_payload (map meta_of incoming) (payload_of incoming) ≡ Produce.ok incoming
slice_payload-payload_of_example = slice_payload-payload_of incoming

sliced : slice_payload (map meta_of incoming) (1 ∷ 2 ∷ 3 ∷ 4 ∷ []) ≡ Produce.ok incoming
unfolding slice_payload slice_loop
sliced = refl

slice_payload_sound_example :
    (map meta_of incoming ≡ map meta_of incoming) × (1 ∷ 2 ∷ 3 ∷ 4 ∷ [] ≡ payload_of incoming)
slice_payload_sound_example =
    slice_payload_sound (map meta_of incoming) (1 ∷ 2 ∷ 3 ∷ 4 ∷ []) incoming sliced

valid : validate_record_sizes (resolve default_overrides nvme) (map meta_of incoming) ≡ none
unfolding validate_record_sizes resolve
valid = refl

validated-IsStorable_example : All IsStorable incoming
unfolding resolve
validated-IsStorable_example =
    validated-IsStorable (resolve default_overrides nvme) incoming (omega arith) (omega arith)
      ((omega arith, (omega arith, omega arith)), ((omega arith, (omega arith, omega arith)), tt))
      valid
