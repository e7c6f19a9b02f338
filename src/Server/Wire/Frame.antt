-- ===== src/Server/Wire/Frame.antt =====
-- kafkrs-server/src/wire/frame.rs: frames of a command and a payload.
-- The Protobuf reader and writer of a command are parameters; a `usize` sum does not overflow on
-- lengths that fit in memory, so its checked additions are plain ones.
pub mod RoundTrip
use kafkrs.Prelude.{
  ℕ, ◌+◌, ◌*◌, ◌%◌, ◌^◌, List, ◌++◌, if◌then◌else◌, ltb, length, take, drop, Option, none, some,
}
use kafkrs.Prelude.Bytes.{to_be_bytes, from_be_bytes}

abbrev pub max_frame_size : ℕ
max_frame_size = 4 * 1024 * 1024

pub data FrameError : Type 0 where
  too_large : ℕ → FrameError
  shorter_than_prefix shorter_than_command prost_error : FrameError

pub data Result (A : Type 0) : Type 0 where
  ok : A → Result A
  err : FrameError → Result A

pub record Frame (Command : Type 0) : Type 0 where
  pub command : Command
  pub payload : List ℕ

module _ {Command : Type 0} (encode : Command → List ℕ) (decode : List ℕ → Option Command) where
  unfoldable pub encode_frame : Frame Command → Result (List ℕ)
  encode_frame frame =
      let command_bytes = encode frame.command in
      let total_size = 4 + length command_bytes + length frame.payload in
      let whole = total_size + 4 in
      if ltb max_frame_size whole
      then err (too_large whole)
      else ok (
          to_be_bytes 4 (total_size % 2 ^ 32)
          ++ (to_be_bytes 4 (length command_bytes % 2 ^ 32) ++ (command_bytes ++ frame.payload)))

  unfoldable pub decode_frame_body : List ℕ → Result (Frame Command)
  decode_frame_body body =
      let command_size = from_be_bytes (take 4 body) in
      let cmd_end = 4 + command_size in
      if ltb (length body) 4
      then err shorter_than_prefix
      else if ltb (length body) cmd_end
      then err shorter_than_command
      else elim (decode (take command_size (drop 4 body))) [
        | none ↦ err prost_error
        | some command ↦ ok (record { command = command; payload = drop cmd_end body })
      ]
