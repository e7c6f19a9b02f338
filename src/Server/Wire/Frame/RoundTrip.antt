-- ===== src/Server/Wire/Frame/RoundTrip.antt =====
-- A frame that is encoded decodes to itself, and frames above the limit are refused.
use kafkrs.Prelude.{
  ℕ, ◌+◌, ◌%◌, ◌^◌, ◌≤◌, ◌<◌, ◌≡◌, ◌∙◌, refl, sym, List, ◌++◌, ltb, length, take, drop, Option,
  some, arith, length-append, take-append, drop-append, drop-add, le→ltb, false,
}
use kafkrs.Prelude.Bytes.{to_be_bytes, from_be_bytes, length-to_be_bytes, from-to_be_bytes}
use kafkrs.Server.Wire.Frame.{
  max_frame_size, ok, err, too_large, Frame, encode_frame, decode_frame_body,
}

take_first : (n : ℕ) (xs ys : List ℕ) → length xs ≡ n → take n (xs ++ ys) ≡ xs
take_first n xs ys e = rw (sym e) (take-append xs ys)

drop_first : (n : ℕ) (xs ys : List ℕ) → length xs ≡ n → drop n (xs ++ ys) ≡ ys
drop_first n xs ys e = rw (sym e) (drop-append xs ys)

module _ {Command : Type 0} (encode : Command → List ℕ) (decode : List ℕ → Option Command)
    (decode-encode' : (c : Command) → decode (encode c) ≡ some c) where
  -- The bytes behind the outer length prefix.
  abbrev pub body_of : Frame Command → List ℕ
  body_of frame =
      to_be_bytes 4 (length (encode frame.command) % 2 ^ 32)
      ++ (encode frame.command ++ frame.payload)

  length-body_of :
      (frame : Frame Command)
      → length (body_of frame) ≡ 4 + length (encode frame.command) + length frame.payload
  length-body_of frame =
      let n = length (encode frame.command) in
      omega (
        arith,
        length-append (to_be_bytes 4 (n % 2 ^ 32)) (encode frame.command ++ frame.payload),
        length-append (encode frame.command) frame.payload,
        length-to_be_bytes 4 (n % 2 ^ 32),
      )

  decode_lem :
      (body : List ℕ) (n : ℕ) (frame : Frame Command)
      → from_be_bytes (take 4 body) ≡ n
      → 4 + n ≤ length body
      → take n (drop 4 body) ≡ encode frame.command
      → drop (4 + n) body ≡ frame.payload
      → decode_frame_body encode decode body ≡ ok frame
  unfolding decode_frame_body
  decode_lem body n frame size fits command_at payload_at =
      let long : ltb (length body) 4 ≡ false = le→ltb (length body) 4 (omega arith) in
      let whole : ltb (length body) (4 + n) ≡ false = le→ltb (length body) (4 + n) fits in
      rw (size, long, whole, command_at, decode-encode' frame.command) (rw (size, payload_at) refl)

  body_decodes :
      (frame : Frame Command)
      → 8 + length (encode frame.command) + length frame.payload ≤ max_frame_size
      → decode_frame_body encode decode (body_of frame) ≡ ok frame
  unfolding decode_frame_body
  body_decodes frame h =
      let n = length (encode frame.command) in
      let prefix = to_be_bytes 4 (n % 2 ^ 32) in
      let four : length prefix ≡ 4 = length-to_be_bytes 4 (n % 2 ^ 32) in
      let whole : length (body_of frame) ≡ 4 + n + length frame.payload = length-body_of frame in
      let size : from_be_bytes (take 4 (body_of frame)) ≡ n =
        rw (take_first 4 prefix (encode frame.command ++ frame.payload) four)
          (from-to_be_bytes 4 (n % 2 ^ 32) (omega arith) ∙ omega arith) in
      let rest : drop 4 (body_of frame) ≡ encode frame.command ++ frame.payload =
        drop_first 4 prefix (encode frame.command ++ frame.payload) four in
      let command_at : take n (drop 4 (body_of frame)) ≡ encode frame.command =
        rw rest (take-append (encode frame.command) frame.payload) in
      let payload_at : drop (4 + n) (body_of frame) ≡ frame.payload =
        sym (drop-add 4 n (body_of frame))
        ∙ rw rest (drop-append (encode frame.command) frame.payload) in
      decode_lem (body_of frame) n frame size (omega (arith, whole)) command_at payload_at

  -- When commands decode from their own bytes, a frame of at most 4 MiB is encoded in at most 4
  -- MiB, its outer length prefix is the length of what follows, and what follows, which is what the
  -- codec of the connection passes on, decodes to the frame.
  pub frame-round_trip :
      (frame : Frame Command)
      → 8 + length (encode frame.command) + length frame.payload ≤ max_frame_size
      → (bytes : List ℕ) × (encode_frame encode decode frame ≡ ok bytes)
        × (length bytes ≤ max_frame_size)
        × (from_be_bytes (take 4 bytes) ≡ length (drop 4 bytes))
        × (decode_frame_body encode decode (drop 4 bytes) ≡ ok frame)
  unfolding encode_frame
  frame-round_trip frame h =
      let n = length (encode frame.command) in
      let total = 4 + n + length frame.payload in
      let size = to_be_bytes 4 (total % 2 ^ 32) in
      let four : length size ≡ 4 = length-to_be_bytes 4 (total % 2 ^ 32) in
      let whole : length (body_of frame) ≡ total = length-body_of frame in
      let fits : ltb max_frame_size (total + 4) ≡ false =
        le→ltb max_frame_size (total + 4) (omega arith) in
      let body_at : drop 4 (size ++ body_of frame) ≡ body_of frame =
        drop_first 4 size (body_of frame) four in
      (
        size ++ body_of frame,
        rw fits refl,
        omega (arith, length-append size (body_of frame), four, whole),
        rw (take_first 4 size (body_of frame) four, body_at)
            (from-to_be_bytes 4 (total % 2 ^ 32) (omega arith) ∙ omega (arith, whole)),
        rw body_at (body_decodes frame h),
      )

  -- A frame above the limit is refused with its size.
  pub encode_frame-too_large :
      (frame : Frame Command)
      → max_frame_size < 8 + length (encode frame.command) + length frame.payload
      → encode_frame encode decode frame
        ≡ err (too_large (4 + length (encode frame.command) + length frame.payload + 4))
  unfolding encode_frame
  encode_frame-too_large frame h = ground arith
