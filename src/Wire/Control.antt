-- ===== src/Wire/Control.antt =====
-- `ControlFrame` of src/wire.rs, `encode_control` and `decode_control`: one frame of the reliable
-- control stream, a kind, the length of a payload, and the payload.
pub mod Payload
pub mod Frames
pub mod Reads
pub mod RoundTrip
mod Tests
use quicp.Prelude.{
  ℕ, suc, ◌+◌, ◌%◌, ◌^◌, ◌/◌, Bool, List, [], ◌∷◌, ◌++◌, length, take, drop, Option, none, some,
  Result, ok, err, and_then, ltb, leb, ◌==◌, if◌then◌else◌, ◌>>=◌, ◌>>◌, fail_if, ok_or,
}
use mathlib.Core.Option
use quicp.Wire.{CodecError, truncated, limit, invalid_field}
use quicp.Wire.Bytes.{split_at}
use quicp.Wire.Varint.{encode_varint, decode_varint}
use quicp.Wire.Control.Payload.{ControlFrame, frame_kind, encode_payload, decode_payload}

-- `control_payload_range`: where the payload starts and ends. No sum passes 2^64, since a length is
-- below 2^62.
unfoldable pub control_payload_range : List ℕ → ℕ → Result (ℕ × ℕ) CodecError
control_payload_range [] max_frame_bytes = err CodecError.truncated
control_payload_range (kind ∷ rest) max_frame_bytes = do
  (payload_length, length_bytes) ← decode_varint rest
  fail_if (ltb max_frame_bytes (1 + length_bytes + payload_length)) limit
  ok (1 + length_bytes, 1 + length_bytes + payload_length)

-- `input.get(start..end)`
abbrev slice : List ℕ → ℕ → ℕ → Option (List ℕ)
slice input start end = Option.map (λ (p : List ℕ × List ℕ). drop start p.0) (split_at end input)

-- How many bytes the prefix before the length says that the header has.
header_bytes : List ℕ → ℕ
header_bytes [] = 2
header_bytes (kind ∷ []) = 2
header_bytes (kind ∷ first ∷ rest) = 1 + 2 ^ (first / 64)

target_of : Result (ℕ × ℕ) CodecError → List ℕ → ℕ → Result ℕ CodecError
target_of (ok payload) input max_frame_bytes = ok payload.1
target_of (err CodecError.truncated) input max_frame_bytes =
    if ltb max_frame_bytes (header_bytes input) then err limit else ok (header_bytes input)
target_of (err error) input max_frame_bytes = err error

unfoldable pub control_frame_read_target : List ℕ → ℕ → Result ℕ CodecError
unfolding target_of header_bytes
control_frame_read_target input max_frame_bytes =
    target_of (control_payload_range input max_frame_bytes) input max_frame_bytes

-- The frame and the number of bytes that it takes up.
unfoldable pub decode_control :
    List ℕ → (max_ack_ranges max_frame_bytes : ℕ) → Result (ControlFrame × ℕ) CodecError
decode_control [] max_ack_ranges max_frame_bytes = err CodecError.truncated
decode_control (kind ∷ rest) max_ack_ranges max_frame_bytes = do
  range ← control_payload_range (kind ∷ rest) max_frame_bytes
  payload ← ok_or (slice (kind ∷ rest) range.0 range.1) CodecError.truncated
  frame ← decode_payload kind payload max_ack_ranges
  ok (frame, range.1)

-- What is appended to the output; `none` where a length that is not a byte makes the code panic.
unfoldable pub encode_control : ControlFrame → Option (List ℕ)
encode_control frame =
    Option.map (λ payload. frame_kind frame ∷ (encode_varint (length payload) ++ payload))
      (encode_payload frame)
