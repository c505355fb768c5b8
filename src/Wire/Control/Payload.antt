-- ===== src/Wire/Control/Payload.antt =====
-- The payloads of the control frames of src/wire.rs: the `match` of `encode_control` on the frame, and
-- the one of `decode_control` on the kind.
use quicp.Prelude.{
  ℕ, zero, suc, ◌+◌, ◌*◌, ◌/◌, ◌%◌, Bool, List, [], ◌∷◌, ◌++◌, length, drop, Option, none, some,
  Result, ok, err, and_then, map_err, ltb, leb, ◌==◌, ◌||◌, ◌&&◌, not, if◌then◌else◌,
}
use mathlib.Core.Option
use quicp.Wire.{
  WireError, CodecError, limit, invalid_field, unknown_type, trailing_bytes, max_wire_offset,
}
use quicp.Wire.Bytes.{be_bytes}
use quicp.Wire.Varint.{encode_varint}
use quicp.Wire.Cursor.{
  cursor, Read, ◌>>=◌, ◌>>◌, pure, lift, refuse, u8, uint, varint, remaining, take as read_bytes,
  is_empty,
}
use quicp.Wire.Source.{fin_byte}
use quicp.Wire.Repair.{max_repair_span}
use quicp.Wire.Status.{OpenStatus, encode_status, decode_status}
use quicp.Wire.OpenRequest.{OpenRequest, encode_open, decode_open}
use quicp.Wire.Capabilities.{Capabilities}

pub data ControlFrame : Type 0 where
  capabilities : Capabilities → ControlFrame
  open_request : OpenRequest → ControlFrame
  status : OpenStatus → ControlFrame
  ack : (contiguous : ℕ) (ranges : List (ℕ × ℕ)) → ControlFrame
  max_offset fin : ℕ → ControlFrame
  stream_data : (offset : ℕ) (is_fin : Bool) (bytes : List ℕ) → ControlFrame
  early_open :
      (token : List ℕ) (nonce : ℕ) (request : OpenRequest) (initial : List ℕ) → ControlFrame

-- config.rs
abbrev pub max_decoder_window : ℕ
max_decoder_window = 4096

abbrev pub frame_capabilities : ℕ
frame_capabilities = 0x01

abbrev pub frame_open : ℕ
frame_open = 0x02

abbrev pub frame_status : ℕ
frame_status = 0x03

abbrev pub frame_ack : ℕ
frame_ack = 0x04

abbrev pub frame_max_offset : ℕ
frame_max_offset = 0x05

abbrev pub frame_fin : ℕ
frame_fin = 0x06

abbrev pub frame_stream_data : ℕ
frame_stream_data = 0x08

abbrev pub frame_early_open : ℕ
frame_early_open = 0x09

unfoldable pub frame_kind : ControlFrame → ℕ
frame_kind (capabilities c) = frame_capabilities
frame_kind (open_request r) = frame_open
frame_kind (status s) = frame_status
frame_kind (ack contiguous ranges) = frame_ack
frame_kind (max_offset o) = frame_max_offset
frame_kind (fin o) = frame_fin
frame_kind (stream_data offset is_fin bytes) = frame_stream_data
frame_kind (early_open token nonce request initial) = frame_early_open

-- `u8::try_from(n).expect(..)`
byte_of : ℕ → Option ℕ
byte_of n = if ltb n 256 then some n else none

unfoldable pub encode_ranges : List (ℕ × ℕ) → List ℕ
encode_ranges [] = []
encode_ranges ((start, end) ∷ ranges) =
    encode_varint start ++ (encode_varint end ++ encode_ranges ranges)

-- `.expect(..)`
expected : Result (List ℕ) WireError → Option (List ℕ)
expected (ok bytes) = some bytes
expected (err e) = none

unfoldable pub encode_payload : ControlFrame → Option (List ℕ)
unfolding byte_of expected
encode_payload (capabilities c) = some (
    encode_varint c.flags
    ++ (be_bytes 2 c.max_symbol
        ++ (be_bytes 2 c.max_span ++ (be_bytes 2 c.decoder_window ++ (c.max_ack_ranges ∷ [])))))
encode_payload (open_request r) = expected (encode_open r)
encode_payload (status s) = some (encode_status s ∷ [])
encode_payload (ack contiguous ranges) =
    Option.map (λ count. encode_varint contiguous ++ (count ∷ encode_ranges ranges))
      (byte_of (length ranges))
encode_payload (max_offset o) = some (encode_varint o)
encode_payload (fin o) = some (encode_varint o)
encode_payload (stream_data offset is_fin bytes) =
    some (encode_varint offset ++ (fin_byte is_fin ∷ bytes))
encode_payload (early_open token nonce request initial) =
    Option.bind (byte_of (length token)) λ token_len.
      Option.map (λ opened. token_len ∷ (token ++ (be_bytes 8 nonce ++ (opened ++ initial))))
        (expected (encode_open request))

-- `flags & !CAPABILITY_MASK != 0`, where the mask has the bits 0, 1 and 3.
abbrev pub reserved_flags : ℕ → Bool
reserved_flags flags = not (flags / 16 * 16 + flags / 4 % 2 * 4 == 0)

abbrev pub capabilities_refused : Capabilities → Bool
capabilities_refused c =
    ltb c.max_symbol 64
    || (c.max_span == 0
        || (ltb max_repair_span c.max_span
            || (not (leb 512 c.decoder_window && leb c.decoder_window max_decoder_window)
                || (c.max_ack_ranges == 0 || ltb 32 c.max_ack_ranges))))

-- Flags without a reserved bit fit a byte, as `u8::try_from` wants.
unfoldable pub read_capabilities : Read ControlFrame
read_capabilities = do
  flags ← varint
  refuse (reserved_flags flags) invalid_field
  max_symbol ← uint 2
  max_span ← uint 2
  decoder_window ← uint 2
  max_ack_ranges ← u8
  let c : Capabilities = record {
    flags = flags;
    max_symbol = max_symbol;
    max_span = max_span;
    decoder_window = decoder_window;
    max_ack_ranges = max_ack_ranges;
  }
  refuse (capabilities_refused c) invalid_field
  pure (capabilities c)

abbrev pub as_invalid {ℓ} : {A : Type ℓ} → Result A WireError → Result A CodecError
as_invalid r = map_err (λ e. invalid_field) r

unfoldable pub read_status : Read ControlFrame
read_status = do value ← u8; s ← lift (as_invalid (decode_status value)); pure (status s)

-- The ranges are in order and none is empty, from `previous` on.
unfoldable pub read_ranges : ℕ → ℕ → Read (List (ℕ × ℕ))
read_ranges zero previous = pure []
read_ranges (suc count) previous = do
  start ← varint
  end ← varint
  refuse (ltb start previous || (leb end start || ltb max_wire_offset end)) invalid_field
  ranges ← read_ranges count end
  pure ((start, end) ∷ ranges)

unfoldable pub read_ack : ℕ → Read ControlFrame
read_ack max_ack_ranges = do
  contiguous ← varint
  count ← u8
  refuse (ltb max_ack_ranges count) limit
  ranges ← read_ranges count contiguous
  pure (ack contiguous ranges)

unfoldable pub read_max_offset : Read ControlFrame
read_max_offset = do o ← varint; pure (max_offset o)

unfoldable pub read_fin : Read ControlFrame
read_fin = do o ← varint; pure (fin o)

unfoldable pub read_stream_data : Read ControlFrame
read_stream_data = do
  offset ← varint
  flags ← u8
  refuse (ltb 1 flags) invalid_field
  bytes ← remaining
  pure (stream_data offset (flags == 1) bytes)

unfoldable pub read_early_open : Read ControlFrame
read_early_open = do
  token_len ← u8
  refuse (token_len == 0 || ltb 128 token_len) limit
  token ← read_bytes token_len
  nonce ← uint 8
  rest ← remaining
  opened ← lift (as_invalid (decode_open rest))
  refuse (length (drop opened.1 rest) == 0) invalid_field
  pure (early_open token nonce opened.0 (drop opened.1 rest))

-- The test behind the `match`, for the frames that do not return before it.
unfoldable pub complete : Read ControlFrame → List ℕ → Result ControlFrame CodecError
complete m payload =
    and_then (m (cursor payload)) λ r. if not (is_empty r.1) then err trailing_bytes else ok r.0

unfoldable pub returned : Read ControlFrame → List ℕ → Result ControlFrame CodecError
returned m payload = and_then (m (cursor payload)) λ r. ok r.0

unfoldable pub decode_open_frame : List ℕ → Result ControlFrame CodecError
decode_open_frame payload =
    and_then (as_invalid (decode_open payload))
      λ r. if not (r.1 == length payload) then err trailing_bytes else ok (open_request r.0)

unfoldable pub decode_payload : ℕ → List ℕ → ℕ → Result ControlFrame CodecError
decode_payload kind payload max_ack_ranges =
    if kind == frame_capabilities
    then complete read_capabilities payload
    else (if kind == frame_open
        then decode_open_frame payload
        else (if kind == frame_status
            then complete read_status payload
            else (if kind == frame_ack
                then complete (read_ack max_ack_ranges) payload
                else (if kind == frame_max_offset
                    then complete read_max_offset payload
                    else (if kind == frame_fin
                        then complete read_fin payload
                        else (if kind == frame_stream_data
                            then returned read_stream_data payload
                            else (if kind == frame_early_open
                                then returned read_early_open payload
                                else err unknown_type)))))))
