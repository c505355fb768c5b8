-- ===== src/Wire/Control/Tests.antt =====
-- Control frames (src/wire.rs) at work, and instances of the theorems.
use quicp.Prelude.{ℕ, ◌≡◌, ◌≤◌, refl, List, [], ◌∷◌, ◌++◌, length, some, ok, err, arith}
use quicp.Wire.{truncated, limit, invalid_field, unknown_type, trailing_bytes}
use quicp.Wire.Bytes.{be_bytes, be_value, split_at}
use quicp.Wire.Varint.{encode_varint, decode_varint}
use quicp.Wire.Cursor.{u8, uint, varint, take}
use quicp.Wire.Control.{
  control_payload_range, control_frame_read_target, encode_control, decode_control,
}
use quicp.Wire.Control.Payload.{
  ControlFrame, ack, frame_kind, encode_ranges, encode_payload, decode_payload, read_ack,
  read_ranges, read_fin, complete,
}
use quicp.Wire.Control.RoundTrip.{decode_control-encode_control}

abbrev two_ranges : ControlFrame
two_ranges = ack 5 ((10, 20) ∷ (30, 31) ∷ [])

abbrev two_ranges_form : List ℕ
two_ranges_form = 4 ∷ 6 ∷ 5 ∷ 2 ∷ 10 ∷ 20 ∷ 30 ∷ 31 ∷ []

writes : encode_control two_ranges ≡ some two_ranges_form
unfolding encode_control encode_payload encode_ranges frame_kind encode_varint be_bytes
writes = refl

reads : decode_control two_ranges_form 16 1200 ≡ ok (two_ranges, 8)
unfolding decode_control control_payload_range decode_payload complete read_ack read_ranges u8 uint
    varint take decode_varint split_at be_value
reads = refl

refusals :
    (decode_control two_ranges_form 1 1200 ≡ err limit)
    × (decode_control two_ranges_form 16 7 ≡ err limit)
    × (decode_control (4 ∷ 4 ∷ 5 ∷ 1 ∷ 4 ∷ 20 ∷ []) 16 1200 ≡ err invalid_field)
    × (decode_control (6 ∷ 2 ∷ 5 ∷ 5 ∷ []) 16 1200 ≡ err trailing_bytes)
    × (decode_control (7 ∷ 0 ∷ []) 16 1200 ≡ err unknown_type)
    × (decode_control (6 ∷ 1 ∷ []) 16 1200 ≡ err truncated)
unfolding decode_control control_payload_range decode_payload complete read_ack read_ranges read_fin
    u8 uint varint take decode_varint split_at be_value
refusals = (refl, refl, refl, refl, refl, refl)

targets :
    (control_frame_read_target [] 1200 ≡ ok 2)
    × (control_frame_read_target (6 ∷ 0x40 ∷ []) 1200 ≡ ok 3)
    × (control_frame_read_target (6 ∷ 1 ∷ []) 1200 ≡ ok 3)
unfolding control_frame_read_target control_payload_range decode_varint split_at be_value
targets = (refl, refl, refl)

decode_control-encode_control_example :
    (bytes : List ℕ) × (encode_control two_ranges ≡ some bytes)
    × (length bytes ≤ 1200
        → decode_control (bytes ++ (1 ∷ [])) 16 1200 ≡ ok (two_ranges, length bytes))
decode_control-encode_control_example =
    decode_control-encode_control two_ranges (1 ∷ []) 16 1200
      (record {
        contiguous_fits = omega arith;
        count_fits = omega arith;
        count_allowed = omega arith;
        ordered = ground arith;
      })
      (omega arith)
