-- ===== src/Wire/Tests.antt =====
-- Runs of the integer codec (src/wire.rs) and instances of its theorems.
use quicp.Prelude.{◌≡◌, refl, [], ◌∷◌, ◌++◌, ok, arith, length, ◌^◌, ◌-◌}
use quicp.Wire.Bytes.{be_bytes, be_value, split_at}
use quicp.Wire.Varint.{encode_varint, decode_varint, decode-encode_varint}

widths :
    (encode_varint 63 ≡ 63 ∷ [])
    × (encode_varint 64 ≡ 0x40 ∷ 64 ∷ [])
    × (encode_varint 16384 ≡ 0x80 ∷ 0 ∷ 0x40 ∷ 0 ∷ [])
    × (encode_varint (2 ^ 62 - 1) ≡ 255 ∷ 255 ∷ 255 ∷ 255 ∷ 255 ∷ 255 ∷ 255 ∷ 255 ∷ [])
unfolding encode_varint be_bytes
widths = (refl, refl, refl, refl)

reads_300 : decode_varint (0x41 ∷ 0x2c ∷ 7 ∷ []) ≡ ok (300, 2)
unfolding decode_varint split_at be_value
reads_300 = refl

decode-encode_varint_example :
    decode_varint (encode_varint 300 ++ (7 ∷ [])) ≡ ok (300, length (encode_varint 300))
decode-encode_varint_example = decode-encode_varint 300 (7 ∷ []) (omega arith)
