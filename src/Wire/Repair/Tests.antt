-- ===== src/Wire/Repair/Tests.antt =====
-- REPAIR datagrams (src/wire.rs) at work, and instances of the theorems.
use quicp.Prelude.{ℕ, ◌≡◌, ◌≤◌, refl, List, [], ◌∷◌, ◌++◌, ok, err, arith}
use quicp.Wire.{invalid_field, unknown_type, trailing_bytes}
use quicp.Wire.Bytes.{be_bytes, be_value, split_at}
use quicp.Wire.Cursor.{u8, uint, take}
use quicp.Wire.Repair.{RepairDatagram, encode_repair, read_repair, decode_repair}
use quicp.Wire.Repair.RoundTrip.{FieldsFit, decode-encode_repair, decode_repair-canonical}

abbrev two_bytes : RepairDatagram
two_bytes = record {
  repair_id = 7;
  first_symbol_id = 256;
  span = 3;
  symbol_size = 2;
  seed = 256;
  coded = 8 ∷ 9 ∷ [];
}

abbrev form : List ℕ
form = 0x21 ∷ 0 ∷ 0 ∷ 0 ∷ 7 ∷ 0 ∷ 0 ∷ 1 ∷ 0 ∷ 0 ∷ 3 ∷ 0 ∷ 2 ∷ 0 ∷ 0 ∷ 1 ∷ 0 ∷ 8 ∷ 9 ∷ []

writes : encode_repair two_bytes ≡ ok form
unfolding encode_repair be_bytes
writes = refl

reads : decode_repair form 1200 ≡ ok two_bytes
unfolding decode_repair read_repair u8 uint take split_at be_value
reads = refl

refusals :
    (decode_repair (form ++ (1 ∷ [])) 1200 ≡ err trailing_bytes)
    × (decode_repair form 1 ≡ err invalid_field)
    × (decode_repair (0x20 ∷ []) 1 ≡ err unknown_type)
unfolding decode_repair read_repair u8 uint take split_at be_value
refusals = (refl, refl, refl)

abbrev widths : FieldsFit two_bytes
widths = record {
  repair_id_fits = omega arith;
  first_symbol_id_fits = omega arith;
  span_fits = omega arith;
  symbol_size_fits = omega arith;
  seed_fits = omega arith;
}

decode-encode_repair_example : decode_repair form 1200 ≡ ok two_bytes
decode-encode_repair_example = decode-encode_repair two_bytes 1200 form widths writes (omega arith)

decode_repair-canonical_example :
    (2 ≤ 1200) × FieldsFit two_bytes × (encode_repair two_bytes ≡ ok form)
decode_repair-canonical_example = decode_repair-canonical form 1200 (ground arith) reads
