-- ===== src/Wire/Source/Tests.antt =====
-- Runs of the SOURCE codec (src/wire.rs) and instances of its theorems.
use quicp.Prelude.{◌≡◌, ◌≤◌, ℕ, List, refl, true, false, [], ◌∷◌, ◌++◌, ok, err, arith, length}
use quicp.Wire.Bytes.{be_bytes, be_value, split_at}
use quicp.Wire.Varint.{encode_varint, decode_varint}
use quicp.Wire.Cursor.{u8, uint, varint, take}
use quicp.Wire.{trailing_bytes}
use quicp.Wire.Source.{
  SourceRecord, SourceDatagram, encode_source, encode_source_records, encode_source_record,
  decode_source, decode_source_inner, read_source, decode_source_record, checked_slice,
  skip_source_records, decode_source_padded, wire_range_fits,
}
use quicp.Wire.Source.RoundTrip.{Decoded, decode-encode_source}
use quicp.Wire.Source.Canonical.{Reencodes, decode_source-canonical}

abbrev help : SourceRecord
help = record { flow_id = 0; offset = 0; fin = false; payload = b'h' ∷ b'e' ∷ b'l' ∷ b'p' ∷ [] }

abbrev tail_record : SourceRecord
tail_record = record { flow_id = 2; offset = 64; fin = true; payload = 1 ∷ [] }

abbrev wire_form : List ℕ
wire_form =
    0x20 ∷ 0 ∷ 0 ∷ 0 ∷ 1 ∷ 2 ∷ 0 ∷ 0 ∷ 0 ∷ 4 ∷ b'h' ∷ b'e' ∷ b'l' ∷ b'p' ∷ 2 ∷ 0x40 ∷ 64 ∷ 1 ∷ 1 ∷ 1
    ∷ []

encoded : encode_source 1 (help ∷ tail_record ∷ []) ≡ ok wire_form
unfolding encode_source encode_source_records encode_source_record wire_range_fits encode_varint
    be_bytes
encoded = refl

abbrev decoded : SourceDatagram
decoded = record {
  symbol_id = 1;
  first_record = help;
  remaining_records = 2 ∷ 0x40 ∷ 64 ∷ 1 ∷ 1 ∷ 1 ∷ [];
  record_count = 2;
}

decodes : decode_source wire_form 8 1200 ≡ ok decoded
unfolding decode_source decode_source_inner read_source decode_source_record checked_slice
    skip_source_records u8 uint varint take decode_varint split_at be_value wire_range_fits
decodes = refl

padded_only :
    (decode_source (wire_form ++ (0 ∷ [])) 8 1200 ≡ err trailing_bytes)
    × (decode_source_padded (wire_form ++ (1 ∷ [])) 8 1200 ≡ err trailing_bytes)
unfolding decode_source decode_source_padded decode_source_inner read_source decode_source_record
    checked_slice skip_source_records u8 uint varint take decode_varint split_at be_value
    wire_range_fits
padded_only = (refl, refl)

decode-encode_source_example :
    (d : SourceDatagram) × (decode_source wire_form 8 1200 ≡ ok d)
    × Decoded 1 (help ∷ tail_record ∷ []) d
decode-encode_source_example =
    decode-encode_source 1 8 1200 (help ∷ tail_record ∷ []) wire_form (omega arith) (omega arith)
      encoded (omega arith) (omega arith)

decode_source-canonical_example :
    (length wire_form ≤ 1200) × ((rs : List SourceRecord) × Reencodes wire_form 8 decoded rs)
decode_source-canonical_example = decode_source-canonical wire_form 8 1200 (omega arith) decodes
