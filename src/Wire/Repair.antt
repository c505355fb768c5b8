-- ===== src/Wire/Repair.antt =====
-- The REPAIR datagram of src/wire.rs: a coded symbol over a span of source symbols.
pub mod RoundTrip
mod Tests
use quicp.Prelude.{
  ℕ, ◌+◌, Bool, true, false, List, [], ◌∷◌, ◌++◌, length, Result, ok, err, and_then, ltb, ◌==◌,
  ◌||◌, not, if◌then◌else◌,
}
use quicp.Wire.{CodecError, invalid_field, unknown_type, trailing_bytes}
use quicp.Wire.Bytes.{be_bytes}
use quicp.Wire.Cursor.{
  Cursor, cursor, Read, ◌>>=◌, ◌>>◌, pure, refuse, u8, uint, take as read_bytes, is_empty,
}

abbrev pub repair_datagram : ℕ
repair_datagram = 0x21

-- config.rs
abbrev pub max_repair_span : ℕ
max_repair_span = 256

pub record RepairDatagram : Type 0 where
  pub repair_id : ℕ
  pub first_symbol_id : ℕ
  pub span : ℕ
  pub symbol_size : ℕ
  pub seed : ℕ
  pub coded : List ℕ

abbrev pub span_refused : ℕ → Bool
span_refused span = span == 0 || ltb max_repair_span span

unfoldable pub encode_repair : RepairDatagram → Result (List ℕ) CodecError
encode_repair f =
    if span_refused f.span || (f.symbol_size == 0 || not (length f.coded == f.symbol_size))
    then err invalid_field
    else ok (
        repair_datagram
        ∷ (be_bytes 4 f.repair_id
            ++ (be_bytes 4 f.first_symbol_id
                ++ (be_bytes 2 f.span
                    ++ (be_bytes 2 f.symbol_size ++ (be_bytes 4 f.seed ++ f.coded))))))

unfoldable pub read_repair : ℕ → Read RepairDatagram
read_repair max_symbol_bytes = do
  kind ← u8
  refuse (not (kind == repair_datagram)) unknown_type
  repair_id ← uint 4
  first_symbol_id ← uint 4
  span ← uint 2
  symbol_size ← uint 2
  seed ← uint 4
  refuse (span_refused span || (symbol_size == 0 || ltb max_symbol_bytes symbol_size)) invalid_field
  coded ← read_bytes symbol_size
  pure (record {
    repair_id = repair_id;
    first_symbol_id = first_symbol_id;
    span = span;
    symbol_size = symbol_size;
    seed = seed;
    coded = coded;
  })

unfoldable pub decode_repair : List ℕ → ℕ → Result RepairDatagram CodecError
decode_repair input max_symbol_bytes =
    and_then (read_repair max_symbol_bytes (cursor input))
      λ r. if not (is_empty r.1) then err trailing_bytes else ok r.0
