-- ===== src/Wire/Source.antt =====
-- The SOURCE datagram of src/wire.rs: one or more records of flow bytes under a symbol identifier.
-- A writer that fails leaves its output to a caller that gives up, so an error carries no bytes.
pub mod Records
pub mod Sequence
pub mod RoundTrip
pub mod Canonical
mod Tests
use quicp.Prelude.{
  ℕ, zero, suc, ◌+◌, ◌-◌, Bool, true, false, List, [], ◌∷◌, ◌++◌, length, take, drop, Result, ok,
  err, and_then, ◌&&◌, ltb, leb, ◌==◌, ◌||◌, not, if◌then◌else◌,
}
use quicp.Wire.{CodecError, limit, invalid_field, unknown_type, trailing_bytes, max_wire_offset}
use quicp.Wire.Bytes.{be_bytes}
use quicp.Wire.Varint.{encode_varint}
use quicp.Wire.Cursor.{
  Cursor, proceed, cursor, Read, ◌>>=◌, ◌>>◌, pure, refuse, u8, uint, varint, take as read_bytes,
}

abbrev pub source_datagram : ℕ
source_datagram = 0x20

abbrev pub max_source_records : ℕ
max_source_records = 32

pub record SourceRecord : Type 0 where
  pub flow_id : ℕ
  pub offset : ℕ
  pub fin : Bool
  pub payload : List ℕ

-- The first record is kept decoded, the others as the bytes that were checked.
pub record SourceDatagram : Type 0 where
  pub symbol_id : ℕ
  pub first_record : SourceRecord
  pub remaining_records : List ℕ
  pub record_count : ℕ

-- `u8::from(fin)`
abbrev pub fin_byte : Bool → ℕ
fin_byte false = 0
fin_byte true = 1

-- `validate_wire_range`: a sum past 2^64 is past the maximal offset too.
unfoldable pub wire_range_fits : ℕ → ℕ → Bool
wire_range_fits offset len = leb (offset + len) max_wire_offset

unfoldable pub encode_source_record : SourceRecord → List ℕ
encode_source_record r =
    encode_varint r.flow_id
    ++ (encode_varint r.offset
        ++ (fin_byte r.fin ∷ (encode_varint (length r.payload) ++ r.payload)))

abbrev pub source_record_fits : SourceRecord → Bool
source_record_fits r = ltb 0 (length r.payload) && wire_range_fits r.offset (length r.payload)

-- The loop of `encode_source` over its records.
unfoldable pub encode_source_records : List SourceRecord → Result (List ℕ) CodecError
encode_source_records [] = ok []
encode_source_records (r ∷ rs) =
    if source_record_fits r
    then and_then (encode_source_records rs) (λ bytes. ok (encode_source_record r ++ bytes))
    else err invalid_field

unfoldable pub encode_source : ℕ → List SourceRecord → Result (List ℕ) CodecError
encode_source symbol_id records =
    if ltb 255 (length records)
    then err limit
    else (if length records == 0
        then err invalid_field
        else and_then (encode_source_records records)
            λ bytes. ok (source_datagram ∷ (be_bytes 4 symbol_id ++ (length records ∷ bytes))))

-- `decode_source_record`. `flags & !1 != 0` is `1 < flags`.
unfoldable pub decode_source_record : Read SourceRecord
decode_source_record = do
  flow_id ← varint
  offset ← varint
  flags ← u8
  refuse (ltb 1 flags) invalid_field
  len ← varint
  refuse (len == 0) invalid_field
  refuse (not (wire_range_fits offset len)) invalid_field
  payload ← read_bytes len
  pure (record { flow_id = flow_id; offset = offset; fin = flags == 1; payload = payload })

-- `for _ in 0..n { decode_source_record(&mut cursor)?; }`
unfoldable pub skip_source_records : ℕ → Read (Unit {0})
skip_source_records zero = pure tt
skip_source_records (suc n) = do r ← decode_source_record; skip_source_records n

-- The same loop where the records are kept, as the consumers of `SourceDatagram::records` do.
unfoldable pub decode_source_records : ℕ → Read (List SourceRecord)
decode_source_records zero = pure []
decode_source_records (suc n) = do
  r ← decode_source_record
  rs ← decode_source_records n
  pure (r ∷ rs)

-- `SourceDatagram::records`, collected: the first record, and then those of the remaining bytes.
unfoldable pub records : SourceDatagram → Result (List SourceRecord) CodecError
records d =
    and_then (decode_source_records (d.record_count - 1) (cursor d.remaining_records))
      λ r. ok (d.first_record ∷ r.0)

-- The records after the first are checked and then kept as the slice that they take up.
unfoldable pub checked_slice : ℕ → Read (List ℕ)
checked_slice n c =
    proceed (skip_source_records n c) (λ u c'. ok (take (c'.offset - c.offset) c.rest, c'))

unfoldable pub read_source : ℕ → Read SourceDatagram
read_source max_records = do
  kind ← u8
  refuse (not (kind == source_datagram)) unknown_type
  symbol_id ← uint 4
  count ← u8
  refuse (count == 0 || ltb max_records count) limit
  first ← decode_source_record
  remaining ← checked_slice (count - 1)
  pure (record {
    symbol_id = symbol_id;
    first_record = first;
    remaining_records = remaining;
    record_count = count;
  })

-- The datagram and the number of bytes that it takes up.
unfoldable pub decode_source_inner : List ℕ → ℕ → ℕ → Result (SourceDatagram × ℕ) CodecError
decode_source_inner input max_records max_symbol_bytes =
    if ltb max_symbol_bytes (length input)
    then err limit
    else and_then (read_source max_records (cursor input)) (λ r. ok (r.0, r.1.offset))

unfoldable pub decode_source : List ℕ → ℕ → ℕ → Result SourceDatagram CodecError
decode_source input max_records max_symbol_bytes =
    and_then (decode_source_inner input max_records max_symbol_bytes)
      λ r. if not (r.1 == length input) then err trailing_bytes else ok r.0

abbrev pub any_nonzero : List ℕ → Bool
any_nonzero [] = false
any_nonzero (b ∷ bs) = not (b == 0) || any_nonzero bs

-- A recovered source may be followed by zeros, up to the size of the coded symbol.
unfoldable pub decode_source_padded : List ℕ → ℕ → ℕ → Result (SourceDatagram × ℕ) CodecError
decode_source_padded input max_records max_symbol_bytes =
    and_then (decode_source_inner input max_records max_symbol_bytes)
      λ r. if any_nonzero (drop r.1 input) then err trailing_bytes else ok r
