-- ===== src/Wire/Source/RoundTrip.antt =====
-- `encode_source`, `decode_source` and `decode_source_padded` of src/wire.rs against each other.
use quicp.Prelude.{
  ℕ, zero, suc, ◌+◌, ◌-◌, ◌<◌, ◌≤◌, ◌^◌, ◌≡◌, refl, ap, sym, ◌∙◌, false, List, [], ◌∷◌, ◌++◌,
  length, length-append, drop, arith, ok, and_then, and_then-eq_ok, ok-injective, ltb, ◌==◌, ◌||◌,
  replicate, length-replicate,
}
use mathlib.Core.Path.{ap₂}
use mathlib.Core.List.{append_assoc, append-nil}
use quicp.Wire.{limit}
use quicp.Wire.Bytes.{be_bytes, length-be_bytes}
use quicp.Wire.Cursor.{
  Cursor, at, cursor, Read, >>=-of-ok, ◌>>=◌, pure, >>-of-refuse, u8, u8_lem, uint, uint_lem,
}
use quicp.Wire.Source.{
  SourceRecord, SourceDatagram, source_datagram, encode_source, encode_source_record,
  encode_source_records, decode_source_record, decode_source_records, checked_slice, read_source,
  decode_source_inner, decode_source, decode_source_padded, records, any_nonzero,
}
use quicp.Wire.Source.Records.{decode-encode_source_record}
use quicp.Wire.Source.Sequence.{
  AllWire, AllFlowsFit, written, encode_source_records-eq_ok, decode_source_records_lem,
  checked_slice_lem,
}

-- What a reader makes of the records `r ∷ rs`.
abbrev pub view : ℕ → SourceRecord → List SourceRecord → SourceDatagram
view symbol_id r rs = record {
  symbol_id = symbol_id;
  first_record = r;
  remaining_records = written rs;
  record_count = suc (length rs);
}

pub records-view :
    (symbol_id : ℕ) (r : SourceRecord) (rs : List SourceRecord)
    → AllWire rs
    → records (view symbol_id r rs) ≡ ok (r ∷ rs)
unfolding records
records-view symbol_id r rs v =
    ap (λ x. and_then x (λ p. ok (r ∷ p.0)))
      (ap₂ (λ n t. decode_source_records n (at 0 t)) (omega arith) (sym (append-nil (written rs)))
        ∙ decode_source_records_lem rs 0 [] v)

-- The datagram and what follows it.
abbrev pub form : ℕ → SourceRecord → List SourceRecord → List ℕ
form symbol_id r rs =
    source_datagram ∷ (be_bytes 4 symbol_id ++ (suc (length rs) ∷ written (r ∷ rs)))

guards_passed :
    (symbol_id : ℕ) (r : SourceRecord) (t : List SourceRecord) {bytes : List ℕ}
    → encode_source symbol_id (r ∷ t) ≡ ok bytes
    → (suc (length t) ≤ 255)
      × (and_then
            (encode_source_records (r ∷ t))
            (λ bytes. ok (source_datagram ∷ (be_bytes 4 symbol_id ++ (suc (length t) ∷ bytes))))
          ≡ ok bytes)
unfolding encode_source
guards_passed symbol_id r t h = ground arith

-- What the writer makes of records that it takes.
record Encoded (symbol_id : ℕ) (rs : List SourceRecord) (bytes : List ℕ) : Type 0 where
  head : SourceRecord
  rest : List SourceRecord
  items : rs ≡ head ∷ rest
  wire : AllWire (head ∷ rest)
  output : bytes ≡ form symbol_id head rest

encode-Encoded :
    (symbol_id : ℕ) (rs : List SourceRecord) {bytes : List ℕ}
    → AllFlowsFit rs
    → encode_source symbol_id rs ≡ ok bytes
    → Encoded symbol_id rs bytes
encode-Encoded symbol_id [] f h = unfold encode_source in absurd (cc)
encode-Encoded symbol_id (r ∷ t) f h =
    let (bytes, e, q) =
      and_then-eq_ok (encode_source_records (r ∷ t))
        (λ bytes. ok (source_datagram ∷ (be_bytes 4 symbol_id ++ (suc (length t) ∷ bytes))))
        (guards_passed symbol_id r t h).1 in
    let (v, w) = encode_source_records-eq_ok (r ∷ t) f e in
    record {
      head = r;
      rest = t;
      items = refl;
      wire = v;
      output =
          sym (ok-injective q)
          ∙ ap (λ b. source_datagram ∷ (be_bytes 4 symbol_id ++ (suc (length t) ∷ b))) w;
    }

form-append :
    (symbol_id : ℕ) (r : SourceRecord) (rs : List SourceRecord) (rest : List ℕ)
    → form symbol_id r rs ++ rest
      ≡ source_datagram
        ∷ (be_bytes 4 symbol_id
            ++ (suc (length rs) ∷ (encode_source_record r ++ (written rs ++ rest))))
form-append symbol_id r rs rest = simp append_assoc

length-form :
    (symbol_id : ℕ) (r : SourceRecord) (rs : List SourceRecord)
    → 0 + 1 + 4 + 1 + length (encode_source_record r) + length (written rs)
      ≡ length (form symbol_id r rs)
length-form symbol_id r rs = omega (
  arith,
  length-append (be_bytes 4 symbol_id) (suc (length rs) ∷ written (r ∷ rs)),
  length-be_bytes 4 symbol_id,
  length-append (encode_source_record r) (written rs),
)

count_back : (n : ℕ) → suc n - 1 ≡ n
count_back n = omega arith

read_form :
    (symbol_id max_records : ℕ) (r : SourceRecord) (rs : List SourceRecord) (rest : List ℕ)
    → symbol_id < 256 ^ 4
    → suc (length rs) ≤ max_records
    → AllWire (r ∷ rs)
    → read_source max_records (cursor (form symbol_id r rs ++ rest))
      ≡ ok (view symbol_id r rs, at (length (form symbol_id r rs)) rest)
unfolding read_source
read_form symbol_id max_records r rs rest hs hm v =
    ap (λ t. read_source max_records (cursor t)) (form-append symbol_id r rs rest)
    ∙ >>=-of-ok u8 _ (u8_lem _ _ _) (
        >>=-of-ok (uint 4) _ (uint_lem 4 _ symbol_id _ hs) (
          >>=-of-ok u8 _ (u8_lem _ _ _) (
            >>-of-refuse (suc (length rs) == 0 || ltb max_records (suc (length rs))) limit _
              (ground arith)
              (>>=-of-ok decode_source_record _
                (decode-encode_source_record r _ (written rs ++ rest) v.0)
                (ap (λ n. (checked_slice n >>= build) at_rest) (count_back (length rs))
                  ∙ >>=-of-ok (checked_slice (length rs)) _ (checked_slice_lem rs _ rest v.1) (
                      ap (λ n. ok (view symbol_id r rs, at n rest))
                        (length-form symbol_id r rs)))))))
  where
    at_rest : Cursor
    at_rest = at (0 + 1 + 4 + 1 + length (encode_source_record r)) (written rs ++ rest)

    build : List ℕ → Read SourceDatagram
    build remaining = pure (record (view symbol_id r rs) { remaining_records = remaining })

inner_of_read :
    (input : List ℕ) (max_records max_symbol_bytes : ℕ) {d : SourceDatagram} {c : Cursor}
    → length input ≤ max_symbol_bytes
    → read_source max_records (cursor input) ≡ ok (d, c)
    → decode_source_inner input max_records max_symbol_bytes ≡ ok (d, c.offset)
unfolding decode_source_inner
inner_of_read input max_records max_symbol_bytes h e = rw e (ground arith)

zeros_pass : (n : ℕ) → any_nonzero (replicate n 0) ≡ false
zeros_pass zero = refl
zeros_pass (suc n) = zeros_pass n

drop-append : (xs ys : List ℕ) → drop (length xs) (xs ++ ys) ≡ ys
drop-append [] ys = refl
drop-append (x ∷ xs) ys = drop-append xs ys

-- What a reader returns for an encoded datagram.
pub record Decoded (symbol_id : ℕ) (rs : List SourceRecord) (d : SourceDatagram) : Type 0 where
  pub same_id : d.symbol_id ≡ symbol_id
  pub same_count : d.record_count ≡ length rs
  pub same_records : records d ≡ ok rs

view-Decoded :
    {symbol_id : ℕ} {rs : List SourceRecord} {bytes : List ℕ} (e : Encoded symbol_id rs bytes)
    → Decoded symbol_id rs (view symbol_id e.head e.rest)
view-Decoded e = record {
  same_id = refl;
  same_count = sym (ap length e.items);
  same_records = records-view _ e.head e.rest e.wire.1 ∙ ap ok (sym e.items);
}

module _ (symbol_id max_records max_symbol_bytes : ℕ) (rs : List SourceRecord) (bytes : List ℕ)
    (id_fits : symbol_id < 2 ^ 32) (flows_fit : AllFlowsFit rs)
    (encoded : encode_source symbol_id rs ≡ ok bytes) (few : length rs ≤ max_records) where
  parts : Encoded symbol_id rs bytes
  parts = encode-Encoded symbol_id rs flows_fit encoded

  inner_form :
      (rest : List ℕ)
      → length (bytes ++ rest) ≤ max_symbol_bytes
      → let e = parts in
        decode_source_inner (bytes ++ rest) max_records max_symbol_bytes
        ≡ ok (view symbol_id e.head e.rest, length bytes)
  inner_form rest h =
      let e = parts in
      inner_of_read (bytes ++ rest) max_records max_symbol_bytes h (
        ap (λ b. read_source max_records (cursor (b ++ rest))) e.output
        ∙ read_form symbol_id max_records e.head e.rest rest id_fits
            (omega (arith, few, ap length e.items)) e.wire
        ∙ ap (λ b. ok (view symbol_id e.head e.rest, at (length b) rest)) (sym e.output))

  -- A datagram that is encoded from records whose flow identifiers fit a varint decodes to its
  -- symbol identifier and exactly those records, where the reader's limits admit them.
  pub decode-encode_source :
      length bytes ≤ max_symbol_bytes
      → (d : SourceDatagram) × (decode_source bytes max_records max_symbol_bytes ≡ ok d)
        × Decoded symbol_id rs d
  unfolding decode_source
  decode-encode_source h =
      let plain_form = rw append-nil at (inner_form [] (rw append-nil h)) in
      (view symbol_id parts.head parts.rest, rw plain_form (ground arith), view-Decoded parts)

  -- A datagram that is encoded from records whose flow identifiers fit a varint and that stands in
  -- front of zeros, as a recovered symbol does, decodes to its records and its own length, where the
  -- reader's limits admit them.
  pub decode-encode_source_padded :
      (padding : ℕ)
      → length bytes + padding ≤ max_symbol_bytes
      → (d : SourceDatagram) × (decode_source_padded
            (bytes ++ replicate padding 0)
            max_records
            max_symbol_bytes
          ≡ ok (d, length bytes))
        × Decoded symbol_id rs d
  unfolding decode_source_padded
  decode-encode_source_padded padding h =
      let fits : length (bytes ++ replicate padding 0) ≤ max_symbol_bytes =
        omega
          (arith, length-append bytes (replicate padding 0), length-replicate {A = ℕ} padding 0) in
      (
        view symbol_id parts.head parts.rest,
        rw (inner_form (replicate padding 0) fits)
            (rw (drop-append bytes (replicate padding 0), zeros_pass padding)),
        view-Decoded parts,
      )
