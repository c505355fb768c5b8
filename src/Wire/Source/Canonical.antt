-- ===== src/Wire/Source/Canonical.antt =====
-- What `decode_source` (src/wire.rs) accepts: the encodings of records, each in its only form.
use quicp.Prelude.{
  ℕ, suc, ◌-◌, ◌<◌, ◌≤◌, ◌≡◌, ◌≢◌, refl, ap, sym, ◌∙◌, Bool, true, false, List, [], ◌∷◌, ◌++◌,
  length, length-append, take, ltb, ◌==◌, ◌||◌, not, arith, Result, ok, err, and_then-eq_ok,
  ok-injective, Bool-cases, inl, inr, if◌then◌else◌,
}
use mathlib.Core.Path.{ap₂, subst, subst₂}
use mathlib.Core.List.{append-nil}
use quicp.Wire.{CodecError, trailing_bytes, limit, unknown_type}
use quicp.Wire.Bytes.{IsBytes, be_bytes}
use quicp.Wire.Cursor.{Cursor, cursor, proceed-eq-ok, after, after_refuse, u8, uint}
use quicp.Wire.Cursor.Consumes.{
  Consumes, Consumes-trans, Consumes-IsBytes, u8-Consumes, uint-Consumes,
}
use quicp.Wire.Source.{
  SourceRecord, SourceDatagram, source_datagram, encode_source, decode_source_record, checked_slice,
  skip_source_records, read_source, decode_source_inner, decode_source, records,
  encode_source_record,
}
use quicp.Wire.Source.Records.{IsWireRecord, decode_source_record-canonical}
use quicp.Wire.Source.Sequence.{
  AllWire, written, encode_source_records_lem, Skipped, skip_source_records-canonical, slice_lem,
}
use quicp.Wire.Source.RoundTrip.{view, records-view, form}

consumed_slice :
    {c c' : Cursor} (xs : List ℕ) → Consumes c xs c' → take (c'.offset - c.offset) c.rest ≡ xs
consumed_slice {c} {c'} xs p =
    ap₂ (λ n t. take (n - c.offset) t) p.moved p.input ∙ slice_lem c.offset xs c'.rest

-- The slice that a skip leaves is the written form of what it skipped.
checked_slice-canonical :
    (n : ℕ) (c : Cursor) {r : List ℕ × Cursor}
    → IsBytes c.rest
    → checked_slice n c ≡ ok r
    → (s : Skipped n c r.1) × (r.0 ≡ written s.items)
unfolding checked_slice
checked_slice-canonical n c b h =
    let (p, e, k) =
      proceed-eq-ok (skip_source_records n c) (λ u c'. ok (take (c'.offset - c.offset) c.rest, c'))
        h in
    let s = skip_source_records-canonical n c b e in
    subst (λ (r : List ℕ × Cursor). (s : Skipped n c r.1) × (r.0 ≡ written s.items))
      (ok-injective k) (s, consumed_slice (written s.items) s.consumed)

not-eq_false : (b : Bool) → not b ≡ false → b ≡ true
not-eq_false b h = ground arith

-- What the reader has accepted.
record Accepted (max_records : ℕ) (c : Cursor) (d : SourceDatagram) (c' : Cursor) : Type 0 where
  items : List SourceRecord
  wire : AllWire (d.first_record ∷ items)
  shape : d ≡ view d.symbol_id d.first_record items
  few : (suc (length items) ≤ max_records) × (suc (length items) ≤ 255)
  consumed : Consumes c (form d.symbol_id d.first_record items) c'

module _ (max_records : ℕ) (c : Cursor) (b0 : IsBytes c.rest) where
  accept :
      (kind symbol_id count : ℕ) (r : SourceRecord) (t : List ℕ) (c1 c2 c3 c4 c5 : Cursor)
      → (kind == source_datagram) ≡ true
      → (count == 0 || ltb max_records count) ≡ false
      → Consumes c (kind ∷ []) c1
      → Consumes c1 (be_bytes 4 symbol_id) c2
      → Consumes c2 (count ∷ []) c3
      → count < 256
      → Consumes c3 (encode_source_record r) c4
      → IsWireRecord r
      → (s : Skipped (count - 1) c4 c5) → t ≡ written s.items
      → Accepted max_records c
          (record {
            symbol_id = symbol_id;
            first_record = r;
            remaining_records = t;
            record_count = count;
          })
          c5
  accept kind symbol_id count r t c1 c2 c3 c4 c5 k n p1 p2 p3 small p4 v s e = record {
    items = s.items;
    wire = (v, s.wire);
    shape =
        ap₂
          (λ t n. record {
            symbol_id = symbol_id;
            first_record = r;
            remaining_records = t;
            record_count = n;
          })
          e counted;
    few = omega (arith, counted, counts.1);
    consumed =
        subst₂
          (λ kind n. Consumes c (kind ∷ (be_bytes 4 symbol_id ++ (n ∷ written (r ∷ s.items)))) c5)
          counts.2 counted
          (Consumes-trans _ _ p1
            (Consumes-trans _ _ p2 (Consumes-trans _ _ p3 (Consumes-trans _ _ p4 s.consumed))));
  }
    where
      counts : (count ≢ 0) × (count ≤ max_records) × (kind ≡ source_datagram)
      counts = ground arith

      counted : count ≡ suc (length s.items)
      counted = omega (arith, counts.0, s.count)

  read_source-Accepted :
      {r : SourceDatagram × Cursor}
      → read_source max_records c ≡ ok r
      → Accepted max_records c r.0 r.1
  unfolding read_source
  read_source-Accepted h = after u8 _ c h λ kind c1 e1 k1.
      after_refuse (not (kind == source_datagram)) unknown_type _ c1 k1 λ right k2.
        after (uint 4) _ c1 k2 λ symbol_id c2 e2 k3. after u8 _ c2 k3 λ count c3 e3 k4.
          after_refuse (count == 0 || ltb max_records count) limit _ c3 k4 λ few k5.
            after decode_source_record _ c3 k5 λ first c4 e4 k6.
              after (checked_slice (count - 1)) _ c4 k6 λ remaining c5 e5 k7.
                let p1 = u8-Consumes c e1 in
                let b1 = (Consumes-IsBytes _ p1 b0).1 in
                let (p2, f2) = uint-Consumes 4 c1 b1 e2 in
                let b2 = (Consumes-IsBytes _ p2 b1).1 in
                let p3 = u8-Consumes c2 e3 in
                let (byte, b3) = Consumes-IsBytes _ p3 b2 in
                let (p4, v) = decode_source_record-canonical c3 b3 e4 in
                let b4 = (Consumes-IsBytes _ p4 b3).1 in
                let (s, t) = checked_slice-canonical (count - 1) c4 b4 e5 in
                subst (λ (r : SourceDatagram × Cursor). Accepted max_records c r.0 r.1)
                  (ok-injective k7)
                  (accept kind symbol_id count first remaining c1 c2 c3 c4 c5 (not-eq_false _ right)
                    few p1 p2 p3 byte.0 p4 v s t)

nil_of_length : (xs : List ℕ) → length xs ≡ 0 → xs ≡ []
nil_of_length [] h = refl
nil_of_length (x ∷ xs) h = absurd (omega arith)

encode-form :
    (d : SourceDatagram) (items : List SourceRecord)
    → AllWire (d.first_record ∷ items)
    → suc (length items) ≤ 255
    → encode_source d.symbol_id (d.first_record ∷ items)
      ≡ ok (form d.symbol_id d.first_record items)
unfolding encode_source
encode-form d items v h = rw (encode_source_records_lem (d.first_record ∷ items) v) (ground arith)

-- The datagram `d` is the reading of these records, and the input is their encoding.
pub record Reencodes (input : List ℕ) (max_records : ℕ) (d : SourceDatagram)
    (rs : List SourceRecord) : Type 0 where
  pub read : records d ≡ ok rs
  pub count : length rs ≡ d.record_count
  pub few : d.record_count ≤ max_records
  pub encoded : encode_source d.symbol_id rs ≡ ok input

Accepted-Reencodes :
    (input : List ℕ) (max_records : ℕ) {d : SourceDatagram} {c : Cursor}
    → Accepted max_records (cursor input) d c
    → c.offset ≡ length input
    → (rs : List SourceRecord) × Reencodes input max_records d rs
Accepted-Reencodes input max_records {d} {c} a end = (
  d.first_record ∷ a.items,
  record {
    read = ap records a.shape ∙ records-view d.symbol_id d.first_record a.items a.wire.1;
    count = sym (ap (λ (d : SourceDatagram). d.record_count) a.shape);
    few = omega (arith, a.few.0, ap (λ (d : SourceDatagram). d.record_count) a.shape);
    encoded = encode-form d a.items a.wire a.few.1 ∙ ap ok (sym whole);
  },
)
  where
    used : List ℕ
    used = form d.symbol_id d.first_record a.items

    nothing_left : length c.rest ≡ 0
    nothing_left =
        omega (arith, end, a.consumed.moved, ap length a.consumed.input, length-append used c.rest)

    whole : input ≡ used
    whole =
        a.consumed.input ∙ ap (λ t. used ++ t) (nil_of_length c.rest nothing_left) ∙ append-nil used

inner_opened :
    (input : List ℕ) (max_records max_symbol_bytes : ℕ) {p : SourceDatagram × ℕ}
    → decode_source_inner input max_records max_symbol_bytes ≡ ok p
    → (length input ≤ max_symbol_bytes)
      × (q : SourceDatagram × Cursor) × (read_source max_records (cursor input) ≡ ok q)
      × (p ≡ (q.0, q.1.offset))
unfolding decode_source_inner
inner_opened input max_records max_symbol_bytes h =
    elim (Bool-cases (ltb max_symbol_bytes (length input))) [
      | inl large ↦ absurd (cc (rw large at h))
      | inr fits ↦
          let (q, e, k) =
            and_then-eq_ok (read_source max_records (cursor input)) (λ r. ok (r.0, r.1.offset))
              (rw fits at h) in
          (ground arith, q, e, sym (ok-injective k))
    ]

end_checked :
    (p : SourceDatagram × ℕ) (n : ℕ) {d : SourceDatagram}
    → ◌≡◌ {A = Result SourceDatagram CodecError}
        (if not (p.1 == n) then err trailing_bytes else ok p.0)
        (ok d)
    → (p.1 ≡ n) × (p.0 ≡ d)
end_checked p n h = ground arith

-- What `decode_source` accepts is a datagram all of whose records can be read, as many as it counts
-- and no more than the reader's limit, and encoding those records again gives the input.
pub decode_source-canonical :
    (input : List ℕ) (max_records max_symbol_bytes : ℕ) {d : SourceDatagram}
    → IsBytes input
    → decode_source input max_records max_symbol_bytes ≡ ok d
    → (length input ≤ max_symbol_bytes)
      × ((rs : List SourceRecord) × Reencodes input max_records d rs)
unfolding decode_source
decode_source-canonical input max_records max_symbol_bytes b h =
    let (p, e, k) =
      and_then-eq_ok (decode_source_inner input max_records max_symbol_bytes)
        (λ r. if not (r.1 == length input) then err trailing_bytes else ok r.0) h in
    let (room, q, e', shape) = inner_opened input max_records max_symbol_bytes e in
    let (whole, same) = end_checked p (length input) k in
    let a = read_source-Accepted max_records (cursor input) b e' in
    (
      room,
      subst (λ d. (rs : List SourceRecord) × Reencodes input max_records d rs)
          (ap (λ (p : SourceDatagram × ℕ). p.0) (sym shape) ∙ same)
          (Accepted-Reencodes input max_records a
            (ap (λ (p : SourceDatagram × ℕ). p.1) (sym shape) ∙ whole)),
    )
