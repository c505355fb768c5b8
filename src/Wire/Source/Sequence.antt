-- ===== src/Wire/Source/Sequence.antt =====
-- The records of a SOURCE datagram in a row (src/wire.rs): what is written, skipped and read.
use quicp.Prelude.{
  ℕ, zero, suc, ◌+◌, ◌-◌, ◌≤◌, ◌≡◌, refl, ap, sym, ◌∙◌, true, List, [], ◌∷◌, ◌++◌, length,
  length-append, take, arith, ok, and_then-eq_ok, ok-injective, Bool-cases, inl, inr,
}
use mathlib.Core.Path.{subst}
use mathlib.Core.List.{append_assoc}
use quicp.Wire.{max_wire_offset}
use quicp.Wire.Bytes.{IsBytes}
use quicp.Wire.Cursor.{Cursor, at, >>=-of-ok, after}
use quicp.Wire.Cursor.Consumes.{Consumes, Consumes-trans, Consumes-IsBytes}
use quicp.Wire.Source.{
  SourceRecord, encode_source_record, encode_source_records, decode_source_record,
  decode_source_records, skip_source_records, checked_slice, source_record_fits, wire_range_fits,
}
use quicp.Wire.Source.Records.{
  IsWireRecord, decode-encode_source_record, decode_source_record-canonical,
}

abbrev pub AllWire : List SourceRecord → Type 0
AllWire [] = Unit
AllWire (r ∷ rs) = IsWireRecord r × AllWire rs

abbrev pub AllFlowsFit : List SourceRecord → Type 0
AllFlowsFit [] = Unit
AllFlowsFit (r ∷ rs) = (r.flow_id ≤ max_wire_offset) × AllFlowsFit rs

abbrev pub written : List SourceRecord → List ℕ
written [] = []
written (r ∷ rs) = encode_source_record r ++ written rs

fits-IsWireRecord :
    (r : SourceRecord) → r.flow_id ≤ max_wire_offset → source_record_fits r ≡ true → IsWireRecord r
unfolding wire_range_fits
fits-IsWireRecord r f h = ground arith

IsWireRecord-fits : {r : SourceRecord} → IsWireRecord r → source_record_fits r ≡ true
unfolding wire_range_fits
IsWireRecord-fits v = ground arith

-- Records that are written are records that the wire can carry.
pub encode_source_records-eq_ok :
    (rs : List SourceRecord) {bytes : List ℕ}
    → AllFlowsFit rs
    → encode_source_records rs ≡ ok bytes
    → AllWire rs × (bytes ≡ written rs)
unfolding encode_source_records
encode_source_records-eq_ok [] f h = (tt, sym (ok-injective h))
encode_source_records-eq_ok (r ∷ rs) f h = elim (Bool-cases (source_record_fits r)) [
  | inl e ↦
      let (tail, p, q) =
        and_then-eq_ok (encode_source_records rs) (λ bytes. ok (encode_source_record r ++ bytes))
          (rw e at h) in
      let (v, s) = encode_source_records-eq_ok rs f.1 p in
      (
        (fits-IsWireRecord r f.0 e, v),
        sym (ok-injective q) ∙ ap (λ t. encode_source_record r ++ t) s,
      )
  | inr e ↦ absurd (cc (rw e at h))
]

pub encode_source_records_lem :
    (rs : List SourceRecord) → AllWire rs → encode_source_records rs ≡ ok (written rs)
unfolding encode_source_records
encode_source_records_lem [] v = refl
encode_source_records_lem (r ∷ rs) v = rw (IsWireRecord-fits v.0, encode_source_records_lem rs v.1)

-- Behind the written form of the records stands what follows them.
next : (r : SourceRecord) (rs : List SourceRecord) (o : ℕ) (bs : List ℕ) → Cursor
next r rs o bs = at (o + length (encode_source_record r)) (written rs ++ bs)

first_read :
    (r : SourceRecord) (rs : List SourceRecord) (o : ℕ) (bs : List ℕ)
    → IsWireRecord r
    → decode_source_record (at o (written (r ∷ rs) ++ bs)) ≡ ok (r, next r rs o bs)
unfolding next
first_read r rs o bs v =
    ap (λ t. decode_source_record (at o t)) (append_assoc (encode_source_record r) (written rs) bs)
    ∙ decode-encode_source_record r o (written rs ++ bs) v

offset_sum :
    (r : SourceRecord) (rs : List SourceRecord) (o : ℕ)
    → o + length (encode_source_record r) + length (written rs) ≡ o + length (written (r ∷ rs))
offset_sum r rs o = omega (arith, length-append (encode_source_record r) (written rs))

pub decode_source_records_lem :
    (rs : List SourceRecord) (o : ℕ) (bs : List ℕ)
    → AllWire rs
    → decode_source_records (length rs) (at o (written rs ++ bs))
      ≡ ok (rs, at (o + length (written rs)) bs)
unfolding decode_source_records next
decode_source_records_lem [] o bs v = ap (λ n. ok ([], at n bs)) (omega arith)
decode_source_records_lem (r ∷ rs) o bs v =
    >>=-of-ok decode_source_record _ (first_read r rs o bs v.0) (
      >>=-of-ok (decode_source_records (length rs)) _ (decode_source_records_lem rs _ bs v.1)
        (ap (λ n. ok (r ∷ rs, at n bs)) (offset_sum r rs o)))

pub skip_source_records_lem :
    (rs : List SourceRecord) (o : ℕ) (bs : List ℕ)
    → AllWire rs
    → skip_source_records (length rs) (at o (written rs ++ bs))
      ≡ ok (tt, at (o + length (written rs)) bs)
unfolding skip_source_records next
skip_source_records_lem [] o bs v = ap (λ n. ok (tt, at n bs)) (omega arith)
skip_source_records_lem (r ∷ rs) o bs v =
    >>=-of-ok decode_source_record _ (first_read r rs o bs v.0)
      (skip_source_records_lem rs _ bs v.1 ∙ ap (λ n. ok (tt, at n bs)) (offset_sum r rs o))

take-append : (xs ys : List ℕ) → take (length xs) (xs ++ ys) ≡ xs
take-append [] ys = refl
take-append (x ∷ xs) ys = ap (λ t. x ∷ t) (take-append xs ys)

pub slice_lem : (o : ℕ) (xs ys : List ℕ) → take (o + length xs - o) (xs ++ ys) ≡ xs
slice_lem o xs ys = ap (λ n. take n (xs ++ ys)) (omega arith) ∙ take-append xs ys

pub checked_slice_lem :
    (rs : List SourceRecord) (o : ℕ) (bs : List ℕ)
    → AllWire rs
    → checked_slice (length rs) (at o (written rs ++ bs))
      ≡ ok (written rs, at (o + length (written rs)) bs)
unfolding checked_slice
checked_slice_lem rs o bs v =
    rw (skip_source_records_lem rs o bs v)
      (ap (λ t. ok (t, at (o + length (written rs)) bs)) (slice_lem o (written rs) bs))

-- What was skipped is the written form of some records.
pub record Skipped (n : ℕ) (c c' : Cursor) : Type 0 where
  pub items : List SourceRecord
  pub count : length items ≡ n
  pub wire : AllWire items
  pub consumed : Consumes c (written items) c'

pub skip_source_records-canonical :
    (n : ℕ) (c : Cursor) {r : Unit {0} × Cursor}
    → IsBytes c.rest
    → skip_source_records n c ≡ ok r
    → Skipped n c r.1
unfolding skip_source_records
skip_source_records-canonical zero c b h =
    subst (λ (r : Unit {0} × Cursor). Skipped 0 c r.1) (ok-injective h)
      (record {
        items = [];
        count = refl;
        wire = tt;
        consumed = record { input = refl; moved = omega arith };
      })
skip_source_records-canonical (suc n) c b h = after decode_source_record _ c h λ r c1 e k.
    let (p, v) = decode_source_record-canonical c b e in
    let s = skip_source_records-canonical n c1 (Consumes-IsBytes _ p b).1 k in
    record {
      items = r ∷ s.items;
      count = ap suc s.count;
      wire = (v, s.wire);
      consumed = Consumes-trans _ _ p s.consumed;
    }
