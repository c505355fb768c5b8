-- ===== src/Wire/Source/Records.antt =====
-- One record of a SOURCE datagram (src/wire.rs), written and read.
use quicp.Prelude.{
  ℕ, ◌+◌, ◌<◌, ◌≤◌, ◌≡◌, refl, ap, sym, ◌∙◌, Bool, false, List, [], ◌∷◌, ◌++◌, length,
  length-append, arith, ok, ok-injective, ltb, ◌==◌, not,
}
use mathlib.Core.Path.{ap₂, subst, subst₂}
use mathlib.Core.List.{append_assoc}
use quicp.Wire.{max_wire_offset, invalid_field}
use quicp.Wire.Bytes.{IsBytes}
use quicp.Wire.Varint.{encode_varint}
use quicp.Wire.Cursor.{
  Cursor, at, >>=-of-ok, >>-of-refuse, after, after_refuse, u8, u8_lem, varint, varint_lem, take,
  take_lem,
}
use quicp.Wire.Cursor.Consumes.{
  Consumes, Consumes-trans, Consumes-IsBytes, u8-Consumes, take-Consumes, varint-Consumes,
}
use quicp.Wire.Source.{
  SourceRecord, fin_byte, wire_range_fits, encode_source_record, decode_source_record,
}

-- A record that the wire can carry.
pub record IsWireRecord (r : SourceRecord) : Type 0 where
  pub flow_fits : r.flow_id ≤ max_wire_offset
  pub not_empty : 0 < length r.payload
  pub range_fits : r.offset + length r.payload ≤ max_wire_offset

abbrev pub len_of : SourceRecord → ℕ
len_of r = length (encode_source_record r)

-- The written record and what follows it, field by field.
module _ (r : SourceRecord) where
  fields : List ℕ → List ℕ
  fields bs =
      encode_varint r.flow_id
      ++ (encode_varint r.offset
          ++ (fin_byte r.fin ∷ (encode_varint (length r.payload) ++ (r.payload ++ bs))))

  fields_lem : (bs : List ℕ) → encode_source_record r ++ bs ≡ fields bs
  unfolding encode_source_record fields
  fields_lem bs = simp append_assoc

  len_lem :
      (o : ℕ)
      → o
          + length (encode_varint r.flow_id)
          + length (encode_varint r.offset)
          + 1
          + length (encode_varint (length r.payload))
          + length r.payload
        ≡ o + len_of r
  unfolding encode_source_record
  len_lem o = omega (
    arith,
    length-append (encode_varint r.flow_id) (
        encode_varint r.offset
        ++ (fin_byte r.fin ∷ (encode_varint (length r.payload) ++ r.payload))),
    length-append (encode_varint r.offset)
        (fin_byte r.fin ∷ (encode_varint (length r.payload) ++ r.payload)),
    length-append (encode_varint (length r.payload)) r.payload,
  )

flag_fits : (b : Bool) → ltb 1 (fin_byte b) ≡ false
flag_fits b = ground arith

flag_back : (b : Bool) → (fin_byte b == 1) ≡ b
flag_back b = ground arith

range_passes :
    {r : SourceRecord} → IsWireRecord r → not (wire_range_fits r.offset (length r.payload)) ≡ false
unfolding wire_range_fits
range_passes v = ground arith

-- A record that the wire can carry reads back from what was written, and nothing behind it is read.
pub decode-encode_source_record :
    (r : SourceRecord) (o : ℕ) (bs : List ℕ)
    → IsWireRecord r
    → decode_source_record (at o (encode_source_record r ++ bs)) ≡ ok (r, at (o + len_of r) bs)
unfolding decode_source_record fields
decode-encode_source_record r o bs v =
    ap (λ t. decode_source_record (at o t)) (fields_lem r bs)
    ∙ >>=-of-ok varint _ (varint_lem o r.flow_id _ v.flow_fits) (
        >>=-of-ok varint _ (varint_lem _ r.offset _ (omega arith)) (
          >>=-of-ok u8 _ (u8_lem _ _ _) (
            >>-of-refuse (ltb 1 (fin_byte r.fin)) invalid_field _ (flag_fits r.fin) (
              >>=-of-ok varint _ (varint_lem _ (length r.payload) _ (omega arith)) (
                >>-of-refuse (length r.payload == 0) invalid_field _ (ground arith) (
                  >>-of-refuse (not (wire_range_fits r.offset (length r.payload))) invalid_field _
                    (range_passes v)
                    (>>=-of-ok (take (length r.payload)) _ (take_lem _ _ r.payload bs refl) (
                      ap₂ (λ (b : Bool) (n : ℕ). ok (record r { fin = b }, at n bs))
                        (flag_back r.fin) (len_lem r o)))))))))

flag_is : (flags : ℕ) → ltb 1 flags ≡ false → flags ≡ fin_byte (flags == 1)
flag_is flags h = ground arith

range_passed : (o n : ℕ) → not (wire_range_fits o n) ≡ false → o + n ≤ max_wire_offset
unfolding wire_range_fits
range_passed o n h = ground arith

module _ (flow_id offset flags : ℕ) (payload : List ℕ) where
  abbrev built : SourceRecord
  built = record { flow_id = flow_id; offset = offset; fin = flags == 1; payload = payload }

  built-Consumes :
      (len : ℕ) (c c1 c2 c3 c4 c5 : Cursor)
      → Consumes c (encode_varint flow_id) c1
      → Consumes c1 (encode_varint offset) c2
      → Consumes c2 (flags ∷ []) c3
      → Consumes c3 (encode_varint len) c4
      → Consumes c4 payload c5
      → length payload ≡ len
      → flags ≡ fin_byte (flags == 1)
      → Consumes c (encode_source_record built) c5
  unfolding encode_source_record
  built-Consumes len c c1 c2 c3 c4 c5 p1 p2 p3 p4 p5 l f =
      subst₂
        (λ n b.
          Consumes c
            (encode_varint flow_id ++ (encode_varint offset ++ (b ∷ (encode_varint n ++ payload))))
            c5)
        (sym l) f
        (Consumes-trans _ _ p1
          (Consumes-trans _ _ p2 (Consumes-trans _ _ p3 (Consumes-trans _ _ p4 p5))))

-- A record that is read is one that the wire can carry, and what it took from the input is what is
-- written for it.
pub decode_source_record-canonical :
    (c : Cursor) {p : SourceRecord × Cursor}
    → IsBytes c.rest
    → decode_source_record c ≡ ok p
    → Consumes c (encode_source_record p.0) p.1 × IsWireRecord p.0
unfolding decode_source_record
decode_source_record-canonical c {p} b0 h = after varint _ c h λ flow_id c1 e1 k1.
    after varint _ c1 k1 λ offset c2 e2 k2. after u8 _ c2 k2 λ flags c3 e3 k3.
      after_refuse (ltb 1 flags) invalid_field _ c3 k3 λ small k4.
        after varint _ c3 k4 λ len c4 e4 k5.
          after_refuse (len == 0) invalid_field _ c4 k5 λ nonzero k6.
            after_refuse (not (wire_range_fits offset len)) invalid_field _ c4 k6 λ range k7.
              after (take len) _ c4 k7 λ payload c5 e5 k8.
                let (p1, f1) = varint-Consumes c b0 e1 in
                let b1 = (Consumes-IsBytes _ p1 b0).1 in
                let (p2, f2) = varint-Consumes c1 b1 e2 in
                let b2 = (Consumes-IsBytes _ p2 b1).1 in
                let p3 = u8-Consumes c2 e3 in
                let b3 = (Consumes-IsBytes _ p3 b2).1 in
                let (p4, f4) = varint-Consumes c3 b3 e4 in
                let (p5, l) = take-Consumes len c4 e5 in
                subst
                  (λ (p : SourceRecord × Cursor).
                    Consumes c (encode_source_record p.0) p.1 × IsWireRecord p.0)
                  (ok-injective k8)
                  (
                    built-Consumes flow_id offset flags payload len c c1 c2 c3 c4 c5 p1 p2 p3 p4 p5
                        l (flag_is flags small),
                    record {
                      flow_fits = f1;
                      not_empty = ground arith;
                      range_fits = omega (arith, range_passed offset len range);
                    },
                  )
