-- ===== src/Wire/Repair/RoundTrip.antt =====
-- `encode_repair` and `decode_repair` of src/wire.rs against each other.
use quicp.Prelude.{
  ℕ, ◌+◌, ◌<◌, ◌≤◌, ◌^◌, ◌≡◌, refl, ap, sym, ◌∙◌, false, List, [], ◌∷◌, ◌++◌, length, arith, Result,
  ok, err, and_then, and_then-eq_ok, ok-injective, ltb, ◌==◌, ◌||◌, not, if◌then◌else◌,
}
use mathlib.Core.Path.{subst}
use mathlib.Core.List.{append-nil}
use quicp.Wire.{CodecError, invalid_field, unknown_type, trailing_bytes}
use quicp.Wire.Bytes.{IsBytes, be_bytes}
use quicp.Wire.Cursor.{
  Cursor, at, cursor, >>=-of-ok, >>-of-refuse, after, after_refuse, u8, u8_lem, uint, uint_lem,
  take, take_all, is_empty,
}
use quicp.Wire.Cursor.Consumes.{
  Consumes, Consumes-trans, Consumes-IsBytes, u8-Consumes, uint-Consumes, take-Consumes,
}
use quicp.Wire.Repair.{
  RepairDatagram, repair_datagram, max_repair_span, span_refused, encode_repair, read_repair,
  decode_repair,
}

-- The widths of the fields.
pub record FieldsFit (f : RepairDatagram) : Type 0 where
  pub repair_id_fits : f.repair_id < 2 ^ 32
  pub first_symbol_id_fits : f.first_symbol_id < 2 ^ 32
  pub span_fits : f.span < 2 ^ 16
  pub symbol_size_fits : f.symbol_size < 2 ^ 16
  pub seed_fits : f.seed < 2 ^ 32

abbrev form : RepairDatagram → List ℕ
form f =
    repair_datagram
    ∷ (be_bytes 4 f.repair_id
        ++ (be_bytes 4 f.first_symbol_id
            ++ (be_bytes 2 f.span ++ (be_bytes 2 f.symbol_size ++ (be_bytes 4 f.seed ++ f.coded)))))

-- What the writer takes.
pub record IsCodable (f : RepairDatagram) : Type 0 where
  pub spans : (0 < f.span) × (f.span ≤ max_repair_span)
  pub sized : 0 < f.symbol_size
  pub exact : length f.coded ≡ f.symbol_size

encode-eq-ok :
    (f : RepairDatagram) {bytes : List ℕ}
    → encode_repair f ≡ ok bytes
    → IsCodable f × (form f ≡ bytes)
unfolding encode_repair
encode-eq-ok f h = ground arith

encode-of-IsCodable : (f : RepairDatagram) → IsCodable f → encode_repair f ≡ ok (form f)
unfolding encode_repair
encode-of-IsCodable f v = ground arith

read_form :
    (f : RepairDatagram) (max_symbol_bytes : ℕ)
    → FieldsFit f
    → IsCodable f
    → f.symbol_size ≤ max_symbol_bytes
    → read_repair max_symbol_bytes (cursor (form f))
      ≡ ok (f, at (0 + 1 + 4 + 4 + 2 + 2 + 4 + f.symbol_size) [])
unfolding read_repair
read_form f max_symbol_bytes w v h = >>=-of-ok u8 _ (u8_lem _ _ _) (
    >>=-of-ok (uint 4) _ (uint_lem 4 _ f.repair_id _ w.repair_id_fits) (
      >>=-of-ok (uint 4) _ (uint_lem 4 _ f.first_symbol_id _ w.first_symbol_id_fits) (
        >>=-of-ok (uint 2) _ (uint_lem 2 _ f.span _ w.span_fits) (
          >>=-of-ok (uint 2) _ (uint_lem 2 _ f.symbol_size _ w.symbol_size_fits) (
            >>=-of-ok (uint 4) _ (uint_lem 4 _ f.seed _ w.seed_fits) (
              >>-of-refuse
                (span_refused f.span || (f.symbol_size == 0 || ltb max_symbol_bytes f.symbol_size))
                invalid_field _ (ground arith)
                (>>=-of-ok (take f.symbol_size) _ (take_all f.symbol_size _ f.coded v.exact)
                  refl)))))))

-- A REPAIR datagram whose fields have their widths and that encodes reads back, if its symbol is
-- within the reader's limit.
pub decode-encode_repair :
    (f : RepairDatagram) (max_symbol_bytes : ℕ) (bytes : List ℕ)
    → FieldsFit f
    → encode_repair f ≡ ok bytes
    → f.symbol_size ≤ max_symbol_bytes
    → decode_repair bytes max_symbol_bytes ≡ ok f
unfolding decode_repair
decode-encode_repair f max_symbol_bytes bytes w e h =
    let (v, same) = encode-eq-ok f e in
    ap (λ bytes. decode_repair bytes max_symbol_bytes) (sym same)
    ∙ ap (λ r. and_then r (λ r. if not (is_empty r.1) then err trailing_bytes else ok r.0))
        (read_form f max_symbol_bytes w v h)

-- What the reader has accepted.
record Accepted (max_symbol_bytes : ℕ) (input : List ℕ) (f : RepairDatagram) (c : Cursor)
    : Type 0 where
  codable : IsCodable f
  widths : FieldsFit f
  small : f.symbol_size ≤ max_symbol_bytes
  consumed : Consumes (cursor input) (form f) c

IsCodable-of_guard :
    (f : RepairDatagram) (max_symbol_bytes : ℕ)
    → (span_refused f.span || (f.symbol_size == 0 || ltb max_symbol_bytes f.symbol_size)) ≡ false
    → length f.coded ≡ f.symbol_size
    → IsCodable f × (f.symbol_size ≤ max_symbol_bytes)
IsCodable-of_guard f max_symbol_bytes h l = ground arith

kind_of_guard : (kind : ℕ) → not (kind == repair_datagram) ≡ false → kind ≡ repair_datagram
kind_of_guard kind h = ground arith

read_repair-Accepted :
    (max_symbol_bytes : ℕ) (input : List ℕ) {r : RepairDatagram × Cursor}
    → IsBytes input
    → read_repair max_symbol_bytes (cursor input) ≡ ok r
    → Accepted max_symbol_bytes input r.0 r.1
unfolding read_repair
read_repair-Accepted max_symbol_bytes input b0 h = after u8 _ (cursor input) h λ kind c1 e1 k1.
    after_refuse (not (kind == repair_datagram)) unknown_type _ c1 k1 λ right k2.
      after (uint 4) _ c1 k2 λ repair_id c2 e2 k3. after (uint 4) _ c2 k3 λ first c3 e3 k4.
        after (uint 2) _ c3 k4 λ span c4 e4 k5. after (uint 2) _ c4 k5 λ size c5 e5 k6.
          after (uint 4) _ c5 k6 λ seed c6 e6 k7.
            after_refuse (span_refused span || (size == 0 || ltb max_symbol_bytes size))
              invalid_field _ c6 k7
              λ good k8. after (take size) _ c6 k8 λ coded c7 e7 k9.
                let p1 = u8-Consumes (cursor input) e1 in
                let b1 = (Consumes-IsBytes _ p1 b0).1 in
                let (p2, f2) = uint-Consumes 4 c1 b1 e2 in
                let b2 = (Consumes-IsBytes _ p2 b1).1 in
                let (p3, f3) = uint-Consumes 4 c2 b2 e3 in
                let b3 = (Consumes-IsBytes _ p3 b2).1 in
                let (p4, f4) = uint-Consumes 2 c3 b3 e4 in
                let b4 = (Consumes-IsBytes _ p4 b3).1 in
                let (p5, f5) = uint-Consumes 2 c4 b4 e5 in
                let b5 = (Consumes-IsBytes _ p5 b4).1 in
                let (p6, f6) = uint-Consumes 4 c5 b5 e6 in
                let (p7, l) = take-Consumes size c6 e7 in
                let f : RepairDatagram = record {
                  repair_id = repair_id;
                  first_symbol_id = first;
                  span = span;
                  symbol_size = size;
                  seed = seed;
                  coded = coded;
                } in
                let g = IsCodable-of_guard f max_symbol_bytes good l in
                subst (λ (r : RepairDatagram × Cursor). Accepted max_symbol_bytes input r.0 r.1)
                  (ok-injective k9)
                  (record {
                    codable = g.0;
                    widths = record {
                      repair_id_fits = f2;
                      first_symbol_id_fits = f3;
                      span_fits = f4;
                      symbol_size_fits = f5;
                      seed_fits = f6;
                    };
                    small = g.1;
                    consumed =
                        subst
                          (λ kind.
                            Consumes (cursor input)
                              (kind
                                ∷ (be_bytes 4 repair_id
                                    ++ (be_bytes 4 first
                                        ++ (be_bytes 2 span
                                            ++ (be_bytes 2 size ++ (be_bytes 4 seed ++ coded))))))
                              c7)
                          (kind_of_guard kind right)
                          (Consumes-trans _ _ p1 (
                            Consumes-trans _ _ p2 (
                              Consumes-trans _ _ p3 (
                                Consumes-trans _ _ p4
                                  (Consumes-trans _ _ p5 (Consumes-trans _ _ p6 p7))))));
                  })

empty_end :
    (c : Cursor) {f g : RepairDatagram}
    → ◌≡◌ {A = Result RepairDatagram CodecError}
        (if not (is_empty c) then err trailing_bytes else ok f)
        (ok g)
    → (c.rest ≡ []) × (f ≡ g)
empty_end c h = ground arith

-- What `decode_repair` accepts of an input of bytes has a symbol within the reader's limit, its fields have their
-- widths, and encoding it again gives the input.
pub decode_repair-canonical :
    (input : List ℕ) (max_symbol_bytes : ℕ) {f : RepairDatagram}
    → IsBytes input
    → decode_repair input max_symbol_bytes ≡ ok f
    → (f.symbol_size ≤ max_symbol_bytes) × FieldsFit f × (encode_repair f ≡ ok input)
unfolding decode_repair
decode_repair-canonical input max_symbol_bytes b h =
    let (r, e, k) =
      and_then-eq_ok (read_repair max_symbol_bytes (cursor input))
        (λ r. if not (is_empty r.1) then err trailing_bytes else ok r.0) h in
    let a = read_repair-Accepted max_symbol_bytes input b e in
    let (nothing, same) = empty_end r.1 k in
    subst
      (λ (f : RepairDatagram).
        (f.symbol_size ≤ max_symbol_bytes) × FieldsFit f × (encode_repair f ≡ ok input))
      same
      (
        a.small,
        a.widths,
        encode-of-IsCodable r.0 a.codable
            ∙ ap ok
                (sym (a.consumed.input ∙ ap (λ t. form r.0 ++ t) nothing ∙ append-nil (form r.0))),
      )
