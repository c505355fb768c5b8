-- ===== src/Wire/Cursor/Consumes.antt =====
-- What a reader of src/wire.rs that succeeds has taken from its cursor.
use quicp.Prelude.{
  ℕ, ◌+◌, ◌^◌, ◌<◌, ◌≤◌, ◌≡◌, refl, ap, sym, ◌∙◌, Option, none, some, List, [], ◌∷◌, ◌++◌, length,
  length-append, drop, drop-append, arith, Result, ok, err, ok-injective,
}
use mathlib.Core.List.{append_assoc}
use mathlib.Core.Path.{ap₂, subst}
use quicp.Wire.{CodecError, max_wire_offset}
use quicp.Wire.Bytes.{
  IsBytes, IsBytes-append, be_bytes, be_value, split_at, split_at-eq_some, be_bytes-be_value,
  be_value-lt,
}
use quicp.Wire.Varint.{encode_varint, decode_varint}
use quicp.Wire.Varint.Canonical.{decode_varint-Canonical}
use quicp.Wire.Cursor.{
  Cursor, at, taken, take, u8, read_u8, uint, varint, advanced, pure, >>=-eq-ok,
}

-- The cursor `c` stands before these bytes, and `c'` behind them.
pub record Consumes (c : Cursor) (bytes : List ℕ) (c' : Cursor) : Type 0 where
  pub input : c.rest ≡ bytes ++ c'.rest
  pub moved : c'.offset ≡ c.offset + length bytes

pub Consumes-trans :
    {a b c : Cursor} (xs ys : List ℕ) → Consumes a xs b → Consumes b ys c → Consumes a (xs ++ ys) c
Consumes-trans {c} xs ys p q = record {
  input = p.input ∙ ap (λ t. xs ++ t) q.input ∙ sym (append_assoc xs ys c.rest);
  moved = omega (arith, length-append xs ys, p.moved, q.moved);
}

-- What is left of bytes is bytes.
pub Consumes-IsBytes :
    {c c' : Cursor} (xs : List ℕ) → Consumes c xs c' → IsBytes c.rest → IsBytes xs × IsBytes c'.rest
Consumes-IsBytes {c'} xs p b = IsBytes-append xs c'.rest (rw p.input at b)

read_u8-Consumes :
    (o : ℕ) (bs : List ℕ) {r : ℕ × Cursor} → read_u8 o bs ≡ ok r → Consumes (at o bs) (r.0 ∷ []) r.1
unfolding read_u8
read_u8-Consumes o [] h = absurd (cc)
read_u8-Consumes o (b ∷ bs) h =
    subst (λ (r : ℕ × Cursor). Consumes (at o (b ∷ bs)) (r.0 ∷ []) r.1) (ok-injective h)
      (record { input = refl; moved = omega arith })

pub u8-Consumes : (c : Cursor) {r : ℕ × Cursor} → u8 c ≡ ok r → Consumes c (r.0 ∷ []) r.1
unfolding u8
u8-Consumes c h = read_u8-Consumes c.offset c.rest h

taken-Consumes :
    (n o : ℕ) (bs : List ℕ) (x : Option (List ℕ × List ℕ)) {r : List ℕ × Cursor}
    → split_at n bs ≡ x
    → taken n o x ≡ ok r
    → Consumes (at o bs) r.0 r.1 × (length r.0 ≡ n)
unfolding taken
taken-Consumes n o bs none e h = absurd (cc)
taken-Consumes n o bs (some p) e h =
    let parts = split_at-eq_some n bs e in
    subst (λ (r : List ℕ × Cursor). Consumes (at o bs) r.0 r.1 × (length r.0 ≡ n)) (ok-injective h)
      (record { input = parts.0; moved = omega (arith, parts.1) }, parts.1)

pub take-Consumes :
    (n : ℕ) (c : Cursor) {r : List ℕ × Cursor}
    → take n c ≡ ok r
    → Consumes c r.0 r.1 × (length r.0 ≡ n)
unfolding take
take-Consumes n c h = taken-Consumes n c.offset c.rest (split_at n c.rest) refl h

advanced-Consumes :
    (o : ℕ) (bs : List ℕ) (x : Result (ℕ × ℕ) CodecError) {r : ℕ × Cursor}
    → IsBytes bs
    → decode_varint bs ≡ x
    → advanced bs o x ≡ ok r
    → Consumes (at o bs) (encode_varint r.0) r.1 × (r.0 ≤ max_wire_offset)
unfolding advanced
advanced-Consumes o bs (err x) b e h = absurd (cc)
advanced-Consumes o bs (ok (v, n)) b e h =
    let (fits, l, rest, split) = decode_varint-Canonical bs b e in
    subst (λ (r : ℕ × Cursor). Consumes (at o bs) (encode_varint r.0) r.1 × (r.0 ≤ max_wire_offset))
      (ok-injective h)
      (
        record {
          input =
              split
              ∙ ap (λ t. encode_varint v ++ t)
                  (sym (ap₂ drop (sym l) split ∙ drop-append (encode_varint v) rest));
          moved = omega (arith, l);
        },
        fits,
      )

-- A number that is read was written in its only form.
pub varint-Consumes :
    (c : Cursor) {r : ℕ × Cursor}
    → IsBytes c.rest
    → varint c ≡ ok r
    → Consumes c (encode_varint r.0) r.1 × (r.0 ≤ max_wire_offset)
unfolding varint
varint-Consumes c b h = advanced-Consumes c.offset c.rest (decode_varint c.rest) b refl h

pub uint-Consumes :
    (n : ℕ) (c : Cursor) {r : ℕ × Cursor}
    → IsBytes c.rest
    → uint n c ≡ ok r
    → Consumes c (be_bytes n r.0) r.1 × (r.0 < 256 ^ n)
unfolding uint
uint-Consumes n c b h =
    let (p, e, k) = >>=-eq-ok (take n) (λ bytes. pure (be_value 0 bytes)) c h in
    let (q, l) = take-Consumes n c e in
    let bytes_fit = (Consumes-IsBytes p.0 q b).0 in
    subst (λ (r : ℕ × Cursor). Consumes c (be_bytes n r.0) r.1 × (r.0 < 256 ^ n)) (ok-injective k)
      (
        subst (λ bs. Consumes c bs p.1)
            (sym (ap (λ m. be_bytes m (be_value 0 p.0)) (sym l) ∙ be_bytes-be_value p.0 bytes_fit))
            q,
        subst (λ m. be_value 0 p.0 < 256 ^ m) l (be_value-lt p.0 bytes_fit),
      )
