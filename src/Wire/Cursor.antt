-- ===== src/Wire/Cursor.antt =====
-- `Cursor` of src/wire.rs: a reader over a byte string. A cursor is its offset and the bytes from
-- there on. A reader that fails ends the decoding that runs it, so an error carries no cursor.
-- No sum of an offset and a length passes 2^64: a slice is shorter than 2^63, a length below 2^62.
pub mod Consumes
use quicp.Prelude.{
  ℕ, zero, suc, ◌+◌, ◌*◌, ◌%◌, ◌^◌, ◌<◌, ◌≤◌, ◌≡◌, refl, ap, sym, ◌∙◌, Bool, Option, none, some,
  List, [], ◌∷◌, ◌++◌, length, drop, drop-append, arith, Result, ok, err, true, false,
}
use mathlib.Core.List.{append-nil}
use quicp.Wire.{CodecError, truncated, max_wire_offset}
use quicp.Wire.Bytes.{
  be_bytes, be_value, split_at, split_at-append, be_value-be_bytes, length-be_bytes,
  split_at-eq_some,
}
use quicp.Wire.Varint.{encode_varint, decode_varint, decode-encode_varint}

pub record Cursor : Type 0 where
  pub offset : ℕ
  pub rest : List ℕ

abbrev pub at : ℕ → List ℕ → Cursor
at o bs = record { offset = o; rest = bs }

-- `Cursor::new`
abbrev pub cursor : List ℕ → Cursor
cursor bs = at 0 bs

abbrev pub Read : Type 0 → Type 0
Read A = Cursor → Result (A × Cursor) CodecError

abbrev pub proceed :
    {A B : Type 0} → Result (A × Cursor) CodecError → (A → Read B) → Result (B × Cursor) CodecError
proceed (ok (a, c)) f = f a c
proceed (err e) f = err e

infixl 5 ◌>>=◌ ◌>>◌
abbrev pub ◌>>=◌ : {A B : Type 0} → Read A → (A → Read B) → Read B
◌>>=◌ m f c = proceed (m c) f

abbrev pub ◌>>◌ : {B : Type 0} → Read (Unit {0}) → Read B → Read B
m >> k = m >>= λ _. k

abbrev pub pure : {A : Type 0} → A → Read A
pure a c = ok (a, c)

abbrev pub lift : {A : Type 0} → Result A CodecError → Read A
lift (ok a) c = ok (a, c)
lift (err e) c = err e

-- `if test { return Err(e) }`
abbrev pub refuse : Bool → CodecError → Read (Unit {0})
refuse true e c = err e
refuse false e c = ok (tt, c)

-- A sequence of readers whose first one succeeds goes on with what that returns.
pub >>=-of-ok :
    {A B : Type 0} (m : Read A) (f : A → Read B) {c : Cursor} {a : A} {c' : Cursor}
    {r : Result (B × Cursor) CodecError}
    → m c ≡ ok (a, c')
    → f a c' ≡ r
    → (m >>= f) c ≡ r
>>=-of-ok m f e g = ap (λ x. proceed x f) e ∙ g

-- A guard whose test is false lets the readers behind it run.
pub >>-of-refuse :
    {B : Type 0} (t : Bool) (e : CodecError) (k : Read B) {c : Cursor}
    {r : Result (B × Cursor) CodecError}
    → t ≡ false
    → k c ≡ r
    → (refuse t e >> k) c ≡ r
>>-of-refuse t e k {c} h g = ap (λ b. (refuse b e >> k) c) h ∙ g

pub proceed-eq-ok :
    {A B : Type 0} (x : Result (A × Cursor) CodecError) (f : A → Read B) {r : B × Cursor}
    → proceed x f ≡ ok r
    → (p : A × Cursor) × (x ≡ ok p) × (f p.0 p.1 ≡ ok r)
proceed-eq-ok (ok p) f h = (p, refl, h)
proceed-eq-ok (err e) f h = absurd (cc)

-- A sequence that succeeds has a first reader that does.
pub >>=-eq-ok :
    {A B : Type 0} (m : Read A) (f : A → Read B) (c : Cursor) {r : B × Cursor}
    → (m >>= f) c ≡ ok r
    → (p : A × Cursor) × (m c ≡ ok p) × (f p.0 p.1 ≡ ok r)
>>=-eq-ok m f c h = proceed-eq-ok (m c) f h

-- The same for a proof that goes on with the first result.
module _ {ℓ} {Q : Type ℓ} where
  pub after :
      {A B : Type 0} (m : Read A) (f : A → Read B) (c : Cursor) {r : B × Cursor}
      → (m >>= f) c ≡ ok r
      → ((a : A) (c' : Cursor) → m c ≡ ok (a, c') → f a c' ≡ ok r → Q)
      → Q
  after m f c h q = let (p, e, k) = >>=-eq-ok m f c h in q p.0 p.1 e k

  pub after_refuse :
      {B : Type 0} (t : Bool) (e : CodecError) (k : Read B) (c : Cursor) {r : B × Cursor}
      → (refuse t e >> k) c ≡ ok r
      → (t ≡ false → k c ≡ ok r → Q)
      → Q
  after_refuse true e k c h q = absurd (cc)
  after_refuse false e k c h q = q refl h

taken : ℕ → ℕ → Option (List ℕ × List ℕ) → Result (List ℕ × Cursor) CodecError
taken n o none = err CodecError.truncated
taken n o (some (bs, rest)) = ok (bs, at (o + n) rest)

unfoldable pub take : ℕ → Read (List ℕ)
unfolding taken
take n c = taken n c.offset (split_at n c.rest)

read_u8 : ℕ → List ℕ → Result (ℕ × Cursor) CodecError
read_u8 o [] = err CodecError.truncated
read_u8 o (b ∷ bs) = ok (b, at (o + 1) bs)

unfoldable pub u8 : Read ℕ
unfolding read_u8
u8 c = read_u8 c.offset c.rest

-- `u16`, `u32` and `u64` take 2, 4 and 8 bytes.
unfoldable pub uint : ℕ → Read ℕ
uint n = do bytes ← take n; pure (be_value 0 bytes)

advanced : List ℕ → ℕ → Result (ℕ × ℕ) CodecError → Result (ℕ × Cursor) CodecError
advanced bs o (err e) = err e
advanced bs o (ok (v, n)) = ok (v, at (o + n) (drop n bs))

unfoldable pub varint : Read ℕ
unfolding advanced
varint c = advanced c.rest c.offset (decode_varint c.rest)

unfoldable pub remaining : Read (List ℕ)
remaining c = ok (c.rest, at (c.offset + length c.rest) [])

abbrev pub is_empty : Cursor → Bool
is_empty c = elim c.rest [ [] ↦ true | b ∷ bs ↦ false ]

-- What each reader does at the bytes that its writer left.
pub take_lem :
    (n o : ℕ) (xs bs : List ℕ) → length xs ≡ n → take n (at o (xs ++ bs)) ≡ ok (xs, at (o + n) bs)
unfolding take
take_lem n o xs bs l =
    ap (taken n o) (ap (λ m. split_at m (xs ++ bs)) (sym l) ∙ split_at-append xs bs)

pub take_all : (n o : ℕ) (xs : List ℕ) → length xs ≡ n → take n (at o xs) ≡ ok (xs, at (o + n) [])
take_all n o xs l = ap (λ t. take n (at o t)) (sym (append-nil xs)) ∙ take_lem n o xs [] l

pub u8_lem : (o b : ℕ) (bs : List ℕ) → u8 (at o (b ∷ bs)) ≡ ok (b, at (o + 1) bs)
unfolding u8
u8_lem o b bs = refl

pub uint_lem :
    (n o v : ℕ) (bs : List ℕ)
    → v < 256 ^ n
    → uint n (at o (be_bytes n v ++ bs)) ≡ ok (v, at (o + n) bs)
unfolding uint
uint_lem n o v bs h =
    >>=-of-ok (take n) (λ bytes. pure (be_value 0 bytes))
      (take_lem n o (be_bytes n v) bs (length-be_bytes n v))
      (ap (λ x. ok (x, at (o + n) bs)) (be_value-be_bytes n 0 v h ∙ omega arith))

pub varint_lem :
    (o v : ℕ) (bs : List ℕ)
    → v ≤ max_wire_offset
    → varint (at o (encode_varint v ++ bs)) ≡ ok (v, at (o + length (encode_varint v)) bs)
unfolding varint
varint_lem o v bs h =
    rw (decode-encode_varint v bs h) (
      ap (λ rest. ok (v, at (o + length (encode_varint v)) rest))
        (drop-append (encode_varint v) bs))
