-- ===== src/Wire/Varint.antt =====
-- `encode_varint` and `decode_varint` of src/wire.rs: integers below 2^62 in 1, 2, 4 or 8 bytes, the
-- two high bits of the first byte giving the width.
pub mod Canonical
use quicp.Prelude.{
  ℕ, zero, suc, ◌+◌, ◌-◌, ◌*◌, ◌/◌, ◌%◌, ◌^◌, ◌<◌, ◌≤◌, ◌≡◌, refl, ap, sym, ◌∙◌, Bool, Option, none,
  some, List, [], ◌∷◌, ◌++◌, length, arith, ltb, leb, Result, ok, err, if◌then◌else◌,
}
use quicp.Wire.{CodecError, truncated, non_canonical, max_wire_offset}
use quicp.Wire.Bytes.{
  IsBytes, be_bytes, be_value, split_at, split_at-append, be_bytes-cons, length-be_bytes,
  be_value-be_bytes,
}

-- The tag is or-ed onto a value that leaves its bits clear; the 8-byte form first drops what a `u64`
-- has in the two tag bits.
unfoldable pub encode_varint : ℕ → List ℕ
encode_varint v =
    if leb v 63
    then be_bytes 1 v
    else (if leb v 16383
        then be_bytes 2 (v + 2 ^ 14)
        else (if leb v 1073741823
            then be_bytes 4 (v + 2 ^ 31)
            else be_bytes 8 (v % 2 ^ 62 + 3 * 2 ^ 62)))

-- `1 << (first >> 6)`
abbrev pub varint_width : ℕ → ℕ
varint_width first = 2 ^ (first / 64)

-- The least value that needs this width.
abbrev pub varint_minimum : ℕ → ℕ
varint_minimum width =
    if leb width 1
    then 0
    else (if leb width 2 then 64 else (if leb width 4 then 16384 else 1073741824))

abbrev pub check_minimum : ℕ → ℕ → Result (ℕ × ℕ) CodecError
check_minimum value width =
    if ltb value (varint_minimum width) then err non_canonical else ok (value, width)

abbrev pub varint_tail : ℕ → ℕ → Option (List ℕ × List ℕ) → Result (ℕ × ℕ) CodecError
varint_tail first width none = err CodecError.truncated
varint_tail first width (some (bytes, rest)) = check_minimum (be_value (first % 64) bytes) width

-- The value and the number of bytes read. `first` is the byte that `bytes[1..]` leaves out.
unfoldable pub decode_varint : List ℕ → Result (ℕ × ℕ) CodecError
decode_varint [] = err CodecError.truncated
decode_varint (first ∷ input) =
    let width = varint_width first in varint_tail first width (split_at (width - 1) input)

-- The bytes after the first are found by the width that the first gives.
decode_form :
    (first width : ℕ) (bytes rest : List ℕ)
    → 2 ^ (first / 64) ≡ width
    → length bytes ≡ width - 1
    → decode_varint (first ∷ bytes ++ rest) ≡ check_minimum (be_value (first % 64) bytes) width
unfolding decode_varint
decode_form first width bytes rest w l = rw (w, ← l, split_at-append bytes rest)

check_form :
    (value width v : ℕ)
    → value ≡ v
    → varint_minimum width ≤ v
    → check_minimum value width ≡ ok (v, width)
check_form value width v e h = ground arith

-- What the tag `k` in front of a number says is what is read, and `q` are the high bits below it.
decode_tagged :
    (n k q lo : ℕ) (rest : List ℕ)
    → 2 ^ k ≡ suc n
    → k < 4
    → q < 64
    → lo < 256 ^ n
    → decode_varint (be_bytes (suc n) ((64 * k + q) * 256 ^ n + lo) ++ rest)
      ≡ check_minimum (q * 256 ^ n + lo) (suc n)
decode_tagged n k q lo rest w hk hq hlo =
    ap (λ bs. decode_varint (bs ++ rest)) (be_bytes-cons n (64 * k + q) lo hlo)
    ∙ decode_form ((64 * k + q) % 256) (suc n) (be_bytes n lo) rest (rw tag w)
        (length-be_bytes n lo ∙ omega arith)
    ∙ ap (λ x. check_minimum x (suc n))
        (ap (λ x. be_value x (be_bytes n lo)) low ∙ be_value-be_bytes n q lo hlo)
  where
    tag : (64 * k + q) % 256 / 64 ≡ k
    tag = omega arith

    low : (64 * k + q) % 256 % 64 ≡ q
    low = omega arith

-- What makes `x` the form of `v` with tag `k` in `n + 1` bytes.
abbrev Tagged : (n k v x : ℕ) → Type 0
Tagged n k v x =
    (k < 4)
    × (v / 256 ^ n < 64)
    × (v % 256 ^ n < 256 ^ n)
    × (x ≡ (64 * k + v / 256 ^ n) * 256 ^ n + v % 256 ^ n)
    × (v / 256 ^ n * 256 ^ n + v % 256 ^ n ≡ v)
    × (varint_minimum (suc n) ≤ v)

decode_width :
    (n k v x : ℕ) (rest : List ℕ)
    → 2 ^ k ≡ suc n
    → Tagged n k v x
    → decode_varint (be_bytes (suc n) x ++ rest) ≡ ok (v, suc n)
decode_width n k v x rest w (hk, hq, hlo, e, r, h) =
    ap (λ x. decode_varint (be_bytes (suc n) x ++ rest)) e
    ∙ decode_tagged n k (v / 256 ^ n) (v % 256 ^ n) rest w hk hq hlo
    ∙ check_form _ (suc n) v r h

module _ (v : ℕ) (rest : List ℕ) where
  width_1 : v ≤ 63 → decode_varint (be_bytes 1 v ++ rest) ≡ ok (v, 1)
  width_1 h = decode_width 0 0 v v rest refl (omega arith)

  width_2 : 63 < v → v ≤ 16383 → decode_varint (be_bytes 2 (v + 2 ^ 14) ++ rest) ≡ ok (v, 2)
  width_2 l h = decode_width 1 1 v (v + 2 ^ 14) rest refl (omega arith)

  width_4 : 16383 < v → v ≤ 1073741823 → decode_varint (be_bytes 4 (v + 2 ^ 31) ++ rest) ≡ ok (v, 4)
  width_4 l h = decode_width 3 2 v (v + 2 ^ 31) rest refl (omega arith)

  width_8 :
      1073741823 < v
      → v ≤ max_wire_offset
      → decode_varint (be_bytes 8 (v % 2 ^ 62 + 3 * 2 ^ 62) ++ rest) ≡ ok (v, 8)
  width_8 l h = decode_width 7 3 v (v % 2 ^ 62 + 3 * 2 ^ 62) rest refl (omega arith)

  -- `decode_varint` reads back what `encode_varint` writes, with any bytes behind it, and reports
  -- its length, for every value below 2^62.
  pub decode-encode_varint :
      v ≤ max_wire_offset
      → decode_varint (encode_varint v ++ rest) ≡ ok (v, length (encode_varint v))
  unfolding encode_varint
  decode-encode_varint h = ground (
    arith,
    width_1,
    width_2,
    width_4,
    width_8,
    length-be_bytes 1 v,
    length-be_bytes 2 (v + 2 ^ 14),
    length-be_bytes 4 (v + 2 ^ 31),
    length-be_bytes 8 (v % 2 ^ 62 + 3 * 2 ^ 62),
  )
