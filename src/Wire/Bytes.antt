-- ===== src/Wire/Bytes.antt =====
-- Big-endian integers as src/wire.rs writes and reads them: `to_be_bytes`, `from_be_bytes`, and the
-- slices `input.get(..n)` and `input.get(n..)`.
use quicp.Prelude.{
  ℕ, zero, suc, ◌+◌, ◌*◌, ◌/◌, ◌%◌, ◌^◌, ◌<◌, ◌≡◌, refl, ap, ◌∙◌, Option, none, some, List, [], ◌∷◌,
  ◌++◌, length, length-append, Option-cases, arith, inl, inr,
}
use mathlib.Core.Option
use mathlib.Core.Path.{ap₂}
use native.Mathlib.Nat.{pow-suc}

abbrev pub IsBytes : List ℕ → Type 0
IsBytes [] = Unit
IsBytes (b ∷ bs) = (b < 256) × IsBytes bs

-- `value.to_be_bytes()` of a `n`-byte integer.
unfoldable pub be_bytes : ℕ → ℕ → List ℕ
be_bytes zero v = []
be_bytes (suc n) v = be_bytes n (v / 256) ++ (v % 256 ∷ [])

-- The loop `value = (value << 8) | byte`, which is also `from_be_bytes` if started at 0. The low
-- byte of a shifted value is 0, so `|` adds.
unfoldable pub be_value : ℕ → List ℕ → ℕ
be_value acc [] = acc
be_value acc (b ∷ bs) = be_value (acc * 256 + b) bs

-- `slice.get(..n)` with what follows; `none` if there are fewer bytes.
unfoldable pub split_at : ℕ → List ℕ → Option (List ℕ × List ℕ)
split_at zero bs = some ([], bs)
split_at (suc n) [] = none
split_at (suc n) (b ∷ bs) = Option.map (λ (p : List ℕ × List ℕ). (b ∷ p.0, p.1)) (split_at n bs)

pub length-be_bytes : (n v : ℕ) → length (be_bytes n v) ≡ n
unfolding be_bytes
length-be_bytes zero v = refl
length-be_bytes (suc n) v =
    omega (arith, length-append (be_bytes n (v / 256)) (v % 256 ∷ []), length-be_bytes n (v / 256))

pub be_value-append :
    (acc : ℕ) (xs ys : List ℕ) → be_value acc (xs ++ ys) ≡ be_value (be_value acc xs) ys
unfolding be_value
be_value-append acc [] ys = refl
be_value-append acc (x ∷ xs) ys = be_value-append (acc * 256 + x) xs ys

-- What an `n`-byte integer writes reads back.
pub be_value-be_bytes :
    (n acc v : ℕ) → v < 256 ^ n → be_value acc (be_bytes n v) ≡ acc * 256 ^ n + v
unfolding be_value be_bytes
be_value-be_bytes zero acc v h = omega arith
be_value-be_bytes (suc n) acc v h =
    be_value-append acc (be_bytes n (v / 256)) (v % 256 ∷ [])
    ∙ omega (
      arith,
      be_value-be_bytes n acc (v / 256) (omega (arith, pow-suc 256 n)),
      pow-suc 256 n,
      ap (λ (t : ℕ). acc * t) (pow-suc 256 n),
    )

append-IsBytes : (xs ys : List ℕ) → IsBytes xs → IsBytes ys → IsBytes (xs ++ ys)
append-IsBytes [] ys h k = k
append-IsBytes (x ∷ xs) ys h k = (h.0, append-IsBytes xs ys h.1 k)

-- The leading byte of a number, and the rest.
pub be_bytes-cons :
    (n hi lo : ℕ) → lo < 256 ^ n → be_bytes (suc n) (hi * 256 ^ n + lo) ≡ hi % 256 ∷ be_bytes n lo
unfolding be_bytes
be_bytes-cons zero hi lo h = ap (λ (t : ℕ). t % 256 ∷ []) (omega arith)
be_bytes-cons (suc n) hi lo h =
    ap₂ (λ (bs : List ℕ) (b : ℕ). bs ++ (b ∷ []))
      (ap (be_bytes (suc n)) (omega (arith, pow-suc 256 n, ap (λ (t : ℕ). hi * t) (pow-suc 256 n)))
        ∙ be_bytes-cons n hi (lo / 256) (omega (arith, pow-suc 256 n)))
      (omega (arith, ap (λ (t : ℕ). hi * t) (pow-suc 256 n)))

pub IsBytes-append : (xs ys : List ℕ) → IsBytes (xs ++ ys) → IsBytes xs × IsBytes ys
IsBytes-append [] ys h = (tt, h)
IsBytes-append (x ∷ xs) ys h = let ih = IsBytes-append xs ys h.1 in ((h.0, ih.0), ih.1)

pub be_bytes-IsBytes : (n v : ℕ) → IsBytes (be_bytes n v)
unfolding be_bytes
be_bytes-IsBytes zero v = tt
be_bytes-IsBytes (suc n) v =
    append-IsBytes (be_bytes n (v / 256)) (v % 256 ∷ []) (be_bytes-IsBytes n (v / 256))
      (omega arith, tt)

pub split_at-append : (xs ys : List ℕ) → split_at (length xs) (xs ++ ys) ≡ some (xs, ys)
unfolding split_at
split_at-append [] ys = refl
split_at-append (x ∷ xs) ys = rw (split_at-append xs ys)

pub split_at-eq_some :
    (n : ℕ) (bs : List ℕ) {p : List ℕ × List ℕ}
    → split_at n bs ≡ some p
    → (bs ≡ p.0 ++ p.1) × (length p.0 ≡ n)
unfolding split_at
split_at-eq_some zero bs h = ground arith
split_at-eq_some (suc n) [] h = cc
split_at-eq_some (suc n) (b ∷ bs) h = elim (Option-cases (split_at n bs)) [
  | inl e ↦ absurd (cc)
  | inr (q, e) ↦ let ih = split_at-eq_some n bs e in ground (arith, ih)
]

from_zero : (b : ℕ) (bs : List ℕ) → be_value 0 (b ∷ bs) ≡ be_value b bs
unfolding be_value
from_zero b bs = ap (λ a. be_value a bs) (omega arith)

pub be_value-lift :
    (acc : ℕ) (bs : List ℕ) → be_value acc bs ≡ acc * 256 ^ length bs + be_value 0 bs
unfolding be_value
be_value-lift acc [] = omega arith
be_value-lift acc (b ∷ bs) = omega (
  arith,
  be_value-lift (acc * 256 + b) bs,
  be_value-lift b bs,
  from_zero b bs,
  pow-suc 256 (length bs),
  ap (λ (t : ℕ). acc * t) (pow-suc 256 (length bs)),
)

be_value-cons : (b : ℕ) (bs : List ℕ) → be_value 0 (b ∷ bs) ≡ b * 256 ^ length bs + be_value 0 bs
be_value-cons b bs = from_zero b bs ∙ be_value-lift b bs

digit_fits : (b p r : ℕ) → b < 256 → r < p → b * p + r < p * 256
digit_fits b p r h k = grind arith

pub be_value-lt : (bs : List ℕ) → IsBytes bs → be_value 0 bs < 256 ^ length bs
be_value-lt [] h = unfold be_value in omega arith
be_value-lt (b ∷ bs) h =
    rw (be_value-cons b bs, pow-suc 256 (length bs))
      (digit_fits b (256 ^ length bs) (be_value 0 bs) h.0 (be_value-lt bs h.1))

-- What reads as a number is how that number is written.
pub be_bytes-be_value : (bs : List ℕ) → IsBytes bs → be_bytes (length bs) (be_value 0 bs) ≡ bs
be_bytes-be_value [] h = unfold be_bytes in refl
be_bytes-be_value (b ∷ bs) h =
    ap (be_bytes (suc (length bs))) (be_value-cons b bs)
    ∙ be_bytes-cons (length bs) b (be_value 0 bs) (be_value-lt bs h.1)
    ∙ ap₂ ◌∷◌ (omega arith) (be_bytes-be_value bs h.1)
