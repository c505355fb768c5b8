-- ===== src/Fec/Xor.antt =====
-- The laws of `^` on unsigned words, and of `&` with one digit, at every width, from the recursion on binary digits that the
-- native operation stands for.
use Prim.Native.Nat.{differ, digits, bit_and, bit_xor, bit_xor-bitwise, bit_and-bitwise}
use quicp.Prelude.{
  ℕ, zero, suc, ◌+◌, ◌*◌, ◌/◌, ◌%◌, ◌^◌, ◌≤◌, ◌<◌, ◌≡◌, refl, sym, ap, ◌∙◌, min, arith,
}
use native.Mathlib.Nat.{pow-suc}

-- A digit operation: its value where the first number has no digits left, and its value on two digits.
module _ (rest : ℕ → ℕ) (digit : ℕ → ℕ → ℕ) where
  no_digits : (fuel y : ℕ) → digits rest digit fuel 0 y ≡ rest y
  no_digits zero y = refl
  no_digits (suc fuel) y = refl

  spare_fuel :
      (fuel more x y : ℕ)
      → x ≤ fuel
      → fuel ≤ more
      → digits rest digit more x y ≡ digits rest digit fuel x y
  spare_fuel fuel more zero y enough bigger = no_digits more y ∙ sym (no_digits fuel y)
  spare_fuel (suc fuel) (suc more) (suc x) y enough bigger =
      ap (λ d. d * 2 + digit (suc x % 2) (y % 2))
        (spare_fuel fuel more (suc x / 2) (y / 2) (omega (arith, enough)) (omega (arith, bigger)))
  spare_fuel (suc fuel) zero (suc x) y enough bigger = absurd (omega (arith, bigger))
  spare_fuel zero more (suc x) y enough bigger = absurd (omega (arith, enough))

  -- An operation that is one on digits, at its lowest digit.
  lowest_digit :
      (op : ℕ → ℕ → ℕ)
      → ((x y : ℕ) → op x y ≡ digits rest digit x x y)
      → (x y : ℕ) → op (suc x) y ≡ op (suc x / 2) (y / 2) * 2 + digit (suc x % 2) (y % 2)
  lowest_digit op means x y =
      let shorter = spare_fuel (suc x / 2) x (suc x / 2) (y / 2) (omega arith) (omega arith) in
      means (suc x) y
      ∙ ap (λ d. d * 2 + digit (suc x % 2) (y % 2)) (shorter ∙ sym (means (suc x / 2) (y / 2)))

pub zero-bit_xor : (b : ℕ) → bit_xor 0 b ≡ b
zero-bit_xor b = bit_xor-bitwise 0 b

differ_lem : (x y : ℕ) → x < 2 → y < 2 → differ x y ≡ (x + y) % 2
differ_lem zero y h k = omega arith
differ_lem (suc zero) zero h k = refl
differ_lem (suc zero) (suc zero) h k = refl
differ_lem (suc zero) (suc (suc y)) h k = absurd (omega (arith, k))
differ_lem (suc (suc x)) y h k = absurd (omega (arith, h))

-- The lowest digit, and the others.
pub bit_xor_step : (a b : ℕ) → bit_xor a b ≡ bit_xor (a / 2) (b / 2) * 2 + (a + b) % 2
bit_xor_step zero b = omega (arith, zero-bit_xor b, zero-bit_xor (b / 2))
bit_xor_step (suc a) b = omega (
  arith,
  lowest_digit (λ d. d) differ bit_xor bit_xor-bitwise a b,
  differ_lem (suc a % 2) (b % 2) (omega arith) (omega arith),
)

pub bit_xor-half : (a b : ℕ) → bit_xor a b / 2 ≡ bit_xor (a / 2) (b / 2)
bit_xor-half a b = omega (arith, bit_xor_step a b)

pub bit_xor-parity : (a b : ℕ) → bit_xor a b % 2 ≡ (a + b) % 2
bit_xor-parity a b = omega (arith, bit_xor_step a b)

zero_fuel : (n a : ℕ) → a ≤ n → bit_xor a 0 ≡ a
zero_fuel n zero h = zero-bit_xor 0
zero_fuel zero (suc a) h = absurd (omega (arith, h))
zero_fuel (suc n) (suc a) h =
    omega (arith, bit_xor_step (suc a) 0, zero_fuel n (suc a / 2) (omega (arith, h)))

pub bit_xor-zero : (a : ℕ) → bit_xor a 0 ≡ a
bit_xor-zero a = zero_fuel a a (omega arith)

comm_fuel : (n a b : ℕ) → a ≤ n → bit_xor a b ≡ bit_xor b a
comm_fuel n zero b h = omega (arith, zero-bit_xor b, bit_xor-zero b)
comm_fuel zero (suc a) b h = absurd (omega (arith, h))
comm_fuel (suc n) (suc a) b h = omega (
  arith,
  bit_xor_step (suc a) b,
  bit_xor_step b (suc a),
  comm_fuel n (suc a / 2) (b / 2) (omega (arith, h)),
)

pub bit_xor_comm : (a b : ℕ) → bit_xor a b ≡ bit_xor b a
bit_xor_comm a b = comm_fuel a a b (omega arith)

self_fuel : (n a : ℕ) → a ≤ n → bit_xor a a ≡ 0
self_fuel n zero h = zero-bit_xor 0
self_fuel zero (suc a) h = absurd (omega (arith, h))
self_fuel (suc n) (suc a) h =
    omega (arith, bit_xor_step (suc a) (suc a), self_fuel n (suc a / 2) (omega (arith, h)))

pub bit_xor_self : (a : ℕ) → bit_xor a a ≡ 0
bit_xor_self a = self_fuel a a (omega arith)

assoc_fuel : (n a b c : ℕ) → a ≤ n → bit_xor (bit_xor a b) c ≡ bit_xor a (bit_xor b c)
assoc_fuel n zero b c h =
    omega (arith, zero-bit_xor (bit_xor b c), ap (λ t. bit_xor t c) (zero-bit_xor b))
assoc_fuel zero (suc a) b c h = absurd (omega (arith, h))
assoc_fuel (suc n) (suc a) b c h = omega (
  arith,
  bit_xor_step (bit_xor (suc a) b) c,
  bit_xor_step (suc a) (bit_xor b c),
  bit_xor-parity (suc a) b,
  bit_xor-parity b c,
  ap (λ t. bit_xor t (c / 2)) (bit_xor-half (suc a) b),
  ap (λ t. bit_xor (suc a / 2) t) (bit_xor-half b c),
  assoc_fuel n (suc a / 2) (b / 2) (c / 2) (omega (arith, h)),
)

pub bit_xor_assoc : (a b c : ℕ) → bit_xor (bit_xor a b) c ≡ bit_xor a (bit_xor b c)
bit_xor_assoc a b c = assoc_fuel a a b c (omega arith)

-- Of four, the middle two change places.
pub bit_xor_interchange :
    (a b c d : ℕ) → bit_xor (bit_xor a b) (bit_xor c d) ≡ bit_xor (bit_xor a c) (bit_xor b d)
bit_xor_interchange a b c d =
    bit_xor_assoc a b (bit_xor c d)
    ∙ ap (bit_xor a)
        (sym (bit_xor_assoc b c d) ∙ ap (λ t. bit_xor t d) (bit_xor_comm b c) ∙ bit_xor_assoc c b d)
    ∙ sym (bit_xor_assoc a c (bit_xor b d))

pub bit_xor_cancel : (a b : ℕ) → bit_xor a (bit_xor a b) ≡ b
bit_xor_cancel a b =
    sym (bit_xor_assoc a a b) ∙ ap (λ t. bit_xor t b) (bit_xor_self a) ∙ zero-bit_xor b

-- Two numbers of n digits give one.
pub bit_xor-lt : (n a b : ℕ) → a < 2 ^ n → b < 2 ^ n → bit_xor a b < 2 ^ n
bit_xor-lt zero a b h k = omega (
  arith,
  bit_xor_step a b,
  h,
  k,
  ap (λ t. bit_xor t (b / 2)) (let z : a / 2 ≡ 0 = omega (arith, h) in z),
  ap (bit_xor 0) (let z : b / 2 ≡ 0 = omega (arith, k) in z),
  zero-bit_xor 0,
)
bit_xor-lt (suc n) a b h k = omega (
  arith,
  bit_xor_step a b,
  pow-suc 2 n,
  bit_xor-lt n (a / 2) (b / 2) (omega (arith, h, pow-suc 2 n)) (omega (arith, k, pow-suc 2 n)),
)

none-bit_and : (y : ℕ) → bit_and 0 y ≡ 0
none-bit_and = bit_and-bitwise 0

-- `&`, at the lowest digit.
bit_and_lowest : (x y : ℕ) → bit_and x y ≡ min (x % 2) (y % 2) + bit_and (x / 2) (y / 2) * 2
bit_and_lowest (suc x) y =
    let lowest = lowest_digit (λ d. 0) min bit_and bit_and-bitwise x y in omega (arith, lowest)
bit_and_lowest zero y = omega (arith, none-bit_and (y / 2), none-bit_and y)

bit_and-none_fuel : (fuel x : ℕ) → x ≤ fuel → bit_and x 0 ≡ 0
bit_and-none_fuel fuel zero enough = none-bit_and 0
bit_and-none_fuel (suc fuel) (suc x) enough =
    let halved = bit_and-none_fuel fuel (suc x / 2) (omega (arith, enough)) in
    omega (arith, halved, bit_and_lowest (suc x) 0)
bit_and-none_fuel zero (suc x) enough = absurd (omega (arith, enough))

pub bit_and-one : (x : ℕ) → bit_and x 1 ≡ x % 2
bit_and-one x =
    let above = bit_and-none_fuel (x / 2) (x / 2) (omega arith) in
    omega (arith, above, bit_and_lowest x 1)

and_shift : (a b : ℕ) → bit_and a (b * 2) ≡ bit_and (a / 2) b * 2
and_shift a b =
    let halved : b * 2 / 2 ≡ b = omega arith in
    omega (arith, bit_and_lowest a (b * 2), ap (bit_and (a / 2)) halved)

-- The top digit of a byte.
pub bit_and-top : (a : ℕ) → bit_and a 0x80 ≡ a / 128 % 2 * 128
bit_and-top a = omega (
  arith,
  and_shift a 64,
  and_shift (a / 2) 32,
  and_shift (a / 2 / 2) 16,
  and_shift (a / 2 / 2 / 2) 8,
  and_shift (a / 2 / 2 / 2 / 2) 4,
  and_shift (a / 2 / 2 / 2 / 2 / 2) 2,
  and_shift (a / 2 / 2 / 2 / 2 / 2 / 2) 1,
  bit_and-one (a / 2 / 2 / 2 / 2 / 2 / 2 / 2),
)
