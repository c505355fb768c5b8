-- ===== src/Fec/LowDigits.antt =====
-- `^` on the low seven digits of a byte and on the one above.
use Prim.Native.Nat.{bit_xor}
use quicp.Prelude.{ℕ, ◌+◌, ◌*◌, ◌/◌, ◌%◌, ◌≡◌, arith}
use quicp.Fec.Xor.{zero-bit_xor, bit_xor_step, bit_xor-half, bit_xor-parity}

pub bit_xor_of_eq : {a a' b b' : ℕ} → a ≡ a' → b ≡ b' → bit_xor a b ≡ bit_xor a' b'
bit_xor_of_eq p q = cc

-- One digit more among the low digits of `^`.
low_step :
    (m n a b : ℕ)
    → bit_xor (a / 2) (b / 2) % m ≡ bit_xor (a / 2 % m) (b / 2 % m)
    → a % n / 2 ≡ a / 2 % m
    → b % n / 2 ≡ b / 2 % m
    → bit_xor (a % n) (b % n) ≡ bit_xor (a / 2) (b / 2) % m * 2 + (a % n + b % n) % 2
low_step m n a b low p q = omega (arith, bit_xor_step (a % n) (b % n), bit_xor_of_eq p q, low)

low_2 : (a b : ℕ) → bit_xor a b % 2 ≡ bit_xor (a % 2) (b % 2)
low_2 a b = omega (
  arith,
  bit_xor-parity a b,
  bit_xor_step (a % 2) (b % 2),
  bit_xor_of_eq {a = a % 2 / 2} {a' = 0} {b = b % 2 / 2} {b' = 0} (omega arith) (omega arith),
  zero-bit_xor 0,
)

low_4 : (a b : ℕ) → bit_xor a b % 4 ≡ bit_xor (a % 4) (b % 4)
low_4 a b =
    omega (
      arith,
      bit_xor_step a b,
      low_step 2 4 a b (low_2 (a / 2) (b / 2)) (omega arith) (omega arith),
    )

low_8 : (a b : ℕ) → bit_xor a b % 8 ≡ bit_xor (a % 8) (b % 8)
low_8 a b =
    omega (
      arith,
      bit_xor_step a b,
      low_step 4 8 a b (low_4 (a / 2) (b / 2)) (omega arith) (omega arith),
    )

low_16 : (a b : ℕ) → bit_xor a b % 16 ≡ bit_xor (a % 16) (b % 16)
low_16 a b =
    omega (
      arith,
      bit_xor_step a b,
      low_step 8 16 a b (low_8 (a / 2) (b / 2)) (omega arith) (omega arith),
    )

low_32 : (a b : ℕ) → bit_xor a b % 32 ≡ bit_xor (a % 32) (b % 32)
low_32 a b = omega (
  arith,
  bit_xor_step a b,
  low_step 16 32 a b (low_16 (a / 2) (b / 2)) (omega arith) (omega arith),
)

low_64 : (a b : ℕ) → bit_xor a b % 64 ≡ bit_xor (a % 64) (b % 64)
low_64 a b = omega (
  arith,
  bit_xor_step a b,
  low_step 32 64 a b (low_32 (a / 2) (b / 2)) (omega arith) (omega arith),
)

-- The low 7 digits.
pub low_128 : (a b : ℕ) → bit_xor a b % 128 ≡ bit_xor (a % 128) (b % 128)
low_128 a b = omega (
  arith,
  bit_xor_step a b,
  low_step 64 128 a b (low_64 (a / 2) (b / 2)) (omega arith) (omega arith),
)

-- The digit above them.
pub top-bit_xor : (a b : ℕ) → bit_xor a b / 128 % 2 ≡ (a / 128 % 2 + b / 128 % 2) % 2
top-bit_xor a b =
    let h1 = bit_xor-half a b in
    let h2 = bit_xor-half (a / 2) (b / 2) in
    let h3 = bit_xor-half (a / 2 / 2) (b / 2 / 2) in
    let h4 = bit_xor-half (a / 2 / 2 / 2) (b / 2 / 2 / 2) in
    let h5 = bit_xor-half (a / 2 / 2 / 2 / 2) (b / 2 / 2 / 2 / 2) in
    let h6 = bit_xor-half (a / 2 / 2 / 2 / 2 / 2) (b / 2 / 2 / 2 / 2 / 2) in
    let h7 = bit_xor-half (a / 2 / 2 / 2 / 2 / 2 / 2) (b / 2 / 2 / 2 / 2 / 2 / 2) in
    omega (
      arith,
      h1,
      h2,
      h3,
      h4,
      h5,
      h6,
      h7,
      bit_xor-parity (a / 2 / 2 / 2 / 2 / 2 / 2 / 2) (b / 2 / 2 / 2 / 2 / 2 / 2 / 2),
    )

pub bit_xor-doubled : (a b : ℕ) → bit_xor (a * 2) (b * 2) ≡ bit_xor a b * 2
bit_xor-doubled a b = omega (
  arith,
  bit_xor_step (a * 2) (b * 2),
  bit_xor_of_eq {a = a * 2 / 2} {a' = a} {b = b * 2 / 2} {b' = b} (omega arith) (omega arith),
)
