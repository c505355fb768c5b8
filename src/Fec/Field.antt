-- ===== src/Fec/Field.antt =====
-- The arithmetic of GF(256) in src/fec.rs: `multiply`, `inverse`, `coefficient`. A byte is a number,
-- and what a shift moves out of a word is cut off by `%`.
pub mod Loop
pub mod Laws
mod Tests
use Prim.Native.Nat.{bit_and, bit_xor}
use quicp.Prelude.{ℕ, zero, suc, ◌*◌, ◌/◌, ◌%◌, ◌^◌, List, [], ◌∷◌, ◌==◌, if◌then◌else◌}

-- `REDUCTION`
abbrev pub reduction : ℕ
reduction = 0x1d

-- `left <<= 1; if carry { left ^= REDUCTION; }`
unfoldable pub double : ℕ → ℕ
double left =
    let shifted : ℕ = (left * 2) % 256 in
    if bit_and left 0x80 == 0 then shifted else bit_xor shifted reduction

-- The loop of `multiply`. Each turn takes one of the digits left in `right`, so that a byte is zero
-- after 8 turns.
unfoldable pub multiply_loop : (turns left right output : ℕ) → ℕ
multiply_loop zero left right output = output
multiply_loop (suc n) left right output =
    let rest : ℕ =
      multiply_loop n (double left) (right / 2)
        (if bit_and right 1 == 0 then output else bit_xor output left) in
    if right == 0 then output else rest

unfoldable pub multiply : ℕ → ℕ → ℕ
unfolding multiply_loop double
multiply left right = multiply_loop 8 left right 0

-- The loop of `inverse`: the exponent 254 has 8 digits.
unfoldable pub inverse_loop : (turns base exponent output : ℕ) → ℕ
inverse_loop zero base exponent output = output
inverse_loop (suc n) base exponent output =
    let rest : ℕ =
      inverse_loop n (multiply base base) (exponent / 2)
        (if bit_and exponent 1 == 0 then output else multiply output base) in
    if exponent == 0 then output else rest

unfoldable pub inverse : ℕ → ℕ
unfolding inverse_loop multiply
inverse value = inverse_loop 8 value 254 1

-- A `u32` product and shifts.
abbrev wrapping_mul : ℕ → ℕ → ℕ
wrapping_mul a b = (a * b) % 2 ^ 32

abbrev fold_high : (shift value : ℕ) → ℕ
fold_high shift value = bit_xor value (value / 2 ^ shift)

abbrev mixed : (seed repair_id symbol_id : ℕ) → ℕ
mixed seed repair_id symbol_id = fold_high 16 (
    wrapping_mul
      (fold_high 15 (
        wrapping_mul
          (fold_high 16 (
            bit_xor (bit_xor seed (wrapping_mul repair_id 0x9e3779b9))
              (wrapping_mul symbol_id 0x85ebca6b)))
          0x7feb352d))
      0x846ca68b)

-- `value.to_le_bytes()[0]`, and 1 in place of 0.
abbrev nonzero : ℕ → ℕ
nonzero c = if c == 0 then 1 else c

unfoldable pub coefficient : (seed repair_id symbol_id : ℕ) → ℕ
coefficient seed repair_id symbol_id = nonzero (mixed seed repair_id symbol_id % 256)
