-- ===== src/Fec/Field/Loop.antt =====
-- The loop of `multiply` of src/fec.rs as a sum over the digits of its second factor.
use Prim.Native.Nat.{bit_and, bit_xor}
use quicp.Prelude.{
  ℕ, zero, suc, ◌+◌, ◌*◌, ◌/◌, ◌%◌, ◌<◌, ◌≡◌, refl, sym, ap, ◌∙◌, ◌==◌, if_of_both, ==_iff,
  if◌then◌else◌, arith,
}
use quicp.Fec.Field.{double, multiply_loop, multiply, reduction}
use quicp.Fec.Xor.{
  zero-bit_xor, bit_xor-zero, bit_xor_assoc, bit_and-one, bit_and-top, bit_xor_interchange,
}
use quicp.Fec.LowDigits.{bit_xor_of_eq, low_128, top-bit_xor, bit_xor-doubled}

-- `product n l r` adds up `l`, doubled, at the lowest n digits of `r`.
unfoldable pub product : ℕ → ℕ → ℕ → ℕ
product zero l r = 0
product (suc n) l r = bit_xor (if r % 2 == 0 then 0 else l) (product n (double l) (r / 2))

multiply_loop-zero : (n l out : ℕ) → multiply_loop n l 0 out ≡ out
unfolding multiply_loop
multiply_loop-zero zero l out = refl
multiply_loop-zero (suc n) l out = refl

pub product-zero : (n l : ℕ) → product n l 0 ≡ 0
unfolding product
product-zero zero l = refl
product-zero (suc n) l = zero-bit_xor (product n (double l) 0) ∙ product-zero n (double l)

multiply_loop_step :
    (n l r out : ℕ)
    → multiply_loop (suc n) l r out ≡ (
        if r == 0
        then out
        else multiply_loop n (double l) (r / 2) (if r % 2 == 0 then out else bit_xor out l))
unfolding multiply_loop
multiply_loop_step n l r out = rw (bit_and-one r) refl

pub product_step :
    (n l r : ℕ)
    → product (suc n) l r ≡ bit_xor (if r % 2 == 0 then 0 else l) (product n (double l) (r / 2))
unfolding product
product_step n l r = refl

-- One turn of the loop, under either test.
loop_turn :
    (r out l rest : ℕ) (loop : ℕ → ℕ)
    → ((o : ℕ) → loop o ≡ bit_xor o rest)
    → (r ≡ 0 → rest ≡ 0)
    → (if r == 0 then out else loop (if r % 2 == 0 then out else bit_xor out l))
      ≡ bit_xor out (bit_xor (if r % 2 == 0 then 0 else l) rest)
loop_turn r out l rest loop h z = ground (
  arith,
  h out,
  h (bit_xor out l),
  bit_xor_assoc out l rest,
  zero-bit_xor rest,
  bit_xor-zero out,
  z,
)

multiply_loop-product : (n l r out : ℕ) → multiply_loop n l r out ≡ bit_xor out (product n l r)
multiply_loop-product zero l r out =
    unfold multiply_loop in unfold product in sym (bit_xor-zero out)
multiply_loop-product (suc n) l r out =
    multiply_loop_step n l r out
    ∙ loop_turn r out l (product n (double l) (r / 2)) (multiply_loop n (double l) (r / 2))
        (multiply_loop-product n (double l) (r / 2))
        (λ e.
          ap (product n (double l)) (let half : r / 2 ≡ 0 = omega (arith, e) in half)
          ∙ product-zero n (double l))
    ∙ ap (bit_xor out) (sym (product_step n l r))

pub multiply_lem : (l r : ℕ) → multiply l r ≡ product 8 l r
unfolding multiply
multiply_lem l r = multiply_loop-product 8 l r 0 ∙ zero-bit_xor (product 8 l r)

digit-flag :
    (x y : ℕ) → x < 2 → y < 2 → (x + y) % 2 * reduction ≡ bit_xor (x * reduction) (y * reduction)
digit-flag zero y h k = zero_digit
  where
    zero_digit : (0 + y) % 2 * reduction ≡ bit_xor 0 (y * reduction)
    zero_digit = omega (arith, zero-bit_xor (y * reduction), k)
digit-flag (suc zero) zero h k = refl
digit-flag (suc zero) (suc zero) h k = refl
digit-flag (suc zero) (suc (suc y)) h k = absurd (omega (arith, k))
digit-flag (suc (suc x)) y h k = absurd (omega (arith, h))

-- A byte's low digits move up, and its top digit turns into the reduction.
pub double_lem : (a : ℕ) → double a ≡ bit_xor (a % 128 * 2) (a / 128 % 2 * reduction)
unfolding double
double_lem a =
    if_of_both (λ t. t ≡ bit_xor (a % 128 * 2) (a / 128 % 2 * reduction)) (bit_and a 0x80 == 0)
      (λ e.
        let z : a / 128 % 2 ≡ 0 = omega (arith, bit_and-top a, (==_iff _ _).0 e) in
        rw z
          (let s : a * 2 % 256 ≡ a % 128 * 2 = omega arith in s ∙ sym (bit_xor-zero (a % 128 * 2))))
      (λ e.
        let z : a / 128 % 2 ≡ 1 = ground (arith, bit_and-top a, e) in
        rw z (bit_xor_of_eq (omega arith) refl))

pub double-bit_xor : (a b : ℕ) → double (bit_xor a b) ≡ bit_xor (double a) (double b)
double-bit_xor a b =
    double_lem (bit_xor a b)
    ∙ bit_xor_of_eq (ap (λ t. t * 2) (low_128 a b) ∙ sym (bit_xor-doubled (a % 128) (b % 128))) (
        ap (λ t. t * reduction) (top-bit_xor a b)
        ∙ digit-flag (a / 128 % 2) (b / 128 % 2) (omega arith) (omega arith))
    ∙ bit_xor_interchange (a % 128 * 2) (b % 128 * 2) (a / 128 % 2 * reduction)
        (b / 128 % 2 * reduction)
    ∙ sym (bit_xor_of_eq (double_lem a) (double_lem b))
