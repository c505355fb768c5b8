-- ===== src/Fec/Field/Laws.antt =====
-- The laws of a field for `multiply` and `inverse` of src/fec.rs.
use Prim.Native.Nat.{bit_and, bit_xor}
use quicp.Prelude.{
  ℕ, zero, suc, ◌+◌, ◌*◌, ◌/◌, ◌%◌, ◌<◌, ◌≡◌, refl, sym, ap, ◌∙◌, Bool, true, false, ◌≤◌, min,
  ℕ_discrete, ◌==◌, if◌then◌else◌, if_of_both, dec_lt, arith,
}
use mathlib.Core.Path.{subst}
use quicp.Fec.Field.{double, multiply, inverse, reduction}
use quicp.Fec.Field.Loop.{
  product, product_step, product-zero, multiply_lem, double_lem, double-bit_xor,
}
use quicp.Fec.Xor.{
  zero-bit_xor, bit_xor-half, bit_xor-parity, bit_xor-zero, bit_xor_self, bit_xor_interchange,
  bit_xor-lt,
}
use quicp.Fec.LowDigits.{bit_xor_of_eq}

abbrev pick : ℕ → ℕ → ℕ
pick r l = if r % 2 == 0 then 0 else l

pick_left : (r a b : ℕ) → pick r (bit_xor a b) ≡ bit_xor (pick r a) (pick r b)
pick_left r a b = ground (arith, zero-bit_xor 0)

pick_right : (l x y : ℕ) → pick (bit_xor x y) l ≡ bit_xor (pick x l) (pick y l)
pick_right l x y =
    ground
      (arith, bit_xor-parity x y, zero-bit_xor l, bit_xor-zero l, bit_xor_self l, zero-bit_xor 0)

double-zero : double 0 ≡ 0
unfolding double
double-zero = refl

double-pick : (r l : ℕ) → double (pick r l) ≡ pick r (double l)
double-pick r l = ground (arith, double-zero)

bit_xor-product :
    (n a b r : ℕ) → product n (bit_xor a b) r ≡ bit_xor (product n a r) (product n b r)
bit_xor-product zero a b r = unfold product in sym (zero-bit_xor 0)
bit_xor-product (suc n) a b r =
    product_step n (bit_xor a b) r
    ∙ bit_xor_of_eq (pick_left r a b) (
        ap (λ t. product n t (r / 2)) (double-bit_xor a b)
        ∙ bit_xor-product n (double a) (double b) (r / 2))
    ∙ bit_xor_interchange (pick r a) (pick r b) (product n (double a) (r / 2))
        (product n (double b) (r / 2))
    ∙ sym (bit_xor_of_eq (product_step n a r) (product_step n b r))

product-bit_xor :
    (n l x y : ℕ) → product n l (bit_xor x y) ≡ bit_xor (product n l x) (product n l y)
product-bit_xor zero l x y = unfold product in sym (zero-bit_xor 0)
product-bit_xor (suc n) l x y =
    product_step n l (bit_xor x y)
    ∙ bit_xor_of_eq (pick_right l x y) (
        ap (product n (double l)) (bit_xor-half x y) ∙ product-bit_xor n (double l) (x / 2) (y / 2))
    ∙ bit_xor_interchange (pick x l) (pick y l) (product n (double l) (x / 2))
        (product n (double l) (y / 2))
    ∙ sym (bit_xor_of_eq (product_step n l x) (product_step n l y))

double-product : (n l r : ℕ) → double (product n l r) ≡ product n (double l) r
double-product zero l r = unfold product in unfold double in refl
double-product (suc n) l r =
    ap double (product_step n l r)
    ∙ double-bit_xor (pick r l) (product n (double l) (r / 2))
    ∙ bit_xor_of_eq (double-pick r l) (double-product n (double l) (r / 2))
    ∙ sym (product_step n (double l) r)

-- The two numbers have the same n low digits.
abbrev SameDigits : ℕ → ℕ → ℕ → Type 0
SameDigits zero x y = Unit {0}
SameDigits (suc n) x y = (x % 2 ≡ y % 2) × SameDigits n (x / 2) (y / 2)

product_of_SameDigits : (n l x y : ℕ) → SameDigits n x y → product n l x ≡ product n l y
product_of_SameDigits zero l x y h = unfold product in refl
product_of_SameDigits (suc n) l x y h =
    product_step n l x
    ∙ bit_xor_of_eq (ap (λ t. if t == 0 then 0 else l) h.0)
        (product_of_SameDigits n (double l) (x / 2) (y / 2) h.1)
    ∙ sym (product_step n l y)

product-doubled : (n l c : ℕ) → product (suc n) l (c * 2) ≡ product n (double l) c
product-doubled n l c =
    product_step n l (c * 2)
    ∙ bit_xor_of_eq
        (let even : c * 2 % 2 ≡ 0 = omega arith in ap (λ t. if t == 0 then 0 else l) even)
        (ap (product n (double l)) (let half : c * 2 / 2 ≡ c = omega arith in half))
    ∙ zero-bit_xor (product n (double l) c)

-- Nothing is left of the number after n digits.
abbrev Ends : ℕ → ℕ → Type 0
Ends zero r = r ≡ 0
Ends (suc n) r = Ends n (r / 2)

product_more : (n l r : ℕ) → Ends n r → product n l r ≡ product (suc n) l r
product_more zero l r h = unfold product in sym (ap (product 1 l) h ∙ product-zero 1 l)
product_more (suc n) l r h =
    product_step n l r
    ∙ ap (bit_xor (pick r l)) (product_more n (double l) (r / 2) h)
    ∙ sym (product_step (suc n) l r)

-- Two functions have the same values on `count` numbers from `start` on.
agree : (f g : ℕ → ℕ) (start count : ℕ) → Bool
agree f g start zero = true
agree f g start (suc count) = if f start == g start then agree f g (start + 1) count else false

agree-eq :
    (f g : ℕ → ℕ) (start count x : ℕ)
    → start ≤ x
    → x < start + count
    → agree f g start count ≡ true
    → f x ≡ g x
unfolding agree
agree-eq f g start zero x low high e = absurd (omega (arith, low, high))
agree-eq f g start (suc count) x low high e = elim (ℕ_discrete start x) [
  | yes same ↦ subst (λ y. f y ≡ g y) same (ground (arith, e))
  | no other ↦
      agree-eq f g (start + 1) count x (omega (arith, low, other)) (omega (arith, high))
        (ground (arith, e))
]

reduction_table : agree (λ a. product 8 (double a) 128) (λ a. product 8 a reduction) 0 256 ≡ true
unfolding agree product double
reduction_table = refl

inverse_table : agree (λ a. multiply a (inverse a)) (λ a. 1) 1 255 ≡ true
unfolding agree inverse
inverse_table = refl

reduction_lem : (a : ℕ) → a < 256 → product 8 (double a) 128 ≡ product 8 a reduction
reduction_lem a h =
    agree-eq (λ b. product 8 (double b) 128) (λ b. product 8 b reduction) 0 256 a (omega arith)
      (omega (arith, h)) reduction_table

digit_step :
    (n b x y x' y' : ℕ)
    → x / 2 ≡ x'
    → y / 2 ≡ y'
    → b % 2 ≡ (x + y) % 2
    → SameDigits n (b / 2) (bit_xor x' y')
    → SameDigits (suc n) b (bit_xor x y)
digit_step n b x y x' y' p q r h = (
  r ∙ sym (bit_xor-parity x y),
  subst (SameDigits n (b / 2)) (sym (bit_xor-half x y ∙ bit_xor_of_eq p q)) h,
)

split_1 : (b : ℕ) → SameDigits 1 b (bit_xor 0 (b % 2))
split_1 b = (omega (arith, zero-bit_xor (b % 2)), tt)

split_2 : (b : ℕ) → SameDigits 2 b (bit_xor (b % 2) (b / 2 % 2 * 2))
split_2 b =
    digit_step 1 b (b % 2) (b / 2 % 2 * 2) (0) (b / 2 % 2) (omega arith) (omega arith) (omega arith)
      (split_1 (b / 2))

split_3 : (b : ℕ) → SameDigits 3 b (bit_xor (b % 4) (b / 4 % 2 * 4))
split_3 b =
    digit_step 2 b (b % 4) (b / 4 % 2 * 4) (b / 2 % 2) (b / 2 / 2 % 2 * 2) (omega arith)
      (omega arith) (omega arith) (split_2 (b / 2))

split_4 : (b : ℕ) → SameDigits 4 b (bit_xor (b % 8) (b / 8 % 2 * 8))
split_4 b =
    digit_step 3 b (b % 8) (b / 8 % 2 * 8) (b / 2 % 4) (b / 2 / 4 % 2 * 4) (omega arith)
      (omega arith) (omega arith) (split_3 (b / 2))

split_5 : (b : ℕ) → SameDigits 5 b (bit_xor (b % 16) (b / 16 % 2 * 16))
split_5 b =
    digit_step 4 b (b % 16) (b / 16 % 2 * 16) (b / 2 % 8) (b / 2 / 8 % 2 * 8) (omega arith)
      (omega arith) (omega arith) (split_4 (b / 2))

split_6 : (b : ℕ) → SameDigits 6 b (bit_xor (b % 32) (b / 32 % 2 * 32))
split_6 b =
    digit_step 5 b (b % 32) (b / 32 % 2 * 32) (b / 2 % 16) (b / 2 / 16 % 2 * 16) (omega arith)
      (omega arith) (omega arith) (split_5 (b / 2))

split_7 : (b : ℕ) → SameDigits 7 b (bit_xor (b % 64) (b / 64 % 2 * 64))
split_7 b =
    digit_step 6 b (b % 64) (b / 64 % 2 * 64) (b / 2 % 32) (b / 2 / 32 % 2 * 32) (omega arith)
      (omega arith) (omega arith) (split_6 (b / 2))

-- `b` by its low digits and its top digit, as the loop reads it.
split_digits : (b : ℕ) → SameDigits 8 b (bit_xor (b % 128) (b / 128 % 2 * 128))
split_digits b =
    digit_step 7 b (b % 128) (b / 128 % 2 * 128) (b / 2 % 64) (b / 2 / 64 % 2 * 64) (omega arith)
      (omega arith) (omega arith) (split_7 (b / 2))

product_flag : (l k t : ℕ) → t < 2 → product 8 l (t * k) ≡ (if t == 0 then 0 else product 8 l k)
product_flag l k zero h = ap (product 8 l) (let e : 0 * k ≡ 0 = omega arith in e) ∙ product-zero 8 l
product_flag l k (suc zero) h = ap (product 8 l) (let e : 1 * k ≡ k = omega arith in e)
product_flag l k (suc (suc t)) h = absurd (omega (arith, h))

-- Doubling the second factor doubles the product.
product-double : (a b : ℕ) → a < 256 → product 8 a (double b) ≡ double (product 8 a b)
product-double a b h =
    let t : ℕ = b / 128 % 2 in
    let low : ℕ = b % 128 in
    ap (product 8 a) (double_lem b)
    ∙ product-bit_xor 8 a (low * 2) (t * reduction)
    ∙ bit_xor_of_eq (product-doubled 7 a low ∙ product_more 7 (double a) low (omega arith)) (
        product_flag a reduction t (omega arith)
        ∙ ap (λ u. if t == 0 then 0 else u) (sym (reduction_lem a h))
        ∙ sym (product_flag (double a) 128 t (omega arith)))
    ∙ sym (product-bit_xor 8 (double a) low (t * 128))
    ∙ sym (product_of_SameDigits 8 (double a) b (bit_xor low (t * 128)) (split_digits b))
    ∙ sym (double-product 8 a b)

product-pick : (a r b : ℕ) → product 8 a (pick r b) ≡ pick r (product 8 a b)
product-pick a r b = ground (arith, product-zero 8 a)

product_assoc : (n a b c : ℕ) → a < 256 → product n (product 8 a b) c ≡ product 8 a (product n b c)
product_assoc zero a b c h = unfold product in sym (product-zero 8 a)
product_assoc (suc n) a b c h =
    product_step n (product 8 a b) c
    ∙ bit_xor_of_eq (sym (product-pick a c b)) (
        ap (λ t. product n t (c / 2)) (sym (product-double a b h))
        ∙ product_assoc n a (double b) (c / 2) h)
    ∙ sym (product-bit_xor 8 a (pick c b) (product n (double b) (c / 2)))
    ∙ ap (product 8 a) (sym (product_step n b c))

-- `multiply` distributes over `^` on both sides.
pub bit_xor-multiply :
    (a b c : ℕ) → multiply (bit_xor a b) c ≡ bit_xor (multiply a c) (multiply b c)
bit_xor-multiply a b c =
    multiply_lem (bit_xor a b) c
    ∙ bit_xor-product 8 a b c
    ∙ sym (bit_xor_of_eq (multiply_lem a c) (multiply_lem b c))

pub multiply-bit_xor :
    (a b c : ℕ) → multiply a (bit_xor b c) ≡ bit_xor (multiply a b) (multiply a c)
multiply-bit_xor a b c =
    multiply_lem a (bit_xor b c)
    ∙ product-bit_xor 8 a b c
    ∙ sym (bit_xor_of_eq (multiply_lem a b) (multiply_lem a c))

pub multiply_assoc : (a b c : ℕ) → a < 256 → multiply (multiply a b) c ≡ multiply a (multiply b c)
multiply_assoc a b c h =
    multiply_lem (multiply a b) c
    ∙ ap (λ t. product 8 t c) (multiply_lem a b)
    ∙ product_assoc 8 a b c h
    ∙ sym (multiply_lem a (multiply b c) ∙ ap (product 8 a) (multiply_lem b c))

pub multiply-one : (a : ℕ) → multiply a 1 ≡ a
multiply-one a =
    multiply_lem a 1
    ∙ product_step 7 a 1
    ∙ ap (bit_xor a) (product-zero 7 (double a))
    ∙ bit_xor-zero a

pub multiply-zero : (a : ℕ) → multiply a 0 ≡ 0
multiply-zero a = multiply_lem a 0 ∙ product-zero 8 a

pub zero-multiply : (a : ℕ) → multiply 0 a ≡ 0
zero-multiply a =
    ap (λ t. multiply t a) (sym (bit_xor_self 0))
    ∙ bit_xor-multiply 0 0 a
    ∙ bit_xor_self (multiply 0 a)

pub multiply-inverse : (c : ℕ) → 0 < c → c < 256 → multiply c (inverse c) ≡ 1
multiply-inverse c p h =
    agree-eq (λ a. multiply a (inverse a)) (λ a. 1) 1 255 c (omega (arith, p)) (omega (arith, h))
      inverse_table

double-lt : (l : ℕ) → double l < 256
unfolding double
double-lt l =
    if_of_both (λ t. t < 256) (bit_and l 0x80 == 0) (λ e. omega arith)
      (λ e. bit_xor-lt 8 (l * 2 % 256) reduction (omega arith) (omega arith))

product-lt : (n l r : ℕ) → l < 256 → product n l r < 256
product-lt zero l r h = unfold product in omega arith
product-lt (suc n) l r h = rw (product_step n l r) (
    bit_xor-lt 8 (pick r l) (product n (double l) (r / 2)) (ground arith)
      (product-lt n (double l) (r / 2) (double-lt l)))

pub multiply-lt : (a b : ℕ) → a < 256 → multiply a b < 256
multiply-lt a b h = rw (multiply_lem a b) (product-lt 8 a b h)

pub multiply-ne-zero : (a b : ℕ) → 0 < a → a < 256 → 0 < b → b < 256 → 0 < multiply a b
multiply-ne-zero a b p h q k =
    let undone : multiply (multiply a b) (inverse b) ≡ a =
      multiply_assoc a b (inverse b) h
      ∙ ap (multiply a) (multiply-inverse b q k)
      ∙ multiply-one a in
    elim (dec_lt 0 (multiply a b)) [
      | yes e ↦ e
      | no e ↦
          let z : multiply a b ≡ 0 = omega (arith, e) in
          absurd (
            omega (arith, p, undone, ap (λ t. multiply t (inverse b)) z, zero-multiply (inverse b)))
    ]

bounds_table : agree (λ a. min (inverse a) 255) inverse 0 256 ≡ true
unfolding agree inverse
bounds_table = refl

pub inverse-lt : (c : ℕ) → 0 < c → c < 256 → inverse c < 256
inverse-lt c p h =
    let bounded =
      agree-eq (λ a. min (inverse a) 255) inverse 0 256 c (omega arith) (omega (arith, h))
        bounds_table in
    omega (arith, bounded)
