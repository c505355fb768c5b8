-- ===== src/Fec/Solutions.antt =====
-- What an equation of src/fec.rs says of the symbols, and what the loops that add scaled bytes do to it.
use Prim.Native.Nat.{bit_xor}
use quicp.Prelude.{
  ℕ, zero, suc, ◌≤◌, ◌<◌, ◌≡◌, refl, sym, ap, ◌∙◌, List, [], ◌∷◌, ◌++◌, ltb, if_of_both, length,
  get_or, replicate, Ensures, returned, failed, Ensures_then, Ensures_any, arith,
}
use quicp.Fec.Field.{multiply}
use quicp.Fec.Field.Laws.{zero-multiply}
use quicp.Fec.Xor.{zero-bit_xor, bit_xor-zero, bit_xor_comm, bit_xor_assoc}
use quicp.Fec.Rows.{spend, xor_scaled_loop, xor_scaled}

-- The bytes of the symbols: `s id k` is byte k of symbol `id`, padded by zeros.
abbrev pub Symbols : Type 0
Symbols = ℕ → ℕ → ℕ

abbrev pub AreBytes : Symbols → Type 0
AreBytes s = (id k : ℕ) → s id k < 256

abbrev pub byte_at : List ℕ → ℕ → ℕ
byte_at bytes k = get_or bytes k 0

-- The left side of an equation at byte k.
abbrev pub combination : Symbols → List (ℕ × ℕ) → ℕ → ℕ
combination s [] k = 0
combination s ((id, c) ∷ cs) k = bit_xor (multiply (s id k) c) (combination s cs k)

-- The symbols solve the equation of the coefficients and the bytes.
pub record Solves (s : Symbols) (coefficients : List (ℕ × ℕ)) (bytes : List ℕ) : Type 0 where
  pub at_byte : (k : ℕ) → combination s coefficients k ≡ byte_at bytes k

byte_at-past : (bytes : List ℕ) (k : ℕ) → length bytes ≤ k → byte_at bytes k ≡ 0
byte_at-past [] k h = refl
byte_at-past (b ∷ bs) zero h = absurd (omega (arith, h))
byte_at-past (b ∷ bs) (suc k) h = byte_at-past bs k (omega (arith, h))

pub record Added (target source : List ℕ) (factor : ℕ) (r : List ℕ × ℕ) : Type 0 where
  pub same_length : length r.0 ≡ length target
  pub sum_at :
      (k : ℕ) → byte_at r.0 k ≡ bit_xor (byte_at target k) (multiply (byte_at source k) factor)

Added-cons :
    (t s : ℕ) (ts ss : List ℕ) (factor : ℕ) (r : List ℕ × ℕ)
    → Added ts ss factor r
    → Added (t ∷ ts) (s ∷ ss) factor (bit_xor t (multiply s factor) ∷ r.0, r.1)
Added-cons t s ts ss factor r p = record { same_length = ap suc p.same_length; sum_at = at }
  where
    at :
        (k : ℕ)
        → byte_at (bit_xor t (multiply s factor) ∷ r.0) k
          ≡ bit_xor (byte_at (t ∷ ts) k) (multiply (byte_at (s ∷ ss) k) factor)
    at zero = refl
    at (suc k) = p.sum_at k

pub xor_scaled_loop-Added :
    (target source : List ℕ) (factor work budget : ℕ)
    → length source ≤ length target
    → Ensures (Added target source factor) (xor_scaled_loop target source factor work budget)
unfolding xor_scaled_loop
xor_scaled_loop-Added [] [] factor work budget h =
    returned ([], work)
      (record {
        same_length = refl;
        sum_at = λ k. sym (zero-bit_xor (multiply 0 factor) ∙ zero-multiply factor);
      })
xor_scaled_loop-Added [] (s ∷ ss) factor work budget h = absurd (omega (arith, h))
xor_scaled_loop-Added (t ∷ ts) [] factor work budget h =
    returned (t ∷ ts, work)
      (record {
        same_length = refl;
        sum_at = λ k. sym (
            ap (bit_xor (byte_at (t ∷ ts) k)) (zero-multiply factor)
            ∙ bit_xor-zero (byte_at (t ∷ ts) k));
      })
xor_scaled_loop-Added (t ∷ ts) (s ∷ ss) factor work budget h =
    Ensures_any (spend work budget) _ (λ spent e.
      Ensures_then (xor_scaled_loop ts ss factor spent budget) _
        (xor_scaled_loop-Added ts ss factor spent budget (omega (arith, h)))
        (λ r p.
          returned (bit_xor t (multiply s factor) ∷ r.0, r.1) (Added-cons t s ts ss factor r p)))

pub xor_scaled-Added :
    (target source : List ℕ) (factor work budget : ℕ)
    → Ensures (Added target source factor) (xor_scaled target source factor work budget)
unfolding xor_scaled
xor_scaled-Added target source factor work budget =
    if_of_both (Ensures (Added target source factor)) (ltb (length target) (length source))
      (λ e. failed _) (λ e. xor_scaled_loop-Added target source factor work budget (ground arith))

pub bit_xor_right_comm : (a b c : ℕ) → bit_xor (bit_xor a b) c ≡ bit_xor (bit_xor a c) b
bit_xor_right_comm a b c =
    bit_xor_assoc a b c ∙ ap (bit_xor a) (bit_xor_comm b c) ∙ sym (bit_xor_assoc a c b)

pub bit_xor_left_comm : (a b c : ℕ) → bit_xor a (bit_xor b c) ≡ bit_xor b (bit_xor a c)
bit_xor_left_comm a b c =
    sym (bit_xor_assoc a b c) ∙ ap (λ t. bit_xor t c) (bit_xor_comm a b) ∙ bit_xor_assoc b a c

pub byte_at-replicate : (n k : ℕ) → byte_at (replicate n 0) k ≡ 0
byte_at-replicate zero k = refl
byte_at-replicate (suc n) zero = refl
byte_at-replicate (suc n) (suc k) = byte_at-replicate n k

-- Zeros at the end change no byte.
pub byte_at-padded : (bs : List ℕ) (n k : ℕ) → byte_at (bs ++ replicate n 0) k ≡ byte_at bs k
byte_at-padded [] n k = byte_at-replicate n k
byte_at-padded (b ∷ bs) n zero = refl
byte_at-padded (b ∷ bs) n (suc k) = byte_at-padded bs n k

pub byte_cases :
    (b : ℕ) (bs : List ℕ) (factor : ℕ) (r : List ℕ × ℕ)
    → ((k : ℕ) → byte_at r.0 k ≡ multiply (byte_at bs k) factor)
    → (k : ℕ) → byte_at (multiply b factor ∷ r.0) k ≡ multiply (byte_at (b ∷ bs) k) factor
byte_cases b bs factor r p zero = refl
byte_cases b bs factor r p (suc k) = p k
