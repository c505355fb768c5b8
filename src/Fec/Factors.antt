-- ===== src/Fec/Factors.antt =====
-- The coefficients of the equations of src/fec.rs are bytes other than 0, so that each has an
-- inverse.
use Prim.Native.Nat.{bit_xor}
use quicp.Prelude.{
  ℕ, ◌<◌, ◌≡◌, ap, some, List, [], ◌∷◌, dec_lt, length, Ensures, returned, Ensures_then,
  Ensures_any, arith,
}
use quicp.Fec.Field.{multiply, inverse, coefficient}
use quicp.Fec.Field.Laws.{
  multiply-inverse, multiply-zero, multiply-lt, multiply-ne-zero, inverse-lt,
}
use quicp.Fec.Xor.{bit_xor-lt}
use quicp.Fec.Rows.{
  Row, spend, xor_scaled_loop, scale_coefficients, scale_bytes, scale_row, add_coefficient,
  subtract_coefficients, resize, subtract_row, find_coefficient, remove_coefficient,
}

-- A byte with an inverse.
abbrev pub IsFactor : ℕ → Type 0
IsFactor c = (0 < c) × (c < 256)

abbrev pub AreFactors : List (ℕ × ℕ) → Type 0
AreFactors [] = Unit {0}
AreFactors ((id, c) ∷ cs) = IsFactor c × AreFactors cs

pub multiply-IsFactor : (a b : ℕ) → IsFactor a → IsFactor b → IsFactor (multiply a b)
multiply-IsFactor a b h k = (multiply-ne-zero a b h.0 h.1 k.0 k.1, multiply-lt a b h.1)

pub inverse-IsFactor : (c : ℕ) → IsFactor c → IsFactor (inverse c)
inverse-IsFactor c h = (
  elim (dec_lt 0 (inverse c)) [
    | yes e ↦ e
    | no e ↦
        let z : inverse c ≡ 0 = omega (arith, e) in
        absurd (omega (arith, multiply-inverse c h.0 h.1, ap (multiply c) z, multiply-zero c))
  ],
  inverse-lt c h.0 h.1,
)

pub coefficient-IsFactor :
    (seed repair_id symbol_id : ℕ) → IsFactor (coefficient seed repair_id symbol_id)
unfolding coefficient
coefficient-IsFactor seed repair_id symbol_id = ground arith

add_coefficient-AreFactors :
    (cs : List (ℕ × ℕ)) (id c : ℕ)
    → AreFactors cs
    → IsFactor c
    → AreFactors (add_coefficient cs id c)
unfolding add_coefficient
add_coefficient-AreFactors [] id c h k = (k, tt)
add_coefficient-AreFactors ((j, d) ∷ cs) id c (f, h) k =
    let sum : bit_xor d c < 256 = bit_xor-lt 8 d c f.1 k.1 in
    let rest : AreFactors (add_coefficient cs id c) = add_coefficient-AreFactors cs id c h k in
    ground arith

subtract_coefficients-AreFactors :
    (target source : List (ℕ × ℕ)) (factor work budget : ℕ)
    → AreFactors target
    → AreFactors source
    → IsFactor factor
    → Ensures
        (λ (r : List (ℕ × ℕ) × ℕ). AreFactors r.0)
        (subtract_coefficients target source factor work budget)
unfolding subtract_coefficients
subtract_coefficients-AreFactors target [] factor work budget h g k = returned _ h
subtract_coefficients-AreFactors target ((id, c) ∷ cs) factor work budget h (f, g) k =
    Ensures_any (spend work budget) _ (λ spent e.
      subtract_coefficients-AreFactors (add_coefficient target id (multiply c factor)) cs factor
        spent budget
        (add_coefficient-AreFactors target id (multiply c factor) h
          (multiply-IsFactor c factor f k))
        g k)

scale_coefficients-AreFactors :
    (cs : List (ℕ × ℕ)) (factor work budget : ℕ)
    → AreFactors cs
    → IsFactor factor
    → Ensures (λ (r : List (ℕ × ℕ) × ℕ). AreFactors r.0) (scale_coefficients cs factor work budget)
unfolding scale_coefficients
scale_coefficients-AreFactors [] factor work budget h k = returned _ tt
scale_coefficients-AreFactors ((id, c) ∷ cs) factor work budget (f, h) k =
    Ensures_any (spend work budget) _ (λ spent e.
      Ensures_then (scale_coefficients cs factor spent budget) _
        (scale_coefficients-AreFactors cs factor spent budget h k)
        (λ r p. returned _ (multiply-IsFactor c factor f k, p)))

pub scale_row-AreFactors :
    (row : Row) (factor work budget : ℕ)
    → AreFactors row.coefficients
    → IsFactor factor
    → Ensures (λ (r : Row × ℕ). AreFactors r.0.coefficients) (scale_row row factor work budget)
unfolding scale_row
scale_row-AreFactors row factor work budget h k =
    Ensures_then (scale_coefficients row.coefficients factor work budget) _
      (scale_coefficients-AreFactors row.coefficients factor work budget h k)
      (λ r p. Ensures_any (scale_bytes row.bytes factor r.1 budget) _ (λ q e. returned _ p))

pub subtract_row-AreFactors :
    (target source : Row) (factor work budget : ℕ)
    → AreFactors target.coefficients
    → AreFactors source.coefficients
    → IsFactor factor
    → Ensures
        (λ (r : Row × ℕ). AreFactors r.0.coefficients)
        (subtract_row target source factor work budget)
unfolding subtract_row
subtract_row-AreFactors target source factor work budget h g k =
    Ensures_then (subtract_coefficients target.coefficients source.coefficients factor work budget)
      _
      (subtract_coefficients-AreFactors target.coefficients source.coefficients factor work budget h
        g k)
      (λ r p.
        Ensures_any
          (xor_scaled_loop (resize target.bytes (length source.bytes)) source.bytes factor r.1
            budget)
          _ (λ q e. returned _ p))

pub find_coefficient-IsFactor :
    (cs : List (ℕ × ℕ)) (id c : ℕ) → AreFactors cs → find_coefficient cs id ≡ some c → IsFactor c
unfolding find_coefficient
find_coefficient-IsFactor [] id c h e = absurd (cc)
find_coefficient-IsFactor ((j, d) ∷ cs) id c (f, h) e =
    ground (arith, find_coefficient-IsFactor cs id c h)

pub remove_coefficient-AreFactors :
    (cs : List (ℕ × ℕ)) (id : ℕ) → AreFactors cs → AreFactors (remove_coefficient cs id)
unfolding remove_coefficient
remove_coefficient-AreFactors [] id h = tt
remove_coefficient-AreFactors ((j, d) ∷ cs) id (f, h) =
    ground (arith, remove_coefficient-AreFactors cs id h)
