-- ===== src/Fec/Single.antt =====
-- Enough work is given: `reduce` of src/fec.rs solves an equation with one unknown symbol.
use quicp.Prelude.{
  ℕ, suc, ◌+◌, ◌^◌, ◌≤◌, ◌<◌, ◌≡◌, refl, ap, List, [], ◌∷◌, map, ok, length, length-map,
  Ensures-eq_ok, arith,
}
use quicp.Fec.Field.{multiply, inverse}
use quicp.Fec.Field.Laws.{multiply-inverse}
use quicp.Fec.Rows.{Row, spend, scale_coefficients, scale_bytes, scale_row}
use quicp.Fec.Reduce.{reduce, reduce_loop, pivot_row, eliminate, solved_bytes}
use quicp.Fec.Solutions.{Symbols, AreBytes}
use quicp.Fec.Soundness.{IsSolved, IsValue}
use quicp.Fec.Recovered.{reduce-Reduced}

spend_lem : (work budget : ℕ) → work < budget → budget < 2 ^ 64 → spend work budget ≡ ok (work + 1)
unfolding spend
spend_lem work budget h k = ground arith

scale_bytes_lem :
    (bs : List ℕ) (factor work budget : ℕ)
    → work + length bs ≤ budget
    → budget < 2 ^ 64
    → scale_bytes bs factor work budget ≡ ok (map (λ b. multiply b factor) bs, work + length bs)
unfolding scale_bytes
scale_bytes_lem [] factor work budget h k =
    ap (λ w. ok ([], w)) (let e : work ≡ work + 0 = omega arith in e)
scale_bytes_lem (b ∷ bs) factor work budget h k = rw (spend_lem work budget (omega (arith, h)) k) (
    rw (scale_bytes_lem bs factor (work + 1) budget (omega (arith, h)) k) (
      ap (λ w. ok (multiply b factor ∷ map (λ b. multiply b factor) bs, w))
        (let e : work + 1 + length bs ≡ work + suc (length bs) = omega arith in e)))

-- A row with one coefficient.
abbrev pub single : (id c coefficient_capacity : ℕ) → List ℕ → (byte_capacity : ℕ) → Row
single id c coefficient_capacity bytes byte_capacity = record {
  coefficients = (id, c) ∷ [];
  coefficient_capacity = coefficient_capacity;
  bytes = bytes;
  byte_capacity = byte_capacity;
}

abbrev scaled : (c : ℕ) → List ℕ → List ℕ
scaled c bytes = map (λ b. multiply b (inverse c)) bytes

module _ (id c n m : ℕ) (bytes : List ℕ) (budget : ℕ) (enough : 1 + length bytes ≤ budget)
    (small : budget < 2 ^ 64) where
  scale_row_lem :
      scale_row (single id c n bytes m) (inverse c) 0 budget
      ≡ ok (single id (multiply c (inverse c)) n (scaled c bytes) m, 1 + length bytes)
  unfolding scale_row scale_coefficients
  scale_row_lem =
      rw (spend_lem 0 budget (omega (arith, enough)) small)
        (rw (scale_bytes_lem bytes (inverse c) 1 budget enough small) refl)

  reduce_row_lem :
      reduce_loop 1 [] (single id c n bytes m ∷ []) 0 budget
      ≡ ok (single id (multiply c (inverse c)) n (scaled c bytes) m ∷ [])
  unfolding reduce_loop pivot_row eliminate
  reduce_row_lem = rw scale_row_lem refl

  reduce_lem :
      multiply c (inverse c) ≡ 1
      → reduce (single id c n bytes m ∷ []) budget
        ≡ ok (
          single id (multiply c (inverse c)) n (scaled c bytes) m ∷ [],
          (id, scaled c bytes) ∷ [],
        )
  unfolding reduce solved_bytes
  reduce_lem e = rw reduce_row_lem (rw e refl)

  -- The symbols are bytes that solve a row whose only coefficient has an inverse, and the budget
  -- covers the coefficient and each byte. Then `reduce` returns, and what it recovers is one source,
  -- that of the coefficient's symbol: it is as long as the row and its bytes are the symbol's.
  pub reduce-single :
      (s : Symbols)
      → AreBytes s
      → IsSolved s (single id c n bytes m)
      → (r : Row) × (found : List ℕ) × (reduce (single id c n bytes m ∷ []) budget
          ≡ ok (r ∷ [], (id, found) ∷ []))
        × (length found ≡ length bytes)
        × IsValue s id found
  reduce-single s b p =
      let ran = reduce_lem (multiply-inverse c p.factors.0.0 p.factors.0.1) in
      (
        single id (multiply c (inverse c)) n (scaled c bytes) m,
        scaled c bytes,
        ran,
        length-map bytes (λ b. multiply b (inverse c)),
        (Ensures-eq_ok (reduce-Reduced s b (single id c n bytes m ∷ []) budget (p, tt)) ran).1.0,
      )
