-- ===== src/Fec/RowSolutions.antt =====
-- The row operations of src/fec.rs keep the solutions of the rows.
use Prim.Native.Nat.{bit_xor}
use quicp.Prelude.{
  ℕ, ◌-◌, ◌≤◌, ◌≡◌, refl, sym, ap, ◌∙◌, Bool-cases, inl, inr, some, List, [], ◌∷◌, ltb, ◌==◌,
  ==_iff, if_of_both, length, replicate, length-append, length-replicate, Ensures, returned,
  Ensures_then, Ensures_any, Ensures_mono, arith,
}
use quicp.Fec.Field.{multiply}
use quicp.Fec.Field.Laws.{
  bit_xor-multiply, multiply-bit_xor, multiply_assoc, zero-multiply, multiply-zero,
}
use quicp.Fec.Xor.{zero-bit_xor, bit_xor-zero, bit_xor_comm, bit_xor_assoc, bit_xor_cancel}
use quicp.Fec.LowDigits.{bit_xor_of_eq}
use quicp.Fec.Rows.{
  Row, spend, xor_scaled_loop, scale_coefficients, scale_bytes, scale_row, add_coefficient,
  subtract_coefficients, resize, subtract_row, find_coefficient, remove_coefficient,
}
use quicp.Fec.Solutions.{
  Symbols, AreBytes, byte_at, combination, Solves, Added, xor_scaled_loop-Added, bit_xor_right_comm,
  bit_xor_left_comm, byte_at-padded, byte_cases,
}

module _ (s : Symbols) (bytes : AreBytes s) where
  abbrev ScaledTerms : List (ℕ × ℕ) → ℕ → List (ℕ × ℕ) × ℕ → Type 0
  ScaledTerms cs factor r = (k : ℕ) → combination s r.0 k ≡ multiply (combination s cs k) factor

  scale_coefficients_lem :
      (cs : List (ℕ × ℕ)) (factor work budget : ℕ)
      → Ensures (ScaledTerms cs factor) (scale_coefficients cs factor work budget)
  unfolding scale_coefficients
  scale_coefficients_lem [] factor work budget = returned _ (λ k. sym (zero-multiply factor))
  scale_coefficients_lem ((id, c) ∷ cs) factor work budget =
      Ensures_any (spend work budget) _ (λ spent e.
        Ensures_then (scale_coefficients cs factor spent budget) _
          (scale_coefficients_lem cs factor spent budget)
          (λ r p. returned _ (λ k.
            bit_xor_of_eq (sym (multiply_assoc (s id k) c factor (bytes id k))) (p k)
            ∙ sym (bit_xor-multiply (multiply (s id k) c) (combination s cs k) factor))))

  scale_bytes_lem :
      (bs : List ℕ) (factor work budget : ℕ)
      → Ensures
          (λ (r : List ℕ × ℕ). (k : ℕ) → byte_at r.0 k ≡ multiply (byte_at bs k) factor)
          (scale_bytes bs factor work budget)
  unfolding scale_bytes
  scale_bytes_lem [] factor work budget = returned _ (λ k. sym (zero-multiply factor))
  scale_bytes_lem (b ∷ bs) factor work budget = Ensures_any (spend work budget) _ (λ spent e.
      Ensures_then (scale_bytes bs factor spent budget) _ (scale_bytes_lem bs factor spent budget)
        (λ r p. returned _ (byte_cases b bs factor r p)))

  -- Scaling a row keeps its solutions.
  pub scale_row-Solves :
      (row : Row) (factor work budget : ℕ)
      → Solves s row.coefficients row.bytes
      → Ensures
          (λ (r : Row × ℕ). Solves s r.0.coefficients r.0.bytes)
          (scale_row row factor work budget)
  unfolding scale_row
  scale_row-Solves row factor work budget h =
      Ensures_then (scale_coefficients row.coefficients factor work budget) _
        (scale_coefficients_lem row.coefficients factor work budget)
        (λ r p.
          Ensures_then (scale_bytes row.bytes factor r.1 budget) _
            (scale_bytes_lem row.bytes factor r.1 budget)
            (λ q t. returned _ (record {
              at_byte = λ k. p k ∙ ap (λ u. multiply u factor) (h.at_byte k) ∙ sym (t k);
            })))

  add_coefficient_lem :
      (cs : List (ℕ × ℕ)) (id c k : ℕ)
      → combination s (add_coefficient cs id c) k
        ≡ bit_xor (combination s cs k) (multiply (s id k) c)
  unfolding add_coefficient
  add_coefficient_lem [] id c k = bit_xor_comm (multiply (s id k) c) 0
  add_coefficient_lem ((j, d) ∷ cs) id c k =
      if_of_both
        (λ t.
          combination s t k
          ≡ bit_xor (bit_xor (multiply (s j k) d) (combination s cs k)) (multiply (s id k) c))
        (j == id)
        (λ e.
          let same : bit_xor (bit_xor (multiply (s j k) d) (combination s cs k))
                (multiply (s id k) c)
              ≡ bit_xor (multiply (s j k) (bit_xor d c)) (combination s cs k) =
            bit_xor_right_comm (multiply (s j k) d) (combination s cs k) (multiply (s id k) c)
            ∙ ap (λ u. bit_xor u (combination s cs k))
                (ap (λ i. bit_xor (multiply (s j k) d) (multiply (s i k) c))
                    (sym ((==_iff j id).0 e))
                  ∙ sym (multiply-bit_xor (s j k) d c)) in
          if_of_both
            (λ t.
              combination s t k
              ≡ bit_xor (bit_xor (multiply (s j k) d) (combination s cs k)) (multiply (s id k) c))
            (bit_xor d c == 0)
            (λ z. sym (
              same
              ∙ ap (λ u. bit_xor u (combination s cs k))
                  (ap (multiply (s j k)) ((==_iff (bit_xor d c) 0).0 z) ∙ multiply-zero (s j k))
              ∙ zero-bit_xor (combination s cs k)))
            (λ z. sym same))
        (λ e.
          if_of_both
            (λ t.
              combination s t k
              ≡ bit_xor (bit_xor (multiply (s j k) d) (combination s cs k)) (multiply (s id k) c))
            (ltb id j)
            (λ z.
              bit_xor_comm (multiply (s id k) c)
                (bit_xor (multiply (s j k) d) (combination s cs k)))
            (λ z.
              ap (bit_xor (multiply (s j k) d)) (add_coefficient_lem cs id c k)
              ∙ sym
                  (bit_xor_assoc (multiply (s j k) d) (combination s cs k) (multiply (s id k) c))))

  abbrev Subtracted : List (ℕ × ℕ) → List (ℕ × ℕ) → ℕ → List (ℕ × ℕ) × ℕ → Type 0
  Subtracted target source factor r =
      (k : ℕ)
      → combination s r.0 k
        ≡ bit_xor (combination s target k) (multiply (combination s source k) factor)

  subtract_coefficients_lem :
      (target source : List (ℕ × ℕ)) (factor work budget : ℕ)
      → Ensures
          (Subtracted target source factor)
          (subtract_coefficients target source factor work budget)
  unfolding subtract_coefficients
  subtract_coefficients_lem target [] factor work budget = returned _ (λ k. sym (
      ap (bit_xor (combination s target k)) (zero-multiply factor)
      ∙ bit_xor-zero (combination s target k)))
  subtract_coefficients_lem target ((id, c) ∷ cs) factor work budget =
      Ensures_any (spend work budget) _ (λ spent e.
        Ensures_mono
          (subtract_coefficients_lem (add_coefficient target id (multiply c factor)) cs factor spent
            budget)
          (λ r p k.
            p k
            ∙ ap (λ u. bit_xor u (multiply (combination s cs k) factor))
                (add_coefficient_lem target id (multiply c factor) k
                  ∙ ap (bit_xor (combination s target k))
                      (sym (multiply_assoc (s id k) c factor (bytes id k))))
            ∙ bit_xor_assoc (combination s target k) (multiply (multiply (s id k) c) factor)
                (multiply (combination s cs k) factor)
            ∙ ap (bit_xor (combination s target k))
                (sym (bit_xor-multiply (multiply (s id k) c) (combination s cs k) factor))))

  resize_lem : (target : List ℕ) (len k : ℕ) → byte_at (resize target len) k ≡ byte_at target k
  unfolding resize
  resize_lem target len k = byte_at-padded target (len - length target) k

  length-resize : (target : List ℕ) (len : ℕ) → len ≤ length (resize target len)
  unfolding resize
  length-resize target len = omega (
    arith,
    length-append target (replicate (len - length target) 0),
    length-replicate {A = ℕ} (len - length target) 0,
  )

  -- A row with a multiple of another taken off keeps the solutions of the two.
  pub subtract_row-Solves :
      (target source : Row) (factor work budget : ℕ)
      → Solves s target.coefficients target.bytes
      → Solves s source.coefficients source.bytes
      → Ensures
          (λ (r : Row × ℕ). Solves s r.0.coefficients r.0.bytes)
          (subtract_row target source factor work budget)
  unfolding subtract_row
  subtract_row-Solves target source factor work budget h g =
      Ensures_then
        (subtract_coefficients target.coefficients source.coefficients factor work budget) _
        (subtract_coefficients_lem target.coefficients source.coefficients factor work budget)
        (λ r p.
          Ensures_then
            (xor_scaled_loop (resize target.bytes (length source.bytes)) source.bytes factor r.1
              budget)
            _
            (xor_scaled_loop-Added (resize target.bytes (length source.bytes)) source.bytes factor
              r.1 budget (length-resize target.bytes (length source.bytes)))
            (λ q t. returned _ (record {
              at_byte = λ k.
                  p k
                  ∙ bit_xor_of_eq
                      (h.at_byte k ∙ sym (resize_lem target.bytes (length source.bytes) k))
                      (ap (λ u. multiply u factor) (g.at_byte k))
                  ∙ sym (t.sum_at k);
            })))

  -- A coefficient that is found, and the others.
  pub remove_coefficient_lem :
      (cs : List (ℕ × ℕ)) (id c k : ℕ)
      → find_coefficient cs id ≡ some c
      → combination s cs k
        ≡ bit_xor (multiply (s id k) c) (combination s (remove_coefficient cs id) k)
  unfolding find_coefficient remove_coefficient
  remove_coefficient_lem [] id c k h = absurd (cc)
  remove_coefficient_lem ((j, d) ∷ cs) id c k h = elim (Bool-cases (j == id)) [
    | inl e ↦
        let value : d ≡ c = ground arith in
        rw e (bit_xor_of_eq (cc (value, (==_iff j id).0 e)) refl)
    | inr e ↦
        let found : find_coefficient cs id ≡ some c = ground arith in
        rw e (
          ap (bit_xor (multiply (s j k) d)) (remove_coefficient_lem cs id c k found)
          ∙ bit_xor_left_comm (multiply (s j k) d) (multiply (s id k) c)
              (combination s (remove_coefficient cs id) k))
  ]

  -- A symbol that is taken out of an equation at its value.
  pub resolved-Solves :
      (cs : List (ℕ × ℕ)) (bs source : List ℕ) (id c : ℕ) (r : List ℕ × ℕ)
      → Solves s cs bs
      → find_coefficient cs id ≡ some c
      → ((k : ℕ) → byte_at source k ≡ s id k)
      → Added bs source c r
      → Solves s (remove_coefficient cs id) r.0
  resolved-Solves cs bs source id c r h found value added = record {
    at_byte = λ k. sym (
        added.sum_at k
        ∙ bit_xor_of_eq (sym (h.at_byte k)) (ap (λ u. multiply u c) (value k))
        ∙ ap (λ u. bit_xor u (multiply (s id k) c)) (remove_coefficient_lem cs id c k found)
        ∙ bit_xor_comm (bit_xor (multiply (s id k) c) (combination s (remove_coefficient cs id) k))
            (multiply (s id k) c)
        ∙ bit_xor_cancel (multiply (s id k) c) (combination s (remove_coefficient cs id) k));
  }
