-- ===== src/Fec/Soundness.antt =====
-- The elimination of `reduce` in src/fec.rs keeps the solutions of the rows.
use quicp.Prelude.{
  ℕ, zero, suc, ◌≡◌, inl, inr, Option-cases, none, some, List, [], ◌∷◌, ◌++◌, get_elem?, set,
  Ensures, returned, Ensures_then, Ensures_of, Ensures-eq_ok,
}
use mathlib.Core.Path.{subst}
use quicp.Fec.Field.{inverse}
use quicp.Fec.Rows.{Row, scale_row, subtract_row, find_coefficient}
use quicp.Fec.Reduce.{candidate, swap_first, cancel, eliminate, pivot_row, pivot_turn, reduce_loop}
use quicp.Fec.Factors.{
  AreFactors, IsFactor, scale_row-AreFactors, subtract_row-AreFactors, inverse-IsFactor,
  find_coefficient-IsFactor,
}
use quicp.Fec.Solutions.{Symbols, AreBytes, byte_at, Solves}
use quicp.Fec.RowSolutions.{scale_row-Solves, subtract_row-Solves}

-- The symbols solve a row whose coefficients can be divided by.
pub record IsSolved (s : Symbols) (row : Row) : Type 0 where
  pub factors : AreFactors row.coefficients
  pub solved : Solves s row.coefficients row.bytes

abbrev pub AreSolved : Symbols → List Row → Type 0
AreSolved s [] = Unit {0}
AreSolved s (row ∷ rows) = IsSolved s row × AreSolved s rows

-- The bytes are those of a symbol.
abbrev pub IsValue : Symbols → ℕ → List ℕ → Type 0
IsValue s id bytes = (k : ℕ) → byte_at bytes k ≡ s id k

abbrev pub AreValues : Symbols → List (ℕ × List ℕ) → Type 0
AreValues s [] = Unit {0}
AreValues s ((id, bytes) ∷ r) = IsValue s id bytes × AreValues s r

module _ (s : Symbols) where
  pub AreSolved-append :
      (rows more : List Row) → AreSolved s rows → AreSolved s more → AreSolved s (rows ++ more)
  AreSolved-append [] more h k = k
  AreSolved-append (row ∷ rows) more (p, h) k = (p, AreSolved-append rows more h k)

  AreSolved-get_elem? :
      (rows : List Row) (k : ℕ) (row : Row)
      → AreSolved s rows
      → get_elem? rows k ≡ some row
      → IsSolved s row
  AreSolved-get_elem? [] k row h e = absurd (cc)
  AreSolved-get_elem? (r ∷ rows) zero row (p, h) e =
      subst (IsSolved s) (let same : r ≡ row = cc in same) p
  AreSolved-get_elem? (r ∷ rows) (suc k) row (p, h) e = AreSolved-get_elem? rows k row h e

  AreSolved-set :
      (rows : List Row) (k : ℕ) (row : Row)
      → AreSolved s rows
      → IsSolved s row
      → AreSolved s (set rows k row)
  AreSolved-set [] k row h p = tt
  AreSolved-set (r ∷ rows) zero row (q, h) p = (p, h)
  AreSolved-set (r ∷ rows) (suc k) row (q, h) p = (q, AreSolved-set rows k row h p)

  swap_first-AreSolved :
      (rows : List Row) (k : ℕ) → AreSolved s rows → AreSolved s (swap_first rows k)
  unfolding swap_first
  swap_first-AreSolved [] k h = tt
  swap_first-AreSolved (r ∷ rows) zero h = h
  swap_first-AreSolved (r ∷ rows) (suc k) (p, h) = elim (Option-cases (get_elem? rows k)) [
    | inl e ↦ rw (e, swap_first) (p, h)
    | inr (c, e) ↦ rw (e, swap_first) (AreSolved-get_elem? rows k c h e, AreSolved-set rows k r h p)
  ]

  module _ (bytes : AreBytes s) where
    cancel-IsSolved :
        (pivot_id : ℕ) (source row : Row) (work budget : ℕ)
        → IsSolved s source
        → IsSolved s row
        → Ensures
            (λ (r : Row × ℕ). IsSolved s r.0)
            (cancel pivot_id source row (find_coefficient row.coefficients pivot_id) work budget)
    unfolding cancel
    cancel-IsSolved pivot_id source row work budget g h =
        elim (Option-cases (find_coefficient row.coefficients pivot_id)) [
          | inl e ↦ rw e (returned _ h)
          | inr (f, e) ↦ rw e (
              Ensures_of (subtract_row row source f work budget) (λ r ran. record {
                factors =
                    Ensures-eq_ok
                      (subtract_row-AreFactors row source f work budget h.factors g.factors
                        (find_coefficient-IsFactor row.coefficients pivot_id f h.factors e))
                      ran;
                solved =
                    Ensures-eq_ok
                      (subtract_row-Solves s bytes row source f work budget h.solved g.solved) ran;
              }))
        ]

    eliminate-AreSolved :
        (pivot_id : ℕ) (source : Row) (rows : List Row) (work budget : ℕ)
        → IsSolved s source
        → AreSolved s rows
        → Ensures
            (λ (r : List Row × ℕ). AreSolved s r.0)
            (eliminate pivot_id source rows work budget)
    unfolding eliminate
    eliminate-AreSolved pivot_id source [] work budget g h = returned _ tt
    eliminate-AreSolved pivot_id source (row ∷ rows) work budget g (p, h) =
        Ensures_then
          (cancel pivot_id source row (find_coefficient row.coefficients pivot_id) work budget) _
          (cancel-IsSolved pivot_id source row work budget g p)
          (λ r q.
            Ensures_then (eliminate pivot_id source rows r.1 budget) _
              (eliminate-AreSolved pivot_id source rows r.1 budget g h) (λ t u. returned _ (q, u)))

    scale_row-IsSolved :
        (row : Row) (factor work budget : ℕ)
        → IsSolved s row
        → IsFactor factor
        → Ensures (λ (r : Row × ℕ). IsSolved s r.0) (scale_row row factor work budget)
    scale_row-IsSolved row factor work budget h k =
        Ensures_of (scale_row row factor work budget) (λ r ran. record {
          factors = Ensures-eq_ok (scale_row-AreFactors row factor work budget h.factors k) ran;
          solved = Ensures-eq_ok (scale_row-Solves s bytes row factor work budget h.solved) ran;
        })

    abbrev TurnSolved : List Row × List Row × ℕ → Type 0
    TurnSolved r = AreSolved s r.0 × AreSolved s r.1

    pivot_row-AreSolved :
        (cs : List (ℕ × ℕ)) (row : Row) (finished rows : List Row) (work budget : ℕ)
        → AreFactors cs
        → IsSolved s row
        → AreSolved s finished
        → AreSolved s rows
        → Ensures TurnSolved (pivot_row cs row finished rows work budget)
    unfolding pivot_row
    pivot_row-AreSolved [] row finished rows work budget f p h g =
        returned _ (AreSolved-append finished (row ∷ []) h (p, tt), g)
    pivot_row-AreSolved ((id, c) ∷ cs) row finished rows work budget (f, fs) p h g =
        Ensures_then (scale_row row (inverse c) work budget) _
          (scale_row-IsSolved row (inverse c) work budget p (inverse-IsFactor c f))
          (λ r q.
            Ensures_then (eliminate id r.0 finished r.1 budget) _
              (eliminate-AreSolved id r.0 finished r.1 budget q h)
              (λ t u.
                Ensures_then (eliminate id r.0 rows t.1 budget) _
                  (eliminate-AreSolved id r.0 rows t.1 budget q g)
                  (λ v w. returned _ (AreSolved-append t.0 (r.0 ∷ []) u (q, tt), w))))

    pivot_turn-AreSolved :
        (finished rows : List Row) (work budget : ℕ)
        → AreSolved s finished
        → AreSolved s rows
        → Ensures TurnSolved (pivot_turn finished rows work budget)
    unfolding pivot_turn
    pivot_turn-AreSolved finished [] work budget h g = returned _ (h, tt)
    pivot_turn-AreSolved finished (row ∷ rows) work budget h (p, g) =
        pivot_row-AreSolved row.coefficients row finished rows work budget p.factors p h g

    pub reduce_loop-AreSolved :
        (left : ℕ) (finished rows : List Row) (work budget : ℕ)
        → AreSolved s finished
        → AreSolved s rows
        → Ensures (AreSolved s) (reduce_loop left finished rows work budget)
    unfolding reduce_loop
    reduce_loop-AreSolved zero finished rows work budget h g =
        returned _ (AreSolved-append finished rows h g)
    reduce_loop-AreSolved (suc n) finished rows work budget h g =
        elim (Option-cases (candidate none 0 rows)) [
          | inl e ↦ rw (e, reduce_loop) (returned _ (AreSolved-append finished rows h g))
          | inr ((least, index), e) ↦
              rw (e, reduce_loop)
                (Ensures_then (pivot_turn finished (swap_first rows index) work budget) _
                  (pivot_turn-AreSolved finished (swap_first rows index) work budget h
                    (swap_first-AreSolved rows index g))
                  (λ r p. reduce_loop-AreSolved n r.0 r.1 r.2 budget p.0 p.1))
        ]

-- What is read off the reduced rows.
