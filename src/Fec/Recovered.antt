-- ===== src/Fec/Recovered.antt =====
-- What `reduce` of src/fec.rs recovers are values of the symbols.
use quicp.Prelude.{
  ℕ, zero, suc, ◌≡◌, refl, sym, ap, ◌∙◌, Bool-cases, inl, inr, List, [], ◌∷◌, ◌++◌, map, fail_if,
  leb, ◌==◌, ==_iff, if_of_both, length, Ensures, returned, failed, Ensures_then, Ensures_any,
}
use quicp.Fec.Field.{multiply, inverse}
use quicp.Fec.Field.Laws.{multiply_assoc, multiply-inverse, multiply-one, zero-multiply}
use quicp.Fec.Xor.{bit_xor-zero}
use quicp.Fec.Rows.{Row}
use quicp.Fec.Reduce.{
  reduce_loop, any_nonzero, solved_bytes, row_result, collect, insert_sorted, sort_by_id,
  conflicting, dedup_after, dedup, reduce,
}
use quicp.Fec.Factors.{AreFactors, IsFactor}
use quicp.Fec.Solutions.{Symbols, AreBytes, byte_at, Solves}
use quicp.Fec.Soundness.{reduce_loop-AreSolved, AreSolved, IsValue, AreValues}

module _ (s : Symbols) (bytes : AreBytes s) where
  AreValues-append :
      (xs ys : List (ℕ × List ℕ)) → AreValues s xs → AreValues s ys → AreValues s (xs ++ ys)
  AreValues-append [] ys h k = k
  AreValues-append ((id, b) ∷ xs) ys (p, h) k = (p, AreValues-append xs ys h k)

  byte_at-map :
      (f : ℕ → ℕ) (bs : List ℕ) (k : ℕ) → f 0 ≡ 0 → byte_at (map f bs) k ≡ f (byte_at bs k)
  byte_at-map f [] k z = sym z
  byte_at-map f (b ∷ bs) zero z = refl
  byte_at-map f (b ∷ bs) (suc k) z = byte_at-map f bs k z

  -- One coefficient is divided out.
  solved_bytes-IsValue :
      (id c : ℕ) (bs : List ℕ)
      → IsFactor c
      → Solves s ((id, c) ∷ []) bs
      → IsValue s id (solved_bytes c bs)
  unfolding solved_bytes
  solved_bytes-IsValue id c bs f h =
      if_of_both (IsValue s id) (c == 1)
        (λ e k.
          sym (h.at_byte k)
          ∙ bit_xor-zero (multiply (s id k) c)
          ∙ ap (multiply (s id k)) ((==_iff c 1).0 e)
          ∙ multiply-one (s id k))
        (λ e k.
          byte_at-map (λ b. multiply b (inverse c)) bs k (zero-multiply (inverse c))
          ∙ ap (λ b. multiply b (inverse c))
              (sym (h.at_byte k) ∙ bit_xor-zero (multiply (s id k) c))
          ∙ multiply_assoc (s id k) c (inverse c) (bytes id k)
          ∙ ap (multiply (s id k)) (multiply-inverse c f.0 f.1)
          ∙ multiply-one (s id k))

  row_result-AreValues :
      (cs : List (ℕ × ℕ)) (bs : List ℕ)
      → AreFactors cs
      → Solves s cs bs
      → Ensures (AreValues s) (row_result cs bs)
  unfolding row_result
  row_result-AreValues [] bs f h =
      if_of_both (Ensures (AreValues s)) (any_nonzero bs) (λ e. failed _) (λ e. returned _ tt)
  row_result-AreValues ((id, c) ∷ []) bs (f, fs) h =
      returned _ (solved_bytes-IsValue id c bs f h, tt)
  row_result-AreValues (p ∷ q ∷ cs) bs f h = returned _ tt

  collect-AreValues : (rows : List Row) → AreSolved s rows → Ensures (AreValues s) (collect rows)
  unfolding collect
  collect-AreValues [] h = returned _ tt
  collect-AreValues (row ∷ rows) (p, h) =
      Ensures_then (row_result row.coefficients row.bytes) _
        (row_result-AreValues row.coefficients row.bytes p.factors p.solved)
        (λ r q.
          Ensures_then (collect rows) _ (collect-AreValues rows h)
            (λ t u. returned _ (AreValues-append r t q u)))

  insert_sorted-AreValues :
      (id : ℕ) (b : List ℕ) (r : List (ℕ × List ℕ))
      → IsValue s id b
      → AreValues s r
      → AreValues s (insert_sorted (id, b) r)
  unfolding insert_sorted
  insert_sorted-AreValues id b [] p h = (p, tt)
  insert_sorted-AreValues id b ((j, c) ∷ r) p (q, h) =
      if_of_both (AreValues s) (leb id j) (λ e. (p, (q, h)))
        (λ e. (q, insert_sorted-AreValues id b r p h))

  sort_by_id-AreValues : (r : List (ℕ × List ℕ)) → AreValues s r → AreValues s (sort_by_id r)
  unfolding sort_by_id
  sort_by_id-AreValues [] h = tt
  sort_by_id-AreValues ((id, b) ∷ r) (p, h) =
      insert_sorted-AreValues id b (sort_by_id r) p (sort_by_id-AreValues r h)

  dedup_after-AreValues :
      (id : ℕ) (r : List (ℕ × List ℕ)) → AreValues s r → AreValues s (dedup_after id r)
  unfolding dedup_after
  dedup_after-AreValues id [] h = tt
  dedup_after-AreValues id ((j, b) ∷ r) (p, h) = elim (Bool-cases (j == id)) [
    | inl e ↦ rw (e, dedup_after) (dedup_after-AreValues id r h)
    | inr e ↦ rw (e, dedup_after) (p, dedup_after-AreValues j r h)
  ]

  dedup-AreValues : (r : List (ℕ × List ℕ)) → AreValues s r → AreValues s (dedup r)
  unfolding dedup
  dedup-AreValues [] h = tt
  dedup-AreValues ((j, b) ∷ r) (p, h) = (p, dedup_after-AreValues j r h)

  abbrev pub Reduced : List Row × List (ℕ × List ℕ) → Type 0
  Reduced r = AreSolved s r.0 × AreValues s r.1

  pub reduce-Reduced :
      (rows : List Row) (budget : ℕ) → AreSolved s rows → Ensures Reduced (reduce rows budget)
  unfolding reduce
  reduce-Reduced rows budget h =
      Ensures_then (reduce_loop (length rows) [] rows 0 budget) _
        (reduce_loop-AreSolved s bytes (length rows) [] rows 0 budget tt h)
        (λ r p. Ensures_then (collect r) _ (collect-AreValues r p) (λ t u.
          Ensures_any (fail_if (conflicting (sort_by_id t)) _) _
            (λ v e. returned _ (p, dedup-AreValues (sort_by_id t) (sort_by_id-AreValues t u)))))
