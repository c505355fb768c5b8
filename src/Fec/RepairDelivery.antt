-- ===== src/Fec/RepairDelivery.antt =====
-- A repair symbol of src/fec.rs leaves a true decoder and gives true sources; so does a commit.
use quicp.Prelude.{
  same_bytes, ℕ, ◌-◌, ◌≡◌, sym, ap, ◌∙◌, Bool, not, ◌||◌, Option, none, some, List, [], ◌∷◌, ◌++◌,
  ok, map_err, fail_if, ltb, ◌==◌, if_of_both, length, Ensures, returned, failed, Ensures_then,
  Ensures_any,
}
use mathlib.Core.List.{append-nil}
use quicp.Recovery.Budget.{MemoryBudget, reserve, grow, transfer, release}
use quicp.Fec.{memory_capacity, work_budget, invalid_span, invalid_symbol_size, row_capacity}
use quicp.Fec.Rows.{Row}
use quicp.Fec.Reduce.{sort_by_id, any_nonzero}
use quicp.Fec.Encoder.{repair_symbol, max_repair_span}
use quicp.Fec.Memory.{
  new_batch, shrink_batch, clone_rows_bounded, matrix_coefficient_count, scratch_memory_bytes,
  row_storage_bytes, as_memory,
}
use quicp.Fec.Decoder.{
  Decoder, KnownSource, SourceBytes, find_known, normalize_source_storage, evicted_known_bytes,
}
use quicp.Fec.Operations.{
  solve, span_loop, repair_work, add_row, finish_repair, add_repair, commit_known,
  commit_recovered_precharged,
}
use quicp.Fec.Factors.{AreFactors}
use quicp.Fec.Solutions.{Symbols, AreBytes, combination, Solves}
use quicp.Fec.Soundness.{IsSolved, IsValue, AreSolved-append}
use quicp.Fec.Coding.{
  span_terms, AreSent, repair_symbol-Solves, sort_by_id-combination, sort_by_id-AreFactors,
  Accounts, span_loop-Accounts,
}
use quicp.Fec.Faithful.{
  IsFaithful, clone_rows_bounded-AreSolved, insert_known-AreKnown, insert_known-rows,
  normalize_source_storage-IsValue, solve-Solved,
}
use quicp.Fec.Delivery.{Delivers, recovered_items, new_batch-items, shrink_batch-items}

module _ (s : Symbols) (bytes : AreBytes s) where
  add_row-Delivers :
      (d : Decoder) (span : ℕ) (row : Row) (scratch work budget : ℕ) (budget1 : MemoryBudget)
      → IsFaithful s d
      → IsSolved s row
      → Ensures (Delivers s bytes) (add_row d span row scratch work budget budget1)
  unfolding add_row
  add_row-Delivers d span row scratch work budget budget1 f p =
      Ensures_then (clone_rows_bounded d.rows 1 span d.max_symbol_bytes) _
        (clone_rows_bounded-AreSolved s d.rows 1 span d.max_symbol_bytes f.solved_rows)
        (λ copies q.
          Ensures_then (solve d (copies.0 ++ row ∷ []) work budget) _
            (solve-Solved s bytes d (copies.0 ++ row ∷ []) work budget
              (AreSolved-append s copies.0 (row ∷ []) q (p, tt)))
            (λ u z. Ensures_any (row_storage_bytes d.layout copies.1 u.0) _ (λ next _.
              Ensures_then (new_batch d.layout budget1 u.1 scratch (next - d.row_bytes)) _
                (new_batch-items d.layout budget1 u.1 scratch (next - d.row_bytes))
                (λ b i.
                  Ensures_then (shrink_batch (release b.1 (d.row_bytes - next)) b.0) _
                    (shrink_batch-items (release b.1 (d.row_bytes - next)) b.0)
                    (λ w j. returned _ (
                      record { known_values = f.known_values; solved_rows = z.0 },
                      recovered_items s bytes (j ∙ i) z.1,
                    ))))))

  finish_repair-Delivers :
      (d : Decoder) (span capacity : ℕ) (cs : List (ℕ × ℕ)) (bs : List ℕ) (scratch work budget : ℕ)
      (budget1 : MemoryBudget)
      → IsFaithful s d
      → AreFactors cs
      → Solves s cs bs
      → Ensures (Delivers s bytes) (finish_repair d span capacity cs bs scratch work budget budget1)
  finish_repair-Delivers d span capacity [] bs scratch work budget budget1 f fs h =
      if_of_both (Ensures (Delivers s bytes)) (any_nonzero bs) (λ _. failed _)
        (λ _. returned _ (f, tt))
  finish_repair-Delivers d span capacity (c ∷ cs) bs scratch work budget budget1 f fs h =
      add_row-Delivers d span
        (record {
          coefficients = c ∷ cs;
          coefficient_capacity = capacity;
          bytes = bs;
          byte_capacity = d.max_symbol_bytes;
        })
        scratch work budget budget1 f (record { factors = fs; solved = h })

  sorted-Solves : (r : List (ℕ × ℕ) × List ℕ × ℕ) → Accounts s [] r → Solves s (sort_by_id r.0) r.1
  sorted-Solves r p = record {
    at_byte = λ k.
        sort_by_id-combination s r.0 k
        ∙ ap (λ t. combination s t k) (sym (append-nil r.0))
        ∙ p.0.at_byte k;
  }

  repair_row-Delivers :
      (d : Decoder) (first span repair_id seed : ℕ) (coded : List ℕ) (budget : ℕ)
      → IsFaithful s d
      → Solves s (span_terms first repair_id seed span 0) coded
      → Ensures (Delivers s bytes) (add_repair d first span repair_id seed coded budget)
  unfolding add_repair
  repair_row-Delivers d first span repair_id seed coded budget f h =
      Ensures_any (fail_if (span == 0 || ltb max_repair_span span) invalid_span) _ (λ _ _.
        Ensures_any
          (fail_if (length coded == 0 || ltb d.max_symbol_bytes (length coded)) invalid_symbol_size)
          _
          (λ _ _. Ensures_any (fail_if (length d.rows == d.max_rows) row_capacity) _ (λ _ _.
            Ensures_any (repair_work d.rows coded span) _ (λ work _.
              Ensures_any (fail_if (ltb budget work) work_budget) _ (λ _ _.
                Ensures_any (scratch_memory_bytes d.layout d.rows d.max_symbol_bytes 1 span 0) _
                  (λ scratch_bytes _.
                    Ensures_any (map_err as_memory (reserve d.memory_budget scratch_bytes)) _
                      (λ m _. Ensures_any (matrix_coefficient_count d.rows span) _ (λ capacity _.
                        Ensures_then
                          (span_loop d.known first repair_id seed span 0 [] coded work budget) _
                          (span_loop-Accounts s d.known f.known_values first repair_id seed span 0
                            [] coded work budget tt h)
                          (λ r p.
                            finish_repair-Delivers d span capacity (sort_by_id r.0) r.1 m.0 r.2
                              budget m.1 f (sort_by_id-AreFactors r.0 p.1)
                              (sorted-Solves r p))))))))))

  -- The symbols are bytes, the decoder holds what is true of them, and the coded bytes are what
  -- `repair_symbol` makes of the symbols of the span. Then `add_repair`, if it succeeds, leaves a
  -- decoder that holds what is true of them, and every source that it recovers is, up to zeros at
  -- the end, the symbol with its id.
  pub add_repair-Delivers :
      (d : Decoder) (first repair_id seed : ℕ) (sources : List (List ℕ)) (coded : List ℕ)
      (budget : ℕ)
      → IsFaithful s d
      → AreSent s first 0 sources
      → repair_symbol first repair_id seed sources ≡ ok coded
      → Ensures (Delivers s bytes) (add_repair d first (length sources) repair_id seed coded budget)
  add_repair-Delivers d first repair_id seed sources coded budget f sent made =
      repair_row-Delivers d first (length sources) repair_id seed coded budget f
        (repair_symbol-Solves s first repair_id seed sources coded sent made)

  commit_known-IsFaithful :
      (existing : Option KnownSource) (d : Decoder) (id : ℕ) (source : SourceBytes) (charge : ℕ)
      → IsFaithful s d
      → IsValue s id source.bytes
      → Ensures (λ (r : Decoder × ℕ). IsFaithful s r.0) (commit_known existing d id source charge)
  commit_known-IsFaithful (some existing) d id source charge f v =
      if_of_both (Ensures (λ (r : Decoder × ℕ). IsFaithful s r.0))
        (same_bytes existing.bytes source.bytes) (λ _. returned _ f) (λ _. failed _)
  commit_known-IsFaithful none d id source charge f v =
      let normal : KnownSource = normalize_source_storage id source in
      Ensures_any (map_err as_memory (grow d.memory_budget charge normal.retained_bytes)) _ (λ g _.
        Ensures_any (map_err as_memory (transfer g.0 normal.retained_bytes)) _ (λ t _.
          let charged : Decoder = record d { memory_budget = g.1 } in
          returned _ (record {
            known_values =
                insert_known-AreKnown s charged normal (evicted_known_bytes d) f.known_values
                  (normalize_source_storage-IsValue s id source v);
            solved_rows = insert_known-rows s charged normal (evicted_known_bytes d) f.solved_rows;
          })))

  pub commit_recovered_precharged-IsFaithful :
      (d : Decoder) (id : ℕ) (source : SourceBytes) (charge : ℕ) (belongs : Bool)
      → IsFaithful s d
      → IsValue s id source.bytes
      → Ensures
          (λ (r : Decoder × ℕ). IsFaithful s r.0)
          (commit_recovered_precharged d id source charge belongs)
  unfolding commit_recovered_precharged
  commit_recovered_precharged-IsFaithful d id source charge belongs f v =
      Ensures_any
        (fail_if (length source.bytes == 0 || ltb d.max_symbol_bytes (length source.bytes))
          invalid_symbol_size)
        _
        (λ _ _.
          Ensures_any (fail_if (not belongs || ltb charge (length source.bytes)) memory_capacity) _
            (λ _ _. commit_known-IsFaithful (find_known d.known id) d id source charge f v))
