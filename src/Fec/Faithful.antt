-- ===== src/Fec/Faithful.antt =====
-- A decoder of src/fec.rs that is given the symbols of one sender recovers only those symbols.
use quicp.Prelude.{
  ℕ, zero, suc, ◌-◌, ◌≡◌, refl, sym, ◌∙◌, false, Bool-cases, not, Option-cases, inl, inr, List, [],
  ◌∷◌, ◌++◌, Result, map_err, fail_if, ltb, ◌==◌, if_of_both, length, take, drop, Ensures, returned,
  failed, Ensures_then, Ensures_any, arith,
}
use quicp.Wire.Source.{
  SourceDatagram, decode_source_inner, decode_source_padded, max_source_records,
}
use quicp.Wire.Source
use quicp.Fec.{contradictory_repair, memory_capacity, checked_add}
use quicp.Fec.Rows.{Row, xor_scaled, find_coefficient}
use quicp.Fec.Reduce.{reduce}
use quicp.Fec.Memory.{RecoveredSource, clone_rows_bounded, clone_rows, matrix_coefficient_count}
use quicp.Fec.Decoder.{
  Decoder, KnownSource, SourceBytes, normalize_source_storage, evict, insert_known,
}
use quicp.Fec.Operations.{
  canonical_item, canonical_recovered, validate_recovered, retain_open, resolve, substitute, solve,
}
use quicp.Fec.Factors.{remove_coefficient-AreFactors}
use quicp.Fec.Solutions.{Symbols, AreBytes, byte_at, xor_scaled-Added}
use quicp.Fec.RowSolutions.{resolved-Solves}
use quicp.Fec.Soundness.{IsSolved, AreSolved, IsValue, AreValues}
use quicp.Fec.Recovered.{reduce-Reduced}
use quicp.Fec.Coding.{AreKnown}

-- What the decoder holds is true of the symbols.
pub record IsFaithful (s : Symbols) (d : Decoder) : Type 0 where
  pub known_values : AreKnown s d.known
  pub solved_rows : AreSolved s d.rows

abbrev pub AreRecovered : Symbols → List RecoveredSource → Type 0
AreRecovered s [] = Unit {0}
AreRecovered s (item ∷ items) = IsValue s item.symbol_id item.bytes × AreRecovered s items

pub Ensures-map_err :
    {A E F : Type 0} {P : A → Type 0} {m : Result A E} (f : E → F)
    → Ensures P m
    → Ensures P (map_err f m)
Ensures-map_err f (returned a p) = returned a p
Ensures-map_err f (failed e) = failed (f e)

decode_source_padded-zeros :
    (source : List ℕ) (max_records max_symbol_bytes : ℕ)
    → Ensures
        (λ (r : SourceDatagram × ℕ). Source.any_nonzero (drop r.1 source) ≡ false)
        (decode_source_padded source max_records max_symbol_bytes)
unfolding decode_source_padded
decode_source_padded-zeros source max_records max_symbol_bytes =
    Ensures_any (decode_source_inner source max_records max_symbol_bytes) _ (λ r e.
      if_of_both
        (Ensures (λ (r : SourceDatagram × ℕ). Source.any_nonzero (drop r.1 source) ≡ false))
        (Source.any_nonzero (drop r.1 source)) (λ z. failed _) (λ z. returned r z))

zeros_at : (bs : List ℕ) (k : ℕ) → Source.any_nonzero bs ≡ false → byte_at bs k ≡ 0
zeros_at [] k h = refl
zeros_at (b ∷ bs) zero h = ground arith
zeros_at (b ∷ bs) (suc k) h = zeros_at bs k (ground arith)

byte_at-take :
    (n : ℕ) (bs : List ℕ) (k : ℕ)
    → Source.any_nonzero (drop n bs) ≡ false
    → byte_at (take n bs) k ≡ byte_at bs k
byte_at-take zero bs k h = sym (zeros_at bs k h)
byte_at-take (suc n) [] k h = refl
byte_at-take (suc n) (b ∷ bs) zero h = refl
byte_at-take (suc n) (b ∷ bs) (suc k) h = byte_at-take n bs k h

module _ (s : Symbols) where
  canonical_item-IsValue :
      (max_symbol_bytes id : ℕ) (source : List ℕ)
      → IsValue s id source
      → Ensures
          (λ (item : RecoveredSource). IsValue s item.symbol_id item.bytes)
          (canonical_item max_symbol_bytes id source)
  unfolding canonical_item
  canonical_item-IsValue max_symbol_bytes id source h =
      Ensures_then
        (map_err (λ e. contradictory_repair)
          (decode_source_padded source max_source_records max_symbol_bytes))
        _
        (Ensures-map_err (λ e. contradictory_repair)
          (decode_source_padded-zeros source max_source_records max_symbol_bytes))
        (λ r z.
          Ensures_any (fail_if (not (r.0.symbol_id == id)) contradictory_repair) _
            (λ u e. returned _ (λ k. byte_at-take r.1 source k z ∙ h k)))

  canonical_recovered-AreRecovered :
      (found : List (ℕ × List ℕ)) (max_symbol_bytes : ℕ)
      → AreValues s found
      → Ensures (AreRecovered s) (canonical_recovered found max_symbol_bytes)
  unfolding canonical_recovered
  canonical_recovered-AreRecovered [] max_symbol_bytes h = returned _ tt
  canonical_recovered-AreRecovered ((id, source) ∷ found) max_symbol_bytes (p, h) =
      Ensures_then (canonical_item max_symbol_bytes id source) _
        (canonical_item-IsValue max_symbol_bytes id source p)
        (λ r q.
          Ensures_then (canonical_recovered found max_symbol_bytes) _
            (canonical_recovered-AreRecovered found max_symbol_bytes h) (λ t u. returned _ (q, u)))

  clone_rows-AreSolved :
      (c b : ℕ) (rows : List Row) → AreSolved s rows → AreSolved s (clone_rows c b rows)
  clone_rows-AreSolved c b [] h = tt
  clone_rows-AreSolved c b (row ∷ rows) (p, h) =
      (record { factors = p.factors; solved = p.solved }, clone_rows-AreSolved c b rows h)

  pub clone_rows_bounded-AreSolved :
      (rows : List Row) (a b c : ℕ)
      → AreSolved s rows
      → Ensures (λ (r : List Row × ℕ). AreSolved s r.0) (clone_rows_bounded rows a b c)
  unfolding clone_rows_bounded
  clone_rows_bounded-AreSolved rows a b c h =
      Ensures_any (matrix_coefficient_count rows b) _ (λ count e.
        Ensures_any (checked_add memory_capacity (length rows) a) _
          (λ capacity f. returned _ (clone_rows-AreSolved count c rows h)))

  retain_open-AreSolved : (rows : List Row) → AreSolved s rows → AreSolved s (retain_open rows)
  unfolding retain_open
  retain_open-AreSolved [] h = tt
  retain_open-AreSolved (row ∷ rows) (p, h) =
      if_of_both (AreSolved s) (ltb 1 (length row.coefficients))
        (λ e. (p, retain_open-AreSolved rows h)) (λ e. retain_open-AreSolved rows h)

  evict-AreKnown :
      (max_symbols : ℕ) (known : List KnownSource) (ids : List ℕ)
      → AreKnown s known
      → AreKnown s (evict max_symbols known ids).0
  unfolding evict
  evict-AreKnown max_symbols [] ids h = tt
  evict-AreKnown max_symbols (k ∷ known) ids (p, h) =
      elim (Bool-cases (ltb max_symbols (length (k ∷ known)))) [
        | inl e ↦ rw (e, evict) (evict-AreKnown max_symbols known _ h)
        | inr e ↦ rw (e, evict) (p, h)
      ]

  pub AreKnown-append :
      (xs : List KnownSource) (k : KnownSource)
      → AreKnown s xs
      → IsValue s k.symbol_id k.bytes
      → AreKnown s (xs ++ k ∷ [])
  AreKnown-append [] k h p = (p, tt)
  AreKnown-append (x ∷ xs) k (q, h) p = (q, AreKnown-append xs k h p)

  pub insert_known-AreKnown :
      (d : Decoder) (source : KnownSource) (released : ℕ)
      → AreKnown s d.known
      → IsValue s source.symbol_id source.bytes
      → AreKnown s (insert_known d source released).known
  unfolding insert_known
  insert_known-AreKnown d source released h p =
      evict-AreKnown d.max_symbols (d.known ++ source ∷ []) _ (AreKnown-append d.known source h p)

  pub insert_known-rows :
      (d : Decoder) (source : KnownSource) (released : ℕ)
      → AreSolved s d.rows
      → AreSolved s (insert_known d source released).rows
  unfolding insert_known
  insert_known-rows d source released h = h

  pub normalize_source_storage-IsValue :
      (id : ℕ) (source : SourceBytes)
      → IsValue s id source.bytes
      → IsValue s
          (normalize_source_storage id source).symbol_id
          (normalize_source_storage id source).bytes
  unfolding normalize_source_storage
  normalize_source_storage-IsValue id source h = elim (Option-cases source.unique) [
    | inl e ↦ rw (e, normalize_source_storage) h
    | inr (c, e) ↦ rw (e, normalize_source_storage) h
  ]

  module _ (bytes : AreBytes s) where
    resolve-IsSolved :
        (id : ℕ) (source : List ℕ) (row : Row) (work budget : ℕ)
        → IsValue s id source
        → IsSolved s row
        → Ensures
            (λ (r : Row × ℕ). IsSolved s r.0)
            (resolve id source row (find_coefficient row.coefficients id) work budget)
    unfolding resolve
    resolve-IsSolved id source row work budget v h =
        elim (Option-cases (find_coefficient row.coefficients id)) [
          | inl e ↦ rw (e, resolve) (returned _ h)
          | inr (c, e) ↦
              rw (e, resolve)
                (Ensures_then (xor_scaled row.bytes source c work budget) _
                  (xor_scaled-Added row.bytes source c work budget)
                  (λ r p. returned _ (record {
                    factors = remove_coefficient-AreFactors row.coefficients id h.factors;
                    solved =
                        resolved-Solves s bytes row.coefficients row.bytes source id c r h.solved e
                          v p;
                  })))
        ]

    pub substitute-AreSolved :
        (id : ℕ) (source : List ℕ) (rows : List Row) (work budget : ℕ)
        → IsValue s id source
        → AreSolved s rows
        → Ensures (λ (r : List Row × ℕ). AreSolved s r.0) (substitute id source rows work budget)
    unfolding substitute
    substitute-AreSolved id source [] work budget v h = returned _ tt
    substitute-AreSolved id source (row ∷ rows) work budget v (p, h) =
        Ensures_then (resolve id source row (find_coefficient row.coefficients id) work budget) _
          (resolve-IsSolved id source row work budget v p)
          (λ r q.
            Ensures_then (substitute id source rows r.1 budget) _
              (substitute-AreSolved id source rows r.1 budget v h) (λ t u. returned _ (q, u)))

    abbrev pub Solved : List Row × List RecoveredSource → Type 0
    Solved r = AreSolved s r.0 × AreRecovered s r.1

    pub solve-Solved :
        (d : Decoder) (rows : List Row) (work budget : ℕ)
        → AreSolved s rows
        → Ensures Solved (solve d rows work budget)
    unfolding solve
    solve-Solved d rows work budget h =
        Ensures_then (reduce rows (budget - work)) _ (reduce-Reduced s bytes rows (budget - work) h)
          (λ r p.
            Ensures_then (canonical_recovered r.1 d.max_symbol_bytes) _
              (canonical_recovered-AreRecovered r.1 d.max_symbol_bytes p.1)
              (λ t u.
                Ensures_any (validate_recovered d.known t) _
                  (λ v e. returned _ (retain_open-AreSolved r.0 p.0, u))))
