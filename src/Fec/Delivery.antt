-- ===== src/Fec/Delivery.antt =====
-- The decoder of src/fec.rs when a source is handed to it.
use quicp.Prelude.{
  ℕ, ◌-◌, ◌≡◌, refl, sym, ◌∙◌, ◌||◌, Option, none, some, List, [], ◌∷◌, ◌++◌, map_err, ok_or,
  fail_if, ltb, ◌==◌, if◌then◌else◌, if_of_both, length, Ensures, returned, Ensures_then,
  Ensures_any, arith,
}
use mathlib.Core.Path.{subst}
use quicp.Recovery.Budget.{MemoryBudget, reserve, grow, transfer, release, shrink}
use quicp.Fec.{memory_capacity, work_budget, invalid_symbol_size, checked_add, checked_mul}
use quicp.Fec.Rows.{Row}
use quicp.Fec.Memory.{
  Layout, RecoveredSource, RecoveredBatch, new_batch, shrink_batch, clone_rows_bounded,
  matrix_clone_work, scratch_memory_bytes, row_storage_bytes, as_memory, retained_sum,
}
use quicp.Fec.Decoder.{
  Decoder, KnownSource, SourceBytes, SourceStatus, new, duplicate, source_status,
  normalize_source_storage, known_memory_delta, insert_known, reuse_oldest, try_reuse_oldest_source,
}
use quicp.Fec.Operations.{
  substitute, solve, commit_source, add_first, add_resolving, is_shared, or_add_first, add_new,
  add_source,
}
use quicp.Fec.Solutions.{Symbols, AreBytes}
use quicp.Fec.Soundness.{AreSolved, IsValue}
use quicp.Fec.Coding.{AreKnown}
use quicp.Fec.Faithful.{
  IsFaithful, AreRecovered, clone_rows_bounded-AreSolved, insert_known-AreKnown, insert_known-rows,
  AreKnown-append, normalize_source_storage-IsValue, substitute-AreSolved, solve-Solved,
}

-- The items of a batch are the batch's argument.
pub new_batch-items :
    (layout : Layout) (budget : MemoryBudget) (items : List RecoveredSource) (scratch committed : ℕ)
    → Ensures
        (λ (r : RecoveredBatch × MemoryBudget). r.0.items ≡ items)
        (new_batch layout budget items scratch committed)
unfolding new_batch
new_batch-items layout budget items scratch committed =
    Ensures_any (checked_mul memory_capacity (length items) layout.recovered) _ (λ a _.
      Ensures_any (retained_sum items a) _ (λ b _.
        Ensures_any (checked_add memory_capacity b committed) _ (λ c _.
          Ensures_any (map_err as_memory (grow budget scratch c)) _ (λ g _.
            Ensures_any (map_err as_memory (transfer g.0 committed)) _ (λ t _. returned _ refl)))))

pub shrink_batch-items :
    (budget : MemoryBudget) (batch : RecoveredBatch)
    → Ensures
        (λ (r : RecoveredBatch × MemoryBudget). r.0.items ≡ batch.items)
        (shrink_batch budget batch)
unfolding shrink_batch
shrink_batch-items budget batch =
    Ensures_any (ok_or (shrink budget batch.scratch batch.retained_bytes) memory_capacity) _
      (λ r _. returned _ refl)

module _ (s : Symbols) (bytes : AreBytes s) where
  -- The decoder stays true of the symbols, and what it recovers is true of them.
  abbrev pub Delivers : Decoder × RecoveredBatch → Type 0
  Delivers r = IsFaithful s r.0 × AreRecovered s r.1.items

  pub recovered_items :
      {items items' : List RecoveredSource}
      → items' ≡ items
      → AreRecovered s items
      → AreRecovered s items'
  recovered_items e h = subst (AreRecovered s) (sym e) h

  add_first-Delivers :
      (d : Decoder) (id : ℕ) (source : SourceBytes)
      → IsFaithful s d
      → IsValue s id source.bytes
      → Ensures Delivers (add_first d id source)
  unfolding add_first
  add_first-Delivers d id source f v =
      let normal : KnownSource = normalize_source_storage id source in
      let delta : ℕ × ℕ = known_memory_delta d normal.retained_bytes in
      Ensures_any (map_err as_memory (reserve d.memory_budget (length source.bytes))) _ (λ r _.
        Ensures_any (map_err as_memory (grow r.1 r.0 delta.0)) _ (λ g _.
          Ensures_any (map_err as_memory (transfer g.0 delta.0)) _ (λ t _. returned _ (
            record {
              known_values =
                  insert_known-AreKnown s (record d { memory_budget = g.1 }) normal delta.1
                    f.known_values (normalize_source_storage-IsValue s id source v);
              solved_rows =
                  insert_known-rows s (record d { memory_budget = g.1 }) normal delta.1
                    f.solved_rows;
            },
            tt,
          ))))

  commit_source-Delivers :
      (d : Decoder) (id : ℕ) (source : SourceBytes) (open_rows : List Row)
      (recovered : List RecoveredSource) (capacity scratch : ℕ) (budget1 : MemoryBudget)
      → IsFaithful s d
      → IsValue s id source.bytes
      → AreSolved s open_rows
      → AreRecovered s recovered
      → Ensures Delivers (commit_source d id source open_rows recovered capacity scratch budget1)
  unfolding commit_source
  commit_source-Delivers d id source open_rows recovered capacity scratch budget1 f v h z =
      let normal : KnownSource = normalize_source_storage id source in
      let delta : ℕ × ℕ = known_memory_delta d normal.retained_bytes in
      Ensures_any (row_storage_bytes d.layout capacity open_rows) _ (λ next _.
        Ensures_any (checked_add memory_capacity delta.0 (next - d.row_bytes)) _ (λ reservation _.
          Ensures_then (new_batch d.layout budget1 recovered scratch reservation) _
            (new_batch-items d.layout budget1 recovered scratch reservation)
            (λ b i.
              let placed : Decoder = record d {
                rows = open_rows;
                row_bytes = next;
                memory_budget = release b.1 (d.row_bytes - next);
              } in
              let inserted : Decoder = insert_known placed normal delta.1 in
              Ensures_then (shrink_batch inserted.memory_budget b.0) _
                (shrink_batch-items inserted.memory_budget b.0)
                (λ w j. returned _ (
                  record {
                    known_values =
                        insert_known-AreKnown s placed normal delta.1 f.known_values
                          (normalize_source_storage-IsValue s id source v);
                    solved_rows = insert_known-rows s placed normal delta.1 h;
                  },
                  recovered_items (j ∙ i) z,
                )))))

  add_resolving-Delivers :
      (d : Decoder) (id : ℕ) (source : SourceBytes) (budget : ℕ)
      → IsFaithful s d
      → IsValue s id source.bytes
      → Ensures Delivers (add_resolving d id source budget)
  unfolding add_resolving
  add_resolving-Delivers d id source budget f v =
      Ensures_any (matrix_clone_work d.rows 0) _ (λ work _.
        Ensures_any (fail_if (ltb budget work) work_budget) _ (λ _ _.
          Ensures_any
            (scratch_memory_bytes d.layout d.rows d.max_symbol_bytes 0 0 (length source.bytes)) _
            (λ scratch_bytes _.
              Ensures_any (map_err as_memory (reserve d.memory_budget scratch_bytes)) _ (λ r _.
                Ensures_then (clone_rows_bounded d.rows 0 0 d.max_symbol_bytes) _
                  (clone_rows_bounded-AreSolved s d.rows 0 0 d.max_symbol_bytes f.solved_rows)
                  (λ copies p.
                    Ensures_then (substitute id source.bytes copies.0 work budget) _
                      (substitute-AreSolved s bytes id source.bytes copies.0 work budget v p)
                      (λ t q.
                        Ensures_then (solve d t.0 t.1 budget) _
                          (solve-Solved s bytes d t.0 t.1 budget q)
                          (λ u z.
                            commit_source-Delivers d id source u.0 u.1 copies.1 r.0 r.1 f v z.0
                              z.1)))))))

  reuse_oldest-IsFaithful :
      (d : Decoder) (known : List KnownSource) (id : ℕ) (source : List ℕ) (reusable : Option ℕ)
      (d' : Decoder)
      → AreKnown s known
      → IsFaithful s d
      → IsValue s id source
      → reuse_oldest d known id source reusable ≡ some d'
      → IsFaithful s d'
  unfolding reuse_oldest
  reuse_oldest-IsFaithful d [] id source reusable d' h f v e = absurd (cc)
  reuse_oldest-IsFaithful d (oldest ∷ known) id source none d' h f v e = absurd (cc)
  reuse_oldest-IsFaithful d (oldest ∷ known) id source (some capacity) d' (p, h) f v e =
      let kept : d'.known
          ≡ known ++ record { symbol_id = id; bytes = source; retained_bytes = capacity } ∷ [] =
        ground (arith, e) in
      let same : d'.rows ≡ d.rows = ground (arith, e) in
      record {
        known_values = subst (AreKnown s) (sym kept) (
            AreKnown-append s known
              (record { symbol_id = id; bytes = source; retained_bytes = capacity }) h v);
        solved_rows = subst (AreSolved s) (sym same) f.solved_rows;
      }

  try_reuse-IsFaithful :
      (d : Decoder) (id : ℕ) (source : List ℕ) (reusable : Option ℕ) (d' : Decoder)
      → IsFaithful s d
      → IsValue s id source
      → try_reuse_oldest_source d id source reusable ≡ some d'
      → IsFaithful s d'
  unfolding try_reuse_oldest_source
  try_reuse-IsFaithful d id source reusable d' f v e =
      reuse_oldest-IsFaithful d d.known id source reusable d' f.known_values f v (ground arith)

  or_add_first-Delivers :
      (reused : Option Decoder) (d : Decoder) (id : ℕ) (source : SourceBytes)
      → ((d' : Decoder) → reused ≡ some d' → IsFaithful s d')
      → IsFaithful s d
      → IsValue s id source.bytes
      → Ensures Delivers (or_add_first reused d id source)
  or_add_first-Delivers none d id source r f v = add_first-Delivers d id source f v
  or_add_first-Delivers (some d') d id source r f v = returned _ (r d' refl, tt)

  add_new-Delivers :
      (d : Decoder) (status : SourceStatus) (id : ℕ) (source : SourceBytes) (reusable : Option ℕ)
      (budget : ℕ)
      → IsFaithful s d
      → IsValue s id source.bytes
      → Ensures Delivers (add_new d status id source reusable budget)
  add_new-Delivers d duplicate id source reusable budget f v = returned _ (f, tt)
  add_new-Delivers d new id source reusable budget f v =
      if_of_both (Ensures Delivers) (length d.rows == 0)
        (λ _.
          or_add_first-Delivers
            (if is_shared source then try_reuse_oldest_source d id source.bytes reusable else none)
            d id source
            (λ d' e. try_reuse-IsFaithful d id source.bytes reusable d' f v (ground arith)) f v)
        (λ _. add_resolving-Delivers d id source budget f v)

  -- The symbols are bytes, the decoder holds what is true of them, and the source is the symbol with
  -- its id. Then `add_source`, if it succeeds, leaves a decoder that holds what is true of them, and
  -- every source that it recovers is, up to zeros at the end, the symbol with its id.
  pub add_source-Delivers :
      (d : Decoder) (id : ℕ) (source : SourceBytes) (reusable : Option ℕ) (budget : ℕ)
      → IsFaithful s d
      → IsValue s id source.bytes
      → Ensures Delivers (add_source d id source reusable budget)
  unfolding add_source
  add_source-Delivers d id source reusable budget f v =
      Ensures_any
        (fail_if (length source.bytes == 0 || ltb d.max_symbol_bytes (length source.bytes))
          invalid_symbol_size)
        _
        (λ _ _.
          Ensures_any (source_status d id source.bytes) _
            (λ status _. add_new-Delivers d status id source reusable budget f v))
