-- ===== src/Fec/Operations.antt =====
-- `Decoder::add_source`, `add_repair` and `commit_recovered_precharged` of src/fec.rs. An operation
-- that fails returns only its error. The decoder stays as it was, and so does the budget after
-- `add_source` and `add_repair`, since the scratch reservation is given back when it is dropped.
use quicp.Prelude.{
  same_bytes, ℕ, zero, suc, ◌+◌, ◌-◌, Bool, true, false, not, ◌||◌, Option, none, some, List, [],
  ◌∷◌, ◌++◌, Result, ok, err, ◌>>=◌, ◌>>◌, fail_if, map_err, ltb, ◌==◌, if◌then◌else◌, length, take,
}
use quicp.Recovery.Budget.{MemoryBudget, reserve, release, grow, transfer, drop_charge}
use quicp.Wire.Source.{decode_source_padded, max_source_records}
use quicp.Fec.{
  FecError, invalid_span, invalid_symbol_size, row_capacity, memory_capacity, work_budget,
  contradictory_repair, checked_add,
}
use quicp.Fec.Field.{coefficient}
use quicp.Fec.Rows.{Row, xor_scaled, find_coefficient, remove_coefficient}
use quicp.Fec.Reduce.{reduce, sort_by_id, any_nonzero}
use quicp.Fec.Encoder.{max_repair_span, symbol_at}
use quicp.Fec.Memory.{
  row_storage_bytes, matrix_coefficient_count, matrix_clone_work, clone_rows_bounded,
  scratch_memory_bytes, as_memory, RecoveredSource, RecoveredBatch, empty_batch, new_batch,
  shrink_batch,
}
use quicp.Fec.Decoder.{
  Decoder, KnownSource, SourceBytes, SourceStatus, new, duplicate, find_known, source_status,
  normalize_source_storage, known_memory_delta, evicted_known_bytes, insert_known,
  try_reuse_oldest_source,
}

-- What a solved symbol must be: a padded source with the symbol's id. It is cut to the source.
unfoldable pub canonical_item :
    (max_symbol_bytes id : ℕ) (source : List ℕ) → Result RecoveredSource FecError
canonical_item max_symbol_bytes id source = do
  (decoded, consumed) ←
      map_err (λ e. contradictory_repair)
        (decode_source_padded source max_source_records max_symbol_bytes)
  fail_if (not (decoded.symbol_id == id)) contradictory_repair
  ok (record { symbol_id = id; bytes = take consumed source; retained_bytes = consumed })

unfoldable pub canonical_recovered :
    List (ℕ × List ℕ) → (max_symbol_bytes : ℕ) → Result (List RecoveredSource) FecError
unfolding canonical_item
canonical_recovered [] max_symbol_bytes = ok []
canonical_recovered ((id, source) ∷ recovered) max_symbol_bytes = do
  item ← canonical_item max_symbol_bytes id source
  items ← canonical_recovered recovered max_symbol_bytes
  ok (item ∷ items)

abbrev contradicts : Option KnownSource → List ℕ → Bool
contradicts none bytes = false
contradicts (some existing) bytes = not (same_bytes existing.bytes bytes)

unfoldable pub validate_recovered :
    List KnownSource → List RecoveredSource → Result (Unit {0}) FecError
unfolding find_known
validate_recovered known [] = ok tt
validate_recovered known (source ∷ recovered) = do
  fail_if (contradicts (find_known known source.symbol_id) source.bytes) contradictory_repair
  validate_recovered known recovered

-- `rows.retain(|row| row.coefficients.len() > 1)`
unfoldable pub retain_open : List Row → List Row
retain_open [] = []
retain_open (row ∷ rows) =
    let rest = retain_open rows in if ltb 1 (length row.coefficients) then row ∷ rest else rest

-- The coefficient of the source is taken out of a row.
unfoldable pub resolve :
    (id : ℕ) (source : List ℕ) → Row → Option ℕ → (work budget : ℕ) → Result (Row × ℕ) FecError
resolve id source row none work budget = ok (row, work)
resolve id source row (some factor) work budget = do
  (bytes, work') ← xor_scaled row.bytes source factor work budget
  ok (record row { coefficients = remove_coefficient row.coefficients id; bytes = bytes }, work')

unfoldable pub substitute :
    (id : ℕ) (source : List ℕ) → List Row → (work budget : ℕ) → Result (List Row × ℕ) FecError
unfolding resolve
substitute id source [] work budget = ok ([], work)
substitute id source (row ∷ rows) work budget = do
  (row', work1) ← resolve id source row (find_coefficient row.coefficients id) work budget
  (rows', work2) ← substitute id source rows work1 budget
  ok (row' ∷ rows', work2)

-- The rows after the elimination, and the symbols that it recovers.
unfoldable pub solve :
    Decoder → List Row → (work budget : ℕ) → Result (List Row × List RecoveredSource) FecError
unfolding reduce canonical_recovered validate_recovered retain_open
solve d rows work budget = do
  (reduced, found) ← reduce rows (budget - work)
  recovered ← canonical_recovered found d.max_symbol_bytes
  validate_recovered d.known recovered
  ok (retain_open reduced, recovered)

-- A source while there are no rows.
unfoldable pub add_first :
    Decoder → (id : ℕ) → SourceBytes → Result (Decoder × RecoveredBatch) FecError
unfolding insert_known normalize_source_storage known_memory_delta
add_first d id source = do
  (scratch, budget1) ← map_err as_memory (reserve d.memory_budget (length source.bytes))
  let normal = normalize_source_storage id source
  let delta = known_memory_delta d normal.retained_bytes
  (grown, budget2) ← map_err as_memory (grow budget1 scratch delta.0)
  left ← map_err as_memory (transfer grown delta.0)
  let inserted = insert_known (record d { memory_budget = budget2 }) normal delta.1
  ok (record inserted { memory_budget = drop_charge inserted.memory_budget left }, empty_batch)

-- The end of `add_source`: the storage of the rows and of the source is charged and they are kept.
-- `capacity` is that of the vector of the rows.
unfoldable pub commit_source :
    Decoder
    → (id : ℕ) → SourceBytes
    → (open_rows : List Row) (recovered : List RecoveredSource) → (capacity scratch : ℕ)
    → MemoryBudget
    → Result (Decoder × RecoveredBatch) FecError
unfolding insert_known normalize_source_storage known_memory_delta row_storage_bytes new_batch
    shrink_batch checked_add
commit_source d id source open_rows recovered capacity scratch budget1 = do
  next_row_bytes ← row_storage_bytes d.layout capacity open_rows
  let normal = normalize_source_storage id source
  let delta = known_memory_delta d normal.retained_bytes
  reservation ← checked_add memory_capacity delta.0 (next_row_bytes - d.row_bytes)
  (batch, budget2) ← new_batch d.layout budget1 recovered scratch reservation
  let inserted =
      insert_known
        (record d {
          rows = open_rows;
          row_bytes = next_row_bytes;
          memory_budget = release budget2 (d.row_bytes - next_row_bytes);
        })
        normal delta.1
  (shrunk, budget3) ← shrink_batch inserted.memory_budget batch
  ok (record inserted { memory_budget = budget3 }, shrunk)

-- A source that may resolve rows.
unfoldable pub add_resolving :
    Decoder → (id : ℕ) → SourceBytes → (budget : ℕ) → Result (Decoder × RecoveredBatch) FecError
unfolding matrix_clone_work scratch_memory_bytes clone_rows_bounded substitute solve commit_source
add_resolving d id source budget = do
  work ← matrix_clone_work d.rows 0
  fail_if (ltb budget work) work_budget
  scratch_bytes ← scratch_memory_bytes d.layout d.rows d.max_symbol_bytes 0 0 (length source.bytes)
  (scratch, budget1) ← map_err as_memory (reserve d.memory_budget scratch_bytes)
  (copies, capacity) ← clone_rows_bounded d.rows 0 0 d.max_symbol_bytes
  (rows, work') ← substitute id source.bytes copies work budget
  (open_rows, recovered) ← solve d rows work' budget
  commit_source d id source open_rows recovered capacity scratch budget1

abbrev pub is_shared : SourceBytes → Bool
is_shared source = elim source.unique [ none ↦ true | some c ↦ false ]

abbrev pub or_add_first :
    Option Decoder → Decoder → (id : ℕ) → SourceBytes → Result (Decoder × RecoveredBatch) FecError
or_add_first (some reused) d id source = ok (reused, empty_batch)
or_add_first none d id source = add_first d id source

abbrev pub add_new :
    Decoder
    → SourceStatus
    → (id : ℕ) → SourceBytes
    → (reusable : Option ℕ) (budget : ℕ) → Result (Decoder × RecoveredBatch) FecError
add_new d duplicate id source reusable budget = ok (d, empty_batch)
add_new d new id source reusable budget =
    if length d.rows == 0
    then or_add_first
        (if is_shared source then try_reuse_oldest_source d id source.bytes reusable else none) d id
        source
    else add_resolving d id source budget

unfoldable pub add_source :
    Decoder
    → (symbol_id : ℕ) → SourceBytes
    → (reusable : Option ℕ) (budget : ℕ) → Result (Decoder × RecoveredBatch) FecError
unfolding source_status add_first add_resolving try_reuse_oldest_source
add_source d id source reusable budget = do
  fail_if (length source.bytes == 0 || ltb d.max_symbol_bytes (length source.bytes))
      invalid_symbol_size
  status ← source_status d id source.bytes
  add_new d status id source reusable budget

-- One symbol of the span: a known source is taken out of the coded bytes, and any other gets a
-- coefficient.
unfoldable pub span_turn :
    Option KnownSource
    → (id value : ℕ) (coefficients : List (ℕ × ℕ)) (bytes : List ℕ) → (work budget : ℕ)
    → Result (List (ℕ × ℕ) × List ℕ × ℕ) FecError
span_turn none id value coefficients bytes work budget =
    ok (coefficients ++ (id, value) ∷ [], bytes, work)
span_turn (some source) id value coefficients bytes work budget = do
  (bytes', work') ← xor_scaled bytes source.bytes value work budget
  ok (coefficients, bytes', work')

-- `for ordinal in 0..u32::from(span)`
unfoldable pub span_loop :
    List KnownSource
    → (first repair_id seed left ordinal : ℕ) (coefficients : List (ℕ × ℕ))
    → (bytes : List ℕ) (work budget : ℕ) → Result (List (ℕ × ℕ) × List ℕ × ℕ) FecError
unfolding span_turn find_known
span_loop known first repair_id seed zero ordinal coefficients bytes work budget =
    ok (coefficients, bytes, work)
span_loop known first repair_id seed (suc left) ordinal coefficients bytes work budget = do
  let id : ℕ = symbol_at first ordinal
  (coefficients', bytes', work') ←
      span_turn (find_known known id) id (coefficient seed repair_id id) coefficients bytes work
        budget
  span_loop known first repair_id seed left (ordinal + 1) coefficients' bytes' work' budget

-- A repair with a symbol that is not known.
unfoldable pub add_row :
    Decoder
    → (span : ℕ) → Row
    → (scratch work budget : ℕ) → MemoryBudget
    → Result (Decoder × RecoveredBatch) FecError
unfolding clone_rows_bounded solve row_storage_bytes new_batch shrink_batch
add_row d span row scratch work budget budget1 = do
  (copies, capacity) ← clone_rows_bounded d.rows 1 span d.max_symbol_bytes
  (open_rows, recovered) ← solve d (copies ++ row ∷ []) work budget
  next_row_bytes ← row_storage_bytes d.layout capacity open_rows
  (batch, budget2) ← new_batch d.layout budget1 recovered scratch (next_row_bytes - d.row_bytes)
  let released = release budget2 (d.row_bytes - next_row_bytes)
  (shrunk, budget3) ← shrink_batch released batch
  ok (record d { rows = open_rows; row_bytes = next_row_bytes; memory_budget = budget3 }, shrunk)

-- `work`, and what the copy of the coded bytes and the span add to it.
abbrev pub repair_work : List Row → (coded : List ℕ) (span : ℕ) → Result ℕ FecError
repair_work rows coded span = do
  cloned ← matrix_clone_work rows 0
  with_coded ← checked_add work_budget cloned (length coded)
  checked_add work_budget with_coded span

abbrev pub finish_repair :
    Decoder
    → (span capacity : ℕ) → (coefficients : List (ℕ × ℕ)) (bytes : List ℕ)
    → (scratch work budget : ℕ) → MemoryBudget
    → Result (Decoder × RecoveredBatch) FecError
finish_repair d span capacity [] bytes scratch work budget budget1 =
    if any_nonzero bytes then err contradictory_repair else ok (d, empty_batch)
finish_repair d span capacity (c ∷ cs) bytes scratch work budget budget1 =
    add_row d span
      (record {
        coefficients = c ∷ cs;
        coefficient_capacity = capacity;
        bytes = bytes;
        byte_capacity = d.max_symbol_bytes;
      })
      scratch work budget budget1

unfoldable pub add_repair :
    Decoder
    → (first_symbol_id span repair_id seed : ℕ) (coded : List ℕ) (budget : ℕ)
    → Result (Decoder × RecoveredBatch) FecError
unfolding matrix_clone_work checked_add scratch_memory_bytes matrix_coefficient_count span_loop
    sort_by_id add_row
add_repair d first span repair_id seed coded budget = do
  fail_if (span == 0 || ltb max_repair_span span) invalid_span
  fail_if (length coded == 0 || ltb d.max_symbol_bytes (length coded)) invalid_symbol_size
  fail_if (length d.rows == d.max_rows) row_capacity
  work ← repair_work d.rows coded span
  fail_if (ltb budget work) work_budget
  scratch_bytes ← scratch_memory_bytes d.layout d.rows d.max_symbol_bytes 1 span 0
  (scratch, budget1) ← map_err as_memory (reserve d.memory_budget scratch_bytes)
  capacity ← matrix_coefficient_count d.rows span
  (coefficients, bytes, work') ← span_loop d.known first repair_id seed span 0 [] coded work budget
  finish_repair d span capacity (sort_by_id coefficients) bytes scratch work' budget budget1

abbrev pub commit_known :
    Option KnownSource
    → Decoder
    → (id : ℕ) → SourceBytes
    → (charge : ℕ) → Result (Decoder × ℕ) FecError
commit_known (some existing) d id source charge =
    if same_bytes existing.bytes source.bytes then ok (d, charge) else err contradictory_repair
commit_known none d id source charge = do
  let normal = normalize_source_storage id source
  (grown, budget1) ← map_err as_memory (grow d.memory_budget charge normal.retained_bytes)
  left ← map_err as_memory (transfer grown normal.retained_bytes)
  ok (insert_known (record d { memory_budget = budget1 }) normal (evicted_known_bytes d), left)

-- `commit_recovered_precharged`: the decoder and what is left of the charge, which the call drops. On an
-- error the code drops, and so releases, the whole charge; the error does not show that budget.
-- `belongs` is whether the charge is on the decoder's budget.
unfoldable pub commit_recovered_precharged :
    Decoder
    → (symbol_id : ℕ) → SourceBytes
    → (charge : ℕ) (belongs : Bool) → Result (Decoder × ℕ) FecError
unfolding find_known insert_known normalize_source_storage evicted_known_bytes
commit_recovered_precharged d id source charge belongs = do
  fail_if (length source.bytes == 0 || ltb d.max_symbol_bytes (length source.bytes))
      invalid_symbol_size
  fail_if (not belongs || ltb charge (length source.bytes)) memory_capacity
  commit_known (find_known d.known id) d id source charge
