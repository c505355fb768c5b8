-- ===== src/Fec/Memory.antt =====
-- What a decoder of src/fec.rs charges to the endpoint's memory budget: the sizes of its matrix and
-- the scratch space of an operation. `Vec::with_capacity` is taken to reserve what it is asked for,
-- which `bounded_vec` checks.
use quicp.Prelude.{
  ℕ, ◌-◌, List, [], ◌∷◌, Result, ok, ◌>>=◌, ◌>>◌, map_err, ok_or, length, fail_if, ltb,
}
use quicp.Recovery.{RecoveryError}
use quicp.Recovery.Budget.{MemoryBudget, grow, shrink, transfer, split}
use quicp.Fec.{FecError, memory_capacity, work_budget, checked_add, checked_mul}
use quicp.Fec.Rows.{Row}

-- `size_of` of `Row`, `(u32, u8)`, `(u32, Bytes)` and `RecoveredSource`, which the compiler fixes.
pub record Layout : Type 0 where
  pub row : ℕ
  pub coefficient : ℕ
  pub pair : ℕ
  pub recovered : ℕ

unfoldable pub row_storage_sum : Layout → List Row → ℕ → Result ℕ FecError
unfolding checked_add checked_mul
row_storage_sum layout [] bytes = ok bytes
row_storage_sum layout (row ∷ rows) bytes = do
  with_bytes ← checked_add memory_capacity bytes row.byte_capacity
  coefficients ← checked_mul memory_capacity row.coefficient_capacity layout.coefficient
  with_row ← checked_add memory_capacity with_bytes coefficients
  row_storage_sum layout rows with_row

-- `capacity` is that of the vector of the rows.
unfoldable pub row_storage_bytes : Layout → (capacity : ℕ) → List Row → Result ℕ FecError
unfolding row_storage_sum
row_storage_bytes layout capacity rows = do
  bytes ← checked_mul memory_capacity capacity layout.row
  row_storage_sum layout rows bytes

unfoldable pub matrix_coefficient_count : List Row → (additional : ℕ) → Result ℕ FecError
unfolding checked_add
matrix_coefficient_count [] count = ok count
matrix_coefficient_count (row ∷ rows) count = do
  more ← checked_add memory_capacity count (length row.coefficients)
  matrix_coefficient_count rows more

unfoldable pub matrix_clone_work : List Row → (work : ℕ) → Result ℕ FecError
unfolding checked_add
matrix_clone_work [] work = ok work
matrix_clone_work (row ∷ rows) work = do
  with_coefficients ← checked_add work_budget work (length row.coefficients)
  with_bytes ← checked_add work_budget with_coefficients (length row.bytes)
  matrix_clone_work rows with_bytes

abbrev pub clone_rows : (coefficient_capacity byte_capacity : ℕ) → List Row → List Row
clone_rows c b [] = []
clone_rows c b (row ∷ rows) =
    record {
      coefficients = row.coefficients;
      coefficient_capacity = c;
      bytes = row.bytes;
      byte_capacity = b;
    }
    ∷ clone_rows c b rows

-- The copies, and the capacity of their vector.
unfoldable pub clone_rows_bounded :
    List Row
    → (additional_rows additional_coefficients max_symbol_bytes : ℕ)
    → Result (List Row × ℕ) FecError
unfolding matrix_coefficient_count checked_add
clone_rows_bounded rows additional_rows additional_coefficients max_symbol_bytes = do
  coefficient_capacity ← matrix_coefficient_count rows additional_coefficients
  capacity ← checked_add memory_capacity (length rows) additional_rows
  ok (clone_rows coefficient_capacity max_symbol_bytes rows, capacity)

unfoldable pub scratch_memory_bytes :
    Layout
    → List Row
    → (max_symbol_bytes additional_rows additional_coefficients source_bytes : ℕ)
    → Result ℕ FecError
unfolding checked_add checked_mul matrix_coefficient_count
scratch_memory_bytes layout matrix max_symbol_bytes additional_rows additional_coefficients
      source_bytes =
    do
      rows ← checked_add memory_capacity (length matrix) additional_rows
      columns ← matrix_coefficient_count matrix additional_coefficients
      coefficient_bytes ← checked_mul memory_capacity columns layout.coefficient
      row_head ← checked_add memory_capacity layout.row max_symbol_bytes
      matrix_row_bytes ← checked_add memory_capacity row_head coefficient_bytes
      matrix_bytes ← checked_mul memory_capacity rows matrix_row_bytes
      symbol_bytes ← checked_mul memory_capacity max_symbol_bytes 2
      with_pair ← checked_add memory_capacity symbol_bytes layout.pair
      recovered_row ← checked_add memory_capacity with_pair layout.recovered
      recovered_bytes ← checked_mul memory_capacity rows recovered_row
      with_pivot ← checked_add memory_capacity matrix_bytes matrix_row_bytes
      with_recovered ← checked_add memory_capacity with_pivot recovered_bytes
      checked_add memory_capacity with_recovered source_bytes

abbrev pub as_memory : RecoveryError → FecError
as_memory e = memory_capacity

pub record RecoveredSource : Type 0 where
  pub symbol_id : ℕ
  pub bytes : List ℕ
  pub retained_bytes : ℕ

-- The scratch reservation is the charge's byte count.
pub record RecoveredBatch : Type 0 where
  pub items : List RecoveredSource
  pub retained_bytes : ℕ
  pub scratch : ℕ

-- `RecoveredBatch::empty`, whose charge of no bytes leaves the budget as it is.
abbrev pub empty_batch : RecoveredBatch
empty_batch = record { items = []; retained_bytes = 0; scratch = 0 }

unfoldable pub retained_sum : List RecoveredSource → (bytes : ℕ) → Result ℕ FecError
unfolding checked_add
retained_sum [] bytes = ok bytes
retained_sum (source ∷ items) bytes = do
  more ← checked_add memory_capacity bytes source.retained_bytes
  retained_sum items more

-- `RecoveredBatch::new`. The vector of the items has the capacity of their count, by
-- `canonical_recovered`. A transfer that the code expects to succeed is an error where it does not.
unfoldable pub new_batch :
    Layout
    → MemoryBudget
    → List RecoveredSource
    → (scratch committed_bytes : ℕ) → Result (RecoveredBatch × MemoryBudget) FecError
unfolding retained_sum checked_mul checked_add
new_batch layout budget items scratch committed_bytes = do
  item_bytes ← checked_mul memory_capacity (length items) layout.recovered
  retained_bytes ← retained_sum items item_bytes
  required ← checked_add memory_capacity retained_bytes committed_bytes
  (grown, budget') ← map_err as_memory (grow budget scratch required)
  left ← map_err as_memory (transfer grown committed_bytes)
  ok (record { items = items; retained_bytes = retained_bytes; scratch = left }, budget')

-- `shrink_after_state_transition`. The assertion of `RecoveryCharge::shrink` is an error where it
-- fails.
unfoldable pub shrink_batch :
    MemoryBudget → RecoveredBatch → Result (RecoveredBatch × MemoryBudget) FecError
shrink_batch budget batch = do
  (left, budget') ← ok_or (shrink budget batch.scratch batch.retained_bytes) memory_capacity
  ok (record batch { scratch = left }, budget')

-- `reserve_dispatch`
unfoldable pub reserve_dispatch :
    MemoryBudget → RecoveredBatch → (bytes : ℕ) → Result (RecoveredBatch × MemoryBudget) FecError
unfolding checked_add
reserve_dispatch budget batch bytes = do
  required ← checked_add memory_capacity batch.retained_bytes bytes
  (grown, budget') ← map_err as_memory (grow budget batch.scratch required)
  ok (record batch { scratch = grown }, budget')

-- `take_retained_charge`: the batch and the charge that is split off. The budget does not change.
unfoldable pub take_retained_charge :
    RecoveredBatch → (bytes : ℕ) → Result (RecoveredBatch × ℕ) FecError
take_retained_charge batch bytes = do
  fail_if (ltb batch.retained_bytes bytes) memory_capacity
  (left, part) ← map_err as_memory (split batch.scratch bytes)
  ok (record batch { retained_bytes = batch.retained_bytes - bytes; scratch = left }, part)

-- `take_dispatch_charge`
unfoldable pub take_dispatch_charge :
    RecoveredBatch → (bytes : ℕ) → Result (RecoveredBatch × ℕ) FecError
take_dispatch_charge batch bytes = do
  (left, part) ← map_err as_memory (split batch.scratch bytes)
  ok (record batch { scratch = left }, part)
