-- ===== src/Fec.antt =====
-- src/fec.rs: repair of lost source symbols by linear equations over GF(256). The errors, the rows
-- and the checked sums that the parts share stand here, the parts in the modules below.
pub mod Xor
pub mod LowDigits
pub mod Field
pub mod Rows
pub mod Reduce
pub mod Memory
pub mod Encoder
pub mod Decoder
pub mod Operations
pub mod Solutions
pub mod RowSolutions
pub mod Factors
pub mod Soundness
pub mod Recovered
pub mod Coding
pub mod Faithful
pub mod Delivery
pub mod RepairDelivery
pub mod History
pub mod Single
mod Tests
use quicp.Prelude.{ℕ, ◌+◌, ◌*◌, ◌^◌, List, Result, ok, err, ltb, if◌then◌else◌}

pub data FecError : Type 0 where
  invalid_span invalid_symbol_size row_capacity memory_capacity work_budget contradictory_repair :
      FecError

-- `checked_add` and `checked_mul` on `usize`, followed by `ok_or(e)?`.
unfoldable pub checked_add : FecError → ℕ → ℕ → Result ℕ FecError
checked_add e a b = if ltb (a + b) (2 ^ 64) then ok (a + b) else err e

unfoldable pub checked_mul : FecError → ℕ → ℕ → Result ℕ FecError
checked_mul e a b = if ltb (a * b) (2 ^ 64) then ok (a * b) else err e
